-- ===== src/Risk/Engine/Lookup.antt =====
-- lookupChain of internal/risk/engine.go finds only chains of the map.
use hustmirrors_waf_backend.Base.{
  ◌≡◌, inl, inr, String, some, [], ◌∷◌, str_eq, All, arith, Bool-cases, Option-cases, ◌∙◌,
}
use mathlib.Core.Path.{subst}
use hustmirrors_waf_backend.Platform.{Platform, equal_fold}
use hustmirrors_waf_backend.Risk.Types.{Chain, ChainMap}
use hustmirrors_waf_backend.Risk.Engine.{lookup_exact, lookup_fold, lookup_chain}

module _ (g : Platform) where
  module _ (P : String × Chain → Type 0) where
    lookup_exact-All :
        (name : String) (chains : ChainMap) {c : Chain}
        → All P chains
        → lookup_exact name chains ≡ some c
        → (k : String) × P (k, c)
    unfolding lookup_exact
    lookup_exact-All name [] h e = cc
    lookup_exact-All name ((k, d) ∷ rest) (h, hs) e = elim (Bool-cases (str_eq k name)) [
      | inl t ↦ (k, subst (λ x. P (k, x)) (ground arith) h)
      | inr t ↦ lookup_exact-All name rest hs (ground arith)
    ]

    lookup_fold-All :
        (name : String) (chains : ChainMap) {c : Chain}
        → All P chains
        → lookup_fold g name chains ≡ some c
        → (k : String) × P (k, c)
    unfolding lookup_fold
    lookup_fold-All name [] h e = cc
    lookup_fold-All name ((k, d) ∷ rest) (h, hs) e = elim (Bool-cases (equal_fold g k name)) [
      | inl t ↦ (k, subst (λ x. P (k, x)) (ground arith) h)
      | inr t ↦ lookup_fold-All name rest hs (ground arith)
    ]

    -- What holds of every chain of the map holds of a chain that is looked up.
    pub lookup_chain-All :
        (chains : ChainMap) (name : String) {c : Chain}
        → All P chains
        → lookup_chain g chains name ≡ some c
        → (k : String) × P (k, c)
    unfolding lookup_chain
    lookup_chain-All chains name {c} h e = elim (Option-cases (lookup_exact name chains)) [
      | inl missed ↦ lookup_fold-All name chains h (rw (missed, lookup_chain) at e)
      | inr (d, found) ↦ lookup_exact-All name chains h (found ∙ (rw (found, lookup_chain) at e))
    ]
