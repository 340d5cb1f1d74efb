-- ===== src/Config/Validate/Fuel.antt =====
-- The fuel of the search for cycles in internal/config/validate.go is enough.
use hustmirrors_waf_backend.Base.{
  ℕ, zero, suc, ◌+◌, ◌≤◌, ◌<◌, ◌≡◌, refl, sym, ap, ◌∙◌, inl, inr, String, true, false, Option, none,
  some, List, [], ◌∷◌, ◌++◌, All, str_eq, eq_iff, length, if◌then◌else◌, Bool-cases, Option-cases,
  arith, map_get, map_put, map_get-map_put, map_get-map_put_same,
}
use hustmirrors_waf_backend.Platform.{Platform, to_upper}
use hustmirrors_waf_backend.Risk.Compile.{RuleConfig, ChainConfig}
use hustmirrors_waf_backend.Config.Validate.{Problem, out_of_fuel}
use hustmirrors_waf_backend.Config.Validate.Cycles.{
  Color, gray, black, Colors, Search, is_jump, after_rule, visit_rules, leave_chain, normalise,
  visit_white, visit_chain, visit_all, detect_cycles,
}

-- 1 for a name without a colour.
white_of : Option Color → ℕ
white_of none = 1
white_of (some c) = 0

-- The chains that are still white.
white : List (String × ChainConfig) → Colors → ℕ
white [] colors = 0
white ((k, c) ∷ cs) colors = white_of (map_get k colors) + white cs colors

white_of-put :
    (k i : String) (c : Color) (colors : Colors)
    → white_of (map_get i (map_put k c colors)) ≤ white_of (map_get i colors)
unfolding white_of
white_of-put k i c colors = elim (Bool-cases (str_eq k i)) [
  | inl e ↦
      let same : i ≡ k = sym ((eq_iff k i).0 e) in
      let found : map_get i (map_put k c colors) ≡ some c =
        ap (λ x. map_get x (map_put k c colors)) same ∙ map_get-map_put_same k c colors in
      rw found (omega arith)
  | inr e ↦ rw (map_get-map_put k i c colors e) (omega arith)
]

white-put :
    (cs : List (String × ChainConfig)) (k : String) (c : Color) (colors : Colors)
    → white cs (map_put k c colors) ≤ white cs colors
unfolding white
white-put [] k c colors = omega arith
white-put ((i, d) ∷ cs) k c colors =
    omega (arith, white_of-put k i c colors, white-put cs k c colors)

white_falls :
    (cs : List (String × ChainConfig)) (k : String) (c : Color) (colors : Colors) (d : ChainConfig)
    → map_get k colors ≡ none
    → map_get k cs ≡ some d
    → white cs (map_put k c colors) < white cs colors
unfolding white white_of map_get
white_falls [] k c colors d n f = cc
white_falls ((i, e) ∷ cs) k c colors d n f = elim (Bool-cases (str_eq i k)) [
  | inl t ↦
      let same : i ≡ k = (eq_iff i k).0 t in
      let before : white_of (map_get i colors) ≡ 1 =
        ap (λ x. white_of (map_get x colors)) same ∙ ap white_of n in
      let after : white_of (map_get i (map_put k c colors)) ≡ 0 =
        ap (λ x. white_of (map_get x (map_put k c colors))) same
        ∙ ap white_of (map_get-map_put_same k c colors) in
      omega (arith, before, after, white-put cs k c colors)
  | inr t ↦ omega (arith, white_of-put k i c colors, white_falls cs k c colors d n (rw t at f))
]

-- A search that has not run out of fuel, and has taken no colour off.
abbrev IsFuelled : List (String × ChainConfig) → Colors → Search → Type 0
IsFuelled chains colors (found, colors', ps) =
    (white chains colors' ≤ white chains colors) × All (λ p. ¬ (p ≡ out_of_fuel)) ps

All-append : (P : Problem → Type 0) (xs ys : List Problem) → All P xs → All P ys → All P (xs ++ ys)
All-append P [] ys a b = b
All-append P (x ∷ xs) ys (p, a) b = (p, All-append P xs ys a b)

after_rule-IsFuelled :
    (chains : List (String × ChainConfig)) (colors : Colors) (s : Search) (rest : Colors → Search)
    → IsFuelled chains colors s
    → IsFuelled chains s.1 (rest s.1)
    → IsFuelled chains colors (after_rule s rest)
unfolding after_rule
after_rule-IsFuelled chains colors (true, colors', ps) rest a b = a
after_rule-IsFuelled chains colors (false, colors', ps) rest (w, a) (w', b) =
    (omega (arith, w, w'), All-append (λ p. ¬ (p ≡ out_of_fuel)) ps (rest colors').2 a b)

visit_rules-IsFuelled :
    (chains : List (String × ChainConfig)) (n : ℕ) (visit : String → Colors → Search)
    → ((name : String) (colors : Colors)
        → white chains colors ≤ n
        → IsFuelled chains colors (visit name colors))
    → (rules : List RuleConfig) (colors : Colors) → white chains colors ≤ n
    → IsFuelled chains colors (visit_rules visit rules colors)
unfolding visit_rules
visit_rules-IsFuelled chains n visit ok [] colors w = (omega arith, tt)
visit_rules-IsFuelled chains n visit ok (r ∷ rs) colors w =
    let first = if is_jump r then visit r.chain colors else (false, colors, []) in
    let good : IsFuelled chains colors first = elim (Bool-cases (is_jump r)) [
      | inl e ↦ rw e (ok r.chain colors w)
      | inr e ↦ rw e (omega arith, tt)
    ] in
    let less : white chains first.1 ≤ n = omega (arith, good.0, w) in
    after_rule-IsFuelled chains colors first (visit_rules visit rs) good
      (visit_rules-IsFuelled chains n visit ok rs first.1 less)

leave_chain-IsFuelled :
    (chains : List (String × ChainConfig)) (colors : Colors) (upper : String) (s : Search)
    → IsFuelled chains colors s
    → IsFuelled chains colors (leave_chain upper s)
unfolding leave_chain
leave_chain-IsFuelled chains colors upper (true, colors', ps) a = a
leave_chain-IsFuelled chains colors upper (false, colors', ps) (w, a) =
    (omega (arith, w, white-put chains upper black colors'), a)

IsFuelled-later :
    (chains : List (String × ChainConfig)) (before after : Colors) (s : Search)
    → white chains after ≤ white chains before
    → IsFuelled chains after s
    → IsFuelled chains before s
IsFuelled-later chains before after s h (w, a) = (omega (arith, h, w), a)

no_chain_left : (a b : ℕ) → a < b → b ≤ 0 → ⊥
no_chain_left a b h k = ground arith

module _ (g : Platform) where
  -- One visit, where the visits below it are good for the chains that it leaves white.
  visit_white-IsFuelled :
      (chains : List (String × ChainConfig)) (n : ℕ) (visit : String → Colors → Search)
      → ((m : ℕ)
          → suc m ≡ n
          → (name : String) (colors : Colors) → white chains colors ≤ m
          → IsFuelled chains colors (visit name colors))
      → (upper : String) (colors : Colors) (o : Option ChainConfig) → map_get upper colors ≡ none
      → map_get upper chains ≡ o
      → white chains colors ≤ n
      → IsFuelled chains colors (visit_white g visit upper o colors)
  unfolding visit_white
  visit_white-IsFuelled chains n visit ok upper colors none c f w =
      (white-put chains upper black colors, tt)
  visit_white-IsFuelled chains zero visit ok upper colors (some d) c f w =
      absurd (no_chain_left _ _ (white_falls chains upper gray colors d c f) w)
  visit_white-IsFuelled chains (suc m) visit ok upper colors (some d) c f w =
      let falls = white_falls chains upper gray colors d c f in
      let left : white chains (map_put upper gray colors) ≤ m = omega (arith, falls, w) in
      let below = visit_rules visit d.rules (map_put upper gray colors) in
      leave_chain-IsFuelled chains colors upper below (
        IsFuelled-later chains colors (map_put upper gray colors) below
          (white-put chains upper gray colors)
          (visit_rules-IsFuelled chains m visit (ok m refl) d.rules (map_put upper gray colors)
            left))

  visit_step :
      (chains : List (String × ChainConfig)) (n : ℕ)
      → ((m : ℕ)
          → suc m ≡ n
          → (name : String) (colors : Colors) → white chains colors ≤ m
          → IsFuelled chains colors (visit_chain g chains n name colors))
      → (name : String) (colors : Colors) (o : Option Color) → map_get (to_upper g name) colors ≡ o
      → white chains colors ≤ n
      → IsFuelled chains colors (visit_chain g chains (suc n) name colors)
  unfolding visit_chain
  visit_step chains n ok name colors (some gray) e w =
      rw (e, visit_chain) (omega arith, ((λ p. cc), tt))
  visit_step chains n ok name colors (some black) e w = rw (e, visit_chain) (omega arith, tt)
  visit_step chains n ok name colors none e w =
      rw (e, visit_chain)
        (visit_white-IsFuelled chains n (visit_chain g chains n) ok (to_upper g name) colors
          (map_get (to_upper g name) chains) e refl w)

  visit_chain-IsFuelled :
      (chains : List (String × ChainConfig)) (n : ℕ) (name : String) (colors : Colors)
      → white chains colors ≤ n
      → IsFuelled chains colors (visit_chain g chains (suc n) name colors)
  visit_chain-IsFuelled chains zero name colors w =
      visit_step chains zero (λ m e. cc) name colors (map_get (to_upper g name) colors) refl w
  visit_chain-IsFuelled chains (suc k) name colors w =
      visit_step chains (suc k)
        (λ m e n c v.
          let less : white chains c ≤ k = omega (arith, e, v) in
          visit_chain-IsFuelled chains k n c less)
        name colors (map_get (to_upper g name) colors) refl w

  white-le-length :
      (cs : List (String × ChainConfig)) (colors : Colors) → white cs colors ≤ length cs
  unfolding white white_of
  white-le-length [] colors = omega arith
  white-le-length ((k, c) ∷ cs) colors = elim (Option-cases (map_get k colors)) [
    | inl e ↦ rw e (omega (arith, white-le-length cs colors))
    | inr (x, e) ↦ rw e (omega (arith, white-le-length cs colors))
  ]

  visit_all_fuelled :
      (chains cs : List (String × ChainConfig)) (colors : Colors)
      → All (λ p. ¬ (p ≡ out_of_fuel)) (visit_all g chains cs colors)
  unfolding visit_all
  visit_all_fuelled chains [] colors = tt
  visit_all_fuelled chains ((name, c) ∷ cs) colors =
      let enough : white chains colors ≤ suc (length chains) =
        omega (arith, white-le-length chains colors) in
      let (_, a) = visit_chain-IsFuelled chains (suc (length chains)) name colors enough in
      All-append (λ p. ¬ (p ≡ out_of_fuel)) _ _ a (visit_all_fuelled chains cs _)

  -- The search for cycles comes to an end in every configuration: its fuel never runs out.
  pub detect_cycles_fuelled :
      (chains : List (String × ChainConfig))
      → All (λ p. ¬ (p ≡ out_of_fuel)) (detect_cycles g chains)
  unfolding detect_cycles
  detect_cycles_fuelled chains = visit_all_fuelled (normalise g chains) (normalise g chains) []
