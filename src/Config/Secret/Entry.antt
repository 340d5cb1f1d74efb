-- ===== src/Config/Secret/Entry.antt =====
-- The pairs of internal/configctl/secret.go: which value a key has, and after a change of one.
use mathlib.Core.Path.{subst}
use hustmirrors_waf_backend.Base.{
  ◌≡◌, refl, sym, ap, ◌∙◌, inl, inr, String, Bool, true, false, ◌&&◌, none, some, str_eq, eq_iff,
  Bool-cases, Option-cases,
}
use hustmirrors_waf_backend.Config.Yaml.{
  Node, Entries, document, mapping, no_nodes, node, no_entries, pair, key_of, attrs_of, entry_of,
  set_entry,
}
use hustmirrors_waf_backend.Config.Secret.Shape.{is_absent}

-- No key twice, in the mappings that the merge goes into.
unfoldable mutual
  unfolding is_absent entry_of attrs_of

  pub has_distinct_keys : Node → Bool
  has_distinct_keys (mapping a es) = are_distinct es
  has_distinct_keys (document a (node (mapping b es) no_nodes)) = are_distinct es
  has_distinct_keys n = true

  pub are_distinct : Entries → Bool
  are_distinct no_entries = true
  are_distinct (pair k v es) =
      is_absent (entry_of (key_of k) es) && (has_distinct_keys v && are_distinct es)

-- The clauses of entry_of and set_entry, by what the rest has.
pub entry_cong :
    (j : String) (a b : Node) (ds es : Entries)
    → entry_of j ds ≡ entry_of j es
    → entry_of j (pair a b ds) ≡ entry_of j (pair a b es)
unfolding entry_of
entry_cong j a b ds es h = rw h refl

pub entry_later :
    (k : String) (a b y : Node) (ds : Entries)
    → entry_of k ds ≡ some y
    → entry_of k (pair a b ds) ≡ some y
unfolding entry_of
entry_later k a b y ds e = rw e refl

pub entry_here :
    (k : String) (a b : Node) (ds : Entries)
    → entry_of k ds ≡ none
    → str_eq (key_of a) k ≡ true
    → entry_of k (pair a b ds) ≡ some b
unfolding entry_of
entry_here k a b ds e t = rw (e, t) refl

pub entry_not :
    (k : String) (a b : Node) (ds : Entries)
    → str_eq (key_of a) k ≡ false
    → entry_of k (pair a b ds) ≡ entry_of k ds
unfolding entry_of
entry_not k a b ds f = elim (Option-cases (entry_of k ds)) [
  | inl e ↦ rw (e, f) refl
  | inr (y, e) ↦ rw e refl
]

pub set_later :
    (k : String) (a b w y : Node) (ds : Entries)
    → entry_of k ds ≡ some y
    → set_entry k w (pair a b ds) ≡ pair a b (set_entry k w ds)
unfolding set_entry
set_later k a b w y ds e = rw (e, set_entry) refl

pub set_here :
    (k : String) (a b w : Node) (ds : Entries)
    → entry_of k ds ≡ none
    → str_eq (key_of a) k ≡ true
    → set_entry k w (pair a b ds) ≡ pair a w ds
unfolding set_entry
set_here k a b w ds e t = rw (e, t, set_entry) refl

pub set_not :
    (k : String) (a b w : Node) (ds : Entries)
    → entry_of k ds ≡ none
    → str_eq (key_of a) k ≡ false
    → set_entry k w (pair a b ds) ≡ pair a b ds
unfolding set_entry
set_not k a b w ds e f = rw (e, f, set_entry) refl

pub entry_of-set_entry :
    (k : String) (w x : Node) (es : Entries)
    → entry_of k es ≡ some x
    → entry_of k (set_entry k w es) ≡ some w
unfolding entry_of
entry_of-set_entry k w x no_entries h = cc
entry_of-set_entry k w x (pair a b ds) h = elim (Option-cases (entry_of k ds)) [
  | inr (y, e) ↦
      ap (entry_of k) (set_later k a b w y ds e)
      ∙ entry_later k a b w (set_entry k w ds) (entry_of-set_entry k w y ds e)
  | inl e ↦ elim (Bool-cases (str_eq (key_of a) k)) [
    | inl t ↦ ap (entry_of k) (set_here k a b w ds e t) ∙ entry_here k a w ds e t
    | inr f ↦ let bad : none ≡ some x = sym e ∙ (sym (entry_not k a b ds f) ∙ h) in cc
  ]
]

pub entry_of-set_other :
    (k j : String) (w : Node) (es : Entries)
    → str_eq k j ≡ false
    → entry_of j (set_entry k w es) ≡ entry_of j es
unfolding set_entry
entry_of-set_other k j w no_entries f = refl
entry_of-set_other k j w (pair a b ds) f = elim (Option-cases (entry_of k ds)) [
  | inr (y, e) ↦
      ap (entry_of j) (set_later k a b w y ds e)
      ∙ entry_cong j a b (set_entry k w ds) ds (entry_of-set_other k j w ds f)
  | inl e ↦ elim (Bool-cases (str_eq (key_of a) k)) [
    | inl t ↦
        let apart : str_eq (key_of a) j ≡ false =
          subst (λ x. str_eq x j ≡ false) (sym ((eq_iff (key_of a) k).0 t)) f in
        ap (entry_of j) (set_here k a b w ds e t)
        ∙ entry_not j a w ds apart
        ∙ sym (entry_not j a b ds apart)
    | inr g ↦ ap (entry_of j) (set_not k a b w ds e g)
  ]
]
