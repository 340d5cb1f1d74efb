-- ===== src/Protection/Extensions.antt =====
-- The extension matcher of internal/matcher/extension.go, against the extensions that it is made from.
use hustmirrors_waf_backend.Base.{
  ◌≡◌, refl, sym, ap, ◌∙◌, String, Bool, true, false, not, ◌&&◌, ◌||◌, List, [], ◌∷◌, ◌++◌, any,
  contains, str_eq, eq_iff, is_empty, if◌then◌else◌, Bool-cases, inl, inr,
}
use mathlib.Core.Path.{subst}
use Prim.Native.String
use text.Mathlib.TextLemmas.{cons-append}
use hustmirrors_waf_backend.Platform.{Platform, to_lower, has_suffix, has_prefix, trim_space}
use hustmirrors_waf_backend.Protection.Matchers.{
  clean_extension, add_extension, add_extensions, new_extension_matcher, matches,
}

or_assoc : (a b c : Bool) → ((a || b) || c) ≡ (a || (b || c))
or_assoc true b c = refl
or_assoc false b c = refl

or_false_right : (a : Bool) → a ≡ (a || false)
or_false_right true = refl
or_false_right false = refl

or_true_right : (a : Bool) → (a || true) ≡ true
or_true_right true = refl
or_true_right false = refl

any-append :
    (p : String → Bool) (xs : List String) (e : String) → any p (xs ++ (e ∷ [])) ≡ (any p xs || p e)
any-append p [] e = sym (or_false_right (p e))
any-append p (x ∷ xs) e =
    ap (λ b. p x || b) (any-append p xs e) ∙ sym (or_assoc (p x) (any p xs) (p e))

contains-any :
    (p : String → Bool) (xs : List String) (e : String)
    → contains e xs ≡ true
    → p e ≡ true
    → any p xs ≡ true
contains-any p [] e h q = cc
contains-any p (x ∷ xs) e h q = elim (Bool-cases (str_eq x e)) [
  | inl t ↦
      let here : p x ≡ true = subst (λ y. p y ≡ true) (sym ((eq_iff x e).0 t)) q in rw here refl
  | inr f ↦
      let later : contains e xs ≡ true = rw f at h in
      ap (λ b. p x || b) (contains-any p xs e later q) ∙ or_true_right (p x)
]

known_extension :
    (p : String → Bool) (xs : List String) (e : String)
    → contains e xs ≡ true
    → any p xs ≡ (any p xs || p e)
known_extension p xs e h = elim (Bool-cases (p e)) [
  | inl t ↦ rw (t, contains-any p xs e h t) refl
  | inr f ↦ rw f (or_false_right (any p xs))
]

any-add_extension :
    (p : String → Bool) (xs : List String) (e : String)
    → any p (add_extension xs e) ≡ (any p xs || (not (is_empty e) && p e))
unfolding add_extension
any-add_extension p xs e = elim (Bool-cases (is_empty e)) [
  | inl t ↦ rw t (or_false_right (any p xs))
  | inr f ↦ elim (Bool-cases (contains e xs)) [
    | inl c ↦ rw (f, c) (known_extension p xs e c)
    | inr d ↦ rw (f, d) (any-append p xs e)
  ]
]

dot_first : (t : String) → is_empty (String.◌++◌ "." t) ≡ false
dot_first t = rw (cons-append "." "" t) refl

module _ (g : Platform) where
  -- Whether a path ends in an extension, given as a configuration writes it: in small letters and without
  -- white space, with a dot before it where it has none. An extension of white space alone ends no path.
  unfoldable pub ends_in : String → String → Bool
  unfolding to_lower has_suffix
  ends_in path e =
      let wanted = trim_space (to_lower g e) in
      let dotted = has_suffix (to_lower g path) (String.◌++◌ "." wanted) in
      let whole = has_suffix (to_lower g path) wanted in
      not (is_empty wanted) && (if has_prefix wanted "." then whole else dotted)

  ends_in_lem :
      (path e : String)
      → ends_in path e ≡ (
          not (is_empty (clean_extension g e))
          && has_suffix (to_lower g path) (clean_extension g e))
  unfolding ends_in clean_extension
  ends_in_lem path e = elim (Bool-cases (is_empty (trim_space (to_lower g e)))) [
    | inl t ↦ rw (t, t) refl
    | inr f ↦ elim (Bool-cases (has_prefix (trim_space (to_lower g e)) ".")) [
      | inl d ↦ rw (f, d, f) refl
      | inr d ↦ rw (f, d, dot_first (trim_space (to_lower g e))) refl
    ]
  ]

  any-add_extensions :
      (path : String) (es xs : List String)
      → any (λ e. has_suffix (to_lower g path) e) (add_extensions g xs es)
        ≡ (any (λ e. has_suffix (to_lower g path) e) xs || any (ends_in path) es)
  unfolding add_extensions
  any-add_extensions path [] xs = or_false_right _
  any-add_extensions path (e ∷ es) xs =
      let p : String → Bool = λ t. has_suffix (to_lower g path) t in
      any-add_extensions path es (add_extension xs (clean_extension g e))
      ∙ ap (λ b. b || any (ends_in path) es) (any-add_extension p xs (clean_extension g e))
      ∙ ap (λ b. (any p xs || b) || any (ends_in path) es) (sym (ends_in_lem path e))
      ∙ or_assoc (any p xs) (ends_in path e) (any (ends_in path) es)

  -- The matcher made from a list of extensions matches the non-empty paths that end in one of them, the
  -- case and the white space of the list and a missing dot not regarded; dropping repetitions loses none.
  pub matches-new_extension_matcher :
      (es : List String) (path : String)
      → matches g (new_extension_matcher g es) path ≡ (not (is_empty path) && any (ends_in path) es)
  unfolding matches new_extension_matcher
  matches-new_extension_matcher es path = elim (Bool-cases (is_empty path)) [
    | inl t ↦ rw t refl
    | inr f ↦ rw f (any-add_extensions path es [])
  ]
