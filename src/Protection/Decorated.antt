-- ===== src/Protection/Decorated.antt =====
-- The decorations that normalize.go of internal/matcher takes off a path.
use Prim.Native.String
use Prim.Native.Char.{code}
use text.Mathlib.TextLemmas.{nil-append, cons-append}
use mathlib.Core.Path.{subst}
use hustmirrors_waf_backend.Base.{
  ℕ, ◌≡◌, refl, ap, ◌∙◌, String, Bool, true, false, ◌&&◌, ◌||◌, Option, ◌==◌, if◌then◌else◌,
  is_empty, Bool-cases, inl, inr, arith,
}
use hustmirrors_waf_backend.Platform.{trim_right}
use hustmirrors_waf_backend.Protection.Normalize.{
  has_char, until_char, slash, semicolon, cut_params, is_trailing, decoded, normalize_path,
}

unfoldable pub are_trailing : String → Bool
unfolding is_trailing
are_trailing String.[] = true
are_trailing (String.◌∷◌ c s) = is_trailing (code c) && are_trailing s

-- A path, unescaped where it can be, is a name followed by slashes, dots, spaces and tabs, by path
-- parameters, and by a NUL byte with anything behind it; each may be missing. The name has no NUL byte and
-- no semicolon and ends in none of the trailing characters.
abbrev pub IsNamed : (String → Option String) → String → String → Type 0
IsNamed unescape name path =
    (junk : String) × (params : String) × (rest : String) × (decoded path (unescape path)
      ≡ String.◌++◌ (String.◌++◌ (String.◌++◌ name junk) params) rest)
    × (is_empty path ≡ false)
    × (has_char 0 name ≡ false)
    × (has_char semicolon name ≡ false)
    × (trim_right is_trailing name ≡ name)
    × (are_trailing junk ≡ true)
    × (until_char semicolon params ≡ "")
    × (has_char slash params ≡ false)
    × (has_char 0 params ≡ false)
    × (until_char 0 rest ≡ "")

or_false : (a b : Bool) → (a || b) ≡ false → (a ≡ false) × (b ≡ false)
or_false false b h = (refl, h)
or_false true b h = cc

and_true : (a b : Bool) → (a && b) ≡ true → (a ≡ true) × (b ≡ true)
and_true true b h = (refl, h)
and_true false b h = cc

has_char-append :
    (n : ℕ) (s t : String)
    → has_char n s ≡ false
    → has_char n t ≡ false
    → has_char n (String.◌++◌ s t) ≡ false
unfolding has_char
has_char-append n String.[] t h k = rw (nil-append t) k
has_char-append n (String.◌∷◌ c s) t h k =
    let (a, b) = or_false (code c == n) (has_char n s) h in
    rw (cons-append c s t, a, has_char-append n s t b k) refl

until_char-append :
    (n : ℕ) (s t : String)
    → has_char n s ≡ false
    → until_char n t ≡ ""
    → until_char n (String.◌++◌ s t) ≡ s
unfolding has_char until_char
until_char-append n String.[] t h k = rw (nil-append t) k
until_char-append n (String.◌∷◌ c s) t h k =
    let (a, b) = or_false (code c == n) (has_char n s) h in
    rw (cons-append c s t, a, until_char-append n s t b k) refl

cut_params_end :
    (q : String) → until_char semicolon q ≡ "" → has_char slash q ≡ false → cut_params q ≡ ""
unfolding cut_params has_char
cut_params_end String.[] h k = refl
cut_params_end (String.◌∷◌ c s) h k =
    let (a, b) = or_false (code c == slash) (has_char slash s) k in rw b h

cut_params-append :
    (s q : String)
    → has_char semicolon s ≡ false
    → until_char semicolon q ≡ ""
    → has_char slash q ≡ false
    → cut_params (String.◌++◌ s q) ≡ s
unfolding cut_params has_char
cut_params-append String.[] q h u k = rw (nil-append q) (cut_params_end q u k)
cut_params-append (String.◌∷◌ c s) q h u k =
    let (a, b) = or_false (code c == semicolon) (has_char semicolon s) h in
    elim (Bool-cases (has_char slash (String.◌++◌ s q))) [
      | inl e ↦ rw (cons-append c s q, e) (ap (String.◌∷◌ c) (cut_params-append s q b u k))
      | inr e ↦
          let cut : until_char semicolon (String.◌∷◌ c (String.◌++◌ s q)) ≡ String.◌∷◌ c s =
            subst (λ x. until_char semicolon x ≡ String.◌∷◌ c s) (cons-append c s q)
              (until_char-append semicolon (String.◌∷◌ c s) q h u) in
          rw (cons-append c s q, e) cut
    ]

trim_right_junk : (j : String) → are_trailing j ≡ true → trim_right is_trailing j ≡ ""
unfolding trim_right are_trailing
trim_right_junk String.[] h = refl
trim_right_junk (String.◌∷◌ c s) h =
    let (a, b) = and_true (is_trailing (code c)) (are_trailing s) h in
    rw (trim_right_junk s b, a) refl

trim_right-append :
    (s j : String)
    → are_trailing j ≡ true
    → trim_right is_trailing (String.◌++◌ s j) ≡ trim_right is_trailing s
unfolding trim_right
trim_right-append String.[] j h = rw (nil-append j) (trim_right_junk j h)
trim_right-append (String.◌∷◌ c s) j h = rw (cons-append c s j) (
    ap
      (λ t. elim t as (λ x. String) [
        | String.[] ↦ if is_trailing (code c) then String.[] else String.◌∷◌ c String.[]
        | String.◌∷◌ d r ↦ String.◌∷◌ c (String.◌∷◌ d r)
      ])
      (trim_right-append s j h))

trailing_is_not : (c : ℕ) → is_trailing c ≡ true → ((c == 0) ≡ false) × ((c == semicolon) ≡ false)
unfolding is_trailing
trailing_is_not c h = (ground arith, ground arith)

junk_has_no :
    (j : String) → are_trailing j ≡ true → (has_char 0 j ≡ false) × (has_char semicolon j ≡ false)
unfolding are_trailing has_char
junk_has_no String.[] h = (refl, refl)
junk_has_no (String.◌∷◌ c s) h =
    let (a, b) = and_true (is_trailing (code c)) (are_trailing s) h in
    let (x, y) = trailing_is_not (code c) a in
    let (z, w) = junk_has_no s b in (rw (x, z) refl, rw (y, w) refl)

-- No decoration changes what a path is matched as: an escape, trailing slashes, dots, spaces or tabs,
-- path parameters, a NUL byte and what follows it, each after the other, leave its name.
pub normalize_path_name :
    (unescape : String → Option String) (name path : String)
    → IsNamed unescape name path
    → normalize_path unescape path ≡ name
unfolding normalize_path
normalize_path_name unescape name path
      (junk, params, rest, d, e, n0, n1, trimmed, j, p1, p2, p0, r) =
    let (j0, j1) = junk_has_no junk j in
    let base = String.◌++◌ name junk in
    let base0 = has_char-append 0 name junk n0 j0 in
    let base1 = has_char-append semicolon name junk n1 j1 in
    let cut0 =
      until_char-append 0 (String.◌++◌ base params) rest (has_char-append 0 base params base0 p0)
        r in
    rw (e, d, cut0, cut_params-append base params base1 p1 p2)
      (trim_right-append name junk j ∙ trimmed)
