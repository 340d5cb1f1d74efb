-- ===== src/Transport/Rate.antt =====
-- internal/transport/echo/handlers.go: the bytes of a rate.
use Prim.Native.String
use Prim.Native.Char.{Char}
use text.Mathlib.TextLemmas.{nil-append, cons-append}
use hustmirrors_waf_backend.Base.{
  ℕ, ◌*◌, ◌^◌, ◌<◌, ◌≡◌, ◌∙◌, refl, ap, sym, String, Bool, true, false, Option, Bool-cases, str_eq,
  eq_iff, inl, inr, some, arith, is_empty,
}
use hustmirrors_waf_backend.Base.Int.{signed, ℤ, pos, ltb_ℤ}
use hustmirrors_waf_backend.Platform.{Platform, to_lower, trim_space, has_suffix}
use hustmirrors_waf_backend.Pow.Canonical.{decimal}
use hustmirrors_waf_backend.Transport.Answer.{
  drop_last, unit_of, rate_text, trimmed_rate, limit_rate_bytes,
}

abbrev pub unit_text : Char → String
unit_text c = String.◌∷◌ c String.[]

drop_last-append : (s : String) (c : Char) → drop_last (String.◌++◌ s (unit_text c)) ≡ s
unfolding drop_last
drop_last-append String.[] c = rw (nil-append (unit_text c)) refl
drop_last-append (String.◌∷◌ x String.[]) c =
    rw (cons-append x "" (unit_text c), nil-append (unit_text c)) refl
drop_last-append (String.◌∷◌ x (String.◌∷◌ y s)) c =
    let step = drop_last-append (String.◌∷◌ y s) c in
    rw (cons-append x (String.◌∷◌ y s) (unit_text c), cons-append y s (unit_text c))
      (ap (λ r. String.◌∷◌ x r) (ap drop_last (sym (cons-append y s (unit_text c))) ∙ step))

signed-small : (n : ℕ) → n < 2 ^ 63 → signed n ≡ pos n
unfolding signed
signed-small n h = ground arith

not_negative : (v : ℕ) → ltb_ℤ (pos v) (pos 0) ≡ false
not_negative v = ground arith

rate_text-small :
    (unit v : ℕ) → v * unit < 2 ^ 63 → rate_text unit (some (pos v)) ≡ decimal (pos (v * unit))
unfolding rate_text
rate_text-small unit v h = rw (not_negative v) (ap decimal (signed-small (v * unit) h))

last_is_there : (s : String) (c : Char) → is_empty (String.◌++◌ s (unit_text c)) ≡ false
last_is_there String.[] c = rw (nil-append (unit_text c)) refl
last_is_there (String.◌∷◌ x s) c = rw (cons-append x s (unit_text c)) refl

-- The units of a rate, with the letter and the number of bytes of each.
pub data RateUnit : Type 0 where
  kibi mebi gibi : RateUnit

abbrev pub letter : RateUnit → Char
letter kibi = "k"
letter mebi = "m"
letter gibi = "g"

abbrev pub bytes : RateUnit → ℕ
bytes kibi = 2 ^ 10
bytes mebi = 2 ^ 20
bytes gibi = 2 ^ 30

abbrev tail_is_empty : String → Bool
tail_is_empty String.[] = true
tail_is_empty (String.◌∷◌ c s) = is_empty s

longer :
    (x d : Char) (s : String) → is_empty s ≡ false → str_eq (String.◌∷◌ x s) (unit_text d) ≡ false
longer x d s h = elim (Bool-cases (str_eq (String.◌∷◌ x s) (unit_text d))) [
  | inl e ↦
      let same = (eq_iff (String.◌∷◌ x s) (unit_text d)).0 e in
      let bad : is_empty s ≡ true = ap tail_is_empty same in cc
  | inr f ↦ f
]

-- Only the last letter counts.
has_suffix-append :
    (s : String) (c d : Char)
    → has_suffix (String.◌++◌ s (unit_text c)) (unit_text d)
      ≡ has_suffix (unit_text c) (unit_text d)
unfolding has_suffix
has_suffix-append String.[] c d = rw (nil-append (unit_text c)) refl
has_suffix-append (String.◌∷◌ x s) c d =
    rw
      (
        cons-append x s (unit_text c),
        longer x d (String.◌++◌ s (unit_text c)) (last_is_there s c),
        has_suffix-append s c d,
      )
      refl

unit_of-append :
    (s : String) (u : RateUnit) → unit_of (String.◌++◌ s (unit_text (letter u))) ≡ some (bytes u)
unfolding unit_of has_suffix
unit_of-append s kibi = rw (has_suffix-append s "k" "k") refl
unit_of-append s mebi = rw (has_suffix-append s "m" "k", has_suffix-append s "m" "m") refl
unit_of-append s gibi =
    rw (has_suffix-append s "g" "k", has_suffix-append s "g" "m", has_suffix-append s "g" "g") refl

module _ (g : Platform) (parse_int : String → Option ℤ) (first_bytes : ℕ → String → String) where
  -- A rate that is not empty and, without white space and in small letters, is a text that strconv reads as the
  -- number v before one of the units k, m and g, is written as v times 2^10, 2^20 or 2^30, where that fits an int64.
  pub limit_rate_bytes-unit :
      (rate s : String) (u : RateUnit) (v : ℕ)
      → is_empty rate ≡ false
      → to_lower g (trim_space rate) ≡ String.◌++◌ s (unit_text (letter u))
      → parse_int s ≡ some (pos v)
      → v * bytes u < 2 ^ 63
      → limit_rate_bytes first_bytes g parse_int rate ≡ some (decimal (pos (v * bytes u)))
  unfolding limit_rate_bytes trimmed_rate
  limit_rate_bytes-unit rate s u v h t p b =
      rw (h, t, last_is_there s (letter u), unit_of-append s u, t, drop_last-append s (letter u), p)
        (ap (λ r. some r) (rate_text-small (bytes u) v b))
