-- ===== src/Storage/Counter/Decimal.antt =====
-- itoa of internal/storage/memory/counter.go, against the decimal text of %d.
use Prim.Native.String
use text.Mathlib.TextLemmas.{append-nil, append_assoc}
use hustmirrors_waf_backend.Base.{
  ◌-◌, ℕ, zero, suc, ◌≤◌, ◌/◌, ◌%◌, ◌^◌, ◌≡◌, refl, sym, ap, ◌∙◌, ◌⊎◌, inl, inr, String, true, ltb,
  false, ◌==◌, arith, Bool-cases,
}
use hustmirrors_waf_backend.Base.Int.{ℤ, pos, negsuc, signed, is_int64}
use hustmirrors_waf_backend.Pow.Canonical.{digit, decimal, decimal_fuel}
use hustmirrors_waf_backend.Storage.Counter.{itoa, itoa_loop, itoa_digits}

below_ten : (n : ℕ) → (n / 10 == 0) ≡ true → n % 10 ≡ n
below_ten n h = ground arith

not_zero : (n : ℕ) → n ≤ 0 → ¬ ((n == 0) ≡ false)
not_zero n h z = ground arith

tenth : (f n : ℕ) → n ≤ suc f → (n == 0) ≡ false → n / 10 ≤ f
tenth f n h z = ground arith

itoa_digits_zero : (f n : ℕ) (text : String) → (n == 0) ≡ true → itoa_digits f n text ≡ text
unfolding itoa_digits
itoa_digits_zero zero n text z = refl
itoa_digits_zero (suc f) n text z = rw z refl

itoa_digits_lem :
    (f n : ℕ) (text : String)
    → n ≤ f
    → (n == 0) ≡ false
    → itoa_digits f n text ≡ String.◌++◌ (decimal_fuel f n) text
unfolding itoa_digits decimal_fuel
itoa_digits_lem zero n text h z = absurd (not_zero n h z)
itoa_digits_lem (suc f) n text h z = elim (Bool-cases (n / 10 == 0)) [
  | inl e ↦
      rw (z, e)
        (itoa_digits_zero f (n / 10) (String.◌++◌ (digit (n % 10)) text) e
          ∙ ap (λ d. String.◌++◌ (digit d) text) (below_ten n e))
  | inr e ↦
      rw (z, e)
        (itoa_digits_lem f (n / 10) (String.◌++◌ (digit (n % 10)) text) (tenth f n h z) e
          ∙ sym (append_assoc (decimal_fuel f (n / 10)) (digit (n % 10)) text))
]

itoa_digits-decimal_fuel : (n : ℕ) → (n == 0) ≡ false → itoa_digits n n "" ≡ decimal_fuel n n
itoa_digits-decimal_fuel n z =
    let fuel : n ≤ n = omega arith in itoa_digits_lem n n "" fuel z ∙ append-nil (decimal_fuel n n)

suc_not_zero : (n : ℕ) → (suc n == 0) ≡ false
suc_not_zero n = ground arith

least_lem : (n : ℕ) → (suc n == 2 ^ 63) ≡ true → n ≡ 2 ^ 63 - 1
least_lem n h = ground arith

wrap-free :
    (n : ℕ) → ltb n (2 ^ 63) ≡ true → (suc n == 2 ^ 63) ≡ false → signed (suc n) ≡ pos (suc n)
unfolding signed
wrap-free n h e = ground arith

itoa_pos : (n : ℕ) → (n == 0) ≡ false → itoa (pos n) ≡ decimal (pos n)
unfolding itoa itoa_loop decimal
itoa_pos n z = rw z (itoa_digits-decimal_fuel n z)

-- itoa writes the decimal text of every int64 but the least, which it writes as a sign alone.
pub itoa-decimal :
    (z : ℤ)
    → is_int64 z ≡ true
    → (itoa z ≡ decimal z) ⊎ ((z ≡ negsuc (2 ^ 63 - 1)) × (itoa z ≡ "-"))
unfolding itoa itoa_loop signed decimal decimal_fuel digit
itoa-decimal (pos zero) h = inl refl
itoa-decimal (pos (suc n)) h = inl (itoa_pos (suc n) (suc_not_zero n))
itoa-decimal (negsuc n) h = elim (Bool-cases (suc n == 2 ^ 63)) [
  | inl e ↦ let least = least_lem n e in inr (ap negsuc least, ap (λ m. itoa (negsuc m)) least)
  | inr e ↦ inl (
      rw (wrap-free n h e, itoa_loop)
        (ap (String.◌++◌ "-") (itoa_digits-decimal_fuel (suc n) (suc_not_zero n))))
]
