-- ===== src/Pow/Difficulty.antt =====
-- internal/pow/difficulty.go: leading zero bits of a hash, a list of bytes.
use Prim.Native.Nat.{bit_and}
use hustmirrors_waf_backend.Base.{
  ℕ, zero, suc, ◌-◌, ◌*◌, ◌/◌, ◌%◌, ◌^◌, Bool, true, false, List, [], ◌∷◌, ltb, ◌==◌, if◌then◌else◌,
  length, ◌&&◌,
}
use hustmirrors_waf_backend.Base.Int.{ℤ, pos, leb_ℤ, pos_part}

-- The first `n` bytes are zero.
unfoldable pub zero_bytes : ℕ → List ℕ → Bool
zero_bytes zero hash = true
zero_bytes (suc n) [] = true
zero_bytes (suc n) (b ∷ hash) = b == 0 && zero_bytes n hash

unfoldable pub byte_at : ℕ → List ℕ → ℕ
byte_at n [] = 0
byte_at zero (b ∷ hash) = b
byte_at (suc n) (b ∷ hash) = byte_at n hash

-- byte(0xFF << (8 - r)).
unfoldable pub mask : ℕ → ℕ
mask r = 0xff * 2 ^ (8 - r) % 256

-- The case 0 < n.
unfoldable pub has_zero_bits : List ℕ → ℕ → Bool
unfolding zero_bytes byte_at mask
has_zero_bits hash n =
    if ltb (length hash * 8) n
    then false
    else zero_bytes (n / 8) hash
      && (if ltb 0 (n % 8) then bit_and (byte_at (n / 8) hash) (mask (n % 8)) == 0 else true)

unfoldable pub has_leading_zero_bits : List ℕ → ℤ → Bool
unfolding has_zero_bits
has_leading_zero_bits hash n = if leb_ℤ n (pos 0) then true else has_zero_bits hash (pos_part n)
