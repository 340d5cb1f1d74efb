-- ===== src/Auth/Rate.antt =====
-- internal/auth/decision.go. Go's int wraps around at 64 bits.
use Prim.Native.Char.{code}
use hustmirrors_waf_backend.Base.{
  ℕ, ◌+◌, ◌-◌, ◌*◌, ◌%◌, ◌^◌, String, Bool, false, not, ◌&&◌, ◌||◌, Option, none, some, str_eq, leb,
  ◌==◌, if◌then◌else◌, is_empty, between,
}
use hustmirrors_waf_backend.Auth.Result.{AuthResult}

-- An int is kept as its 64 bits.
abbrev pub wrap : ℕ → ℕ
wrap n = n % 2 ^ 64

-- The digits at the start, on top of those already read, and the character after them; 0 stands for
-- no unit.
unfoldable pub read_digits : ℕ → String → ℕ × ℕ
read_digits n String.[] = (n, 0)
read_digits n (String.◌∷◌ c s) =
    let rest = read_digits (wrap (n * 10 + (code c - b'0'))) s in
    if between b'0' b'9' (code c) then rest else (n, code c)

unfoldable pub starts_with_digit : String → Bool
starts_with_digit String.[] = false
starts_with_digit (String.◌∷◌ c s) = between b'0' b'9' (code c)

unfoldable pub parse_rate : String → Option (ℕ × ℕ)
unfolding read_digits starts_with_digit
parse_rate s = if starts_with_digit s then some (read_digits 0 s) else none

unfoldable pub bytes_per_sec : ℕ → ℕ → ℕ
bytes_per_sec n unit =
    if unit == b'k' || unit == b'K'
    then wrap (n * 1024)
    else if unit == b'm' || unit == b'M'
    then wrap (n * (1024 * 1024))
    else if unit == b'g' || unit == b'G'
    then wrap (n * (1024 * 1024 * 1024))
    else n

-- A signed 64-bit number is at most 128 KiB: a negative one, or a small one.
unfoldable pub is_very_slow_rate : String → Bool
unfolding parse_rate bytes_per_sec
is_very_slow_rate rate = elim (parse_rate rate) [
  | none ↦ false
  | some (n, unit) ↦ let b = bytes_per_sec n unit in leb (2 ^ 63) b || leb b (128 * 1024)
]

unfoldable pub is_verified_reason : String → Bool
is_verified_reason reason =
    str_eq reason "generic_valid"
    || str_eq reason "ip_bound_valid"
    || str_eq reason "require_pow_pass"
    || str_eq reason "valid_pow_full_speed"

unfoldable pub decide_for_allow : AuthResult → String
decide_for_allow res =
    if not (is_empty res.mode) && is_verified_reason res.reason
    then "verified"
    else if not (is_empty res.limit_rate) && not (str_eq res.limit_rate "0")
    then (if is_very_slow_rate res.limit_rate then "unverified_very_slow" else "unverified_slow")
    else "verified"

unfoldable pub pow_status_to_reason : String → String
pow_status_to_reason status =
    if str_eq status "invalid"
    then "sign_mismatch"
    else if str_eq status "expired"
    then "expired"
    else if str_eq status "used_up"
    then "used_up"
    else if str_eq status "unverifiable"
    then "missing_real_ip"
    else if str_eq status "mode_disabled"
    then "mode_disabled"
    else "sign_mismatch"

unfoldable pub reason_for_accept : String → String
reason_for_accept reason = if is_empty reason then "risk_accept" else reason
