-- ===== src/Auth/Check.antt =====
-- internal/auth/pow_verify.go: the checks of a token, which have no side effect. A pair of a reason
-- and false is `err reason`, and a pair with true is `ok`. Each reading of the clock is an argument.
pub mod Sound
use Prim.Native.String.{len}
use hustmirrors_waf_backend.Base.{
  ℕ, String, Bool, true, false, not, ◌&&◌, ◌||◌, Option, none, some, str_eq, ◌==◌, if◌then◌else◌,
  is_empty, all_chars, between, Fallible, ok, err, ◌>>◌, require,
}
use hustmirrors_waf_backend.Base.Int.{ℤ, pos, ltb_ℤ, leb_ℤ, ◌+ℤ◌, ◌-ℤ◌}
use hustmirrors_waf_backend.Platform.{Platform, addr_eq, unmap, equal_fold, has_infix, to_lower}
use hustmirrors_waf_backend.Pow.Token.{
  TokenPayload, TokenError, unsupported_version, unsupported_mode, unsupported_algorithm,
  path_invalid, path_too_long, ip_missing, ip_invalid, ip_forbidden, counter_invalid,
  difficulty_invalid, salt_invalid, timestamp_invalid, expiry_invalid, empty, malformed,
  validate_payload,
}
use hustmirrors_waf_backend.Pow.Difficulty.{has_leading_zero_bits}
use hustmirrors_waf_backend.Pow.Canonical.{build_canonical_input}
use hustmirrors_waf_backend.Pow.Sign.{
  Crypto, decode_token, compute_sign, hash_canonical, compare_sign,
}
use hustmirrors_waf_backend.Auth.Service.{Service, ModeConfig, mode_config}

-- net/url: ParseQuery gives the values of a query string, or fails; the values are known by Get.
pub record Url : Type 0 where
  pub parse_query : String → Option (String → String)

unfoldable pub reason_from_validation_error : TokenError → String
reason_from_validation_error e = elim e [
  | unsupported_version ↦ "unsupported_version"
  | unsupported_mode ↦ "unsupported_mode"
  | unsupported_algorithm ↦ "unsupported_algorithm"
  | path_invalid ↦ "malformed_token"
  | path_too_long ↦ "malformed_token"
  | ip_missing ↦ "ip_missing"
  | ip_invalid ↦ "invalid_ip"
  | ip_forbidden ↦ "ip_forbidden"
  | counter_invalid ↦ "invalid_counter"
  | difficulty_invalid ↦ "difficulty_too_low"
  | salt_invalid ↦ "invalid_salt"
  | timestamp_invalid ↦ "malformed_token"
  | expiry_invalid ↦ "malformed_token"
  | empty ↦ "malformed_token"
  | malformed ↦ "malformed_token"
]

unfoldable pub with_reason : Fallible TokenError (Unit {0}) → Fallible String (Unit {0})
unfolding reason_from_validation_error
with_reason (ok u) = ok tt
with_reason (err e) = err (reason_from_validation_error e)

unfoldable pub is_hex_digit : ℕ → Bool
is_hex_digit c = between b'0' b'9' c || between b'a' b'f' c || between b'A' b'F' c

unfoldable pub is_valid_sign_hex : String → Bool
unfolding is_hex_digit
is_valid_sign_hex s = len s == 64 && all_chars is_hex_digit s

unfoldable pub check_time : TokenPayload → ℤ → ℤ → Fallible String (Unit {0})
check_time p max_ttl now = do
  require (ltb_ℤ now p.expires_at) "expired"
  require (not (ltb_ℤ (pos 0) max_ttl && ltb_ℤ max_ttl (p.expires_at -ℤ p.timestamp)))
      "ttl_too_long"
  require (leb_ℤ p.timestamp (now +ℤ pos 60)) "timestamp_from_future"

unfoldable pub status_for_validation_reason : String → String
status_for_validation_reason reason =
    if str_eq reason "expired"
    then "expired"
    else if str_eq reason "mode_disabled"
    then "mode_disabled"
    else "invalid"

abbrev pub too_long : String → ℤ → Bool
too_long s bound = ltb_ℤ bound (pos (len s))

module _ (g : Platform) (k : Crypto) where
  unfoldable pub same_ip : String → String → Bool
  same_ip a b =
      if is_empty a || is_empty b
      then false
      else if equal_fold g a b
      then true
      else elim (g.parse_addr a) [
        | none ↦ false
        | some x ↦ elim (g.parse_addr b) [ none ↦ false | some y ↦ addr_eq (unmap x) (unmap y) ]
      ]

  unfoldable pub is_range_request : String → String → String → Bool
  is_range_request args method range_header =
      if equal_fold g method "HEAD"
      then true
      else if not (is_empty range_header)
      then true
      else has_infix (to_lower g args) "range="

  unfoldable pub check_sign_and_difficulty : TokenPayload → String → Fallible String (Unit {0})
  check_sign_and_difficulty p sign = do
    require (is_valid_sign_hex sign) "invalid_sign_format"
    require (compare_sign g (compute_sign k (some p)) sign) "sign_mismatch"
    require (has_leading_zero_bits (hash_canonical k (build_canonical_input (some p))) p.difficulty)
        "difficulty_not_met"

  unfoldable pub checks_of_mode :
      TokenPayload → Option ModeConfig → String → String → ℤ → Fallible String (Unit {0})
  unfolding check_sign_and_difficulty check_time with_reason
  checks_of_mode p none path sign now = err "unsupported_mode"
  checks_of_mode p (some mc) path sign now = do
    require mc.enabled "mode_disabled"
    with_reason (validate_payload g (some p) (some mc.opts))
    require (str_eq p.path path) "path_mismatch"
    check_time p mc.max_ttl now
    check_sign_and_difficulty p sign

  module _ {S C : Type 0} (s : Service S C) where
    unfoldable pub validate_token_for_mode :
        TokenPayload → String → String → String → ℤ → Fallible String (Unit {0})
    unfolding checks_of_mode
    validate_token_for_mode p mode path sign now =
        checks_of_mode p (mode_config s mode) path sign now

    unfoldable pub extract_token_and_sign : Url → String → String × String
    extract_token_and_sign u args = if is_empty args then ("", "") else elim (u.parse_query args) [
      | none ↦ ("", "")
      | some get ↦ (get s.cfg.pow.token_param, get s.cfg.pow.sign_param)
    ]

    -- The status of a payload that has passed validate_token_for_mode.
    unfoldable pub status_for_ip : TokenPayload → String → String
    unfolding same_ip
    status_for_ip p real_ip =
        if str_eq p.mode "ip_bound"
        then (if is_empty real_ip
            then "unverifiable"
            else if not (is_empty p.ip) && not (same_ip p.ip real_ip)
            then "invalid"
            else "valid")
        else "valid"

    unfoldable pub status_of : TokenPayload → String → Fallible String (Unit {0}) → String
    unfolding status_for_ip status_for_validation_reason
    status_of p real_ip (err reason) = status_for_validation_reason reason
    status_of p real_ip (ok u) = status_for_ip p real_ip

    unfoldable pub classify_decoded :
        ℤ
        → String
        → String
        → String
        → Fallible TokenError TokenPayload
        → Option TokenPayload × String × String
    unfolding status_of validate_token_for_mode
    classify_decoded now sign path real_ip (err e) = (none, "invalid", "")
    classify_decoded now sign path real_ip (ok p) =
        (some p, status_of p real_ip (validate_token_for_mode p p.mode path sign now), p.mode)

    unfoldable pub classify_pow :
        ℤ → String → String → String → String → Option TokenPayload × String × String
    unfolding classify_decoded
    classify_pow now token_raw sign path real_ip =
        if too_long token_raw s.cfg.pow.max_token_length || too_long sign s.cfg.pow.max_sign_length
        then (none, "invalid", "")
        else classify_decoded now sign path real_ip (decode_token k token_raw)
