-- ===== src/Pow/Token.antt =====
-- internal/pow/token.go and util.go: the payload of a token and its field checks. A nil pointer is
-- `none`.
use Prim.Native.String.{len}
use hustmirrors_waf_backend.Base.{
  ℕ, String, Bool, true, false, not, ◌&&◌, ◌||◌, Option, none, some, List, [], ◌∷◌, leb, ◌==◌,
  str_eq, if◌then◌else◌, contains, is_empty, all_chars, between, Fallible, ok, err, ◌>>◌, require,
}
use hustmirrors_waf_backend.Base.Int.{ℤ, pos, eq_ℤ, ltb_ℤ, leb_ℤ}
use hustmirrors_waf_backend.Platform.{Platform, equal_fold, has_prefix, is_control}

pub record TokenPayload : Type 0 where
  pub version : ℤ
  pub mode : String
  pub algorithm : String
  pub ip : String
  pub path : String
  pub timestamp : ℤ
  pub expires_at : ℤ
  pub difficulty : ℤ
  pub counter : String
  pub salt : String

pub data TokenError : Type 0 where
  empty malformed unsupported_version unsupported_mode unsupported_algorithm path_invalid :
      TokenError
  path_too_long ip_missing ip_invalid ip_forbidden counter_invalid difficulty_invalid : TokenError
  timestamp_invalid expiry_invalid salt_invalid : TokenError

pub record ValidatorOptions : Type 0 where
  pub allowed_salts : List String
  pub allow_empty_salt : Bool
  pub allowed_modes : List String
  pub require_ip : Bool
  pub min_difficulty : ℤ
  pub max_difficulty : ℤ
  pub algorithm : String

abbrev pub max_path_length : ℕ
max_path_length = 4096

abbrev pub max_counter_length : ℕ
max_counter_length = 64

abbrev pub max_difficulty : ℤ
max_difficulty = pos 64

abbrev pub default_algorithm : String
default_algorithm = "sha256"

-- No control character, a line break among them.
unfoldable pub is_canonical_safe : String → Bool
is_canonical_safe s =
    all_chars (λ c. not (c == 10) && not (c == 13)) s && all_chars (λ c. not (is_control c)) s

unfoldable pub is_counter_char : ℕ → Bool
is_counter_char c =
    (between b'0' b'9' c
      || between b'a' b'f' c
      || between b'A' b'Z' c
      || c == b'-'
      || c == b'_'
      || c == b'=')
    && not (is_control c)

unfoldable pub is_counter_safe : String → Bool
unfolding is_counter_char
is_counter_safe s =
    not (is_empty s)
    && all_chars is_counter_char s
    && all_chars (λ c. not (c == 10 || c == 13 || c == 9 || c == 32)) s

unfoldable pub mode_ok : String → Option ValidatorOptions → Bool
mode_ok mode none = str_eq mode "ip_bound" || str_eq mode "generic"
mode_ok mode (some opts) = elim opts.allowed_modes [
  | [] ↦ str_eq mode "ip_bound" || str_eq mode "generic"
  | m ∷ ms ↦ contains mode (m ∷ ms)
]

unfoldable pub want_algorithm : Option ValidatorOptions → String
want_algorithm none = default_algorithm
want_algorithm (some opts) = if is_empty opts.algorithm then default_algorithm else opts.algorithm

unfoldable pub min_allowed : Option ValidatorOptions → ℤ
min_allowed none = pos 0
min_allowed (some opts) = if ltb_ℤ (pos 0) opts.min_difficulty then opts.min_difficulty else pos 0

unfoldable pub max_allowed : Option ValidatorOptions → ℤ
max_allowed none = max_difficulty
max_allowed (some opts) =
    if ltb_ℤ (pos 0) opts.max_difficulty then opts.max_difficulty else max_difficulty

unfoldable pub salt_ok : String → Option ValidatorOptions → Bool
salt_ok salt none = true
salt_ok salt (some opts) =
    if is_empty salt
    then opts.allow_empty_salt
    else is_canonical_safe salt && contains salt opts.allowed_salts

module _ (g : Platform) where
  unfoldable pub is_valid_ip_string : String → Bool
  is_valid_ip_string s = not (is_empty s) && elim (g.parse_addr s) [ none ↦ false | some a ↦ true ]

  -- The switch on the mode.
  unfoldable pub check_ip : TokenPayload → Fallible TokenError (Unit {0})
  check_ip p =
      if str_eq p.mode "ip_bound"
      then require (is_empty p.ip || is_valid_ip_string p.ip) ip_invalid
      else if str_eq p.mode "generic"
      then require (is_empty p.ip) ip_forbidden
      else ok tt

  unfoldable pub check_fields :
      TokenPayload → Option ValidatorOptions → Fallible TokenError (Unit {0})
  check_fields p opts = do
    require (eq_ℤ p.version (pos 1)) unsupported_version
    require (mode_ok p.mode opts) unsupported_mode
    require (not (is_empty p.algorithm)) unsupported_algorithm
    require (equal_fold g p.algorithm (want_algorithm opts)) unsupported_algorithm
    require (not (is_empty p.path) && has_prefix p.path "/") path_invalid
    require (leb (len p.path) max_path_length) path_too_long
    require (is_canonical_safe p.path) path_invalid
    check_ip p
    require (not (is_empty p.counter) && leb (len p.counter) max_counter_length) counter_invalid
    require (is_counter_safe p.counter) counter_invalid
    require (leb_ℤ (min_allowed opts) p.difficulty && leb_ℤ p.difficulty (max_allowed opts))
        difficulty_invalid
    require (salt_ok p.salt opts) salt_invalid
    require (ltb_ℤ (pos 0) p.timestamp) timestamp_invalid
    require (ltb_ℤ (pos 0) p.expires_at) expiry_invalid
    require (ltb_ℤ p.timestamp p.expires_at) expiry_invalid

  unfoldable pub validate_payload :
      Option TokenPayload → Option ValidatorOptions → Fallible TokenError (Unit {0})
  validate_payload none opts = err malformed
  validate_payload (some p) opts = check_fields p opts
