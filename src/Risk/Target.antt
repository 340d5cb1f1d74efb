-- ===== src/Risk/Target.antt =====
-- internal/risk/target.go
use hustmirrors_waf_backend.Base.{ℕ, String, Bool, ◌||◌, str_eq, if◌then◌else◌}

abbrev pub target_accept : String
target_accept = "ACCEPT"

abbrev pub target_reject : String
target_reject = "REJECT"

abbrev pub target_rate_limit : String
target_rate_limit = "RATE_LIMIT"

abbrev pub target_too_many : String
target_too_many = "TOO_MANY"

abbrev pub target_require_pow : String
target_require_pow = "REQUIRE_POW"

abbrev pub target_jump : String
target_jump = "JUMP"

abbrev pub target_return : String
target_return = "RETURN"

abbrev pub target_log : String
target_log = "LOG"

abbrev pub target_mark : String
target_mark = "MARK"

unfoldable pub is_terminal : String → Bool
is_terminal target =
    str_eq target target_accept
    || str_eq target target_reject
    || str_eq target target_rate_limit
    || str_eq target target_too_many
    || str_eq target target_require_pow

unfoldable pub is_valid_rule_target : String → Bool
is_valid_rule_target t =
    str_eq t target_accept
    || str_eq t target_reject
    || str_eq t target_rate_limit
    || str_eq t target_too_many
    || str_eq t target_require_pow
    || str_eq t target_jump
    || str_eq t target_return
    || str_eq t target_log
    || str_eq t target_mark

unfoldable pub is_valid_policy_target : String → Bool
is_valid_policy_target t =
    str_eq t target_accept
    || str_eq t target_reject
    || str_eq t target_rate_limit
    || str_eq t target_too_many
    || str_eq t target_require_pow

unfoldable pub default_status_code_for : String → ℕ
default_status_code_for target =
    if str_eq target target_accept || str_eq target target_rate_limit
    then 200
    else if str_eq target target_reject || str_eq target target_require_pow
    then 403
    else if str_eq target target_too_many
    then 429
    else 0
