-- ===== src/Tests/Settings.antt =====
-- The theorems on defaults and validation, at a concrete configuration.
use hustmirrors_waf_backend.Base.{◌≡◌, refl, String, true, false, none, List, [], ◌∷◌, All}
use hustmirrors_waf_backend.Base.Int.{pos}
use hustmirrors_waf_backend.Risk.Target.{is_valid_rule_target, is_valid_policy_target}
use hustmirrors_waf_backend.Risk.Compile.{RuleConfig, ChainConfig, compile_chains}
use hustmirrors_waf_backend.Risk.Compile.Errors.{IsCidrOnly}
use hustmirrors_waf_backend.Config.Settings.{Settings}
use hustmirrors_waf_backend.Config.Defaults.{apply_defaults}
use hustmirrors_waf_backend.Config.Validate.{out_of_fuel, is_valid_target}
use hustmirrors_waf_backend.Config.Validate.Cycles.{detect_cycles}
use hustmirrors_waf_backend.Config.Validate.Compiles.{
  validate-compile_chains, is_valid_target_parity,
}
use hustmirrors_waf_backend.Config.Validate.Fuel.{detect_cycles_fuelled}
use hustmirrors_waf_backend.Fixtures.{platform, condition, mode_settings}

abbrev rule : String → String → RuleConfig
rule target chain = record {
  name = "r";
  match = condition;
  target = target;
  chain = chain;
  status = pos 0;
  limit_rate = "";
  reason = "";
  mark = "";
}

abbrev chain : String → String → ChainConfig
chain target to = record {
  policy = record { target = "ACCEPT"; status = pos 0; limit_rate = "10m"; reason = "" };
  rules = rule target to ∷ [];
}

-- INPUT jumps to RATE.
abbrev chains : List (String × ChainConfig)
chains = ("INPUT", chain "JUMP" "RATE") ∷ ("RATE", chain "REJECT" "") ∷ []

abbrev looping : List (String × ChainConfig)
looping = ("INPUT", chain "JUMP" "RATE") ∷ ("RATE", chain "JUMP" "INPUT") ∷ []

-- A configuration in which little is set.
abbrev given : Settings
given = record {
  server = record {
    listen = "";
    read_timeout = pos 0;
    write_timeout = pos 0;
    idle_timeout = pos 0;
    shutdown_timeout = pos 0;
  };
  pow = record {
    enabled = none;
    dry_run = false;
    bypass_all = false;
    token_param = "";
    sign_param = "";
    max_token_length = pos 0;
    max_sign_length = pos 0;
    algorithm = "";
    public_salt = "";
    allow_empty_salt = false;
    allowed_previous_salts = [];
    ip_bound = mode_settings;
    generic = mode_settings;
  };
  protection = record { protected_extensions = []; protected_paths = []; excluded_paths = [] };
  storage = record {
    driver = "";
    counter_driver = "";
    postgres_dsn = "";
    max_open_conns = pos 0;
    max_idle_conns = pos 0;
    redis_addr = "";
    redis_password = "";
    redis_db = pos 0;
    redis_key_prefix = "";
  };
  risk_control = record {
    enabled = true;
    pending = record { enabled = none; max_per_ip = pos 0; block_ttl = pos 0 };
    counters = [];
    chains = chains;
  };
  logging = record {
    level = "";
    format = "";
    log_access = none;
    log_denied = none;
    hash_ip = false;
    log_salt = "";
  };
  cleanup = record { enabled = none; interval = pos 0; expired_grace_period = pos 0 };
}

is_valid_target_parity_example :
    (is_valid_target "JUMP" false ≡ is_valid_rule_target "JUMP")
    × (is_valid_target "JUMP" true ≡ is_valid_policy_target "JUMP")
is_valid_target_parity_example = is_valid_target_parity "JUMP"

validate-compile_chains_example :
    IsCidrOnly (compile_chains platform (apply_defaults given).risk_control.chains)
unfolding apply_defaults hustmirrors_waf_backend.Config.Validate.Everything.validate
validate-compile_chains_example = validate-compile_chains platform (apply_defaults given) refl refl

detect_cycles_fuelled_example : All (λ p. ¬ (p ≡ out_of_fuel)) (detect_cycles platform looping)
detect_cycles_fuelled_example = detect_cycles_fuelled platform looping
