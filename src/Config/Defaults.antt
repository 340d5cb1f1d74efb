-- ===== src/Config/Defaults.antt =====
-- internal/config/defaults.go. An integer is a number of nanoseconds where it is a duration.
use hustmirrors_waf_backend.Base.{String, Bool, true, Option, none, some, if◌then◌else◌, is_empty}
use hustmirrors_waf_backend.Base.Int.{ℤ, pos, eq_ℤ}
use hustmirrors_waf_backend.Auth.Service.{ModeSettings, PowSettings}
use hustmirrors_waf_backend.Config.Settings.{
  ServerConfig, StorageConfig, PendingConfig, LoggingConfig, CleanupConfig, Settings,
}

-- `if x == "" { x = d }`, and likewise for 0 and nil.
abbrev pub text_or : String → String → String
text_or d s = if is_empty s then d else s

abbrev pub number_or : ℤ → ℤ → ℤ
number_or d z = if eq_ℤ z (pos 0) then d else z

abbrev pub flag_or : Bool → Option Bool → Option Bool
flag_or d none = some d
flag_or d (some b) = some b

unfoldable pub server_defaults : ServerConfig → ServerConfig
server_defaults c = record c {
  listen = text_or "127.0.0.1:8080" c.listen;
  read_timeout = number_or (pos 2000000000) c.read_timeout;
  write_timeout = number_or (pos 2000000000) c.write_timeout;
  idle_timeout = number_or (pos 30000000000) c.idle_timeout;
  shutdown_timeout = number_or (pos 5000000000) c.shutdown_timeout;
}

unfoldable pub ip_bound_defaults : ModeSettings → ModeSettings
ip_bound_defaults m = record m {
  min_difficulty = number_or (pos 22) m.min_difficulty;
  max_difficulty = number_or (pos 28) m.max_difficulty;
  max_ttl_seconds = number_or (pos 86400) m.max_ttl_seconds;
}

unfoldable pub generic_defaults : ModeSettings → ModeSettings
generic_defaults m = record m {
  min_difficulty = number_or (pos 22) m.min_difficulty;
  max_difficulty = number_or (pos 28) m.max_difficulty;
  max_ttl_seconds = number_or (pos 1800) m.max_ttl_seconds;
  max_uses = number_or (pos 5) m.max_uses;
}

unfoldable pub pow_defaults : PowSettings → PowSettings
unfolding ip_bound_defaults generic_defaults
pow_defaults p = record p {
  enabled = flag_or true p.enabled;
  token_param = text_or "token" p.token_param;
  sign_param = text_or "sign" p.sign_param;
  max_token_length = number_or (pos 4096) p.max_token_length;
  max_sign_length = number_or (pos 128) p.max_sign_length;
  algorithm = text_or "sha256" p.algorithm;
  ip_bound = ip_bound_defaults p.ip_bound;
  generic = generic_defaults p.generic;
}

unfoldable pub pending_defaults : PendingConfig → PendingConfig
pending_defaults c = record {
  enabled = flag_or true c.enabled;
  max_per_ip = number_or (pos 128) c.max_per_ip;
  block_ttl = number_or (pos 3600000000000) c.block_ttl;
}

unfoldable pub storage_defaults : StorageConfig → StorageConfig
storage_defaults c = record c {
  driver = text_or "memory" c.driver;
  counter_driver = text_or "memory" c.counter_driver;
  max_open_conns = number_or (pos 20) c.max_open_conns;
  max_idle_conns = number_or (pos 5) c.max_idle_conns;
  redis_addr = text_or "127.0.0.1:6379" c.redis_addr;
  redis_key_prefix = text_or "mirrors-waf" c.redis_key_prefix;
}

unfoldable pub logging_defaults : LoggingConfig → LoggingConfig
logging_defaults c = record c {
  level = text_or "info" c.level;
  format = text_or "json" c.format;
  log_access = flag_or true c.log_access;
  log_denied = flag_or true c.log_denied;
}

unfoldable pub cleanup_defaults : CleanupConfig → CleanupConfig
cleanup_defaults c = record {
  enabled = flag_or true c.enabled;
  interval = number_or (pos 600000000000) c.interval;
  expired_grace_period = number_or (pos 86400000000000) c.expired_grace_period;
}

unfoldable pub apply_defaults : Settings → Settings
unfolding server_defaults pow_defaults pending_defaults storage_defaults logging_defaults
    cleanup_defaults
apply_defaults c = record c {
  server = server_defaults c.server;
  pow = pow_defaults c.pow;
  storage = storage_defaults c.storage;
  risk_control = record c.risk_control { pending = pending_defaults c.risk_control.pending };
  logging = logging_defaults c.logging;
  cleanup = cleanup_defaults c.cleanup;
}
