-- ===== src/Config/Settings.antt =====
-- The records of internal/config/config.go that the other modules do not hold. A duration is an integer.
use hustmirrors_waf_backend.Base.{String, Bool, Option, List}
use hustmirrors_waf_backend.Base.Int.{ℤ}
use hustmirrors_waf_backend.Risk.Compile.{ChainConfig}
use hustmirrors_waf_backend.Risk.Counter.{CounterDefs}
use hustmirrors_waf_backend.Auth.Service.{PowSettings}

pub record ServerConfig : Type 0 where
  pub listen : String
  pub read_timeout : ℤ
  pub write_timeout : ℤ
  pub idle_timeout : ℤ
  pub shutdown_timeout : ℤ

pub record ProtectionConfig : Type 0 where
  pub protected_extensions : List String
  pub protected_paths : List String
  pub excluded_paths : List String

pub record StorageConfig : Type 0 where
  pub driver : String
  pub counter_driver : String
  pub postgres_dsn : String
  pub max_open_conns : ℤ
  pub max_idle_conns : ℤ
  pub redis_addr : String
  pub redis_password : String
  pub redis_db : ℤ
  pub redis_key_prefix : String

pub record PendingConfig : Type 0 where
  pub enabled : Option Bool
  pub max_per_ip : ℤ
  pub block_ttl : ℤ

pub record RiskControlConfig : Type 0 where
  pub enabled : Bool
  pub pending : PendingConfig
  pub counters : CounterDefs
  pub chains : List (String × ChainConfig)

pub record LoggingConfig : Type 0 where
  pub level : String
  pub format : String
  pub log_access : Option Bool
  pub log_denied : Option Bool
  pub hash_ip : Bool
  pub log_salt : String

pub record CleanupConfig : Type 0 where
  pub enabled : Option Bool
  pub interval : ℤ
  pub expired_grace_period : ℤ

pub record Settings : Type 0 where
  pub server : ServerConfig
  pub pow : PowSettings
  pub protection : ProtectionConfig
  pub storage : StorageConfig
  pub risk_control : RiskControlConfig
  pub logging : LoggingConfig
  pub cleanup : CleanupConfig
