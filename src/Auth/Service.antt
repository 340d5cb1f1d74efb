-- ===== src/Auth/Service.antt =====
-- internal/auth/service.go: the service and its construction, modeConfig of pow_verify.go, and the
-- fields of internal/config that they read.
use hustmirrors_waf_backend.Base.{
  ℕ, ◌/◌, String, Bool, true, false, not, ◌&&◌, Option, none, some, List, [], ◌∷◌, ◌++◌, str_eq,
  if◌then◌else◌, is_empty, Fallible, ok, ◌>>◌, require,
}
use hustmirrors_waf_backend.Base.Int.{ℤ, pos, pos_part, ltb_ℤ}
use hustmirrors_waf_backend.Storage.Types.{UsageOps}
use hustmirrors_waf_backend.Pow.Token.{ValidatorOptions}
use hustmirrors_waf_backend.Risk.Types.{RequestContext, CounterResolver}
use hustmirrors_waf_backend.Risk.Engine.{Engine}
use hustmirrors_waf_backend.Auth.Result.{AuthResult}

pub record ModeSettings : Type 0 where
  pub enabled : Bool
  pub min_difficulty : ℤ
  pub max_difficulty : ℤ
  pub max_ttl_seconds : ℤ
  pub require_ip : Bool
  pub count_usage : Bool
  pub max_uses : ℤ
  pub count_head_request : Bool

pub record PowSettings : Type 0 where
  pub enabled : Option Bool
  pub dry_run : Bool
  pub bypass_all : Bool
  pub token_param : String
  pub sign_param : String
  pub max_token_length : ℤ
  pub max_sign_length : ℤ
  pub algorithm : String
  pub public_salt : String
  pub allow_empty_salt : Bool
  pub allowed_previous_salts : List String
  pub ip_bound : ModeSettings
  pub generic : ModeSettings

pub record Config : Type 0 where
  pub pow : PowSettings
  pub risk_control_enabled : Bool
  pub pending_enabled : Option Bool
  -- whether risk_control.counters is non-empty
  pub has_counters : Bool
  -- cleanup.expired_grace_period in nanoseconds
  pub expired_grace_period : ℤ

-- The calls of a counter registry, over the states of its store.
pub record CounterOps (C : Type 0) : Type 0 where
  pub lookup_resolver : RequestContext → C → CounterResolver
  pub increment_for_request : RequestContext → C → C

-- A dependency that may be nil is an Option. The pending blocker lives in the state of a request;
-- `has_blocker` says that there is one.
pub record Service (S C : Type 0) : Type 0 where
  pub cfg : Config
  pub should_protect : String → Bool
  pub usage_store : Option (UsageOps S)
  pub risk_engine : Option Engine
  pub counter_reg : Option (CounterOps C)
  pub has_blocker : Bool
  pub ip_bound_opts : ValidatorOptions
  pub generic_opts : ValidatorOptions

pub data NewError : Type 0 where
  usage_store_required risk_engine_required counter_reg_required blocker_required : NewError

abbrev pub default_true : Option Bool → Bool
default_true none = true
default_true (some b) = b

abbrev pub is_nil {ℓ} : {A : Type ℓ} → Option A → Bool
is_nil none = true
is_nil (some a) = false

unfoldable pub allowed_salts : PowSettings → List String
allowed_salts p =
    if is_empty p.public_salt
    then p.allowed_previous_salts
    else p.allowed_previous_salts ++ (p.public_salt ∷ [])

unfoldable pub ip_bound_options : PowSettings → ValidatorOptions
unfolding allowed_salts
ip_bound_options p = record {
  allowed_salts = allowed_salts p;
  allow_empty_salt = p.allow_empty_salt;
  allowed_modes = "ip_bound" ∷ [];
  require_ip = p.ip_bound.require_ip;
  min_difficulty = p.ip_bound.min_difficulty;
  max_difficulty = p.ip_bound.max_difficulty;
  algorithm = p.algorithm;
}

unfoldable pub generic_options : PowSettings → ValidatorOptions
unfolding allowed_salts
generic_options p = record {
  allowed_salts = allowed_salts p;
  allow_empty_salt = p.allow_empty_salt;
  allowed_modes = "generic" ∷ [];
  require_ip = false;
  min_difficulty = p.generic.min_difficulty;
  max_difficulty = p.generic.max_difficulty;
  algorithm = p.algorithm;
}

pub record ModeConfig : Type 0 where
  pub enabled : Bool
  pub max_ttl : ℤ
  pub opts : ValidatorOptions

abbrev pub second : ℕ
second = 1000000000

-- The grace period in whole seconds.
unfoldable pub grace_of : Config → ℤ
grace_of cfg =
    if ltb_ℤ (pos 0) cfg.expired_grace_period
    then pos (pos_part cfg.expired_grace_period / second)
    else pos 0

-- The rewriting of a denial under dry_run; the first argument is the setting.
unfoldable pub dry_run_result : Bool → AuthResult → AuthResult
dry_run_result dry_run res = if not dry_run then res else if res.allowed then res else record res {
  allowed = true;
  http_status = 200;
  reason = "dry_run_allow";
  dry_run_original_error = res.reason;
  error_header = "";
  decision = "dry_run";
}

module _ {S C : Type 0} where
  -- New, for a Config and a Matcher that are not nil; the defaults of Clock and Logger are not
  -- modelled.
  unfoldable pub new :
      Config
      → (String → Bool)
      → Option (UsageOps S)
      → Option Engine
      → Option (CounterOps C)
      → Bool
      → Fallible NewError (Service S C)
  unfolding ip_bound_options generic_options
  new cfg should_protect usage_store risk_engine counter_reg has_blocker = do
    require (not (cfg.pow.generic.enabled && is_nil usage_store)) usage_store_required
    require (not (cfg.risk_control_enabled && is_nil risk_engine)) risk_engine_required
    require (not (cfg.risk_control_enabled && (cfg.has_counters && is_nil counter_reg)))
        counter_reg_required
    require
        (not (cfg.risk_control_enabled && (default_true cfg.pending_enabled && not has_blocker)))
        blocker_required
    ok (record {
      cfg = cfg;
      should_protect = should_protect;
      usage_store = usage_store;
      risk_engine = risk_engine;
      counter_reg = counter_reg;
      has_blocker = has_blocker;
      ip_bound_opts = ip_bound_options cfg.pow;
      generic_opts = generic_options cfg.pow;
    })

  unfoldable pub mode_config : Service S C → String → Option ModeConfig
  mode_config s mode =
      if str_eq mode "ip_bound"
      then some (record {
        enabled = s.cfg.pow.ip_bound.enabled;
        max_ttl = s.cfg.pow.ip_bound.max_ttl_seconds;
        opts = s.ip_bound_opts;
      })
      else if str_eq mode "generic"
      then some (record {
        enabled = s.cfg.pow.generic.enabled;
        max_ttl = s.cfg.pow.generic.max_ttl_seconds;
        opts = s.generic_opts;
      })
      else none

  unfoldable pub maybe_dry_run : Service S C → AuthResult → AuthResult
  unfolding dry_run_result
  maybe_dry_run s res = dry_run_result s.cfg.pow.dry_run res

  unfoldable pub bypass_all_effective : Service S C → Bool
  bypass_all_effective s = s.cfg.pow.bypass_all

  unfoldable pub pow_enabled : Service S C → Bool
  pow_enabled s = default_true s.cfg.pow.enabled
