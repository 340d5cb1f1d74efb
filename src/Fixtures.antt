-- ===== src/Fixtures.antt =====
-- Concrete inputs for the tests: an engine, a configuration, a service with its parameters.
pub mod Disk
use Prim.Native.Char.{code}
use hustmirrors_waf_backend.Base.{
  String, true, false, none, some, List, [], ◌∷◌, str_eq, ◌==◌, if◌then◌else◌,
}
use hustmirrors_waf_backend.Base.Int.{pos}
use hustmirrors_waf_backend.Platform.{Platform}
use hustmirrors_waf_backend.Risk.Types.{RequestContext, Rule, Chain, path_prefix}
use hustmirrors_waf_backend.Risk.Compile.{ConfiguredMatch, ChainConfig}
use hustmirrors_waf_backend.Risk.Engine.{Engine}
use hustmirrors_waf_backend.Risk.Pending.{new_ip_pending_blocker}
use hustmirrors_waf_backend.Storage.Usage.{UsageStore, usage_ops}
use hustmirrors_waf_backend.Pow.Token.{TokenPayload}
use hustmirrors_waf_backend.Pow.Sign.{Crypto}
use hustmirrors_waf_backend.Auth.Result.{AuthRequest}
use hustmirrors_waf_backend.Auth.Service.{
  ModeSettings, PowSettings, Config, Service, ip_bound_options, generic_options,
}
use hustmirrors_waf_backend.Auth.Check.{Url}
use hustmirrors_waf_backend.Auth.Usage.{Clock}
use hustmirrors_waf_backend.Auth.Verdict.{World}

abbrev pub platform : Platform
platform = record {
  upper_rune = λ c. c;
  lower_rune = λ c. c;
  fold_rune = λ c d. code c == code d;
  regexp_compiles = λ re. true;
  regexp_match = λ re s. false;
  parse_addr = λ s. some (record { is4 = true; value = 16909060; zone = "" });
  addr_string = λ a. "1.2.3.4";
  cidr_parses = λ s. true;
  cidr_contains = λ s a. false;
}

abbrev pub context : RequestContext
context = record {
  path = "/ubuntu.iso";
  method = "GET";
  args = "";
  ip = "1.2.3.4";
  user_agent = "curl";
  has_token = false;
  has_sign = false;
  pow_status = "missing";
  pow_mode = "";
  is_protected = true;
  is_range_request = false;
  counters = none;
}

abbrev pub rule : String → String → String → Rule
rule name target mark = record {
  name = name;
  match = path_prefix "/ubuntu";
  target = target;
  chain = "";
  status = pos 0;
  limit_rate = "";
  reason = "";
  mark = mark;
}

abbrev pub input_chain : Chain
input_chain = record {
  name = "INPUT";
  rules = rule "note" "MARK" "iso" ∷ rule "deny" "REJECT" "" ∷ [];
  policy = record { target = "ACCEPT"; status = pos 0; limit_rate = ""; reason = "" };
}

abbrev pub engine : Engine
engine = record { chains = ("INPUT", input_chain) ∷ [] }

abbrev pub condition : ConfiguredMatch
condition = record {
  path_regex = "";
  path_prefix = "/ubuntu";
  extension_in = [];
  method_in = [];
  ip_cidr_in = [];
  user_agent_regex = "";
  pow_status = "missing";
  pow_status_in = [];
  pow_mode = "";
  is_protected = none;
  is_range_request = none;
  counter = none;
  risk_score_gte = none;
}

abbrev pub chain_configs : List (String × ChainConfig)
chain_configs =
    (
      "INPUT",
      record {
        policy = record { target = "REJECT"; status = pos 0; limit_rate = ""; reason = "" };
        rules =
            record {
              name = "solve";
              match = condition;
              target = "REQUIRE_POW";
              chain = "";
              status = pos 0;
              limit_rate = "";
              reason = "";
              mark = "";
            }
            ∷ [];
      },
    )
    ∷ []

abbrev pub zero_hex : String
zero_hex = "0000000000000000000000000000000000000000000000000000000000000000"

abbrev pub payload : TokenPayload
payload = record {
  version = pos 1;
  mode = "generic";
  algorithm = "sha256";
  ip = "";
  path = "/ubuntu.iso";
  timestamp = pos 1000;
  expires_at = pos 2000;
  difficulty = pos 8;
  counter = "7";
  salt = "s";
}

-- A hash of zero bytes, and one token.
abbrev pub crypto : Crypto
crypto = record {
  sha256 = λ s. 0 ∷ 0 ∷ 0 ∷ 0 ∷ [];
  hex = λ bytes. zero_hex;
  unmarshal = λ s. if str_eq s "t" then some payload else none;
}

abbrev pub url : Url
url = record { parse_query = λ args. some (λ name. if str_eq name "token" then "t" else zero_hex) }

abbrev pub mode_settings : ModeSettings
mode_settings = record {
  enabled = true;
  min_difficulty = pos 8;
  max_difficulty = pos 16;
  max_ttl_seconds = pos 3600;
  require_ip = false;
  count_usage = false;
  max_uses = pos 2;
  count_head_request = false;
}

abbrev pub pow_settings : PowSettings
pow_settings = record {
  enabled = none;
  dry_run = false;
  bypass_all = false;
  token_param = "token";
  sign_param = "sign";
  max_token_length = pos 4096;
  max_sign_length = pos 128;
  algorithm = "sha256";
  public_salt = "s";
  allow_empty_salt = false;
  allowed_previous_salts = [];
  ip_bound = mode_settings;
  generic = mode_settings;
}

abbrev pub config : Config
config = record {
  pow = pow_settings;
  risk_control_enabled = false;
  pending_enabled = none;
  has_counters = false;
  expired_grace_period = pos 0;
}

-- Risk control is off; the counters have no state.
abbrev pub service : Service UsageStore (Unit {0})
service = record {
  cfg = config;
  should_protect = λ path. true;
  usage_store = some (usage_ops (pos 1500));
  risk_engine = none;
  counter_reg = none;
  has_blocker = false;
  ip_bound_opts = ip_bound_options pow_settings;
  generic_opts = generic_options pow_settings;
}

abbrev pub request : AuthRequest
request = record {
  original_uri = "/ubuntu.iso";
  original_method = "GET";
  original_args = "token=t";
  real_ip = "1.2.3.4";
  user_agent = "curl";
  original_range = "";
}

abbrev pub clock : Clock
clock = record {
  classify = pos 1500;
  verify = pos 1500;
  charge = pos 1500;
  bind = pos 1500;
  enter = 5;
  leave = 9;
}

abbrev pub world : World UsageStore (Unit {0})
world = record {
  usage = record { records = []; closed = false };
  counters = tt;
  blocker = new_ip_pending_blocker (pos 2) (pos 0);
}
