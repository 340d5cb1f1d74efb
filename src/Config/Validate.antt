-- ===== src/Config/Validate.antt =====
-- internal/config/validate.go. A problem is a value instead of a text, with what the text names. The maps
-- are lists of pairs, in the order in which Go visits them.
pub mod Cycles
pub mod Everything
pub mod Compiles
pub mod Fuel
use Prim.Native.String
use Prim.Native.Char.{code}
use hustmirrors_waf_backend.Base.{
  ℕ, zero, suc, ◌+◌, String, Bool, true, false, not, ◌&&◌, ◌||◌, Option, none, some, List, [], ◌∷◌,
  ◌++◌, any, between, ltb, ◌==◌, str_eq, length, if◌then◌else◌, is_empty, map_get, map_put,
}
use hustmirrors_waf_backend.Base.Int.{ℤ, pos, leb_ℤ, ltb_ℤ}
use hustmirrors_waf_backend.Platform.{Platform, to_upper, equal_fold}
use hustmirrors_waf_backend.Pow.Token.{default_algorithm}
use hustmirrors_waf_backend.Risk.Types.{CounterMatch}
use hustmirrors_waf_backend.Risk.Compile.{MatchConfig, RuleConfig, PolicyConfig, ChainConfig}
use hustmirrors_waf_backend.Risk.Counter.{CounterConfig, CounterDefs}
use hustmirrors_waf_backend.Auth.Service.{ModeSettings, PowSettings}
use hustmirrors_waf_backend.Config.Settings.{
  ServerConfig, ProtectionConfig, StorageConfig, PendingConfig, RiskControlConfig, Settings,
}

pub data Problem : Type 0 where
  no_mode max_uses dsn_required addr_required max_per_ip_low max_per_ip_high block_ttl no_chain :
      Problem
  read_timeout shutdown_timeout out_of_fuel : Problem
  negative_difficulty difficulty_order count_usage max_ttl bad_pattern bad_driver
        bad_counter_driver :
      String → Problem
  bad_algorithm empty_param policy_missing bad_policy bad_policy_rate cycle bad_window no_key
        bad_key bad_storage :
      String → Problem
  -- the chain, the index of the rule, and what is wrong with it
  in_rule : String → ℕ → String → Problem

abbrev pub report : Bool → Problem → List Problem
report true p = p ∷ []
report false p = []

unfoldable pub check_mode_difficulty : String → ModeSettings → List Problem
check_mode_difficulty name m =
    if ltb_ℤ m.min_difficulty (pos 0) || ltb_ℤ m.max_difficulty (pos 0)
    then negative_difficulty name ∷ []
    else report (ltb_ℤ m.max_difficulty m.min_difficulty) (difficulty_order name)

unfoldable pub is_one_of : String → List String → Bool
is_one_of t ts = any (str_eq t) ts

-- isValidTarget.
unfoldable pub is_valid_target : String → Bool → Bool
unfolding is_one_of
is_valid_target t policy =
    if is_one_of t ("ACCEPT" ∷ "REJECT" ∷ "RATE_LIMIT" ∷ "TOO_MANY" ∷ "REQUIRE_POW" ∷ [])
    then true
    else is_one_of t ("JUMP" ∷ "RETURN" ∷ "LOG" ∷ "MARK" ∷ []) && not policy

-- The expression ^[0-9]+[kKmMgG]?$, after some digits.
unfoldable pub matches_limit_rate : Bool → String → Bool
matches_limit_rate seen String.[] = seen
matches_limit_rate seen (String.◌∷◌ c s) =
    let rest = matches_limit_rate true s in
    if between 48 57 (code c)
    then rest
    else seen && (is_empty s && any (λ n. code c == n) (107 ∷ 75 ∷ 109 ∷ 77 ∷ 103 ∷ 71 ∷ []))

unfoldable pub is_valid_limit_rate : String → Bool
unfolding matches_limit_rate
is_valid_limit_rate s = str_eq s "0" || matches_limit_rate false s

unfoldable pub is_valid_counter_op : String → Bool
unfolding is_one_of
is_valid_counter_op op = is_one_of op ("==" ∷ "!=" ∷ ">=" ∷ ">" ∷ "<=" ∷ "<" ∷ [])

abbrev pub is_set : {A : Type 0} → Option A → Bool
is_set none = false
is_set (some x) = true

unfoldable pub has_counter : String → CounterDefs → Bool
has_counter name [] = false
has_counter name ((k, c) ∷ cs) = str_eq k name || has_counter name cs

module _ (g : Platform) where
  abbrev pub bad_regexp_at : (String → Problem) → String → List Problem
  bad_regexp_at problem re = report (not (is_empty re) && not (g.regexp_compiles re)) (problem re)

  unfoldable pub check_patterns : String → List String → List Problem
  check_patterns name [] = []
  check_patterns name (re ∷ res) =
      report (not (g.regexp_compiles re)) (bad_pattern name) ++ check_patterns name res

  unfoldable pub chain_exists : List (String × ChainConfig) → String → Bool
  unfolding equal_fold
  chain_exists [] name = false
  chain_exists ((k, c) ∷ cs) name = str_eq k name || (equal_fold g k name || chain_exists cs name)

  unfoldable pub check_counter :
      (String → Problem) → CounterDefs → Option CounterMatch → List Problem
  unfolding is_valid_counter_op has_counter
  check_counter problem defs none = []
  check_counter problem defs (some c) =
      (if is_empty c.name
        then problem "counter.name" ∷ []
        else report (not (has_counter c.name defs)) (problem "counter"))
      ++ report (not (is_valid_counter_op c.op)) (problem "counter.op")

  unfoldable pub check_jump :
      (String → Problem) → List (String × ChainConfig) → RuleConfig → List Problem
  unfolding chain_exists
  check_jump problem chains rule =
      if not (str_eq rule.target "JUMP")
      then []
      else if is_empty rule.chain
      then problem "chain" ∷ []
      else report (not (chain_exists chains rule.chain)) (problem "jump")

  unfoldable pub check_rule : RiskControlConfig → (String → Problem) → RuleConfig → List Problem
  unfolding is_valid_target is_valid_limit_rate check_jump check_counter
  check_rule rc problem rule =
      report (is_empty rule.name) (problem "name")
      ++ (report (not (is_valid_target rule.target false)) (problem "target")
          ++ (bad_regexp_at (λ re. problem "path_regex") rule.match.path_regex
              ++ (bad_regexp_at (λ re. problem "user_agent_regex") rule.match.user_agent_regex
                  ++ (report
                        (not (is_empty rule.limit_rate)
                          && not (is_valid_limit_rate rule.limit_rate))
                        (problem "limit_rate")
                      ++ (check_jump problem rc.chains rule
                          ++ (report (is_set rule.match.risk_score_gte) (problem "risk_score_gte")
                              ++ check_counter problem rc.counters rule.match.counter))))))

  unfoldable pub check_rules : RiskControlConfig → String → ℕ → List RuleConfig → List Problem
  unfolding check_rule
  check_rules rc name i [] = []
  check_rules rc name i (rule ∷ rules) =
      check_rule rc (in_rule name i) rule ++ check_rules rc name (i + 1) rules

  unfoldable pub check_chains : RiskControlConfig → List (String × ChainConfig) → List Problem
  unfolding is_valid_target is_valid_limit_rate check_rules
  check_chains rc [] = []
  check_chains rc ((name, chain) ∷ chains) =
      let p = chain.policy in
      report (is_empty p.target) (policy_missing name)
      ++ (report (not (is_valid_target p.target true)) (bad_policy name)
          ++ (report (not (is_empty p.limit_rate) && not (is_valid_limit_rate p.limit_rate))
                (bad_policy_rate name)
              ++ (check_rules rc name 0 chain.rules ++ check_chains rc chains)))
