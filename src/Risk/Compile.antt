-- ===== src/Risk/Compile.antt =====
-- internal/risk/matcher.go, CompileMatcher, and internal/risk/config.go.
pub mod Meaning
pub mod Errors
use Prim.Native.String
use hustmirrors_waf_backend.Base.{
  ℕ, String, Bool, true, false, not, Option, none, some, List, [], ◌∷◌, ◌++◌, str_eq, if◌then◌else◌,
  all, is_empty, map, Fallible, ok, err, ◌>>=◌, ◌>>◌, require,
}
use hustmirrors_waf_backend.Base.Int.{ℤ}
use hustmirrors_waf_backend.Platform.{Platform, to_upper, to_lower, trim_space, has_prefix}
use hustmirrors_waf_backend.Risk.Target.{is_valid_rule_target, is_valid_policy_target}
use hustmirrors_waf_backend.Risk.Types.{
  CounterMatch, Matcher, Matchers, match_all, path_regex, path_prefix, extension, method, ip_cidr,
  ua_regex, pow_status, pow_status_in, pow_mode, bool_matcher, counter, and_matcher, nil, cons,
  Rule, Policy, Chain, ChainMap,
}

pub record MatchConfig : Type 0 where
  pub path_regex : String
  pub path_prefix : String
  pub extension_in : List String
  pub method_in : List String
  pub ip_cidr_in : List String
  pub user_agent_regex : String
  pub pow_status : String
  pub pow_status_in : List String
  pub pow_mode : String
  pub is_protected : Option Bool
  pub is_range_request : Option Bool
  pub counter : Option CounterMatch

-- MatchConfig of internal/config.
pub record ConfiguredMatch : Type 0 where
  pub path_regex : String
  pub path_prefix : String
  pub extension_in : List String
  pub method_in : List String
  pub ip_cidr_in : List String
  pub user_agent_regex : String
  pub pow_status : String
  pub pow_status_in : List String
  pub pow_mode : String
  pub is_protected : Option Bool
  pub is_range_request : Option Bool
  pub counter : Option CounterMatch
  pub risk_score_gte : Option ℤ

pub record RuleConfig : Type 0 where
  pub name : String
  pub match : ConfiguredMatch
  pub target : String
  pub chain : String
  pub status : ℤ
  pub limit_rate : String
  pub reason : String
  pub mark : String

pub record PolicyConfig : Type 0 where
  pub target : String
  pub status : ℤ
  pub limit_rate : String
  pub reason : String

pub record ChainConfig : Type 0 where
  pub policy : PolicyConfig
  pub rules : List RuleConfig

pub data CompileError : Type 0 where
  disabled no_chains : CompileError
  bad_regexp bad_cidr : String → CompileError
  bad_policy_target bad_rule_target : String → CompileError

-- A part for a text that is set.
abbrev text_part : (String → Matcher) → String → List Matcher
text_part f s = if is_empty s then [] else f s ∷ []

abbrev list_part : (List String → Matcher) → List String → List Matcher
list_part f [] = []
list_part f (x ∷ xs) = f (x ∷ xs) ∷ []

bool_part : String → Option Bool → List Matcher
bool_part field none = []
bool_part field (some want) = bool_matcher field want ∷ []

counter_part : Option CounterMatch → List Matcher
counter_part none = []
counter_part (some c) = counter c ∷ []

pub to_matchers : List Matcher → Matchers
to_matchers [] = nil
to_matchers (p ∷ ps) = cons p (to_matchers ps)

-- The parts in the order in which they are appended.
pub gather : List (List Matcher) → List Matcher
gather [] = []
gather (ps ∷ pss) = ps ++ gather pss

-- The parts joined: none accepts everything, one stands alone.
pub join_parts : List Matcher → Matcher
unfolding to_matchers
join_parts [] = match_all
join_parts (p ∷ []) = p
join_parts (p ∷ q ∷ ps) = and_matcher (to_matchers (p ∷ q ∷ ps))

-- The fields that compileRule passes on; risk_score_gte is not among them.
unfoldable pub match_config : ConfiguredMatch → MatchConfig
match_config m = record {
  path_regex = m.path_regex;
  path_prefix = m.path_prefix;
  extension_in = m.extension_in;
  method_in = m.method_in;
  ip_cidr_in = m.ip_cidr_in;
  user_agent_regex = m.user_agent_regex;
  pow_status = m.pow_status;
  pow_status_in = m.pow_status_in;
  pow_mode = m.pow_mode;
  is_protected = m.is_protected;
  is_range_request = m.is_range_request;
  counter = m.counter;
}

module _ (g : Platform) where
  unfoldable pub normalize_extensions : List String → List String
  normalize_extensions [] = []
  normalize_extensions (x ∷ xs) =
      let rest = normalize_extensions xs in
      let e = to_lower g (trim_space x) in
      if is_empty e then rest else (if has_prefix e "." then e else String.◌++◌ "." e) ∷ rest

  unfoldable pub extension_part : List String → List Matcher
  unfolding normalize_extensions
  extension_part xs = list_part (λ ys. extension (normalize_extensions ys)) xs

  method_part : List String → List Matcher
  method_part xs = list_part (λ ys. method (map (λ m. to_upper g (trim_space m)) ys)) xs

  regex_part : (String → Matcher) → String → Fallible CompileError (List Matcher)
  regex_part f re =
      if is_empty re
      then ok []
      else if g.regexp_compiles re
      then ok (f re ∷ [])
      else err (bad_regexp re)

  parse_cidrs : List String → Fallible CompileError (List String)
  parse_cidrs [] = ok []
  parse_cidrs (c ∷ cs) = do
    require (g.cidr_parses c) (bad_cidr c)
    nets ← parse_cidrs cs
    ok (c ∷ nets)

  cidr_part : List String → Fallible CompileError (List Matcher)
  unfolding parse_cidrs
  cidr_part [] = ok []
  cidr_part (c ∷ cs) = do nets ← parse_cidrs (c ∷ cs); ok (ip_cidr nets ∷ [])

  -- What is appended for each field; the parts that can fail have been compiled.
  part_lists : MatchConfig → List Matcher → List Matcher → List Matcher → List (List Matcher)
  part_lists m path nets agent =
      path
      ∷ text_part path_prefix m.path_prefix
      ∷ extension_part m.extension_in
      ∷ method_part m.method_in
      ∷ nets
      ∷ agent
      ∷ text_part pow_status m.pow_status
      ∷ list_part pow_status_in m.pow_status_in
      ∷ text_part pow_mode m.pow_mode
      ∷ bool_part "is_protected" m.is_protected
      ∷ bool_part "is_range_request" m.is_range_request
      ∷ counter_part m.counter
      ∷ []

  unfoldable pub compile_matcher : MatchConfig → Fallible CompileError Matcher
  unfolding method_part regex_part cidr_part bool_part counter_part join_parts gather part_lists
  compile_matcher m = do
    path ← regex_part path_regex m.path_regex
    nets ← cidr_part m.ip_cidr_in
    agent ← regex_part ua_regex m.user_agent_regex
    ok (join_parts (gather (part_lists m path nets agent)))

  unfoldable pub compile_rule : RuleConfig → Fallible CompileError Rule
  compile_rule rc = do
    require (is_valid_rule_target rc.target) (bad_rule_target rc.target)
    m ← compile_matcher (match_config rc.match)
    ok (record {
      name = rc.name;
      match = m;
      target = rc.target;
      chain = rc.chain;
      status = rc.status;
      limit_rate = rc.limit_rate;
      reason = rc.reason;
      mark = rc.mark;
    })

  unfoldable pub compile_rules : List RuleConfig → Fallible CompileError (List Rule)
  compile_rules [] = ok []
  compile_rules (rc ∷ rcs) = do rule ← compile_rule rc; rules ← compile_rules rcs; ok (rule ∷ rules)

  unfoldable pub compile_chain : String → ChainConfig → Fallible CompileError Chain
  compile_chain name cc = do
    require (is_valid_policy_target cc.policy.target) (bad_policy_target cc.policy.target)
    rules ← compile_rules cc.rules
    ok (record {
      name = name;
      rules = rules;
      policy = record {
        target = cc.policy.target;
        status = cc.policy.status;
        limit_rate = cc.policy.limit_rate;
        reason = cc.policy.reason;
      };
    })

  unfoldable pub compile_chains : List (String × ChainConfig) → Fallible CompileError ChainMap
  compile_chains [] = ok []
  compile_chains ((name, cc) ∷ rest) = do
    chain ← compile_chain name cc
    chains ← compile_chains rest
    ok ((name, chain) ∷ chains)
