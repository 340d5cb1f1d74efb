-- ===== src/Risk/Types.antt =====
-- internal/risk/types.go and the types of internal/risk/chain.go and matcher.go.
-- An int64 or int is a ℤ. A compiled regular expression is known by its pattern, a parsed network
-- by its text, so a compiled matcher holds the texts that it was compiled from.
use hustmirrors_waf_backend.Base.{String, Bool, List, Option}
use hustmirrors_waf_backend.Base.Int.{ℤ, pos}

-- A resolver answers with the value of a named counter.
abbrev pub CounterResolver : Type 0
CounterResolver = String → ℤ

abbrev pub noop_counter_resolver : CounterResolver
noop_counter_resolver _ = pos 0

pub record RequestContext : Type 0 where
  pub path : String
  pub method : String
  pub args : String
  pub ip : String
  pub user_agent : String
  pub has_token : Bool
  pub has_sign : Bool
  pub pow_status : String
  pub pow_mode : String
  pub is_protected : Bool
  pub is_range_request : Bool
  pub counters : Option CounterResolver

pub record Decision : Type 0 where
  pub target : String
  pub status_code : ℤ
  pub limit_rate : String
  pub reason : String
  pub chain : String
  pub rule_name : String
  pub marks : List String

pub record TraceStep : Type 0 where
  pub chain : String
  pub rule : String
  pub matched : Bool
  pub target : String
  pub jump_to : String

pub record Result : Type 0 where
  pub decision : Decision
  pub trace : List TraceStep

pub record CounterMatch : Type 0 where
  pub name : String
  pub op : String
  pub value : ℤ

-- One constructor for each type that implements the interface Matcher.
mutual
  pub data Matcher : Type 0 where
    match_all : Matcher
    path_regex : String → Matcher
    path_prefix : String → Matcher
    extension : List String → Matcher
    method : List String → Matcher
    ip_cidr : List String → Matcher
    ua_regex : String → Matcher
    pow_status : String → Matcher
    pow_status_in : List String → Matcher
    pow_mode : String → Matcher
    bool_matcher : String → Bool → Matcher
    counter : CounterMatch → Matcher
    and_matcher : Matchers → Matcher

  -- The slice of matchers that an andMatcher holds.
  pub data Matchers : Type 0 where
    nil : Matchers
    cons : Matcher → Matchers → Matchers

pub record Rule : Type 0 where
  pub name : String
  pub match : Matcher
  pub target : String
  pub chain : String
  pub status : ℤ
  pub limit_rate : String
  pub reason : String
  pub mark : String

pub record Policy : Type 0 where
  pub target : String
  pub status : ℤ
  pub limit_rate : String
  pub reason : String

pub record Chain : Type 0 where
  pub name : String
  pub rules : List Rule
  pub policy : Policy

-- A map of chains, in the order in which a range over it visits them.
abbrev pub ChainMap : Type 0
ChainMap = List (String × Chain)
