-- ===== src/Risk/Compile/Errors.antt =====
-- Which errors the compilation of internal/risk/config.go and matcher.go can still have once targets and
-- regular expressions are known to be good.
use hustmirrors_waf_backend.Base.{
  ◌≡◌, ◌⊎◌, inl, inr, String, Bool, true, false, List, [], ◌∷◌, All, is_empty, Fallible, ok, err,
  ◌>>=◌, require, Bool-cases,
}
use hustmirrors_waf_backend.Platform.{Platform}
use hustmirrors_waf_backend.Risk.Target.{is_valid_rule_target, is_valid_policy_target}
use hustmirrors_waf_backend.Risk.Types.{Matcher, path_regex, ua_regex}
use hustmirrors_waf_backend.Risk.Compile.{
  MatchConfig, RuleConfig, ChainConfig, CompileError, disabled, no_chains, bad_regexp, bad_cidr,
  bad_policy_target, bad_rule_target, regex_part, parse_cidrs, cidr_part, compile_matcher,
  match_config, compile_rule, compile_rules, compile_chain, compile_chains,
}

-- A result, or the error on a network.
abbrev pub IsCidrOnly : {A : Type 0} → Fallible CompileError A → Type 0
IsCidrOnly (ok x) = Unit {0}
IsCidrOnly (err (bad_cidr c)) = Unit {0}
IsCidrOnly (err disabled) = ⊥
IsCidrOnly (err no_chains) = ⊥
IsCidrOnly (err (bad_regexp c)) = ⊥
IsCidrOnly (err (bad_policy_target c)) = ⊥
IsCidrOnly (err (bad_rule_target c)) = ⊥

>>=-IsCidrOnly :
    {A B : Type 0} (r : Fallible CompileError A) (k : A → Fallible CompileError B)
    → IsCidrOnly r
    → ((x : A) → IsCidrOnly (k x))
    → IsCidrOnly (r >>= k)
>>=-IsCidrOnly (ok x) k p q = q x
>>=-IsCidrOnly (err (bad_cidr c)) k p q = tt
>>=-IsCidrOnly (err disabled) k p q = p
>>=-IsCidrOnly (err no_chains) k p q = p
>>=-IsCidrOnly (err (bad_regexp c)) k p q = p
>>=-IsCidrOnly (err (bad_policy_target c)) k p q = p
>>=-IsCidrOnly (err (bad_rule_target c)) k p q = p

require-IsCidrOnly : (b : Bool) (e : CompileError) → b ≡ true → IsCidrOnly (require b e)
require-IsCidrOnly true e h = tt
require-IsCidrOnly false e h = cc

require_cidr : (b : Bool) (c : String) → IsCidrOnly (require b (bad_cidr c))
require_cidr true c = tt
require_cidr false c = tt

module _ (g : Platform) where
  abbrev pub IsGoodRegexp : String → Type 0
  IsGoodRegexp re = (is_empty re ≡ true) ⊎ (g.regexp_compiles re ≡ true)

  regex_part-IsCidrOnly :
      (f : String → Matcher) (re : String) → IsGoodRegexp re → IsCidrOnly (regex_part g f re)
  unfolding regex_part
  regex_part-IsCidrOnly f re (inl e) = rw e tt
  regex_part-IsCidrOnly f re (inr c) = elim (Bool-cases (is_empty re)) [
    | inl e ↦ rw e tt
    | inr e ↦ rw (e, c) tt
  ]

  parse_cidrs-IsCidrOnly : (cs : List String) → IsCidrOnly (parse_cidrs g cs)
  unfolding parse_cidrs
  parse_cidrs-IsCidrOnly [] = tt
  parse_cidrs-IsCidrOnly (c ∷ cs) =
      >>=-IsCidrOnly (require (g.cidr_parses c) (bad_cidr c)) _ (require_cidr (g.cidr_parses c) c)
        λ u. >>=-IsCidrOnly (parse_cidrs g cs) _ (parse_cidrs-IsCidrOnly cs) λ nets. tt

  cidr_part-IsCidrOnly : (cs : List String) → IsCidrOnly (cidr_part g cs)
  unfolding cidr_part
  cidr_part-IsCidrOnly [] = tt
  cidr_part-IsCidrOnly (c ∷ cs) =
      >>=-IsCidrOnly (parse_cidrs g (c ∷ cs)) _ (parse_cidrs-IsCidrOnly (c ∷ cs)) λ nets. tt

  compile_matcher-IsCidrOnly :
      (m : MatchConfig)
      → IsGoodRegexp m.path_regex
      → IsGoodRegexp m.user_agent_regex
      → IsCidrOnly (compile_matcher g m)
  unfolding compile_matcher
  compile_matcher-IsCidrOnly m p u =
      >>=-IsCidrOnly (regex_part g path_regex m.path_regex) _
        (regex_part-IsCidrOnly path_regex m.path_regex p)
        λ path.
          >>=-IsCidrOnly (cidr_part g m.ip_cidr_in) _ (cidr_part-IsCidrOnly m.ip_cidr_in) λ nets.
            >>=-IsCidrOnly (regex_part g ua_regex m.user_agent_regex) _
              (regex_part-IsCidrOnly ua_regex m.user_agent_regex u) λ agent. tt

  -- What the compilation of a rule needs.
  abbrev pub IsGoodRule : RuleConfig → Type 0
  IsGoodRule r =
      (is_valid_rule_target r.target ≡ true)
      × IsGoodRegexp r.match.path_regex
      × IsGoodRegexp r.match.user_agent_regex

  abbrev pub IsGoodChain : String × ChainConfig → Type 0
  IsGoodChain (name, c) = (is_valid_policy_target c.policy.target ≡ true) × All IsGoodRule c.rules

  compile_rules-IsCidrOnly :
      (rs : List RuleConfig) → All IsGoodRule rs → IsCidrOnly (compile_rules g rs)
  unfolding compile_rules compile_rule match_config
  compile_rules-IsCidrOnly [] a = tt
  compile_rules-IsCidrOnly (r ∷ rs) ((t, p, u), a) =
      >>=-IsCidrOnly (compile_rule g r) _
        (>>=-IsCidrOnly (require (is_valid_rule_target r.target) (bad_rule_target r.target)) _
          (require-IsCidrOnly (is_valid_rule_target r.target) (bad_rule_target r.target) t)
          λ x.
            >>=-IsCidrOnly (compile_matcher g (match_config r.match)) _
              (compile_matcher-IsCidrOnly (match_config r.match) p u) λ m. tt)
        λ rule. >>=-IsCidrOnly (compile_rules g rs) _ (compile_rules-IsCidrOnly rs a) λ rules. tt

  pub compile_chains-IsCidrOnly :
      (cs : List (String × ChainConfig)) → All IsGoodChain cs → IsCidrOnly (compile_chains g cs)
  unfolding compile_chains compile_chain
  compile_chains-IsCidrOnly [] a = tt
  compile_chains-IsCidrOnly ((name, c) ∷ cs) ((t, rs), a) =
      >>=-IsCidrOnly (compile_chain g name c) _
        (>>=-IsCidrOnly
          (require (is_valid_policy_target c.policy.target) (bad_policy_target c.policy.target)) _
          (require-IsCidrOnly (is_valid_policy_target c.policy.target)
            (bad_policy_target c.policy.target) t)
          λ x.
            >>=-IsCidrOnly (compile_rules g c.rules) _ (compile_rules-IsCidrOnly c.rules rs)
              λ rules. tt)
        λ chain.
          >>=-IsCidrOnly (compile_chains g cs) _ (compile_chains-IsCidrOnly cs a) λ chains. tt
