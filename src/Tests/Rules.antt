-- ===== src/Tests/Rules.antt =====
-- The theorems on rule chains, at the inputs of Fixtures.
use hustmirrors_waf_backend.Base.{◌≡◌, refl, String, true, some, [], ◌∷◌, All, ok, ◌<◌}
use hustmirrors_waf_backend.Base.Int.{pos}
use hustmirrors_waf_backend.Risk.Target.{is_terminal}
use hustmirrors_waf_backend.Risk.Types.{
  Chain, Result, Matcher, path_prefix, pow_status, and_matcher, cons, nil,
}
use hustmirrors_waf_backend.Risk.Matcher.{matches}
use hustmirrors_waf_backend.Risk.Compile.{
  match_config, compile_matcher, compile_chains, compile_chain, compile_rule,
}
use hustmirrors_waf_backend.Risk.Compile.Meaning.{compile_matcher-matches, config_accepts}
use hustmirrors_waf_backend.Risk.Engine.{
  Engine, EvalState, Evaluation, Action, action, jump, set_mark, decide, lookup_chain,
  evaluate_with_entry, with_resolver, from_config, new_engine, eval_fuel,
}
use hustmirrors_waf_backend.Risk.Engine.Lookup.{lookup_chain-All}
use hustmirrors_waf_backend.Risk.Engine.Termination.{evaluate_with_entry_total}
use hustmirrors_waf_backend.Risk.Engine.Verdict.{Decides, strip}
use hustmirrors_waf_backend.Risk.Engine.Acyclic.{IsRanked, evaluate_with_entry-Decides}
use hustmirrors_waf_backend.Risk.Engine.Terminal.{from_config-terminal, EndsWell}
use hustmirrors_waf_backend.Fixtures.{
  platform, context, engine, input_chain, condition, chain_configs,
}

abbrev compiled : Matcher
compiled = and_matcher (cons (path_prefix "/ubuntu") (cons (pow_status "missing") nil))

compile_matcher-matches_example :
    matches platform compiled context ≡ config_accepts platform context (match_config condition)
unfolding compile_matcher hustmirrors_waf_backend.Risk.Compile.extension_part match_config
compile_matcher-matches_example =
    compile_matcher-matches platform context (match_config condition) refl

evaluate_with_entry_total_example :
    (r : Evaluation) × (evaluate_with_entry platform engine context "INPUT" ≡ some r)
evaluate_with_entry_total_example = evaluate_with_entry_total platform engine context "INPUT"

mark_is_no_jump : ¬ (action "MARK" ≡ jump)
unfolding action is_terminal
mark_is_no_jump e = let f : set_mark ≡ jump = e in cc

reject_is_no_jump : ¬ (action "REJECT" ≡ jump)
unfolding action is_terminal
reject_is_no_jump e = let f : decide ≡ jump = e in cc

no_jump :
    (name : String)
    → All
        (λ r.
          action r.target ≡ jump
          → (c' : Chain) × (lookup_chain platform engine.chains r.chain ≡ some c') × (◌<◌ 0 0))
        input_chain.rules
no_jump name = ((λ e. absurd (mark_is_no_jump e)), ((λ e. absurd (reject_is_no_jump e)), tt))

engine-IsRanked : IsRanked platform engine.chains (λ name. 0)
unfolding is_terminal
engine-IsRanked = record {
  policy_terminal = λ name c found.
      (lookup_chain-All platform (λ kc. is_terminal kc.1.policy.target ≡ true) engine.chains name
        (refl, tt) found).1;
  jumps_down = λ name c found.
      (lookup_chain-All platform
        (λ kc.
          All
            (λ r.
              action r.target ≡ jump
              → (c' : Chain) × (lookup_chain platform engine.chains r.chain ≡ some c') × (◌<◌ 0 0))
            kc.1.rules)
        engine.chains name (no_jump name, tt) found).1;
}

evaluate_with_entry-Decides_example :
    (ev : Evaluation) × (r : Result) × (evaluate_with_entry platform engine context "INPUT"
      ≡ some ev)
    × (ev.result ≡ ok r)
    × Decides platform
        (with_resolver context)
        engine.chains
        "INPUT"
        input_chain
        input_chain.rules
        r.decision.marks
        (strip r.decision)
    × (is_terminal r.decision.target ≡ true)
unfolding lookup_chain hustmirrors_waf_backend.Risk.Engine.lookup_exact
evaluate_with_entry-Decides_example =
    evaluate_with_entry-Decides platform engine context (λ name. 0) "INPUT" input_chain
      engine-IsRanked refl refl

abbrev built : Engine
built = record {
  chains =
      (
        "INPUT",
        record {
          name = "INPUT";
          rules =
              record {
                name = "solve";
                match = compiled;
                target = "REQUIRE_POW";
                chain = "";
                status = pos 0;
                limit_rate = "";
                reason = "";
                mark = "";
              }
              ∷ [];
          policy = record { target = "REJECT"; status = pos 0; limit_rate = ""; reason = "" };
        },
      )
      ∷ [];
}

from_config-terminal_example :
    (ev : Evaluation) × (evaluate_with_entry platform built context "" ≡ some ev)
    × EndsWell ev.result
unfolding from_config compile_chains compile_chain compile_rule compile_matcher new_engine
    hustmirrors_waf_backend.Risk.Target.is_valid_policy_target
    hustmirrors_waf_backend.Risk.Compile.compile_rules
    hustmirrors_waf_backend.Risk.Target.is_valid_rule_target
    hustmirrors_waf_backend.Risk.Compile.extension_part match_config
from_config-terminal_example =
    from_config-terminal platform true chain_configs built context "" refl
