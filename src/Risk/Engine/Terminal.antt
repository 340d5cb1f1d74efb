-- ===== src/Risk/Engine/Terminal.antt =====
-- A configuration that compiles evaluates to terminal decisions only.
use hustmirrors_waf_backend.Base.{
  ℕ, zero, suc, ◌≡◌, refl, ap, String, Bool, true, false, Option, none, some, List, [], ◌∷◌,
  is_empty, if◌then◌else◌, All, Fallible, ok, err, arith, Bool-cases,
}
use hustmirrors_waf_backend.Platform.{Platform}
use hustmirrors_waf_backend.Risk.Target.{is_terminal}
use hustmirrors_waf_backend.Risk.Types.{RequestContext, Decision, Result, Rule, Chain, ChainMap}
use hustmirrors_waf_backend.Risk.Matcher.{matches}
use hustmirrors_waf_backend.Risk.Engine.{
  EvalState, EvalError, Engine, Action, decide, jump, give_policy, set_mark, proceed, action,
  add_mark, fill_reason, settle, after_jump, take_action, step_rule, guard_chain, walk_rules,
  enter_chain, eval_chain, lookup_chain, Outcome, initial, with_resolver, apply_policy,
  decision_from_rule, depth_exceeded, eval_fuel, Evaluation, evaluate_with_entry, finish,
}
use hustmirrors_waf_backend.Base.{inl, inr, >>=-eq-ok, require->>-eq-ok}
use mathlib.Core.Path.{subst}
use hustmirrors_waf_backend.Risk.Target.{is_valid_policy_target}
use hustmirrors_waf_backend.Risk.Compile.{
  ChainConfig, CompileError, compile_rules, compile_chain, compile_chains, disabled,
  bad_policy_target,
}
use hustmirrors_waf_backend.Risk.Engine.{new_engine, from_config}
use hustmirrors_waf_backend.Risk.Engine.Termination.{eval_chain_total}
use hustmirrors_waf_backend.Risk.Engine.Lookup.{lookup_chain-All}

ok-injective : {A : Type 0} {a b : A} → ◌≡◌ {A = Fallible CompileError A} (ok a) (ok b) → a ≡ b
ok-injective e = cc

abbrev HasTerminalPolicy : String × Chain → Type 0
HasTerminalPolicy kc = is_terminal kc.1.policy.target ≡ true

-- A decision that comes back is terminal.
abbrev EndsTerminal : Outcome → Type 0
EndsTerminal o = (st : EvalState) (d : Decision) → o ≡ some (st, ok d) → is_terminal d.target ≡ true

terminal_of_decide : (t : String) → action t ≡ decide → is_terminal t ≡ true
unfolding action
terminal_of_decide t h = ground arith

fill_reason-target : (r : Rule) (d : Decision) → (fill_reason r d).target ≡ d.target
unfolding fill_reason
fill_reason-target r d = elim (Bool-cases (is_empty d.reason)) [ inl t ↦ rw t | inr t ↦ rw t ]

EndsTerminal-at :
    (st : EvalState) (d : Decision) → is_terminal d.target ≡ true → EndsTerminal (some (st, ok d))
EndsTerminal-at st d h st' d' p = let e : d' ≡ d = cc in rw e h

module _ (g : Platform) (jump_to : String → EvalState → Outcome)
    (ih : (name : String) (st : EvalState) → EndsTerminal (jump_to name st)) where
  settle-EndsTerminal :
      (rule : Rule) (st : EvalState) (d : Decision) (t : Bool) (next : EvalState → Outcome)
      → is_terminal d.target ≡ t
      → ((s : EvalState) → EndsTerminal (next s))
      → EndsTerminal (settle g rule st d t next)
  unfolding settle
  settle-EndsTerminal rule st d true next h n =
      EndsTerminal-at st (fill_reason rule d) (rw (fill_reason-target rule d) h)
  settle-EndsTerminal rule st d false next h n = n st

  after_jump-EndsTerminal :
      (rule : Rule) (o : Outcome) (next : EvalState → Outcome)
      → ((s : EvalState) → EndsTerminal (next s))
      → EndsTerminal (after_jump g rule o next)
  unfolding after_jump
  after_jump-EndsTerminal rule none next n st d p = cc
  after_jump-EndsTerminal rule (some (st0, err e)) next n st d p = cc
  after_jump-EndsTerminal rule (some (st0, ok d0)) next n st d p =
      settle-EndsTerminal rule st0 d0 (is_terminal d0.target) next refl n st d p

  step_rule-EndsTerminal :
      (name : String) (chain : Chain) (rule : Rule) (a : Action) (st : EvalState)
      (next : EvalState → Outcome)
      → action rule.target ≡ a
      → is_terminal chain.policy.target ≡ true
      → ((s : EvalState) → EndsTerminal (next s))
      → EndsTerminal (take_action g jump_to name chain rule a st next)
  unfolding take_action decision_from_rule apply_policy
  step_rule-EndsTerminal name chain rule decide st next e h n =
      EndsTerminal-at st _ (terminal_of_decide rule.target e)
  step_rule-EndsTerminal name chain rule jump st next e h n =
      after_jump-EndsTerminal rule (jump_to rule.chain st) next n
  step_rule-EndsTerminal name chain rule give_policy st next e h n = EndsTerminal-at st _ h
  step_rule-EndsTerminal name chain rule set_mark st next e h n = n (add_mark rule st)
  step_rule-EndsTerminal name chain rule proceed st next e h n = n st

  round-EndsTerminal :
      (name : String) (chain : Chain) (rule : Rule) (matched : Bool) (st : EvalState)
      (next : EvalState → Outcome)
      → is_terminal chain.policy.target ≡ true
      → ((s : EvalState) → EndsTerminal (next s))
      → EndsTerminal (step_rule g jump_to name chain rule matched st next)
  unfolding step_rule
  round-EndsTerminal name chain rule true st next h n =
      step_rule-EndsTerminal name chain rule (action rule.target) _ next refl h n
  round-EndsTerminal name chain rule false st next h n = n _

  walk_rules-EndsTerminal :
      (name : String) (chain : Chain) (ctx : RequestContext) (rules : List Rule) (st : EvalState)
      → is_terminal chain.policy.target ≡ true
      → EndsTerminal (walk_rules g jump_to name chain ctx rules st)
  unfolding walk_rules apply_policy
  walk_rules-EndsTerminal name chain ctx [] st h = EndsTerminal-at st _ h
  walk_rules-EndsTerminal name chain ctx (rule ∷ rules) st h =
      round-EndsTerminal name chain rule (matches g rule.match ctx) st _ h
        (λ s. walk_rules-EndsTerminal name chain ctx rules s h)

  guard_chain-EndsTerminal :
      (over : Bool) (name : String) (chain : Chain) (ctx : RequestContext) (st : EvalState)
      → is_terminal chain.policy.target ≡ true
      → EndsTerminal (guard_chain g over jump_to name chain ctx st)
  unfolding guard_chain depth_exceeded is_terminal
  guard_chain-EndsTerminal true name chain ctx st h = EndsTerminal-at st _ refl
  guard_chain-EndsTerminal false name chain ctx st h =
      walk_rules-EndsTerminal name chain ctx chain.rules st h

  enter_chain-EndsTerminal :
      (name : String) (ctx : RequestContext) (st : EvalState) (c : Option Chain)
      → ((chain : Chain) → c ≡ some chain → is_terminal chain.policy.target ≡ true)
      → EndsTerminal (enter_chain g jump_to name ctx st c)
  unfolding enter_chain
  enter_chain-EndsTerminal name ctx st none h st' d p = cc
  enter_chain-EndsTerminal name ctx st (some chain) h st' d p =
      guard_chain-EndsTerminal _ name chain ctx _ (h chain refl) st' d p

eval_chain-EndsTerminal :
    (g : Platform) (chains : ChainMap) (ctx : RequestContext) (fuel : ℕ) (name : String)
    (st : EvalState)
    → All HasTerminalPolicy chains
    → EndsTerminal (eval_chain g chains ctx fuel name st)
unfolding eval_chain
eval_chain-EndsTerminal g chains ctx zero name st h st' d p = cc
eval_chain-EndsTerminal g chains ctx (suc fuel) name st h st' d p =
    enter_chain-EndsTerminal g (eval_chain g chains ctx fuel)
      (λ n s. eval_chain-EndsTerminal g chains ctx fuel n s h) name ctx st
      (lookup_chain g chains name) (λ c e. (lookup_chain-All g HasTerminalPolicy chains name h e).1)
      st' d p

-- Policies and terminal targets are the same.
terminal_of_valid : (t : String) → is_valid_policy_target t ≡ true → is_terminal t ≡ true
unfolding is_valid_policy_target is_terminal
terminal_of_valid t h = h

compile_chain-HasTerminalPolicy :
    (g : Platform) (name : String) (cc : ChainConfig) {c : Chain}
    → compile_chain g name cc ≡ ok c
    → is_terminal c.policy.target ≡ true
unfolding compile_chain
compile_chain-HasTerminalPolicy g name cfg e =
    let (valid, rest) =
      require->>-eq-ok (is_valid_policy_target cfg.policy.target)
        (bad_policy_target cfg.policy.target) _ e in
    let (rules, compiled, made) = >>=-eq-ok (compile_rules g cfg.rules) _ rest in
    subst (λ x. is_terminal x.policy.target ≡ true) (ok-injective made) (terminal_of_valid _ valid)

compile_chains-HasTerminalPolicy :
    (g : Platform) (cfg : List (String × ChainConfig)) {chains : ChainMap}
    → compile_chains g cfg ≡ ok chains
    → All HasTerminalPolicy chains
unfolding compile_chains
compile_chains-HasTerminalPolicy g [] e = subst (All HasTerminalPolicy) (ok-injective e) tt
compile_chains-HasTerminalPolicy g ((name, cfg) ∷ rest) e =
    let (c, one, e1) = >>=-eq-ok (compile_chain g name cfg) _ e in
    let (cs, others, e2) = >>=-eq-ok (compile_chains g rest) _ e1 in
    subst (All HasTerminalPolicy) (ok-injective e2) (
      compile_chain-HasTerminalPolicy g name cfg one,
      compile_chains-HasTerminalPolicy g rest others,
    )

new_engine-chains : (chains : ChainMap) {e : Engine} → new_engine chains ≡ ok e → chains ≡ e.chains
unfolding new_engine
new_engine-chains [] h = cc
new_engine-chains (c ∷ cs) h = ap (λ e. e.chains) (ok-injective h)

finish-terminal :
    (st : EvalState) (d : Fallible EvalError Decision)
    → ((x : Decision) → d ≡ ok x → is_terminal x.target ≡ true)
    → (r : Result) → (finish st d).result ≡ ok r
    → is_terminal r.decision.target ≡ true
finish-terminal st (err e) h r p = cc
finish-terminal st (ok x) h r p =
    let same : record { decision = record x { marks = st.marks }; trace = st.trace } ≡ r =
      ground arith in
    subst (λ q. is_terminal q.decision.target ≡ true) same (h x refl)

-- An error, or a decision with a terminal target.
abbrev pub EndsWell : Fallible EvalError Result → Type 0
EndsWell (err e) = Unit {0}
EndsWell (ok r) = is_terminal r.decision.target ≡ true

ends_well :
    (o : Fallible EvalError Result)
    → ((r : Result) → o ≡ ok r → is_terminal r.decision.target ≡ true)
    → EndsWell o
ends_well (err e) h = tt
ends_well (ok r) h = h r refl

-- An engine built from a configuration always evaluates, from any entry, to an error or to a
-- decision whose target is one of ACCEPT, REJECT, RATE_LIMIT, TOO_MANY and REQUIRE_POW.
pub from_config-terminal :
    (g : Platform) (enabled : Bool) (cfg : List (String × ChainConfig)) (e : Engine)
    (ctx : RequestContext) (entry : String)
    → from_config g enabled cfg ≡ ok e
    → (ev : Evaluation) × (evaluate_with_entry g e ctx entry ≡ some ev) × EndsWell ev.result
unfolding from_config evaluate_with_entry
from_config-terminal g enabled cfg e ctx entry made =
    let (on, rest) = require->>-eq-ok enabled disabled _ made in
    let (chains, compiled, built) = >>=-eq-ok (compile_chains g cfg) _ rest in
    let valid : All HasTerminalPolicy e.chains =
      subst (All HasTerminalPolicy) (new_engine-chains chains built)
        (compile_chains-HasTerminalPolicy g cfg compiled) in
    let name : String = if is_empty entry then "INPUT" else entry in
    let (st, d, p) = eval_chain_total g e.chains (with_resolver ctx) name in
    (
      finish st d,
      rw p,
      ends_well (finish st d).result (
          finish-terminal st d (λ x h.
            eval_chain-EndsTerminal g e.chains (with_resolver ctx) (eval_fuel e.chains) name initial
              valid st x (rw h at p))),
    )
