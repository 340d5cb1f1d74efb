-- ===== src/Risk/Engine.antt =====
-- internal/risk/engine.go and FromConfig of internal/risk/config.go.
-- The recursion of evalChain takes fuel: `none` means that it ran out. The slices and the map behind
-- the pointers of evalState are passed from call to call.
pub mod Lookup
pub mod Termination
pub mod Verdict
pub mod Acyclic
pub mod Terminal
use hustmirrors_waf_backend.Base.{
  ℕ, zero, suc, ◌+◌, ◌*◌, ◌≡◌, refl, String, Bool, true, false, Option, none, some, List, [], ◌∷◌,
  ◌++◌, str_eq, ltb, leb, ◌==◌, if◌then◌else◌, is_empty, map, length, Fallible, ok, err, ◌>>=◌,
  ◌>>◌, require,
}
use hustmirrors_waf_backend.Base.Int.{ℤ, pos, eq_ℤ}
use hustmirrors_waf_backend.Platform.{Platform, to_upper, equal_fold}
use hustmirrors_waf_backend.Risk.Target.{
  target_accept, target_reject, target_rate_limit, target_too_many, target_require_pow, target_jump,
  target_return, target_log, target_mark, is_terminal, default_status_code_for,
}
use hustmirrors_waf_backend.Risk.Types.{
  RequestContext, noop_counter_resolver, Decision, TraceStep, Result, Rule, Policy, Chain, ChainMap,
}
use hustmirrors_waf_backend.Risk.Matcher.{matches}
use hustmirrors_waf_backend.Risk.Compile.{
  ChainConfig, CompileError, disabled, no_chains, compile_chains,
}

pub record EvalState : Type 0 where
  pub trace : List TraceStep
  pub marks : List String
  pub visited : String → ℕ

pub data EvalError : Type 0 where
  chain_not_found : String → EvalError

pub record Engine : Type 0 where
  pub chains : ChainMap

unfoldable pub new_engine : ChainMap → Fallible CompileError Engine
new_engine [] = err no_chains
new_engine (c ∷ cs) = ok (record { chains = c ∷ cs })

-- `visited[key]++`.
unfoldable pub visit : String → (String → ℕ) → String → ℕ
visit key visited k = if str_eq k key then visited k + 1 else visited k

unfoldable pub lookup_exact : String → ChainMap → Option Chain
lookup_exact name [] = none
lookup_exact name ((k, c) ∷ rest) = if str_eq k name then some c else lookup_exact name rest

unfoldable pub decision_from_rule : String → Rule → Decision
decision_from_rule chain_name rule = record {
  target = rule.target;
  status_code =
      if eq_ℤ rule.status (pos 0) then pos (default_status_code_for rule.target) else rule.status;
  limit_rate = rule.limit_rate;
  reason = rule.reason;
  chain = chain_name;
  rule_name = rule.name;
  marks = [];
}

unfoldable pub apply_policy : String → Chain → EvalState → Decision
apply_policy chain_name chain st = record {
  target = chain.policy.target;
  status_code = chain.policy.status;
  limit_rate = chain.policy.limit_rate;
  reason = chain.policy.reason;
  chain = chain_name;
  rule_name = "policy";
  marks = st.marks;
}

unfoldable pub depth_exceeded : String → Decision
depth_exceeded name = record {
  target = target_reject;
  status_code = pos 500;
  limit_rate = "";
  reason = "chain_depth_exceeded";
  chain = name;
  rule_name = "";
  marks = [];
}

unfoldable pub trace_step : String → Rule → Bool → TraceStep
trace_step name rule true = record {
  chain = name;
  rule = rule.name;
  matched = true;
  target = rule.target;
  jump_to = if str_eq rule.target target_jump then rule.chain else "";
}
trace_step name rule false = record {
  chain = name;
  rule = rule.name;
  matched = false;
  target = "";
  jump_to = "";
}

-- What the switch on a matched rule's target selects.
pub data Action : Type 0 where
  decide jump give_policy set_mark proceed : Action

unfoldable pub action : String → Action
action t =
    if is_terminal t
    then decide
    else if str_eq t target_jump
    then jump
    else if str_eq t target_return
    then give_policy
    else if str_eq t target_mark
    then set_mark
    else proceed

unfoldable pub add_mark : Rule → EvalState → EvalState
add_mark rule st =
    if is_empty rule.mark then st else record st { marks = st.marks ++ rule.mark ∷ [] }

-- The reason of a JUMP stands in for an empty one.
unfoldable pub fill_reason : Rule → Decision → Decision
fill_reason rule dec = if is_empty dec.reason then record dec { reason = rule.reason } else dec

abbrev pub Outcome : Type 0
Outcome = Option (EvalState × Fallible EvalError Decision)

module _ (g : Platform) where
  unfoldable pub lookup_fold : String → ChainMap → Option Chain
  lookup_fold name [] = none
  lookup_fold name ((k, c) ∷ rest) = if equal_fold g k name then some c else lookup_fold name rest

  unfoldable pub lookup_chain : ChainMap → String → Option Chain
  lookup_chain chains name = elim (lookup_exact name chains) [
    | some c ↦ some c
    | none ↦ lookup_fold name chains
  ]

  -- The rest of the loop after a JUMP returned a decision: a terminal one ends it.
  unfoldable pub settle : Rule → EvalState → Decision → Bool → (EvalState → Outcome) → Outcome
  settle rule st dec true next = some (st, ok (fill_reason rule dec))
  settle rule st dec false next = next st

  unfoldable pub after_jump : Rule → Outcome → (EvalState → Outcome) → Outcome
  unfolding settle
  after_jump rule none next = none
  after_jump rule (some (st, err e)) next = some (st, err e)
  after_jump rule (some (st, ok dec)) next = settle rule st dec (is_terminal dec.target) next

  -- One round of the loop for a matched rule; `next` is the rest of the loop.
  unfoldable pub take_action :
      (String → EvalState → Outcome)
      → String
      → Chain
      → Rule
      → Action
      → EvalState
      → (EvalState → Outcome)
      → Outcome
  take_action jump_to name chain rule decide st next =
      some (st, ok (record (decision_from_rule name rule) { marks = st.marks }))
  take_action jump_to name chain rule jump st next = after_jump rule (jump_to rule.chain st) next
  take_action jump_to name chain rule give_policy st next =
      some (st, ok (apply_policy name chain st))
  take_action jump_to name chain rule set_mark st next = next (add_mark rule st)
  take_action jump_to name chain rule proceed st next = next st

  -- One round of the loop, once it is known whether the rule matches.
  unfoldable pub step_rule :
      (String → EvalState → Outcome)
      → String
      → Chain
      → Rule
      → Bool
      → EvalState
      → (EvalState → Outcome)
      → Outcome
  unfolding take_action
  step_rule jump_to name chain rule true st next =
      take_action jump_to name chain rule (action rule.target)
        (record st { trace = st.trace ++ trace_step name rule true ∷ [] }) next
  step_rule jump_to name chain rule false st next =
      next (record st { trace = st.trace ++ trace_step name rule false ∷ [] })

  -- The loop over the rules of one chain.
  unfoldable pub walk_rules :
      (String → EvalState → Outcome)
      → String
      → Chain
      → RequestContext
      → List Rule
      → EvalState
      → Outcome
  walk_rules jump_to name chain ctx [] st = some (st, ok (apply_policy name chain st))
  walk_rules jump_to name chain ctx (rule ∷ rules) st =
      step_rule jump_to name chain rule (matches g rule.match ctx) st
        (walk_rules jump_to name chain ctx rules)

  -- The loop behind the guard against recursion; the first argument says that the guard fires.
  unfoldable pub guard_chain :
      Bool → (String → EvalState → Outcome) → String → Chain → RequestContext → EvalState → Outcome
  guard_chain true jump_to name chain ctx st = some (st, ok (depth_exceeded name))
  guard_chain false jump_to name chain ctx st = walk_rules jump_to name chain ctx chain.rules st

  unfoldable pub enter_chain :
      (String → EvalState → Outcome) → String → RequestContext → EvalState → Option Chain → Outcome
  unfolding guard_chain
  enter_chain jump_to name ctx st none = some (st, err (chain_not_found name))
  enter_chain jump_to name ctx st (some chain) =
      let key = to_upper g name in
      let visited = visit key st.visited in
      guard_chain (ltb 8 (visited key)) jump_to name chain ctx (record st { visited = visited })

  unfoldable pub eval_chain : ChainMap → RequestContext → ℕ → String → EvalState → Outcome
  eval_chain chains ctx zero name st = none
  eval_chain chains ctx (suc fuel) name st =
      enter_chain (eval_chain chains ctx fuel) name ctx st (lookup_chain chains name)

-- The chains that rules name.
unfoldable pub jump_names : ChainMap → List String
jump_names [] = []
jump_names ((k, c) ∷ rest) = map (λ r. r.chain) c.rules ++ jump_names rest

-- Each of these names, and the entry, is entered at most nine times before the guard stops it.
unfoldable pub eval_fuel : ChainMap → ℕ
eval_fuel chains = suc (9 * suc (length (jump_names chains)))

pub record Evaluation : Type 0 where
  pub trace : List TraceStep
  pub result : Fallible EvalError Result

unfoldable pub with_resolver : RequestContext → RequestContext
with_resolver ctx = elim ctx.counters [
  | none ↦ record ctx { counters = some noop_counter_resolver }
  | some get ↦ ctx
]

abbrev pub initial : EvalState
initial = record { trace = []; marks = []; visited = λ _. 0 }

abbrev pub finish : EvalState → Fallible EvalError Decision → Evaluation
finish st (err e) = record { trace = st.trace; result = err e }
finish st (ok d) = record {
  trace = st.trace;
  result = ok (record { decision = record d { marks = st.marks }; trace = st.trace });
}

abbrev pub conclude : Outcome → Option Evaluation
conclude none = none
conclude (some (st, r)) = some (finish st r)

module _ (g : Platform) where
  unfoldable pub evaluate_with_entry : Engine → RequestContext → String → Option Evaluation
  evaluate_with_entry e ctx entry =
      let name = if is_empty entry then "INPUT" else entry in
      conclude (eval_chain g e.chains (with_resolver ctx) (eval_fuel e.chains) name initial)

  unfoldable pub evaluate : Engine → RequestContext → Option Evaluation
  unfolding evaluate_with_entry
  evaluate e ctx = evaluate_with_entry e ctx "INPUT"

  unfoldable pub from_config : Bool → List (String × ChainConfig) → Fallible CompileError Engine
  from_config enabled chains = do
    require enabled disabled
    compiled ← compile_chains g chains
    new_engine compiled
