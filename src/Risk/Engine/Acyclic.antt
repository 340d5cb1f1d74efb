-- ===== src/Risk/Engine/Acyclic.antt =====
-- Where jumps run downhill and policies are terminal, evalChain decides as the reference reading
-- does, and its guard against recursion never fires.
use hustmirrors_waf_backend.Base.{
  inl, inr, ℕ, zero, suc, ◌≤◌, ◌<◌, ◌≡◌, refl, sym, ap, ◌∙◌, String, Bool, true, false, none, some,
  List, [], ◌∷◌, ◌++◌, ltb, is_empty, All, Fallible, ok, err, arith, Bool-cases, eq_iff, eq_refl,
}
use mathlib.Core.Path.{subst}
use mathlib.Core.List.{append-nil, append_assoc}
use hustmirrors_waf_backend.Platform.{Platform, to_upper}
use hustmirrors_waf_backend.Risk.Target.{is_terminal}
use hustmirrors_waf_backend.Risk.Types.{RequestContext, Decision, Result, Rule, Chain, ChainMap}
use hustmirrors_waf_backend.Risk.Matcher.{matches}
use hustmirrors_waf_backend.Risk.Engine.{
  EvalState, EvalError, Engine, Action, decide, jump, give_policy, set_mark, proceed, action, visit,
  add_mark, fill_reason, settle, after_jump, take_action, step_rule, guard_chain, walk_rules,
  enter_chain, eval_chain, lookup_chain, Outcome, trace_step, initial, with_resolver, apply_policy,
  decision_from_rule, eval_fuel, Evaluation, evaluate_with_entry, finish,
}
use hustmirrors_waf_backend.Risk.Engine.Verdict.{
  strip, policy_decision, own_mark, first_hit, marks_before, Decides, by_policy, by_return, by_rule,
  by_jump, Decides-skip, first_hit_stop, first_hit_unmatched, first_hit_proceed, first_hit_set_mark,
}
use hustmirrors_waf_backend.Risk.Engine.Termination.{eval_chain_total}

-- What config validation and compilation ensure: policies are terminal, the chains that jumps name
-- exist, and jumps lead to chains of smaller rank, so that there is no cycle.
pub record IsRanked (g : Platform) (chains : ChainMap) (rank : String → ℕ) : Type 0 where
  pub policy_terminal :
      (name : String) (c : Chain)
      → lookup_chain g chains name ≡ some c
      → is_terminal c.policy.target ≡ true
  pub jumps_down :
      (name : String) (c : Chain)
      → lookup_chain g chains name ≡ some c
      → All
          (λ r.
            action r.target ≡ jump
            → (c' : Chain) × (lookup_chain g chains r.chain ≡ some c')
              × (rank (to_upper g r.chain) < rank (to_upper g name)))
          c.rules

terminal_of_decide : (t : String) → action t ≡ decide → is_terminal t ≡ true
unfolding action
terminal_of_decide t h = ground arith

visit_ne : (k u : String) (v : String → ℕ) → ¬ (k ≡ u) → visit u v k ≡ v k
unfolding visit
visit_ne k u v h = ground (arith, eq_iff k u)

visit_fresh : (u : String) (v : String → ℕ) → v u ≡ 0 → ltb 8 (visit u v u) ≡ false
unfolding visit
visit_fresh u v h = rw (eq_refl u) (ground arith)

add_mark-marks :
    (rule : Rule) (st : EvalState) → (add_mark rule st).marks ≡ st.marks ++ own_mark rule
unfolding add_mark own_mark
add_mark-marks rule st = elim (Bool-cases (is_empty rule.mark)) [
  | inl t ↦ rw t (sym (append-nil _))
  | inr t ↦ rw t
]

add_mark-visited : (rule : Rule) (st : EvalState) → (add_mark rule st).visited ≡ st.visited
unfolding add_mark
add_mark-visited rule st = elim (Bool-cases (is_empty rule.mark)) [ inl t ↦ rw t | inr t ↦ rw t ]

fill_reason-target : (r : Rule) (d : Decision) → (fill_reason r d).target ≡ d.target
unfolding fill_reason
fill_reason-target r d = elim (Bool-cases (is_empty d.reason)) [ inl t ↦ rw t | inr t ↦ rw t ]

strip-fill_reason : (r : Rule) (d : Decision) → strip (fill_reason r d) ≡ fill_reason r (strip d)
unfolding fill_reason
strip-fill_reason r d = elim (Bool-cases (is_empty d.reason)) [ inl t ↦ rw t | inr t ↦ rw t ]

st-of_some :
    {s t : EvalState} {r q : Fallible EvalError Decision}
    → ◌≡◌ {A = Outcome} (some (s, r)) (some (t, q))
    → t ≡ s
st-of_some p = ground arith

module _ (g : Platform) (ctx : RequestContext) (chains : ChainMap) where
  -- The walk over `rules`, begun in `st`, has ended in `st'` with the decision of the reference.
  abbrev pub Delivered :
      String → Chain → List Rule → EvalState → EvalState → Fallible EvalError Decision → Type 0
  Delivered name c rules st st' r =
      (d : Decision) × (ms : List String) × (r ≡ ok d)
      × Decides g ctx chains name c rules ms (strip d)
      × (st'.marks ≡ st.marks ++ ms)
      × (is_terminal d.target ≡ true)

  -- What a call for the chain of a JUMP promises, once the visits are `v`.
  abbrev JumpDelivers : (String → ℕ) → (String → EvalState → Outcome) → Rule → Type 0
  JumpDelivers v jump_to rule =
      action rule.target ≡ jump
      → (target : Chain) × (lookup_chain g chains rule.chain ≡ some target)
        × ((st st' : EvalState) (r : Fallible EvalError Decision)
            → st.visited ≡ v
            → jump_to rule.chain st ≡ some (st', r)
            → Delivered rule.chain target target.rules st st' r)

  module _ (v : String → ℕ) (name : String) (c : Chain) (jump_to : String → EvalState → Outcome)
      (policy_ok : is_terminal c.policy.target ≡ true) where
    Ends : EvalState → List Rule → Outcome → Type 0
    Ends st rules o =
        (st' : EvalState) (r : Fallible EvalError Decision)
        → o ≡ some (st', r)
        → Delivered name c rules st st' r

    jump-Ends :
        (rule : Rule) (rules : List Rule) (st st0 : EvalState) (o : Outcome)
        (next : EvalState → Outcome) (target : Chain)
        → matches g rule.match ctx ≡ true
        → action rule.target ≡ jump
        → lookup_chain g chains rule.chain ≡ some target
        → st0.marks ≡ st.marks
        → ((st' : EvalState) (r : Fallible EvalError Decision)
            → o ≡ some (st', r)
            → Delivered rule.chain target target.rules st0 st' r)
        → Ends st (rule ∷ rules) (after_jump g rule o next)
    unfolding Ends after_jump
    jump-Ends rule rules st st0 none next target mt a l em ih st' r p = cc
    jump-Ends rule rules st st0 (some (st1, err e)) next target mt a l em ih st' r p =
        let (d, _, bad, _, _, _) = ih st1 (err e) refl in cc
    jump-Ends rule rules st st0 (some (st1, ok d)) next target mt a l em ih st' r p =
        let (d', ms, same, walked, marks, tm) = ih st1 (ok d) refl in
        let de : d ≡ d' = cc in
        let tm' : is_terminal d.target ≡ true =
          subst (λ x. is_terminal x.target ≡ true) (sym de) tm in
        let walked' =
          subst (λ x. Decides g ctx chains rule.chain target target.rules ms (strip x)) (sym de)
            walked in
        let settled : settle g rule st1 d true next ≡ some (st', r) = rw tm' at p in
        let (hit, before) = first_hit_stop g ctx rule rules jump mt a refl in
        (
          fill_reason rule d,
          ms,
          unfold settle in ground arith,
          by_jump hit a l walked' (ap (λ l. l ++ ms) (sym before)) (strip-fill_reason rule d),
          (unfold settle in ap (λ s. s.marks) (st-of_some settled)) ∙ marks ∙ ap (λ l. l ++ ms) em,
          rw (fill_reason-target rule d) tm',
        )

    -- A rule that the walk passes by; `own` is the mark that it sets.
    skip-Ends :
        (rule : Rule) (rules : List Rule) (own : List String) (st st0 : EvalState) (o : Outcome)
        → first_hit g ctx (rule ∷ rules) ≡ first_hit g ctx rules
        → marks_before g ctx (rule ∷ rules) ≡ own ++ marks_before g ctx rules
        → st0.marks ≡ st.marks ++ own
        → Ends st0 rules o
        → Ends st (rule ∷ rules) o
    unfolding Ends
    skip-Ends rule rules own st st0 o h m em ih st' r p =
        let (d, ms, same, walked, marks, tm) = ih st' r p in
        (
          d,
          own ++ ms,
          same,
          Decides-skip g ctx chains rule own h m walked,
          marks ∙ ap (λ l. l ++ ms) em ∙ append_assoc st.marks own ms,
          tm,
        )

    stop-marks : (st : EvalState) → st.marks ≡ st.marks ++ []
    stop-marks st = sym (append-nil st.marks)

    take_action-Ends :
        (rule : Rule) (rules : List Rule) (a : Action) (st st0 : EvalState)
        (next : EvalState → Outcome)
        → matches g rule.match ctx ≡ true
        → action rule.target ≡ a
        → st0.marks ≡ st.marks
        → st0.visited ≡ v
        → JumpDelivers v jump_to rule
        → ((s : EvalState) → s.visited ≡ v → Ends s rules (next s))
        → Ends st (rule ∷ rules) (take_action g jump_to name c rule a st0 next)
    unfolding Ends take_action decision_from_rule apply_policy policy_decision
    take_action-Ends rule rules decide st st0 next mt a em ev jd n st' r p =
        let (hit, before) = first_hit_stop g ctx rule rules decide mt a refl in
        (
          record (decision_from_rule name rule) { marks = st0.marks },
          [],
          ground arith,
          by_rule hit a (sym before) refl,
          ap (λ s. s.marks) (st-of_some p) ∙ em ∙ stop-marks st,
          terminal_of_decide rule.target a,
        )
    take_action-Ends rule rules jump st st0 next mt a em ev jd n st' r p =
        let (target, found, delivers) = jd a in
        jump-Ends rule rules st st0 (jump_to rule.chain st0) next target mt a found em
          (λ s q e. delivers st0 s q ev e) st' r p
    take_action-Ends rule rules give_policy st st0 next mt a em ev jd n st' r p =
        let (hit, before) = first_hit_stop g ctx rule rules give_policy mt a refl in
        (
          apply_policy name c st0,
          [],
          ground arith,
          by_return hit a (sym before) refl,
          ap (λ s. s.marks) (st-of_some p) ∙ em ∙ stop-marks st,
          policy_ok,
        )
    take_action-Ends rule rules set_mark st st0 next mt a em ev jd n st' r p =
        let (h, m) = first_hit_set_mark g ctx rule rules mt a in
        skip-Ends rule rules (own_mark rule) st (add_mark rule st0) _ h m
          (add_mark-marks rule st0 ∙ ap (λ l. l ++ own_mark rule) em)
          (n (add_mark rule st0) (add_mark-visited rule st0 ∙ ev)) st' r p
    take_action-Ends rule rules proceed st st0 next mt a em ev jd n st' r p =
        let (h, m) = first_hit_proceed g ctx rule rules mt a in
        skip-Ends rule rules [] st st0 _ h m (em ∙ stop-marks st) (n st0 ev) st' r p

    step_rule-Ends :
        (rule : Rule) (rules : List Rule) (matched : Bool) (st : EvalState)
        (next : EvalState → Outcome)
        → matches g rule.match ctx ≡ matched
        → st.visited ≡ v
        → JumpDelivers v jump_to rule
        → ((s : EvalState) → s.visited ≡ v → Ends s rules (next s))
        → Ends st (rule ∷ rules) (step_rule g jump_to name c rule matched st next)
    unfolding step_rule
    step_rule-Ends rule rules true st next mt ev jd n =
        take_action-Ends rule rules (action rule.target) st
          (record st { trace = st.trace ++ trace_step name rule true ∷ [] }) next mt refl refl ev jd
          n
    step_rule-Ends rule rules false st next mt ev jd n =
        let (h, m) = first_hit_unmatched g ctx rule rules mt in
        let st0 = record st { trace = st.trace ++ trace_step name rule false ∷ [] } in
        skip-Ends rule rules [] st st0 (next st0) h m (stop-marks st) (n st0 ev)

    walk_rules-Ends :
        (rules : List Rule) (st : EvalState)
        → All (JumpDelivers v jump_to) rules
        → st.visited ≡ v
        → Ends st rules (walk_rules g jump_to name c ctx rules st)
    unfolding walk_rules Ends apply_policy policy_decision first_hit marks_before
    walk_rules-Ends [] st jd ev st' r p = (
      apply_policy name c st,
      [],
      ground arith,
      by_policy refl refl refl,
      ap (λ s. s.marks) (st-of_some p) ∙ stop-marks st,
      policy_ok,
    )
    walk_rules-Ends (rule ∷ rules) st (jd, jds) ev st' r p =
        step_rule-Ends rule rules (matches g rule.match ctx) st _ refl ev jd
          (λ s e. walk_rules-Ends rules s jds e) st' r p

  module _ (rank : String → ℕ) (ranked : IsRanked g chains rank) where
    -- What a call of evalChain promises: nothing of the chain's rank or below has been visited.
    abbrev Promise : (String → EvalState → Outcome) → Type 0
    Promise jump_to =
        (name : String) (c : Chain) (st : EvalState)
        → lookup_chain g chains name ≡ some c
        → ((k : String) → rank k ≤ rank (to_upper g name) → st.visited k ≡ 0)
        → (st' : EvalState) (r : Fallible EvalError Decision) → jump_to name st ≡ some (st', r)
        → Delivered name c c.rules st st' r

    -- After the visit of a chain, what lies below it is still unvisited.
    unvisited_below :
        (key : String) (v : String → ℕ) (low k : String)
        → ((j : String) → rank j ≤ rank key → v j ≡ 0)
        → rank low < rank key
        → rank k ≤ rank low
        → visit key v k ≡ 0
    unvisited_below key v low k fresh lt le =
        let other : ¬ (k ≡ key) =
          λ e. let same : rank k ≡ rank key = ap rank e in absurd (omega arith) in
        visit_ne k key v other ∙ fresh k (omega arith)

    jumps_deliver :
        (name : String) (c : Chain) (v : String → ℕ) (jump_to : String → EvalState → Outcome)
        (rules : List Rule)
        → Promise jump_to
        → ((k : String) → rank k ≤ rank (to_upper g name) → v k ≡ 0)
        → All
            (λ r.
              action r.target ≡ jump
              → (c' : Chain) × (lookup_chain g chains r.chain ≡ some c')
                × (rank (to_upper g r.chain) < rank (to_upper g name)))
            rules
        → All (JumpDelivers (visit (to_upper g name) v) jump_to) rules
    jumps_deliver name c v jump_to [] ih fresh down = tt
    jumps_deliver name c v jump_to (r ∷ rs) ih fresh (down, downs) = (
      λ a.
          let (c', found, lt) = down a in
          (
            c',
            found,
            λ st st' q ev p.
                ih r.chain c' st found
                  (λ k le.
                    ap (λ f. f k) ev
                    ∙ unvisited_below (to_upper g name) v (to_upper g r.chain) k fresh lt le)
                  st' q p,
          ),
      jumps_deliver name c v jump_to rs ih fresh downs,
    )

    eval_chain-Promise : (fuel : ℕ) → Promise (eval_chain g chains ctx fuel)
    unfolding eval_chain enter_chain guard_chain Ends
    eval_chain-Promise zero name c st found fresh st' r p = cc
    eval_chain-Promise (suc fuel) name c st found fresh st' r p =
        let key = to_upper g name in
        let v = visit key st.visited in
        let entered : enter_chain g (eval_chain g chains ctx fuel) name ctx st (some c)
            ≡ some (st', r) =
          rw found at p in
        let walked : walk_rules g (eval_chain g chains ctx fuel) name c ctx c.rules
              (record st { visited = v })
            ≡ some (st', r) =
          rw (visit_fresh key st.visited (fresh key (omega arith))) at entered in
        walk_rules-Ends v name c (eval_chain g chains ctx fuel)
          (ranked.policy_terminal name c found) c.rules (record st { visited = v })
          (jumps_deliver name c st.visited _ c.rules (eval_chain-Promise fuel) fresh
            (ranked.jumps_down name c found))
          refl st' r walked

-- On a ranked configuration whose entry chain exists, evaluation returns a decision, that decision
-- is the one of the reference reading with the marks it collects, and its target is terminal.
pub evaluate_with_entry-Decides :
    (g : Platform) (e : Engine) (ctx : RequestContext) (rank : String → ℕ) (entry : String)
    (c : Chain)
    → IsRanked g e.chains rank
    → is_empty entry ≡ false
    → lookup_chain g e.chains entry ≡ some c
    → (ev : Evaluation) × (r : Result) × (evaluate_with_entry g e ctx entry ≡ some ev)
      × (ev.result ≡ ok r)
      × Decides g (with_resolver ctx) e.chains entry c c.rules r.decision.marks (strip r.decision)
      × (is_terminal r.decision.target ≡ true)
unfolding evaluate_with_entry
evaluate_with_entry-Decides g e ctx rank entry c ranked given found =
    let ctx' = with_resolver ctx in
    let (st, r, p) = eval_chain_total g e.chains ctx' entry in
    let (d, ms, same, walked, marks, tm) =
      eval_chain-Promise g ctx' e.chains rank ranked (eval_fuel e.chains) entry c initial found
        (λ k le. refl) st r p in
    (
      finish st (ok d),
      record { decision = record d { marks = st.marks }; trace = st.trace },
      rw (given, p, same),
      refl,
      subst (λ m. Decides g ctx' e.chains entry c c.rules m (strip d)) (sym marks) walked,
      tm,
    )
