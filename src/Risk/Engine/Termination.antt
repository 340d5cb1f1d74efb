-- ===== src/Risk/Engine/Termination.antt =====
-- evalChain comes to an end: the visit counters bound the recursion, whatever the configuration.
use hustmirrors_waf_backend.Base.{
  ℕ, zero, suc, ◌+◌, ◌-◌, ◌*◌, ◌≤◌, ◌<◌, ◌≡◌, refl, ◌⊎◌, inl, inr, String, Bool, true, false,
  Option, none, some, List, [], ◌∷◌, ◌++◌, ltb, is_empty, if◌then◌else◌, length, map, All, Fallible,
  ok, err, arith, Bool-cases, eq_refl, ap,
}
use hustmirrors_waf_backend.Platform.{Platform, to_upper}
use hustmirrors_waf_backend.Risk.Target.{is_terminal}
use hustmirrors_waf_backend.Risk.Types.{RequestContext, Decision, Rule, Chain, ChainMap}
use hustmirrors_waf_backend.Risk.Matcher.{matches}
use hustmirrors_waf_backend.Risk.Engine.Lookup.{lookup_chain-All}
use hustmirrors_waf_backend.Risk.Engine.{
  EvalState, EvalError, Engine, Action, decide, jump, give_policy, set_mark, proceed, action, visit,
  add_mark, settle, after_jump, take_action, step_rule, guard_chain, walk_rules, enter_chain,
  eval_chain, lookup_chain, Outcome, trace_step, jump_names, eval_fuel, initial, with_resolver,
  Evaluation, evaluate_with_entry, finish,
}

abbrev pub Among : String → List String → Type 0
Among u [] = ⊥
Among u (k ∷ ks) = (k ≡ u) ⊎ Among u ks

-- How many more visits the guard lets through, summed over the names.
pub budget : List String → (String → ℕ) → ℕ
budget [] v = 0
budget (u ∷ us) v = (9 - v u) + budget us v

visit-le : (k u : String) (v : String → ℕ) → v k ≤ visit u v k
unfolding visit
visit-le k u v = ground arith

visit_self : (u : String) (v : String → ℕ) → visit u v u ≡ v u + 1
unfolding visit
visit_self u v = rw (eq_refl u)

budget-visit_le :
    (us : List String) (u : String) (v : String → ℕ) → budget us (visit u v) ≤ budget us v
unfolding budget
budget-visit_le [] u v = omega arith
budget-visit_le (k ∷ us) u v = omega (arith, visit-le k u v, budget-visit_le us u v)

budget-visit_lt :
    (us : List String) (u : String) (v : String → ℕ)
    → Among u us
    → v u ≤ 8
    → budget us (visit u v) < budget us v
unfolding budget
budget-visit_lt [] u v m h = elim m [ ]
budget-visit_lt (k ∷ us) u v (inl e) h =
    rw e (omega (arith, visit_self u v, budget-visit_le us u v))
budget-visit_lt (k ∷ us) u v (inr m) h = omega (arith, visit-le k u v, budget-visit_lt us u v m h)

-- A visit that the guard lets through leaves less.
budget-visit_few :
    (us : List String) (u : String) (v : String → ℕ) (f : ℕ)
    → Among u us
    → ltb 8 (visit u v u) ≡ false
    → budget us v < suc f
    → budget us (visit u v) < f
budget-visit_few us u v f m few h =
    let le : v u ≤ 8 = ground (arith, visit_self u v) in omega (arith, budget-visit_lt us u v m le)

budget-zero : (us : List String) → budget us (λ _. 0) ≡ 9 * length us
unfolding budget
budget-zero [] = refl
budget-zero (u ∷ us) = omega (arith, budget-zero us)

add_mark-visited : (rule : Rule) (st : EvalState) → (add_mark rule st).visited ≡ st.visited
unfolding add_mark
add_mark-visited rule st = elim (Bool-cases (is_empty rule.mark)) [ inl t ↦ rw t | inr t ↦ rw t ]

module _ (us : List String) where
  -- A result came back, and the visits went no further down than `b`.
  abbrev pub Finishes : ℕ → Outcome → Type 0
  Finishes b o =
      (st : EvalState) × (r : Fallible EvalError Decision) × (o ≡ some (st, r))
      × (budget us st.visited ≤ b)

  Finishes-mono : (a b : ℕ) (o : Outcome) → a ≤ b → Finishes a o → Finishes b o
  Finishes-mono a b o h (st, r, e, k) = (st, r, e, omega arith)

  module _ (g : Platform) (ctx : RequestContext) where
    -- What a call of evalChain promises below a bound.
    abbrev JumpsFinish : ℕ → (String → EvalState → Outcome) → Type 0
    JumpsFinish f jump_to =
        (name : String) (st : EvalState)
        → Among (to_upper g name) us
        → budget us st.visited < f
        → Finishes (budget us st.visited) (jump_to name st)

    abbrev JumpsKnown : List Rule → Type 0
    JumpsKnown = All (λ r. Among (to_upper g r.chain) us)

    module _ (f : ℕ) (jump_to : String → EvalState → Outcome) (ih : JumpsFinish f jump_to) where
      settle-Finishes :
          (rule : Rule) (b : ℕ) (st : EvalState) (d : Decision) (t : Bool)
          (next : EvalState → Outcome)
          → budget us st.visited ≤ b
          → ((s : EvalState) → budget us s.visited ≤ b → Finishes b (next s))
          → Finishes b (settle g rule st d t next)
      unfolding settle
      settle-Finishes rule b st d true next k n = (st, _, refl, k)
      settle-Finishes rule b st d false next k n = n st k

      after_jump-Finishes :
          (rule : Rule) (b : ℕ) (o : Outcome) (next : EvalState → Outcome)
          → Finishes b o
          → ((st : EvalState) → budget us st.visited ≤ b → Finishes b (next st))
          → Finishes b (after_jump g rule o next)
      unfolding after_jump
      after_jump-Finishes rule b o next (st, err e, p, k) n = rw p (st, err e, refl, k)
      after_jump-Finishes rule b o next (st, ok d, p, k) n =
          rw p (settle-Finishes rule b st d (is_terminal d.target) next k n)

      take_action-Finishes :
          (name : String) (chain : Chain) (rule : Rule) (a : Action) (st : EvalState)
          (next : EvalState → Outcome)
          → Among (to_upper g rule.chain) us
          → budget us st.visited < f
          → ((s : EvalState)
              → budget us s.visited ≤ budget us st.visited
              → Finishes (budget us st.visited) (next s))
          → Finishes (budget us st.visited) (take_action g jump_to name chain rule a st next)
      unfolding take_action
      take_action-Finishes name chain rule decide st next m h n = (st, _, refl, omega arith)
      take_action-Finishes name chain rule jump st next m h n =
          after_jump-Finishes rule _ _ next (ih rule.chain st m h) n
      take_action-Finishes name chain rule give_policy st next m h n = (st, _, refl, omega arith)
      take_action-Finishes name chain rule set_mark st next m h n =
          n (add_mark rule st) (rw (add_mark-visited rule st) (omega arith))
      take_action-Finishes name chain rule proceed st next m h n = n st (omega arith)

      step_rule-Finishes :
          (name : String) (chain : Chain) (rule : Rule) (matched : Bool) (st : EvalState)
          (next : EvalState → Outcome)
          → Among (to_upper g rule.chain) us
          → budget us st.visited < f
          → ((s : EvalState)
              → budget us s.visited ≤ budget us st.visited
              → Finishes (budget us st.visited) (next s))
          → Finishes (budget us st.visited) (step_rule g jump_to name chain rule matched st next)
      unfolding step_rule
      step_rule-Finishes name chain rule true st next m h n =
          take_action-Finishes name chain rule (action rule.target)
            (record st { trace = st.trace ++ trace_step name rule true ∷ [] }) next m h n
      step_rule-Finishes name chain rule false st next m h n = n _ (omega arith)

      walk_rules-Finishes :
          (name : String) (chain : Chain) (rules : List Rule) (st : EvalState)
          → JumpsKnown rules
          → budget us st.visited < f
          → Finishes (budget us st.visited) (walk_rules g jump_to name chain ctx rules st)
      unfolding walk_rules
      walk_rules-Finishes name chain [] st m h = (st, _, refl, omega arith)
      walk_rules-Finishes name chain (rule ∷ rules) st (m, ms) h =
          step_rule-Finishes name chain rule (matches g rule.match ctx) st _ m h
            (λ s k. Finishes-mono _ _ _ k (walk_rules-Finishes name chain rules s ms (omega arith)))

      guard_chain-Finishes :
          (over : Bool) (name : String) (chain : Chain) (st : EvalState)
          → JumpsKnown chain.rules
          → (over ≡ false → budget us st.visited < f)
          → Finishes (budget us st.visited) (guard_chain g over jump_to name chain ctx st)
      unfolding guard_chain
      guard_chain-Finishes true name chain st m h = (st, _, refl, omega arith)
      guard_chain-Finishes false name chain st m h =
          walk_rules-Finishes name chain chain.rules st m (h refl)

      enter_chain-Finishes :
          (name : String) (st : EvalState) (c : Option Chain)
          → Among (to_upper g name) us
          → ((chain : Chain) → c ≡ some chain → JumpsKnown chain.rules)
          → budget us st.visited < suc f
          → Finishes (budget us st.visited) (enter_chain g jump_to name ctx st c)
      unfolding enter_chain
      enter_chain-Finishes name st none m known h = (st, _, refl, omega arith)
      enter_chain-Finishes name st (some chain) m known h =
          let key = to_upper g name in
          let less = budget-visit_le us key st.visited in
          Finishes-mono _ _ _ less (
            guard_chain-Finishes _ name chain (record st { visited = visit key st.visited })
              (known chain refl) (λ few. budget-visit_few us key st.visited f m few h))

    -- Where every chain that a rule names is among `us`.
    module _ (chains : ChainMap)
        (known : (name : String) (chain : Chain)
          → lookup_chain g chains name ≡ some chain
          → JumpsKnown chain.rules) where
      eval_chain-Finishes : (fuel : ℕ) → JumpsFinish fuel (eval_chain g chains ctx fuel)
      unfolding eval_chain
      eval_chain-Finishes zero name st m h = absurd (omega arith)
      eval_chain-Finishes (suc fuel) name st m h =
          enter_chain-Finishes fuel (eval_chain g chains ctx fuel) (eval_chain-Finishes fuel) name
            st (lookup_chain g chains name) m (known name) h

module _ (g : Platform) where
  -- The names that count visits: those that rules name, in upper case.
  abbrev upper_names : ChainMap → List String
  upper_names chains = map (to_upper g) (jump_names chains)

  Among-append_left : (u : String) (xs ys : List String) → Among u xs → Among u (xs ++ ys)
  Among-append_left u [] ys m = elim m [ ]
  Among-append_left u (x ∷ xs) ys (inl e) = inl e
  Among-append_left u (x ∷ xs) ys (inr m) = inr (Among-append_left u xs ys m)

  Among-append_right : (u : String) (xs ys : List String) → Among u ys → Among u (xs ++ ys)
  Among-append_right u [] ys m = m
  Among-append_right u (x ∷ xs) ys m = inr (Among-append_right u xs ys m)

  -- The rules of a chain in the map, where `us` holds what its rules and those of the rest name.
  own_rules :
      (rules : List Rule) (us : List String)
      → ((u : String) → Among u (map (to_upper g) (map (λ r. r.chain) rules)) → Among u us)
      → All (λ r. Among (to_upper g r.chain) us) rules
  own_rules [] us h = tt
  own_rules (r ∷ rs) us h = (h _ (inl refl), own_rules rs us (λ u m. h u (inr m)))

  -- Every chain of the map names only chains among `us`.
  abbrev pub AllKnown : List String → ChainMap → Type 0
  AllKnown us = All (λ (kc : String × Chain). All (λ r. Among (to_upper g r.chain) us) kc.1.rules)

  map-append_upper :
      (xs ys : List String)
      → map (to_upper g) (xs ++ ys) ≡ map (to_upper g) xs ++ map (to_upper g) ys
  map-append_upper [] ys = refl
  map-append_upper (x ∷ xs) ys = ap (λ l. to_upper g x ∷ l) (map-append_upper xs ys)

  upper_names-AllKnown :
      (chains : ChainMap) (us : List String)
      → ((u : String) → Among u (upper_names chains) → Among u us)
      → AllKnown us chains
  unfolding jump_names
  upper_names-AllKnown [] us h = tt
  upper_names-AllKnown ((k, c) ∷ rest) us h =
      let split = map-append_upper (map (λ r. r.chain) c.rules) (jump_names rest) in
      (
        own_rules c.rules us (λ u m. h u (rw split (Among-append_left u _ _ m))),
        upper_names-AllKnown rest us (λ u m. h u (rw split (Among-append_right u _ _ m))),
      )

  length-upper : (xs : List String) → length (map (to_upper g) xs) ≡ length xs
  length-upper [] = refl
  length-upper (x ∷ xs) = ap suc (length-upper xs)

  -- The fuel that evaluation gives evalChain suffices.
  pub eval_chain_total :
      (chains : ChainMap) (ctx : RequestContext) (name : String)
      → (st : EvalState) × (r : Fallible EvalError Decision) × (eval_chain g chains ctx
            (eval_fuel chains)
            name
            initial
          ≡ some (st, r))
  unfolding eval_fuel
  eval_chain_total chains ctx name =
      let us = to_upper g name ∷ upper_names chains in
      let known = upper_names-AllKnown chains us (λ u m. inr m) in
      let (st, r, p, _) =
        eval_chain-Finishes us g ctx chains
          (λ n c q.
            (lookup_chain-All g (λ kc. All (λ r. Among (to_upper g r.chain) us) kc.1.rules) chains n
              known q).1)
          (eval_fuel chains) name initial (inl refl)
          (omega (arith, budget-zero us, length-upper (jump_names chains))) in
      (st, r, p)

  -- Evaluation from any entry, in any configuration, cyclic ones included, comes to a result: the
  -- fuel suffices, because the guard on visits stops every recursion.
  pub evaluate_with_entry_total :
      (e : Engine) (ctx : RequestContext) (entry : String)
      → (r : Evaluation) × (evaluate_with_entry g e ctx entry ≡ some r)
  unfolding evaluate_with_entry
  evaluate_with_entry_total e ctx entry =
      let name : String = if is_empty entry then "INPUT" else entry in
      let (st, d, p) = eval_chain_total e.chains (with_resolver ctx) name in (finish st d, rw p)
