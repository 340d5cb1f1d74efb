-- ===== src/Auth/Verdict.antt =====
-- internal/auth/service.go: runRiskEngine and chargeQuotaForRiskAllow.
-- The result is `none` where the engine runs out of fuel.
pub mod Allowed
use hustmirrors_waf_backend.Base.{
  ℕ, String, not, ◌&&◌, ◌||◌, Option, none, some, List, str_eq, if◌then◌else◌, is_empty, Fallible,
  ok, err,
}
use hustmirrors_waf_backend.Base.Int.{ℤ, pos}
use hustmirrors_waf_backend.Platform.{Platform}
use hustmirrors_waf_backend.Pow.Token.{TokenPayload}
use hustmirrors_waf_backend.Pow.Sign.{Crypto}
use hustmirrors_waf_backend.Risk.Target.{
  target_accept, target_reject, target_rate_limit, target_too_many, target_require_pow,
}
use hustmirrors_waf_backend.Risk.Types.{
  RequestContext, Decision, TraceStep, Result, CounterResolver, noop_counter_resolver,
}
use hustmirrors_waf_backend.Risk.Engine.{Engine, EvalError, Evaluation, evaluate}
use hustmirrors_waf_backend.Risk.Pending
use hustmirrors_waf_backend.Auth.Result.{
  AuthRequest, AuthResult, allow, deny, deny_mode, deny_status, with_sign_id,
}
use hustmirrors_waf_backend.Auth.Rate.{decide_for_allow, pow_status_to_reason, reason_for_accept}
use hustmirrors_waf_backend.Auth.Service.{Service, CounterOps, maybe_dry_run}
use hustmirrors_waf_backend.Auth.Usage.{
  Clock, Quota, consume_generic_quota, bind_empty_ip_first_use,
}

-- The fields of verifyCtx that the outcome depends on.
pub record VerifyCtx : Type 0 where
  pub req : AuthRequest
  pub payload : Option TokenPayload
  pub token_raw : String
  pub sign : String

-- The fields sign_id, uses and max_uses that a charge sets in verifyCtx.
pub record Charged : Type 0 where
  pub sign_id : String
  pub uses : ℕ
  pub max_uses : ℤ

abbrev pub uncharged : Charged
uncharged = record { sign_id = ""; uses = 0; max_uses = pos 0 }

-- What may change during a request.
pub record World (S C : Type 0) : Type 0 where
  pub usage : S
  pub counters : C
  pub blocker : Pending.IpPendingBlocker

unfoldable pub with_decision : Decision → List TraceStep → AuthResult → AuthResult
with_decision dec trace res = record res {
  risk_chain = dec.chain;
  risk_rule = dec.rule_name;
  risk_trace = trace;
  risk_marks = dec.marks;
}

unfoldable pub with_charge : Charged → AuthResult → AuthResult
with_charge c res = record res { sign_id = c.sign_id; uses = c.uses; max_uses = c.max_uses }

unfoldable pub or_reason : String → String → String
or_reason reason default = if is_empty reason then default else reason

unfoldable pub accepted :
    Decision → List TraceStep → String → Fallible AuthResult Charged → AuthResult
unfolding with_decision with_charge
accepted dec trace pow_mode (err denied) = denied
accepted dec trace pow_mode (ok c) =
    let res = with_charge c (
      with_decision dec trace
        (record (allow (reason_for_accept dec.reason) pow_mode) { limit_rate = dec.limit_rate })) in
    record res { decision = decide_for_allow res }

unfoldable pub pow_passed : String → Fallible AuthResult Charged → AuthResult
unfolding with_charge
pow_passed pow_mode (err denied) = denied
pow_passed pow_mode (ok c) = with_charge c (allow "require_pow_pass" pow_mode)

-- REQUIRE_POW for a status other than "valid".
unfoldable pub pow_failed : String → String → AuthResult
pow_failed pow_status pow_mode =
    if str_eq pow_status "missing"
    then deny "missing_token_or_sign"
    else if str_eq pow_status "unverifiable"
    then deny_status 500 "missing_real_ip" pow_mode
    else deny_mode (pow_status_to_reason pow_status) pow_mode

module _ (g : Platform) (k : Crypto) {S C : Type 0} (s : Service S C) where
  unfoldable pub charged_result : Quota → Fallible AuthResult Charged
  charged_result q = elim q.result [
    | err e ↦ err (with_sign_id (deny_status 500 "storage_error" "generic") q.sign_id)
    | ok cr ↦
        if cr.allowed
        then ok (record { sign_id = q.sign_id; uses = cr.uses; max_uses = cr.max_uses })
        else err (
            maybe_dry_run s (record (with_sign_id (deny_mode "used_up" "generic") q.sign_id) {
              uses = cr.uses;
              max_uses = cr.max_uses;
            }))
  ]

  unfoldable pub binding_charge : Fallible AuthResult (Unit {0}) → Fallible AuthResult Charged
  binding_charge (err res) = err res
  binding_charge (ok u) = ok uncharged

  unfoldable pub charge_payload :
      VerifyCtx → String → Clock → TokenPayload → S → S × Fallible AuthResult Charged
  unfolding charged_result binding_charge
  charge_payload v pow_mode c p st =
      if str_eq pow_mode "generic"
      then (let (st', q) =
            consume_generic_quota g k s p v.req v.token_raw v.sign "generic" c.charge st in
          (st', charged_result q))
      else if str_eq pow_mode "ip_bound" && is_empty p.ip
      then (let (st', r) =
            bind_empty_ip_first_use g k s p v.req v.token_raw v.sign "ip_bound" c.bind st in
          (st', binding_charge r))
      else (st, ok uncharged)

  unfoldable pub charge_quota_for_risk_allow :
      VerifyCtx → String → String → Clock → S → S × Fallible AuthResult Charged
  unfolding charge_payload
  charge_quota_for_risk_allow v pow_status pow_mode c st =
      if not (str_eq pow_status "valid")
      then (st, ok uncharged)
      else elim v.payload [ none ↦ (st, ok uncharged) | some p ↦ charge_payload v pow_mode c p st ]

  -- The switch on the target; `none` falls through to the flow without the engine.
  unfoldable pub apply_decision :
      VerifyCtx → Decision → List TraceStep → String → String → Clock → S → S × Option AuthResult
  unfolding charge_quota_for_risk_allow accepted pow_passed pow_failed with_decision or_reason
  apply_decision v dec trace pow_status pow_mode c st =
      if str_eq dec.target target_accept || str_eq dec.target target_rate_limit
      then (let (st', r) = charge_quota_for_risk_allow v pow_status pow_mode c st in
          (st', some (accepted dec trace pow_mode r)))
      else if str_eq dec.target target_reject
      then (
        st,
        some (with_decision dec trace (deny_mode (or_reason dec.reason "risk_reject") pow_mode)),
      )
      else if str_eq dec.target target_too_many
      then (
        st,
        some (
            with_decision dec trace
              (deny_status 429 (or_reason dec.reason "rate_limited") pow_mode)),
      )
      else if str_eq dec.target target_require_pow
      then (if str_eq pow_status "valid"
          then (let (st', r) = charge_quota_for_risk_allow v pow_status pow_mode c st in
              (st', some (pow_passed pow_mode r)))
          else (st, some (pow_failed pow_status pow_mode)))
      else (st, none)

  unfoldable pub counter_resolver : Option (CounterOps C) → RequestContext → C → CounterResolver
  counter_resolver none r counters = noop_counter_resolver
  counter_resolver (some ops) r counters = ops.lookup_resolver r counters

  unfoldable pub count_request : Option (CounterOps C) → RequestContext → C → C
  count_request none r counters = counters
  count_request (some ops) r counters = ops.increment_for_request r counters

  unfoldable pub after_evaluation :
      VerifyCtx
      → RequestContext
      → Clock
      → World S C
      → Fallible EvalError Result
      → World S C × Option AuthResult
  unfolding apply_decision count_request
  after_evaluation v r c w (err e) = (w, none)
  after_evaluation v r c w (ok result) =
      let (st, res) =
        apply_decision v result.decision result.trace r.pow_status r.pow_mode c w.usage in
      (record w { usage = st; counters = count_request s.counter_reg r w.counters }, res)

  unfoldable pub evaluated :
      VerifyCtx
      → RequestContext
      → Clock
      → World S C
      → Option Evaluation
      → Option (World S C × Option AuthResult)
  unfolding after_evaluation
  evaluated v r c w none = none
  evaluated v r c w (some e) = some (after_evaluation v r c w e.result)

  unfoldable pub run_risk_engine :
      Option Engine
      → VerifyCtx
      → RequestContext
      → Clock
      → World S C
      → Option (World S C × Option AuthResult)
  unfolding counter_resolver evaluated
  run_risk_engine none v r c w = some (w, none)
  run_risk_engine (some e) v r c w =
      let r' = record r { counters = some (counter_resolver s.counter_reg r w.counters) } in
      evaluated v r' c w (evaluate g e r')
