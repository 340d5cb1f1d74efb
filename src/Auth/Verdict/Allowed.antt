-- ===== src/Auth/Verdict/Allowed.antt =====
-- Which verdicts of the risk engine let internal/auth allow a request.
use mathlib.Core.Path.{subst}
use hustmirrors_waf_backend.Base.{
  ◌≡◌, refl, ◌⊎◌, inl, inr, String, Bool, true, false, ◌||◌, Option, none, some, List, str_eq,
  if◌then◌else◌, Fallible, ok, err,
}
use hustmirrors_waf_backend.Platform.{Platform}
use hustmirrors_waf_backend.Pow.Sign.{Crypto}
use hustmirrors_waf_backend.Risk.Target.{
  target_accept, target_reject, target_rate_limit, target_too_many, target_require_pow,
}
use hustmirrors_waf_backend.Risk.Types.{RequestContext, Decision, TraceStep, Result}
use hustmirrors_waf_backend.Risk.Engine.{Engine, EvalError, Evaluation, evaluate}
use hustmirrors_waf_backend.Auth.Result.{AuthResult, deny, deny_mode, deny_status}
use hustmirrors_waf_backend.Auth.Rate.{pow_status_to_reason}
use hustmirrors_waf_backend.Auth.Service.{Service}
use hustmirrors_waf_backend.Auth.Usage.{Clock}
use hustmirrors_waf_backend.Auth.Verdict.{
  VerifyCtx, World, with_decision, or_reason, accepted, pow_passed, pow_failed, counter_resolver,
  charge_quota_for_risk_allow, apply_decision, after_evaluation, evaluated, run_risk_engine,
}

-- The target of an outcome of the engine, if it is a success.
abbrev target_in : Fallible EvalError Result → Option String
target_in (err e) = none
target_in (ok result) = some result.decision.target

abbrev target_of : Option Evaluation → Option String
target_of none = none
target_of (some evaluation) = target_in evaluation.result

abbrev verdict_of : Platform → Option Engine → RequestContext → Option String
verdict_of g none ctx = none
verdict_of g (some engine) ctx = target_of (evaluate g engine ctx)

-- The target that the risk engine of the service comes to for a request; nothing without an engine.
abbrev pub verdict_target : {S C : Type 0} → Platform → Service S C → RequestContext → Option String
verdict_target g s ctx = verdict_of g s.risk_engine ctx

abbrev pub admits : Option String → Bool
admits none = false
admits (some target) = str_eq target target_accept || str_eq target target_rate_limit

abbrev pub refuses : Option String → Bool
refuses none = false
refuses (some target) = str_eq target target_reject || str_eq target target_too_many

-- What an answer says of a verdict that admits (a) or refuses (r), for a token that is valid (v) or not.
abbrev Fits : Bool → Bool → Bool → Option AuthResult → Type 0
Fits a r v none = r ≡ false
Fits a r v (some res) = (res.allowed ≡ false) ⊎ ((a ≡ true) ⊎ ((r ≡ false) × (v ≡ true)))

-- The switch on the target, where the answers other than x and y are denials.
target_branches :
    {S : Type 0} (a b t q v : Bool) (s1 s2 s3 s4 s5 s6 : S) (x y r m z : AuthResult)
    → r.allowed ≡ false
    → m.allowed ≡ false
    → z.allowed ≡ false
    → Fits a
        (b || t)
        v
        (if◌then◌else◌ {A = S × Option AuthResult} a
          (s1, some x)
          (if b
            then (s2, some r)
            else if t
            then (s3, some m)
            else if q
            then (if v then (s4, some y) else (s5, some z))
            else (s6, none))).1
target_branches true b t q v s1 s2 s3 s4 s5 s6 x y r m z hr hm hz = inr (inl refl)
target_branches false true t q v s1 s2 s3 s4 s5 s6 x y r m z hr hm hz = inl hr
target_branches false false true q v s1 s2 s3 s4 s5 s6 x y r m z hr hm hz = inl hm
target_branches false false false true true s1 s2 s3 s4 s5 s6 x y r m z hr hm hz =
    inr (inr (refl, refl))
target_branches false false false true false s1 s2 s3 s4 s5 s6 x y r m z hr hm hz = inl hz
target_branches false false false false v s1 s2 s3 s4 s5 s6 x y r m z hr hm hz = refl

pow_failed_branches :
    (a b : Bool) (x y z : AuthResult)
    → x.allowed ≡ false
    → y.allowed ≡ false
    → z.allowed ≡ false
    → (if a then x else if b then y else z).allowed ≡ false
pow_failed_branches true b x y z hx hy hz = hx
pow_failed_branches false true x y z hx hy hz = hy
pow_failed_branches false false x y z hx hy hz = hz

pow_failed-denied :
    (pow_status pow_mode : String) → (pow_failed pow_status pow_mode).allowed ≡ false
unfolding pow_failed deny_status deny_mode deny
pow_failed-denied pow_status pow_mode =
    pow_failed_branches (str_eq pow_status "missing") (str_eq pow_status "unverifiable")
      (deny "missing_token_or_sign") (deny_status 500 "missing_real_ip" pow_mode)
      (deny_mode (pow_status_to_reason pow_status) pow_mode) refl refl refl

module _ (g : Platform) (k : Crypto) {S C : Type 0} (s : Service S C) where
  -- Of the verdict with a target, for a request with a status of its token.
  abbrev pub Respects : Option String → String → Option AuthResult → Type 0
  Respects target pow_status res =
      Fits (admits target) (refuses target) (str_eq pow_status "valid") res

  apply_decision-Respects :
      (v : VerifyCtx) (dec : Decision) (trace : List TraceStep) (pow_status pow_mode : String)
      (c : Clock) (st : S)
      → Respects
          (some dec.target)
          pow_status
          (apply_decision g k s v dec trace pow_status pow_mode c st).1
  unfolding apply_decision with_decision deny_status deny_mode deny
  apply_decision-Respects v dec trace pow_status pow_mode c st =
      let (st', r) = charge_quota_for_risk_allow g k s v pow_status pow_mode c st in
      target_branches {S = S}
        (str_eq dec.target target_accept || str_eq dec.target target_rate_limit)
        (str_eq dec.target target_reject) (str_eq dec.target target_too_many)
        (str_eq dec.target target_require_pow) (str_eq pow_status "valid") st' st st st' st st
        (accepted dec trace pow_mode r) (pow_passed pow_mode r)
        (with_decision dec trace (deny_mode (or_reason dec.reason "risk_reject") pow_mode))
        (with_decision dec trace (deny_status 429 (or_reason dec.reason "rate_limited") pow_mode))
        (pow_failed pow_status pow_mode) refl refl (pow_failed-denied pow_status pow_mode)

  after_evaluation-Respects :
      (v : VerifyCtx) (r : RequestContext) (c : Clock) (w : World S C)
      (outcome : Fallible EvalError Result)
      → Respects (target_in outcome) r.pow_status (after_evaluation g k s v r c w outcome).1
  unfolding after_evaluation
  after_evaluation-Respects v r c w (err e) = refl
  after_evaluation-Respects v r c w (ok result) =
      apply_decision-Respects v result.decision result.trace r.pow_status r.pow_mode c w.usage

  evaluated-Respects :
      (v : VerifyCtx) (r : RequestContext) (c : Clock) (w w' : World S C) (o : Option Evaluation)
      (res : Option AuthResult)
      → evaluated g k s v r c w o ≡ some (w', res)
      → Respects (target_of o) r.pow_status res
  unfolding evaluated
  evaluated-Respects v r c w w' none res h = cc
  evaluated-Respects v r c w w' (some evaluation) res h =
      let same : (after_evaluation g k s v r c w evaluation.result).1 ≡ res = cc in
      subst (Respects (target_in evaluation.result) r.pow_status) same
        (after_evaluation-Respects v r c w evaluation.result)

  -- The context in which the engine is evaluated: with the counters as they are.
  abbrev pub counted : RequestContext → C → RequestContext
  counted r counters = record r {
    counters = some (counter_resolver g k s s.counter_reg r counters);
  }

  engine-Respects :
      (engine : Option Engine) (v : VerifyCtx) (r : RequestContext) (c : Clock) (w w' : World S C)
      (res : Option AuthResult)
      → run_risk_engine g k s engine v r c w ≡ some (w', res)
      → Respects (verdict_of g engine (counted r w.counters)) r.pow_status res
  unfolding run_risk_engine
  engine-Respects none v r c w w' res h =
      let same : none ≡ res = cc in subst (Respects none r.pow_status) same refl
  engine-Respects (some engine) v r c w w' res h =
      evaluated-Respects v (counted r w.counters) c w w' (evaluate g engine (counted r w.counters))
        res h

  -- The risk engine allows a request only by a verdict that admits it, or for a valid token where the
  -- verdict does not refuse it, and falls through only where the verdict does not refuse it.
  pub run_risk_engine-Respects :
      (v : VerifyCtx) (r : RequestContext) (c : Clock) (w w' : World S C) (res : Option AuthResult)
      → run_risk_engine g k s s.risk_engine v r c w ≡ some (w', res)
      → Respects (verdict_target g s (counted r w.counters)) r.pow_status res
  run_risk_engine-Respects v r c w w' res h = engine-Respects s.risk_engine v r c w w' res h
