-- ===== src/Auth/Verify/Total.antt =====
-- Verify of internal/auth/service.go always comes to a result, and gives back the slot that it takes.
use hustmirrors_waf_backend.Base.{
  ◌≡◌, refl, ap, ◌∙◌, ℕ, Fallible, ok, err, String, Bool, true, false, Option, none, some,
  if◌then◌else◌, is_empty,
}
use hustmirrors_waf_backend.Platform.{Platform}
use hustmirrors_waf_backend.Pow.Token.{TokenPayload}
use hustmirrors_waf_backend.Pow.Sign.{Crypto}
use hustmirrors_waf_backend.Risk.Pending
use hustmirrors_waf_backend.Risk.Types.{RequestContext, Result}
use hustmirrors_waf_backend.Risk.Engine.{Engine, EvalError, Evaluation, evaluate}
use hustmirrors_waf_backend.Risk.Engine.Termination.{evaluate_with_entry_total}
use hustmirrors_waf_backend.Auth.Result.{AuthRequest, AuthResult}
use hustmirrors_waf_backend.Auth.Service.{Service, pow_enabled, bypass_all_effective}
use hustmirrors_waf_backend.Risk.Pending.Returned.{
  count_of, IsTaken, enter-IsTaken, release-count_of,
}
use mathlib.Core.Path.{subst}
use hustmirrors_waf_backend.Auth.Check.{Url, extract_token_and_sign}
use hustmirrors_waf_backend.Auth.Usage.{Clock}
use hustmirrors_waf_backend.Auth.Verdict.{
  VerifyCtx, World, counter_resolver, after_evaluation, evaluated, run_risk_engine,
}
use hustmirrors_waf_backend.Auth.Verify.{
  verify_without_pow, without_pow_verdict, fall_through, or_fall_through, verify_classified,
  verify_entered, leave, entered, verify, classification, context_of, release_slot, uses_blocker,
}

-- A result, in a world with a given blocker.
abbrev Keeps : {S C A : Type 0} → Pending.IpPendingBlocker → Option (World S C × A) → Type 0
Keeps {S} {C} {A} b o = (r : World S C × A) × (o ≡ some r) × (r.0.blocker ≡ b)

branch-Keeps :
    {S C A : Type 0} (b : Pending.IpPendingBlocker) (t : Bool) (x y : Option (World S C × A))
    → Keeps b x
    → Keeps b y
    → Keeps b (if t then x else y)
branch-Keeps b true x y h k = h
branch-Keeps b false x y h k = k

module _ (g : Platform) (k : Crypto) {S C : Type 0} (s : Service S C) where
  after_evaluation-blocker :
      (v : VerifyCtx) (r : RequestContext) (c : Clock) (w : World S C)
      (outcome : Fallible EvalError Result)
      → (after_evaluation g k s v r c w outcome).0.blocker ≡ w.blocker
  unfolding after_evaluation
  after_evaluation-blocker v r c w (err e) = refl
  after_evaluation-blocker v r c w (ok result) = refl

  evaluated-Keeps :
      (v : VerifyCtx) (r : RequestContext) (c : Clock) (w : World S C) (o : Option Evaluation)
      → ((e : Evaluation) × (o ≡ some e))
      → Keeps w.blocker (evaluated g k s v r c w o)
  unfolding evaluated
  evaluated-Keeps v r c w none (e, h) = cc
  evaluated-Keeps v r c w (some e) h =
      (after_evaluation g k s v r c w e.result, refl, after_evaluation-blocker v r c w e.result)

  run_risk_engine-Keeps :
      (engine : Option Engine) (v : VerifyCtx) (r : RequestContext) (c : Clock) (w : World S C)
      → Keeps w.blocker (run_risk_engine g k s engine v r c w)
  unfolding run_risk_engine evaluate
  run_risk_engine-Keeps none v r c w = ((w, none), refl, refl)
  run_risk_engine-Keeps (some engine) v r c w =
      let r' : RequestContext = record r {
        counters = some (counter_resolver g k s s.counter_reg r w.counters);
      } in
      evaluated-Keeps v r' c w (evaluate g engine r')
        (evaluate_with_entry_total g engine r' "INPUT")

  fall_through-Keeps :
      (req : AuthRequest) (protected : Bool) (token_raw sign : String)
      (payload : Option TokenPayload) (c : Clock) (w : World S C)
      → Keeps w.blocker (fall_through g k s req protected token_raw sign payload c w)
  unfolding fall_through
  fall_through-Keeps req protected token_raw sign payload c w =
      branch-Keeps w.blocker _ _ _ (_, refl, refl) (_, refl, refl)

  or_fall_through-Keeps :
      (req : AuthRequest) (protected : Bool) (v : VerifyCtx) (c : Clock)
      (b : Pending.IpPendingBlocker) (o : Option (World S C × Option AuthResult))
      → Keeps b o
      → Keeps b (or_fall_through g k s req protected v c o)
  unfolding or_fall_through
  or_fall_through-Keeps req protected v c b none (e, h, _) = cc
  or_fall_through-Keeps req protected v c b (some (w, some res)) (e, h, kept) =
      let same : w ≡ e.0 = cc in (_, refl, ap (λ x. x.blocker) same ∙ kept)
  or_fall_through-Keeps req protected v c b (some (w, none)) (e, h, kept) =
      let same : w ≡ e.0 = cc in
      subst (λ x. Keeps x (fall_through g k s req protected v.token_raw v.sign v.payload c w))
        (ap (λ x. x.blocker) same ∙ kept)
        (fall_through-Keeps req protected v.token_raw v.sign v.payload c w)

  without_pow_verdict-Keeps :
      (b : Pending.IpPendingBlocker) (o : Option (World S C × Option AuthResult))
      → Keeps b o
      → Keeps b (without_pow_verdict g k s o)
  unfolding without_pow_verdict
  without_pow_verdict-Keeps b none (e, h, _) = cc
  without_pow_verdict-Keeps b (some (w, some res)) (e, h, kept) =
      let same : w ≡ e.0 = cc in (_, refl, ap (λ x. x.blocker) same ∙ kept)
  without_pow_verdict-Keeps b (some (w, none)) (e, h, kept) =
      let same : w ≡ e.0 = cc in (_, refl, ap (λ x. x.blocker) same ∙ kept)

  verify_entered-Keeps :
      (req : AuthRequest) (protected : Bool) (t : String × String) (c : Clock) (w : World S C)
      → Keeps w.blocker (verify_entered g k s req protected t c w)
  unfolding verify_entered verify_classified verify_without_pow
  verify_entered-Keeps req protected (token_raw, sign) c w =
      branch-Keeps w.blocker (pow_enabled s) _ _
        (or_fall_through-Keeps req protected
          (context_of req (classification g k s req token_raw sign c).0 token_raw sign) c w.blocker
          _ (run_risk_engine-Keeps s.risk_engine _ _ c w))
        (without_pow_verdict-Keeps w.blocker _ (run_risk_engine-Keeps s.risk_engine _ _ c w))

  -- A result after which an address holds n slots.
  abbrev Leaves : String → ℕ → Option (World S C × AuthResult) → Type 0
  Leaves ip n o = (r : World S C × AuthResult) × (o ≡ some r) × (count_of ip r.0.blocker ≡ n)

  branch-Leaves :
      (ip : String) (n : ℕ) (t : Bool) (x y : Option (World S C × AuthResult))
      → Leaves ip n x
      → Leaves ip n y
      → Leaves ip n (if t then x else y)
  branch-Leaves ip n true x y h j = h
  branch-Leaves ip n false x y h j = j

  leave-Leaves :
      (ip : String) (n : ℕ) (c : Clock) (slot : Option String) (b : Pending.IpPendingBlocker)
      (o : Option (World S C × AuthResult))
      → count_of ip (release_slot c.leave slot b) ≡ n
      → Keeps b o
      → Leaves ip n (leave g k s c slot o)
  unfolding leave
  leave-Leaves ip n c slot b none h (e, q, _) = cc
  leave-Leaves ip n c slot b (some (w, res)) h (e, q, kept) =
      let same : w ≡ e.0 = cc in
      (
        _,
        refl,
        ap (λ x. count_of ip (release_slot c.leave slot x)) (ap (λ x. x.blocker) same ∙ kept) ∙ h,
      )

  entered-Leaves :
      (u : Url) (req : AuthRequest) (protected : Bool) (c : Clock) (w : World S C) (ip : String)
      (b : Pending.IpPendingBlocker) (e : Pending.IpPendingBlocker × Bool × Option String)
      → IsTaken b e ip
      → Leaves ip (count_of ip b) (entered g k s u req protected c w e)
  unfolding entered release_slot
  entered-Leaves u req protected c w ip b (b', true, none) h = (_, refl, h)
  entered-Leaves u req protected c w ip b (b', true, some slot) h = absurd h
  entered-Leaves u req protected c w ip b (b', false, none) h =
      leave-Leaves ip (count_of ip b) c none b' _ h (
        verify_entered-Keeps req protected (extract_token_and_sign g k s u req.original_args) c
          (record w { blocker = b' }))
  entered-Leaves u req protected c w ip b (b', false, some slot) (h, open_) =
      leave-Leaves ip (count_of ip b) c (some slot) b' _
        (release-count_of c.leave slot ip (count_of ip b) b' open_ h)
        (verify_entered-Keeps req protected (extract_token_and_sign g k s u req.original_args) c
          (record w { blocker = b' }))

  enter_or_not :
      (t : Bool) (req : AuthRequest) (c : Clock) (b : Pending.IpPendingBlocker) (ip : String)
      → IsTaken b (if t then Pending.enter g c.enter req.real_ip b else (b, false, none)) ip
  enter_or_not true req c b ip = enter-IsTaken g c.enter req.real_ip ip b
  enter_or_not false req c b ip = refl

  -- Every request comes to a result, in every configuration, cyclic chains included, and when it has been
  -- answered every address holds as many slots of the pending blocker as before it.
  pub verify_gives_back :
      (u : Url) (req : AuthRequest) (c : Clock) (w : World S C) (ip : String)
      → (r : World S C × AuthResult) × (verify g k s u req c w ≡ some r)
        × (count_of ip r.0.blocker ≡ count_of ip w.blocker)
  unfolding verify
  verify_gives_back u req c w ip =
      let n = count_of ip w.blocker in
      branch-Leaves ip n (bypass_all_effective s) _ _ (_, refl, refl)
        (branch-Leaves ip n (is_empty req.original_uri) _ _ (_, refl, refl)
          (entered-Leaves u req _ c w ip w.blocker _ (
            enter_or_not (uses_blocker g k s (s.should_protect req.original_uri)) req c w.blocker
              ip)))
