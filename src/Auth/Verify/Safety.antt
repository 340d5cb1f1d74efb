-- ===== src/Auth/Verify/Safety.antt =====
-- What it takes for Verify of internal/auth/service.go to allow a request to a protected path.
use mathlib.Core.Path.{subst}
use hustmirrors_waf_backend.Base.{
  ◌≡◌, refl, ap, ◌∙◌, ◌⊎◌, inl, inr, String, Bool, true, false, not, Option, none, some,
  if◌then◌else◌, is_empty, ◌||◌, eq_iff,
}
use hustmirrors_waf_backend.Platform.{Platform}
use hustmirrors_waf_backend.Pow.Sign.{Crypto}
use hustmirrors_waf_backend.Risk.Pending
use hustmirrors_waf_backend.Auth.Result.{
  AuthRequest, AuthResult, allow_decision, deny_status, deny_mode, deny,
}
use hustmirrors_waf_backend.Auth.Service.{Service, bypass_all_effective, pow_enabled}
use hustmirrors_waf_backend.Auth.Check.{Url, extract_token_and_sign, classify_pow, is_range_request}
use hustmirrors_waf_backend.Auth.Usage.{Clock}
use hustmirrors_waf_backend.Auth.Verdict.{World, run_risk_engine}
use hustmirrors_waf_backend.Auth.Verdict.Allowed.{
  verdict_target, admits, refuses, counted, run_risk_engine-Respects,
}
use hustmirrors_waf_backend.Pow.Token.{TokenPayload}
use hustmirrors_waf_backend.Risk.Types.{RequestContext}
use hustmirrors_waf_backend.Auth.Verify.{
  classification, or_fall_through, verify_classified, verify_entered, leave, entered, verify,
  uses_blocker, context_of, risk_request, verify_without_pow,
}
use hustmirrors_waf_backend.Auth.Verify.Proof.{
  HasProof, classification-HasProof, fall_through-HasProof,
}

module _ (g : Platform) (k : Crypto) {S C : Type 0} (s : Service S C) where
  -- What the token and the sign of a request amount to.
  abbrev claim : AuthRequest → String → String → Clock → Option TokenPayload × String × String
  claim req token_raw sign c =
      if is_empty token_raw || is_empty sign
      then (none, "missing", "")
      else classify_pow g k s c.classify token_raw sign req.original_uri req.real_ip

  -- The request for a protected path as the rules are to see it.
  abbrev pub seen : AuthRequest → String → String → Clock → C → RequestContext
  seen req token_raw sign c counters =
      let claimed = claim req token_raw sign c in
      counted g k s
        (record {
          path = req.original_uri;
          method = req.original_method;
          args = req.original_args;
          ip = req.real_ip;
          user_agent = req.user_agent;
          has_token = not (is_empty token_raw);
          has_sign = not (is_empty sign);
          pow_status = claimed.1;
          pow_mode = claimed.2;
          is_protected = true;
          is_range_request =
              is_range_request g k req.original_args req.original_method req.original_range;
          counters = none;
        })
        counters

  -- Either the engine's verdict on this very request admits it, or the verdict does not refuse it and
  -- the token is a proof.
  abbrev pub Justified : AuthRequest → String → String → Clock → C → Type 0
  Justified req token_raw sign c counters =
      let target = verdict_target g s (seen req token_raw sign c counters) in
      (admits target ≡ true) ⊎ ((refuses target ≡ false) × HasProof g k s req token_raw sign c)

  or_fall_through-Justified :
      (req : AuthRequest) (token_raw sign : String) (c : Clock)
      (o : Option (World S C × Option AuthResult)) (w w' : World S C) (res : AuthResult)
      → s.cfg.pow.dry_run ≡ false
      → run_risk_engine g k s s.risk_engine
          (context_of req (classification g k s req token_raw sign c).0 token_raw sign)
          (risk_request g k s req true
            (not (is_empty token_raw))
            (not (is_empty sign))
            (classification g k s req token_raw sign c).1
            (classification g k s req token_raw sign c).2)
          c
          w
        ≡ o
      → or_fall_through g k s req true
          (context_of req (classification g k s req token_raw sign c).0 token_raw sign)
          c
          o
        ≡ some (w', res)
      → res.allowed ≡ true
      → Justified req token_raw sign c w.counters
  unfolding or_fall_through risk_request classification
  or_fall_through-Justified req token_raw sign c none w w' res d run h a = cc
  or_fall_through-Justified req token_raw sign c (some (w1, none)) w w' res d run h a = inr (
    run_risk_engine-Respects g k s _ _ c w w1 none run,
    fall_through-HasProof g k s req token_raw sign c w1 w' res d h a,
  )
  or_fall_through-Justified req token_raw sign c (some (w1, some r)) w w' res d run h a =
      let same : r ≡ res = cc in
      let allowed : r.allowed ≡ true = ap (λ x. x.allowed) same ∙ a in
      elim (run_risk_engine-Respects g k s _ _ c w w1 (some r) run) [
        | inl denied ↦ cc
        | inr (inl admitted) ↦ inl admitted
        | inr (inr (kept, valid)) ↦
            inr (
              kept,
              classification-HasProof g k s req token_raw sign c ((eq_iff _ "valid").0 valid),
            )
      ]

  verify_entered-Justified :
      (req : AuthRequest) (token_raw sign : String) (c : Clock) (w w' : World S C)
      (res : AuthResult)
      → s.cfg.pow.dry_run ≡ false
      → pow_enabled s ≡ true
      → verify_entered g k s req true (token_raw, sign) c w ≡ some (w', res)
      → res.allowed ≡ true
      → Justified req token_raw sign c w.counters
  unfolding verify_entered verify_classified
  verify_entered-Justified req token_raw sign c w w' res d on h a =
      or_fall_through-Justified req token_raw sign c _ w w' res d refl
        (subst
          (λ b.
            (if b
              then verify_classified g k s req true token_raw sign
                  (classification g k s req token_raw sign c) c w
              else verify_without_pow g k s req true token_raw sign c w)
            ≡ some (w', res))
          on h)
        a

  leave-allowed :
      (c : Clock) (slot : Option String) (o : Option (World S C × AuthResult)) (w' : World S C)
      (res : AuthResult)
      → leave g k s c slot o ≡ some (w', res)
      → (w : World S C) × (o ≡ some (w, res))
  unfolding leave
  leave-allowed c slot none w' res h = cc
  leave-allowed c slot (some (w, r)) w' res h = (w, cc)

  entered-Justified :
      (u : Url) (req : AuthRequest) (c : Clock) (w w' : World S C)
      (e : Pending.IpPendingBlocker × Bool × Option String) (res : AuthResult)
      → s.cfg.pow.dry_run ≡ false
      → pow_enabled s ≡ true
      → entered g k s u req true c w e ≡ some (w', res)
      → res.allowed ≡ true
      → Justified req
          (extract_token_and_sign g k s u req.original_args).0
          (extract_token_and_sign g k s u req.original_args).1
          c
          w.counters
  unfolding entered deny_status deny_mode deny
  entered-Justified u req c w w' (b, true, slot) res d on h a = cc
  entered-Justified u req c w w' (b, false, slot) res d on h a =
      let (w1, h1) = leave-allowed c slot _ w' res h in
      verify_entered-Justified req _ _ c (record w { blocker = b }) w1 res d on h1 a

  -- The early exits of Verify.
  early_exits :
      {A : Type 0} (b m : Bool) (x y z : Option (A × AuthResult)) {w' : A} {res : AuthResult}
      → b ≡ false
      → ((w1 : A) (r : AuthResult) → y ≡ some (w1, r) → r.allowed ≡ false)
      → (if b then x else if m then y else z) ≡ some (w', res)
      → res.allowed ≡ true
      → z ≡ some (w', res)
  early_exits true m x y z e denied h a = cc
  early_exits false true x y z e denied h a = let f = denied _ _ h in cc
  early_exits false false x y z e denied h a = h

  -- Where verification is on, without bypass_all and dry_run, a request for a protected path is
  -- allowed only if the engine's verdict on this very request, with its address, headers and path, the
  -- status of its token and the counters as they are, is ACCEPT or RATE_LIMIT; or if that verdict is
  -- neither REJECT nor TOO_MANY and the token in its arguments decodes to a payload that satisfies every
  -- check of its mode: its sign is the hash of the canonical form and meets the difficulty, it names
  -- the path of the request, it has not expired, and an ip_bound token fits the address.
  pub verify-allowed :
      (u : Url) (req : AuthRequest) (c : Clock) (w w' : World S C) (res : AuthResult)
      → bypass_all_effective s ≡ false
      → s.cfg.pow.dry_run ≡ false
      → pow_enabled s ≡ true
      → s.should_protect req.original_uri ≡ true
      → verify g k s u req c w ≡ some (w', res)
      → res.allowed ≡ true
      → Justified req
          (extract_token_and_sign g k s u req.original_args).0
          (extract_token_and_sign g k s u req.original_args).1
          c
          w.counters
  unfolding verify deny_status deny_mode deny
  verify-allowed u req c w w' res bypass d on protected h a =
      entered-Justified u req c w w' _ res d on
        (subst
          (λ b.
            entered g k s u req b c w (
              if uses_blocker g k s b
              then Pending.enter g c.enter req.real_ip w.blocker
              else (w.blocker, false, none))
            ≡ some (w', res))
          protected
          (early_exits (bypass_all_effective s) (is_empty req.original_uri)
            (some (w, allow_decision "bypass_all" "" "bypass"))
            (some (w, deny_status 500 "missing_headers" "")) _ bypass (λ w1 r e. cc) h a))
        a
