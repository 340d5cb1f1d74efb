-- ===== src/Auth/Verify.antt =====
-- internal/auth/service.go: Verify and verifyWithoutPow. The result is `none` where the engine runs
-- out of fuel.
pub mod Proof
pub mod Safety
pub mod Total
use hustmirrors_waf_backend.Base.{
  ℕ, String, Bool, true, false, not, ◌&&◌, ◌||◌, Option, none, some, if◌then◌else◌, is_empty,
}
use hustmirrors_waf_backend.Platform.{Platform}
use hustmirrors_waf_backend.Pow.Token.{TokenPayload}
use hustmirrors_waf_backend.Pow.Sign.{Crypto}
use hustmirrors_waf_backend.Risk.Types.{RequestContext}
use hustmirrors_waf_backend.Risk.Pending
use hustmirrors_waf_backend.Auth.Result.{AuthRequest, AuthResult, allow_decision, deny_status}
use hustmirrors_waf_backend.Auth.Service.{
  Service, bypass_all_effective, pow_enabled, default_true, is_nil,
}
use hustmirrors_waf_backend.Auth.Check.{Url, is_range_request, extract_token_and_sign, classify_pow}
use hustmirrors_waf_backend.Auth.Usage.{Clock, verify_pow_only}
use hustmirrors_waf_backend.Auth.Verdict.{VerifyCtx, World, run_risk_engine}

-- Reports the status of a request without a token.
abbrev pub missing : Option TokenPayload × String × String
missing = (none, "missing", "")

-- The deferred release of the slot that was taken.
unfoldable pub release_slot :
    ℕ → Option String → Pending.IpPendingBlocker → Pending.IpPendingBlocker
release_slot now none b = b
release_slot now (some ip) b = Pending.release now ip b

abbrev pub context_of : AuthRequest → Option TokenPayload → String → String → VerifyCtx
context_of req payload token_raw sign = record {
  req = req;
  payload = payload;
  token_raw = token_raw;
  sign = sign;
}

module _ (g : Platform) (k : Crypto) {S C : Type 0} (s : Service S C) where
  abbrev pub Outcome : Type 0
  Outcome = Option (World S C × AuthResult)

  abbrev pub respond : World S C → AuthResult → Outcome
  respond w res = some (w, res)

  unfoldable pub risk_request : AuthRequest → Bool → Bool → Bool → String → String → RequestContext
  risk_request req protected has_token has_sign pow_status pow_mode = record {
    path = req.original_uri;
    method = req.original_method;
    args = req.original_args;
    ip = req.real_ip;
    user_agent = req.user_agent;
    has_token = has_token;
    has_sign = has_sign;
    pow_status = pow_status;
    pow_mode = pow_mode;
    is_protected = protected;
    is_range_request =
        is_range_request g k req.original_args req.original_method req.original_range;
    counters = none;
  }

  unfoldable pub without_pow_verdict : Option (World S C × Option AuthResult) → Outcome
  without_pow_verdict none = none
  without_pow_verdict (some (w, some res)) = respond w res
  without_pow_verdict (some (w, none)) = respond w (allow_decision "pow_disabled" "" "pow_disabled")

  unfoldable pub verify_without_pow :
      AuthRequest → Bool → String → String → Clock → World S C → Outcome
  unfolding risk_request without_pow_verdict
  verify_without_pow req protected token_raw sign c w =
      let v = context_of req none token_raw sign in
      without_pow_verdict (
        run_risk_engine g k s s.risk_engine v (risk_request req protected false false "missing" "")
          c w)

  -- Without a verdict of the engine.
  unfoldable pub fall_through :
      AuthRequest → Bool → String → String → Option TokenPayload → Clock → World S C → Outcome
  fall_through req protected token_raw sign payload c w =
      if is_nil s.risk_engine && not protected
      then respond w (allow_decision "not_protected" "" "not_protected")
      else (let (st, res) = verify_pow_only g k s req token_raw sign payload c w.usage in
          respond (record w { usage = st }) res)

  unfoldable pub or_fall_through :
      AuthRequest → Bool → VerifyCtx → Clock → Option (World S C × Option AuthResult) → Outcome
  unfolding fall_through
  or_fall_through req protected v c none = none
  or_fall_through req protected v c (some (w, some res)) = respond w res
  or_fall_through req protected v c (some (w, none)) =
      fall_through req protected v.token_raw v.sign v.payload c w

  unfoldable pub classification :
      AuthRequest → String → String → Clock → Option TokenPayload × String × String
  classification req token_raw sign c =
      if is_empty token_raw || is_empty sign
      then missing
      else classify_pow g k s c.classify token_raw sign req.original_uri req.real_ip

  unfoldable pub verify_classified :
      AuthRequest
      → Bool
      → String
      → String
      → Option TokenPayload × String × String
      → Clock
      → World S C
      → Outcome
  unfolding or_fall_through risk_request
  verify_classified req protected token_raw sign (payload, pow_status, pow_mode) c w =
      let v = context_of req payload token_raw sign in
      or_fall_through req protected v c (
        run_risk_engine g k s s.risk_engine v
          (risk_request req protected (not (is_empty token_raw)) (not (is_empty sign)) pow_status
            pow_mode)
          c w)

  -- After the pending blocker has let the request in.
  unfoldable pub verify_entered : AuthRequest → Bool → String × String → Clock → World S C → Outcome
  unfolding verify_without_pow verify_classified classification
  verify_entered req protected (token_raw, sign) c w =
      if pow_enabled s
      then verify_classified req protected token_raw sign (classification req token_raw sign c) c w
      else verify_without_pow req protected token_raw sign c w

  unfoldable pub leave : Clock → Option String → Outcome → Outcome
  unfolding release_slot
  leave c slot none = none
  leave c slot (some (w, res)) =
      respond (record w { blocker = release_slot c.leave slot w.blocker }) res

  unfoldable pub entered :
      Url
      → AuthRequest
      → Bool
      → Clock
      → World S C
      → Pending.IpPendingBlocker × Bool × Option String
      → Outcome
  unfolding verify_entered leave
  entered u req protected c w (b, true, slot) =
      respond (record w { blocker = b }) (deny_status 429 "ip_pending_blocked" "")
  entered u req protected c w (b, false, slot) = leave c slot (
      verify_entered req protected (extract_token_and_sign g k s u req.original_args) c
        (record w { blocker = b }))

  unfoldable pub uses_blocker : Bool → Bool
  uses_blocker protected =
      protected
      && (s.cfg.risk_control_enabled
          && (default_true s.cfg.pending_enabled
              && (s.has_blocker && not (bypass_all_effective s))))

  unfoldable pub verify : Url → AuthRequest → Clock → World S C → Outcome
  unfolding entered uses_blocker
  verify u req c w =
      let protected = s.should_protect req.original_uri in
      if bypass_all_effective s
      then respond w (allow_decision "bypass_all" "" "bypass")
      else if is_empty req.original_uri
      then respond w (deny_status 500 "missing_headers" "")
      else entered u req protected c w (
          if uses_blocker protected
          then Pending.enter g c.enter req.real_ip w.blocker
          else (w.blocker, false, none))
