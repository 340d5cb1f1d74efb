-- ===== src/Auth/Usage/Allowed.antt =====
-- What it takes for the flow of internal/auth/pow_verify.go that rests on the token alone to allow a
-- request.
use hustmirrors_waf_backend.Base.{
  ◌≡◌, refl, String, Bool, true, false, not, ◌&&◌, ◌||◌, Option, none, some, str_eq, if◌then◌else◌,
  is_empty, Fallible, ok, err,
}
use hustmirrors_waf_backend.Platform.{Platform}
use hustmirrors_waf_backend.Pow.Token.{TokenPayload}
use hustmirrors_waf_backend.Pow.Sign.{Crypto}
use hustmirrors_waf_backend.Auth.Result.{AuthRequest, AuthResult, deny, deny_mode, deny_status}
use hustmirrors_waf_backend.Auth.Service.{
  Service, ModeConfig, mode_config, maybe_dry_run, dry_run_result,
}
use hustmirrors_waf_backend.Auth.Check.{same_ip, validate_token_for_mode}
use hustmirrors_waf_backend.Auth.Check.Sound.{IsGood, fits_ip, validate_token_for_mode_sound}
use hustmirrors_waf_backend.Auth.Usage.{
  Clock, bind_empty_ip_first_use, bound, bound_result, ip_bound_allow, finalize_generic,
  finalize_ip_bound, finalize_by_mode, checked, verify_presented, verify_pow_only,
}

dry_run_result-denied :
    (d : Bool) (res : AuthResult)
    → d ≡ false
    → res.allowed ≡ false
    → (dry_run_result d res).allowed ≡ false
unfolding dry_run_result
dry_run_result-denied true res e h = cc
dry_run_result-denied false res e h = h

-- The branches that allow, of the switch on the mode.
mode_branches :
    {S : Type 0} (m r i a : Bool) (w x y z v : S × AuthResult)
    → w.1.allowed ≡ false
    → z.1.allowed ≡ false
    → (if m then (if r then w else if i then x else if a then y else z) else v).1.allowed ≡ true
    → not m || (not r && (i || a)) ≡ true
mode_branches false r i a w x y z v hw hz h = refl
mode_branches true true i a w x y z v hw hz h = cc
mode_branches true false true a w x y z v hw hz h = refl
mode_branches true false false true w x y z v hw hz h = refl
mode_branches true false false false w x y z v hw hz h = cc

module _ (g : Platform) (k : Crypto) {S C : Type 0} (s : Service S C) where
  denied :
      (res : AuthResult)
      → s.cfg.pow.dry_run ≡ false
      → res.allowed ≡ false
      → (maybe_dry_run s res).allowed ≡ false
  unfolding maybe_dry_run
  denied res e h = dry_run_result-denied s.cfg.pow.dry_run res e h

  finalize_by_mode-allowed :
      (req : AuthRequest) (p : TokenPayload) (token_raw sign : String) (c : Clock) (st : S)
      → s.cfg.pow.dry_run ≡ false
      → (finalize_by_mode g k s req p token_raw sign p.mode c st).1.allowed ≡ true
      → fits_ip g k s p req.real_ip ≡ true
  unfolding finalize_by_mode finalize_ip_bound fits_ip deny_status deny_mode deny
  finalize_by_mode-allowed req p token_raw sign c st d h =
      let (st', r) = bind_empty_ip_first_use g k s p req token_raw sign p.mode c.bind st in
      mode_branches {S = S} (str_eq p.mode "ip_bound") (is_empty req.real_ip) (is_empty p.ip)
        (same_ip g k p.ip req.real_ip) (st, deny_status 500 "missing_real_ip" p.mode)
        (st', bound_result g k s (bound g k s p req) sign p.mode r)
        (st, ip_bound_allow g k s p sign p.mode)
        (st, maybe_dry_run s (deny_mode "ip_mismatch" p.mode))
        (if str_eq p.mode "generic"
          then finalize_generic g k s p req token_raw sign p.mode c.verify st
          else (st, maybe_dry_run s (deny_mode "unsupported_mode" p.mode)))
        refl (denied (deny_mode "ip_mismatch" p.mode) d refl) h

  checked-allowed :
      (req : AuthRequest) (p : TokenPayload) (token_raw sign : String) (c : Clock)
      (r : Fallible String (Unit {0})) (st : S)
      → s.cfg.pow.dry_run ≡ false
      → (checked g k s req p token_raw sign c r st).1.allowed ≡ true
      → (r ≡ ok tt) × (fits_ip g k s p req.real_ip ≡ true)
  unfolding checked deny_mode deny
  checked-allowed req p token_raw sign c (ok tt) st d h =
      (refl, finalize_by_mode-allowed req p token_raw sign c st d h)
  checked-allowed req p token_raw sign c (err reason) st d h =
      let e = denied (deny_mode reason p.mode) d refl in cc

  verify_presented-allowed :
      (req : AuthRequest) (token_raw sign : String) (c : Clock) (r : Fallible String (Unit {0}))
      (payload : Option TokenPayload) (st : S)
      → s.cfg.pow.dry_run ≡ false
      → (verify_presented g k s req token_raw sign c r payload st).1.allowed ≡ true
      → (p : TokenPayload) × (payload ≡ some p)
        × (validate_token_for_mode g k s p p.mode req.original_uri sign c.verify ≡ ok tt)
        × (fits_ip g k s p req.real_ip ≡ true)
  unfolding verify_presented deny
  verify_presented-allowed req token_raw sign c (err reason) payload st d h =
      let e = denied (deny reason) d refl in cc
  verify_presented-allowed req token_raw sign c (ok u) none st d h =
      let e = denied (deny "malformed_token") d refl in cc
  verify_presented-allowed req token_raw sign c (ok u) (some p) st d h =
      let (a, b) = checked-allowed req p token_raw sign c _ st d h in (p, refl, a, b)

  -- Without dry_run, the flow allows a request only for a payload that satisfies every check of its
  -- mode, for the path of the request and at the time of the check, and that fits the address.
  pub verify_pow_only-allowed :
      (req : AuthRequest) (token_raw sign : String) (payload : Option TokenPayload) (c : Clock)
      (st : S)
      → s.cfg.pow.dry_run ≡ false
      → (verify_pow_only g k s req token_raw sign payload c st).1.allowed ≡ true
      → (p : TokenPayload) × (payload ≡ some p)
        × (mc : ModeConfig) × (mode_config s p.mode ≡ some mc)
        × IsGood g k mc p req.original_uri sign c.verify
        × (fits_ip g k s p req.real_ip ≡ true)
  unfolding verify_pow_only
  verify_pow_only-allowed req token_raw sign payload c st d h =
      let (p, e, a, b) = verify_presented-allowed req token_raw sign c _ payload st d h in
      let (mc, known, good) =
        validate_token_for_mode_sound g k s p p.mode req.original_uri sign c.verify a in
      (p, e, mc, known, good, b)
