-- ===== src/Auth/Verify/Proof.antt =====
-- What a payload that Verify of internal/auth/service.go has classified, or lets pass, has shown.
use hustmirrors_waf_backend.Base.{
  ◌≡◌, refl, sym, ap, ◌∙◌, ◌⊎◌, inl, inr, String, Bool, true, false, not, ◌&&◌, ◌||◌, Option, none,
  some, if◌then◌else◌, is_empty, Fallible, ok, err,
}
use hustmirrors_waf_backend.Base.Int.{ℤ}
use hustmirrors_waf_backend.Platform.{Platform}
use hustmirrors_waf_backend.Pow.Token.{TokenPayload, TokenError}
use hustmirrors_waf_backend.Pow.Sign.{Crypto, decode_token}
use hustmirrors_waf_backend.Auth.Result.{allow_decision, AuthRequest, AuthResult}
use hustmirrors_waf_backend.Auth.Service.{Service, ModeConfig, mode_config, is_nil}
use hustmirrors_waf_backend.Auth.Check.{classify_decoded, classify_pow, too_long}
use hustmirrors_waf_backend.Auth.Check.Sound.{
  IsGood, fits_ip, classify_pow_sound, validate_token_for_mode_sound,
}
use hustmirrors_waf_backend.Auth.Usage.{Clock, verify_pow_only}
use hustmirrors_waf_backend.Auth.Usage.Allowed.{verify_pow_only-allowed}
use hustmirrors_waf_backend.Auth.Verdict.{World}
use hustmirrors_waf_backend.Auth.Verify.{classification, fall_through, missing}

abbrev Classified : Type 0
Classified = Option TokenPayload × String × String

-- The test of the lengths in classifyPoW.
abbrev gated : Bool → Classified → Classified
gated b r = if b then (none, "invalid", "") else r

gated-payload :
    (b : Bool) (r : Classified) {p : TokenPayload} → (gated b r).0 ≡ some p → gated b r ≡ r
gated-payload true r h = cc
gated-payload false r h = refl

gated-valid : (b : Bool) (r : Classified) → (gated b r).1 ≡ "valid" → gated b r ≡ r
gated-valid true r h = cc
gated-valid false r h = refl

presented-payload :
    (b : Bool) (r : Classified) {p : TokenPayload}
    → (if b then missing else r).0 ≡ some p
    → (if b then missing else r) ≡ r
presented-payload true r h = cc
presented-payload false r h = refl

presented-valid :
    (b : Bool) (r : Classified)
    → (if b then missing else r).1 ≡ "valid"
    → (if b then missing else r) ≡ r
presented-valid true r h = cc
presented-valid false r h = refl

protected_branch {ℓ} : {A : Type ℓ} (b : Bool) (x y : A) → (if b && not true then x else y) ≡ y
protected_branch true x y = refl
protected_branch false x y = refl

module _ (g : Platform) (k : Crypto) {S C : Type 0} (s : Service S C) where
  -- The token decodes to a payload that satisfies every check of its mode, for the path of the
  -- request and at a reading of the clock, and that fits the address.
  pub record HasProof (req : AuthRequest) (token_raw sign : String) (c : Clock) : Type 0 where
    pub payload : TokenPayload
    pub config : ModeConfig
    pub now : ℤ
    pub reading : (now ≡ c.classify) ⊎ (now ≡ c.verify)
    pub decoded : decode_token k token_raw ≡ ok payload
    pub known : mode_config s payload.mode ≡ some config
    pub good : IsGood g k config payload req.original_uri sign now
    pub fits : fits_ip g k s payload req.real_ip ≡ true

  classify_decoded-payload :
      (now : ℤ) (sign path real_ip : String) (r : Fallible TokenError TokenPayload)
      {p : TokenPayload}
      → (classify_decoded g k s now sign path real_ip r).0 ≡ some p
      → r ≡ ok p
  unfolding classify_decoded
  classify_decoded-payload now sign path real_ip (err e) h = cc
  classify_decoded-payload now sign path real_ip (ok q) h = cc

  classify_pow-payload :
      (now : ℤ) (token_raw sign path real_ip : String) {p : TokenPayload}
      → (classify_pow g k s now token_raw sign path real_ip).0 ≡ some p
      → decode_token k token_raw ≡ ok p
  unfolding classify_pow
  classify_pow-payload now token_raw sign path real_ip h =
      classify_decoded-payload now sign path real_ip _ (
        ap (λ c. c.0)
          (sym (
            gated-payload
              (too_long token_raw s.cfg.pow.max_token_length
                || too_long sign s.cfg.pow.max_sign_length)
              _ h))
        ∙ h)

  classify_decoded-some :
      (now : ℤ) (sign path real_ip : String) (r : Fallible TokenError TokenPayload)
      → (classify_decoded g k s now sign path real_ip r).1 ≡ "valid"
      → (p : TokenPayload) × ((classify_decoded g k s now sign path real_ip r).0 ≡ some p)
  unfolding classify_decoded
  classify_decoded-some now sign path real_ip (err e) h = cc
  classify_decoded-some now sign path real_ip (ok q) h = (q, refl)

  classify_pow-some :
      (now : ℤ) (token_raw sign path real_ip : String)
      → (classify_pow g k s now token_raw sign path real_ip).1 ≡ "valid"
      → (p : TokenPayload) × ((classify_pow g k s now token_raw sign path real_ip).0 ≡ some p)
  unfolding classify_pow
  classify_pow-some now token_raw sign path real_ip h =
      let e =
        gated-valid
          (too_long token_raw s.cfg.pow.max_token_length || too_long sign s.cfg.pow.max_sign_length)
          (classify_decoded g k s now sign path real_ip (decode_token k token_raw)) h in
      let (p, q) = classify_decoded-some now sign path real_ip _ (ap (λ c. c.1) (sym e) ∙ h) in
      (p, ap (λ c. c.0) e ∙ q)

  classify_pow-HasProof :
      (req : AuthRequest) (token_raw sign : String) (c : Clock)
      → (classify_pow g k s c.classify token_raw sign req.original_uri req.real_ip).1 ≡ "valid"
      → HasProof req token_raw sign c
  classify_pow-HasProof req token_raw sign c h =
      let (p, e) = classify_pow-some c.classify token_raw sign req.original_uri req.real_ip h in
      let (a, b, v, f) =
        classify_pow_sound g k s c.classify token_raw sign req.original_uri req.real_ip {p = p}
          {m = (classify_pow g k s c.classify token_raw sign req.original_uri req.real_ip).2} cc in
      let (mc, known, good) =
        validate_token_for_mode_sound g k s p p.mode req.original_uri sign c.classify v in
      record {
        payload = p;
        config = mc;
        now = c.classify;
        reading = inl refl;
        decoded = a;
        known = known;
        good = good;
        fits = f;
      }

  pub classification-HasProof :
      (req : AuthRequest) (token_raw sign : String) (c : Clock)
      → (classification g k s req token_raw sign c).1 ≡ "valid"
      → HasProof req token_raw sign c
  unfolding classification
  classification-HasProof req token_raw sign c h =
      classify_pow-HasProof req token_raw sign c
        (ap (λ c. c.1) (sym (presented-valid (is_empty token_raw || is_empty sign) _ h)) ∙ h)

  classification-decoded :
      (req : AuthRequest) (token_raw sign : String) (c : Clock) {p : TokenPayload}
      → (classification g k s req token_raw sign c).0 ≡ some p
      → decode_token k token_raw ≡ ok p
  unfolding classification
  classification-decoded req token_raw sign c h =
      classify_pow-payload c.classify token_raw sign req.original_uri req.real_ip
        (ap (λ c. c.0) (sym (presented-payload (is_empty token_raw || is_empty sign) _ h)) ∙ h)

  pub fall_through-HasProof :
      (req : AuthRequest) (token_raw sign : String) (c : Clock) (w w' : World S C)
      (res : AuthResult)
      → s.cfg.pow.dry_run ≡ false
      → fall_through g k s req true token_raw sign (classification g k s req token_raw sign c).0 c w
        ≡ some (w', res)
      → res.allowed ≡ true
      → HasProof req token_raw sign c
  unfolding fall_through
  fall_through-HasProof req token_raw sign c w w' res d h a =
      let payload = (classification g k s req token_raw sign c).0 in
      let (st, res') = verify_pow_only g k s req token_raw sign payload c w.usage in
      let e =
        sym (
          protected_branch (is_nil s.risk_engine)
            (some (w, allow_decision "not_protected" "" "not_protected"))
            (some (record w { usage = st }, res')))
        ∙ h in
      let same : res' ≡ res = cc in
      let (p, e, mc, known, good, fits) =
        verify_pow_only-allowed g k s req token_raw sign payload c w.usage d
          (ap (λ r. r.allowed) same ∙ a) in
      record {
        payload = p;
        config = mc;
        now = c.verify;
        reading = inr refl;
        decoded = classification-decoded req token_raw sign c e;
        known = known;
        good = good;
        fits = fits;
      }
