-- ===== src/Auth/Check/Sound.antt =====
-- What the checks of internal/auth/pow_verify.go say of a token that passes them.
use mathlib.Core.Path.{subst}
use hustmirrors_waf_backend.Base.{
  ◌≡◌, refl, sym, ap, ◌∙◌, String, Bool, true, false, not, ◌&&◌, ◌||◌, Option, none, some, str_eq,
  if◌then◌else◌, is_empty, Fallible, ok, err, require->>-eq-ok, require-eq-ok, >>-eq-ok, eq_iff,
  inl, inr, Bool-cases,
}
use hustmirrors_waf_backend.Base.Int.{ℤ, pos, ltb_ℤ, leb_ℤ, ◌+ℤ◌, ◌-ℤ◌}
use hustmirrors_waf_backend.Platform.{Platform}
use hustmirrors_waf_backend.Pow.Token.{TokenPayload, TokenError, validate_payload}
use hustmirrors_waf_backend.Pow.Difficulty.{has_leading_zero_bits}
use hustmirrors_waf_backend.Pow.Canonical.{build_canonical_input}
use hustmirrors_waf_backend.Pow.Sign.{
  Crypto, decode_token, compute_sign, hash_canonical, compare_sign,
}
use hustmirrors_waf_backend.Auth.Service.{Service, ModeConfig, mode_config}
use hustmirrors_waf_backend.Auth.Check.{
  with_reason, is_valid_sign_hex, check_time, status_for_validation_reason,
  check_sign_and_difficulty, checks_of_mode, validate_token_for_mode, same_ip, status_for_ip,
  status_of, classify_decoded, classify_pow, too_long,
}

-- The sign is the hash of the canonical form, and the hash starts with the zero bits that the
-- payload promises: the proof of work.
pub record IsWork (g : Platform) (k : Crypto) (p : TokenPayload) (sign : String) : Type 0 where
  pub format : is_valid_sign_hex sign ≡ true
  pub hash : compare_sign g (compute_sign k (some p)) sign ≡ true
  pub zeros :
      has_leading_zero_bits (hash_canonical k (build_canonical_input (some p))) p.difficulty ≡ true

pub record IsTimely (p : TokenPayload) (max_ttl now : ℤ) : Type 0 where
  pub unexpired : ltb_ℤ now p.expires_at ≡ true
  pub ttl : ltb_ℤ (pos 0) max_ttl && ltb_ℤ max_ttl (p.expires_at -ℤ p.timestamp) ≡ false
  pub not_future : leb_ℤ p.timestamp (now +ℤ pos 60) ≡ true

-- What a token must satisfy in a mode that is enabled.
pub record IsGood (g : Platform) (k : Crypto) (mc : ModeConfig) (p : TokenPayload) (path : String)
    (sign : String) (now : ℤ) : Type 0 where
  pub is_enabled : mc.enabled ≡ true
  pub fields : validate_payload g (some p) (some mc.opts) ≡ ok tt
  pub same_path : p.path ≡ path
  pub timely : IsTimely p mc.max_ttl now
  pub work : IsWork g k p sign

not-true : (b : Bool) → not b ≡ true → b ≡ false
not-true false h = refl
not-true true h = cc

check_time-IsTimely :
    (p : TokenPayload) (max_ttl now : ℤ) → check_time p max_ttl now ≡ ok tt → IsTimely p max_ttl now
unfolding check_time
check_time-IsTimely p max_ttl now h =
    let (a, h1) = require->>-eq-ok _ _ _ h in
    let (b, h2) = require->>-eq-ok _ _ _ h1 in
    record { unexpired = a; ttl = not-true _ b; not_future = require-eq-ok _ _ h2 }

with_reason-ok : (r : Fallible TokenError (Unit {0})) → with_reason r ≡ ok tt → r ≡ ok tt
unfolding with_reason
with_reason-ok (ok tt) h = refl
with_reason-ok (err e) h = cc

reason_status-invalid :
    (a b : Bool)
    → ¬ (
        ◌≡◌ {A = String}
          (if a then "expired" else if b then "mode_disabled" else "invalid")
          "valid")
reason_status-invalid true b h = cc
reason_status-invalid false true h = cc
reason_status-invalid false false h = cc

ip_status-valid :
    (m r i a : Bool)
    → ◌≡◌ {A = String}
        (if m
          then (if r then "unverifiable" else if not i && not a then "invalid" else "valid")
          else "valid")
        "valid"
    → not m || (not r && (i || a)) ≡ true
ip_status-valid false r i a h = refl
ip_status-valid true true i a h = cc
ip_status-valid true false true a h = refl
ip_status-valid true false false true h = refl
ip_status-valid true false false false h = cc

module _ (g : Platform) (k : Crypto) where
  check_sign-IsWork :
      (p : TokenPayload) (sign : String)
      → check_sign_and_difficulty g k p sign ≡ ok tt
      → IsWork g k p sign
  unfolding check_sign_and_difficulty
  check_sign-IsWork p sign h =
      let (a, h1) = require->>-eq-ok _ _ _ h in
      let (b, h2) = require->>-eq-ok _ _ _ h1 in
      record { format = a; hash = b; zeros = require-eq-ok _ _ h2 }

  checks_of_mode_sound :
      (p : TokenPayload) (mc : ModeConfig) (path sign : String) (now : ℤ)
      → checks_of_mode g k p (some mc) path sign now ≡ ok tt
      → IsGood g k mc p path sign now
  unfolding checks_of_mode
  checks_of_mode_sound p mc path sign now h =
      let (a, h1) = require->>-eq-ok _ _ _ h in
      let (b, h2) = >>-eq-ok (with_reason (validate_payload g (some p) (some mc.opts))) _ h1 in
      let (c, h3) = require->>-eq-ok _ _ _ h2 in
      let (d, h4) = >>-eq-ok (check_time p mc.max_ttl now) _ h3 in
      record {
        is_enabled = a;
        fields = with_reason-ok _ b;
        same_path = (eq_iff p.path path).0 c;
        timely = check_time-IsTimely p mc.max_ttl now d;
        work = check_sign-IsWork p sign h4;
      }

  module _ {S C : Type 0} (s : Service S C) where
    checks_of_mode-known :
        (o : Option ModeConfig) (p : TokenPayload) (path sign : String) (now : ℤ)
        → checks_of_mode g k p o path sign now ≡ ok tt
        → (mc : ModeConfig) × (o ≡ some mc) × IsGood g k mc p path sign now
    unfolding checks_of_mode
    checks_of_mode-known none p path sign now h = cc
    checks_of_mode-known (some mc) p path sign now h =
        (mc, refl, checks_of_mode_sound p mc path sign now h)

    -- A token that validateTokenForMode lets pass in a mode: the mode is known and enabled, the fields
    -- are valid under its options, the path is that of the request, the token is timely, and the sign
    -- is its hash and meets its difficulty.
    pub validate_token_for_mode_sound :
        (p : TokenPayload) (mode path sign : String) (now : ℤ)
        → validate_token_for_mode g k s p mode path sign now ≡ ok tt
        → (mc : ModeConfig) × (mode_config s mode ≡ some mc) × IsGood g k mc p path sign now
    unfolding validate_token_for_mode
    validate_token_for_mode_sound p mode path sign now h =
        checks_of_mode-known (mode_config s mode) p path sign now h

    status_for_validation_reason-invalid :
        (reason : String) → ¬ (status_for_validation_reason reason ≡ "valid")
    unfolding status_for_validation_reason
    status_for_validation_reason-invalid reason h = reason_status-invalid _ _ h

    -- An ip_bound token needs the address of the request, and one that names an address needs this one.
    unfoldable pub fits_ip : TokenPayload → String → Bool
    fits_ip p real_ip =
        not (str_eq p.mode "ip_bound")
        || (not (is_empty real_ip) && (is_empty p.ip || same_ip g k p.ip real_ip))

    pub status_for_ip-fits_ip :
        (p : TokenPayload) (real_ip : String)
        → status_for_ip g k s p real_ip ≡ "valid"
        → fits_ip p real_ip ≡ true
    unfolding status_for_ip fits_ip
    status_for_ip-fits_ip p real_ip h = ip_status-valid _ _ _ _ h

    status_of-valid :
        (p : TokenPayload) (real_ip : String) (r : Fallible String (Unit {0}))
        → status_of g k s p real_ip r ≡ "valid"
        → (r ≡ ok tt) × (fits_ip p real_ip ≡ true)
    unfolding status_of
    status_of-valid p real_ip (ok tt) h = (refl, status_for_ip-fits_ip p real_ip h)
    status_of-valid p real_ip (err reason) h =
        absurd (status_for_validation_reason-invalid reason h)

    classify_decoded-valid :
        (now : ℤ) (sign path real_ip : String) (r : Fallible TokenError TokenPayload)
        {p : TokenPayload} {m : String}
        → classify_decoded g k s now sign path real_ip r ≡ (some p, "valid", m)
        → (r ≡ ok p)
          × (m ≡ p.mode)
          × (validate_token_for_mode g k s p p.mode path sign now ≡ ok tt)
          × (fits_ip p real_ip ≡ true)
    unfolding classify_decoded
    classify_decoded-valid now sign path real_ip (err e) h = cc
    classify_decoded-valid now sign path real_ip (ok q) {p} {m} h =
        let q-is-p : q ≡ p = cc in
        let (a, b) = status_of-valid q real_ip _ (ap (λ c. c.1) h) in
        (
          ap ok q-is-p,
          sym (ap (λ c. c.2) h) ∙ ap (λ c. c.mode) q-is-p,
          subst (λ c. validate_token_for_mode g k s c c.mode path sign now ≡ ok tt) q-is-p a,
          subst (λ c. fits_ip c real_ip ≡ true) q-is-p b,
        )

    -- A token that the risk engine sees as "valid" has decoded to a payload of the mode it sees, which
    -- satisfies the same checks that the flow without the engine makes, and fits the address.
    pub classify_pow_sound :
        (now : ℤ) (token_raw sign path real_ip : String) {p : TokenPayload} {m : String}
        → classify_pow g k s now token_raw sign path real_ip ≡ (some p, "valid", m)
        → (decode_token k token_raw ≡ ok p)
          × (m ≡ p.mode)
          × (validate_token_for_mode g k s p p.mode path sign now ≡ ok tt)
          × (fits_ip p real_ip ≡ true)
    unfolding classify_pow
    classify_pow_sound now token_raw sign path real_ip {p} {m} h =
        elim (Bool-cases (
          too_long token_raw s.cfg.pow.max_token_length
          || too_long sign s.cfg.pow.max_sign_length)) [
            | inl e ↦ cc
            | inr e ↦ classify_decoded-valid now sign path real_ip _ (
                subst
                  (λ b.
                    (if b
                      then (none, "invalid", "")
                      else classify_decoded g k s now sign path real_ip (decode_token k token_raw))
                    ≡ (some p, "valid", m))
                  e h)
          ]
