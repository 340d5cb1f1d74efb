-- ===== src/Config/Manager/Confirmed.antt =====
-- What Apply of internal/configctl/manager.go requires of a plan.
use Prim.Native.String
use hustmirrors_waf_backend.Base.{
  ℕ, ◌≤◌, ◌≡◌, refl, sym, ap, ◌⊎◌, inl, inr, String, Bool, true, false, not, ◌&&◌, ◌||◌, ◌==◌,
  ==_iff, leb, leb→le, str_eq, is_empty, Fallible, ok, err, ◌>>◌, require, require->>-eq-ok,
  >>-eq-ok, Bool-cases,
}
use mathlib.Core.Path.{subst}
use hustmirrors_waf_backend.Platform.{trim_space}
use hustmirrors_waf_backend.Config.Files.{FileOps}
use hustmirrors_waf_backend.Config.Files.Atomic.{AreFiles}
use hustmirrors_waf_backend.Config.Store.{
  Store, ApplyRequest, ApplyResult, Encoding, ConfigError, conflict, too_large, max_draft_bytes,
}
use hustmirrors_waf_backend.Config.Revisions.{check_external, apply_checks, checked_apply, apply}
use hustmirrors_waf_backend.Config.Revisions.Apply.{Outcome, apply-Outcome}
use hustmirrors_waf_backend.Config.Manager.{
  Plan, ManagerError, reason_required, reason_too_long, reason_has_control, has_control,
  validate_reason, request_of, with_refusal, apply_with_reason, apply_plan,
}

-- What validateReason lets through.
abbrev pub IsReason : Bool → String → Type 0
IsReason required reason =
    ((required ≡ false) ⊎ (is_empty reason ≡ false))
    × (String.len reason ≤ 256)
    × (has_control reason ≡ false)

not_both : (a b : Bool) → not (a && b) ≡ true → (a ≡ false) ⊎ (b ≡ false)
not_both true false h = inr refl
not_both true true h = cc
not_both false b h = inl refl

not-true : (a : Bool) → not a ≡ true → a ≡ false
not-true false h = refl
not-true true h = cc

validate_reason-IsReason :
    (given reason : String) (required : Bool)
    → validate_reason given required ≡ ok reason
    → (reason ≡ trim_space given) × IsReason required reason
unfolding validate_reason
validate_reason-IsReason given reason required h =
    let t = trim_space given in
    let (a, h1) =
      require->>-eq-ok (not (required && is_empty t)) reason_required
        (require (leb (String.len t) 256) reason_too_long
          >> (require (not (has_control t)) reason_has_control >> ok t))
        h in
    let (b, h2) =
      require->>-eq-ok (leb (String.len t) 256) reason_too_long
        (require (not (has_control t)) reason_has_control >> ok t) h1 in
    let (c, h3) = require->>-eq-ok (not (has_control t)) reason_has_control (ok t) h2 in
    let same : reason ≡ t = cc in
    (
      same,
      subst (IsReason required) (sym same)
          (not_both required (is_empty t) a, leb→le _ _ b, not-true (has_control t) c),
    )

module _ {F : Type 0} (files : FileOps F) (enc : Encoding) where
  checked_apply-eq-ok :
      (now : ℕ) (req : ApplyRequest) (s s' : Store) (f f' : F) (res : ApplyResult)
      (r : Fallible ConfigError (Unit {0}))
      → checked_apply files enc now req s f r ≡ (s', f', ok res)
      → r ≡ ok tt
  unfolding checked_apply
  checked_apply-eq-ok now req s s' f f' res (ok tt) h = refl
  checked_apply-eq-ok now req s s' f f' res (err e) h =
      let clash : err e ≡ ok res = ap (λ p. p.2) h in cc

  apply_checks-expected :
      (req : ApplyRequest) (s : Store) (f : F)
      → apply_checks files enc req s f ≡ ok tt
      → (req.expected_revision ≡ 0) ⊎ (req.expected_revision ≡ s.revision)
  unfolding apply_checks
  apply_checks-expected req s f h =
      let (a, h1) = require->>-eq-ok _ _ _ h in
      let (b, h2) = >>-eq-ok (check_external files enc s f) _ h1 in
      let (c, h3) =
        require->>-eq-ok (req.expected_revision == 0 || req.expected_revision == s.revision)
          conflict (require (leb (String.len req.raw) max_draft_bytes) too_large) h2 in
      elim (Bool-cases (req.expected_revision == 0)) [
        | inl z ↦ inl ((==_iff _ _).0 z)
        | inr z ↦ inr ((==_iff _ _).0 (rw z at c))
      ]

  passed_revision :
      (req : ApplyRequest) (s s' : Store) (f f' : F) (res : ApplyResult) (now : ℕ)
      → apply files enc now req s f ≡ (s', f', ok res)
      → (req.expected_revision ≡ 0) ⊎ (req.expected_revision ≡ s.revision)
  unfolding apply
  passed_revision req s s' f f' res now h =
      apply_checks-expected req s f
        (checked_apply-eq-ok now req s s' f f' res (apply_checks files enc req s f) h)

  with_refusal-eq-ok :
      (r : Store × F × Fallible ConfigError ApplyResult) (s' : Store) (f' : F) (res : ApplyResult)
      → with_refusal r ≡ (s', f', ok res)
      → r ≡ (s', f', ok res)
  with_refusal-eq-ok (s, f, err e) s' f' res h = let clash = ap (λ p. p.2) h in cc
  with_refusal-eq-ok (s, f, ok x) s' f' res h =
      let clash : ok x ≡ ok res = ap (λ p. p.2) h in
      let c : x ≡ res = cc in rw (ap (λ p. p.0) h, ap (λ p. p.1) h, c) refl

  -- What Manager.Apply has checked and done when it succeeds.
  abbrev pub Confirmed :
      {N : Type 0}
      → String
      → Plan N
      → String
      → String
      → String
      → ℕ
      → Store
      → F
      → Store × F × ApplyResult
      → Type 0
  Confirmed raw p given actor action target s f (s', f', res) =
      (reason : String) × (reason ≡ trim_space given)
      × IsReason (not (str_eq p.danger "normal") || str_eq action "rollback") reason
      × ((p.base_revision ≡ 0) ⊎ (p.base_revision ≡ s.revision))
      × Outcome files enc (request_of raw p reason actor action target) s f (s', f', ok res)

  apply_with_reason-eq-ok :
      {N : Type 0} (now : ℕ) (raw given : String) (p : Plan N) (r : Fallible ManagerError String)
      (actor action : String) (target : ℕ) (s s' : Store) (f f' : F) (res : ApplyResult)
      → AreFiles files
      → validate_reason given (not (str_eq p.danger "normal") || str_eq action "rollback") ≡ r
      → apply_with_reason files enc now raw p r actor action target s f ≡ (s', f', ok res)
      → Confirmed raw p given actor action target s f (s', f', res)
  unfolding apply_with_reason
  apply_with_reason-eq-ok now raw given p (err e) actor action target s s' f f' res laws v h =
      let clash : err e ≡ ok res = ap (λ q. q.2) h in cc
  apply_with_reason-eq-ok now raw given p (ok reason) actor action target s s' f f' res laws v h =
      let req = request_of raw p reason actor action target in
      let done = with_refusal-eq-ok (apply files enc now req s f) s' f' res h in
      let (same, good) = validate_reason-IsReason given reason _ v in
      (
        reason,
        same,
        good,
        passed_revision req s s' f f' res now done,
        subst (Outcome files enc req s f) done (apply-Outcome files enc laws now req s f),
      )

  -- Manager.Apply succeeds only for the revision that the plan was made from, unless that was 0, and with
  -- a reason of at most 256 bytes without a control character, which is not empty for a rollback or a plan
  -- that is not normal; the configuration file then has the new text, and the history the new revision.
  pub apply_plan-Confirmed :
      {N : Type 0} (now : ℕ) (raw given : String) (p : Plan N) (actor action : String) (target : ℕ)
      (s s' : Store) (f f' : F) (res : ApplyResult)
      → AreFiles files
      → apply_plan files enc now raw p given actor action target s f ≡ (s', f', ok res)
      → Confirmed raw p given actor action target s f (s', f', res)
  unfolding apply_plan
  apply_plan-Confirmed now raw given p actor action target s s' f f' res laws h =
      apply_with_reason-eq-ok now raw given p _ actor action target s s' f f' res laws refl h
