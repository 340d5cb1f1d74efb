-- ===== src/Auth/Usage.antt =====
-- internal/auth/pow_verify.go: the outcome of a token that has passed its checks, over the states of
-- the usage store, and the flow that rests on the token alone. Logging and metrics have no part in
-- the outcome.
pub mod Allowed
pub mod Binding
use hustmirrors_waf_backend.Base.{
  ℕ, String, Bool, true, not, ◌&&◌, ◌||◌, Option, none, some, str_eq, if◌then◌else◌, is_empty,
  Fallible, ok, err,
}
use hustmirrors_waf_backend.Base.Int.{ℤ, pos}
use hustmirrors_waf_backend.Platform.{Platform}
use hustmirrors_waf_backend.Storage.Types.{
  StoreError, not_found, closed_store, invalid_window, backend, ConsumeInput, ConsumeResult,
  UsageRecord, UsageOps,
}
use hustmirrors_waf_backend.Pow.Token.{TokenPayload}
use hustmirrors_waf_backend.Pow.Sign.{Crypto, compute_sign_id, hash_token}
use hustmirrors_waf_backend.Auth.Result.{
  AuthRequest, AuthResult, allow, deny, deny_mode, deny_status, with_sign_id,
}
use hustmirrors_waf_backend.Auth.Service.{Service, grace_of, maybe_dry_run}
use hustmirrors_waf_backend.Auth.Check.{same_ip, validate_token_for_mode, too_long}

-- What the clock gives at each of its readings during a request.
pub record Clock : Type 0 where
  -- classifyPoW, verifyPoWOnly, chargeQuotaForRiskAllow and bindEmptyIPFirstUse: Unix seconds
  pub classify : ℤ
  pub verify : ℤ
  pub charge : ℤ
  pub bind : ℤ
  -- the pending blocker, at the start and at the end: nanoseconds
  pub enter : ℕ
  pub leave : ℕ

pub record Quota : Type 0 where
  pub sign_id : String
  pub result : Fallible StoreError ConsumeResult

module _ (g : Platform) (k : Crypto) {S C : Type 0} (s : Service S C) where
  -- The request to the store that charges a generic token, or takes note of a first use.
  unfoldable pub consume_input :
      TokenPayload → AuthRequest → String → String → String → ℤ → ℤ → Bool → ConsumeInput
  consume_input p req token_raw sign mode now max_uses skip = record {
    id = compute_sign_id k p sign mode;
    mode = mode;
    path = p.path;
    sign = sign;
    token_hash = hash_token k token_raw;
    expires_at = p.expires_at;
    max_uses = max_uses;
    ip = req.real_ip;
    user_agent = req.user_agent;
    now_unix = now;
    grace_seconds = grace_of s.cfg;
    skip_consume = skip;
  }

  unfoldable pub skips_head : AuthRequest → Bool
  skips_head req = str_eq req.original_method "HEAD" && not s.cfg.pow.generic.count_head_request

  unfoldable pub consume_with :
      Option (UsageOps S) → ConsumeInput → S → S × Fallible StoreError ConsumeResult
  consume_with none input st = (st, err (backend "auth: usage store not configured"))
  consume_with (some ops) input st = ops.consume input st

  unfoldable pub consume_generic_quota :
      TokenPayload → AuthRequest → String → String → String → ℤ → S → S × Quota
  unfolding consume_with consume_input skips_head
  consume_generic_quota p req token_raw sign mode now st =
      let input =
        consume_input p req token_raw sign mode now s.cfg.pow.generic.max_uses (skips_head req) in
      let (st', r) = consume_with s.usage_store input st in
      (st', record { sign_id = compute_sign_id k p sign mode; result = r })

  unfoldable pub generic_result : String → Quota → AuthResult
  generic_result mode q = elim q.result [
    | err e ↦ maybe_dry_run s (with_sign_id (deny_status 500 "storage_error" mode) q.sign_id)
    | ok cr ↦
        if cr.allowed
        then record (allow "generic_valid" mode) {
          sign_id = q.sign_id;
          uses = cr.uses;
          max_uses = cr.max_uses;
        }
        else maybe_dry_run s (record (with_sign_id (deny_mode "used_up" mode) q.sign_id) {
          uses = cr.uses;
          max_uses = cr.max_uses;
        })
  ]

  unfoldable pub finalize_generic :
      TokenPayload → AuthRequest → String → String → String → ℤ → S → S × AuthResult
  unfolding consume_generic_quota generic_result
  finalize_generic p req token_raw sign mode now st =
      let (st', q) = consume_generic_quota p req token_raw sign mode now st in
      (st', generic_result mode q)

  unfoldable pub bind_storage_error : String → String → Fallible AuthResult (Unit {0})
  bind_storage_error sign_id mode =
      err (maybe_dry_run s (with_sign_id (deny_status 500 "storage_error" mode) sign_id))

  unfoldable pub bind_consumed :
      String → String → Fallible StoreError ConsumeResult → Fallible AuthResult (Unit {0})
  unfolding bind_storage_error
  bind_consumed sign_id mode (ok cr) = ok tt
  bind_consumed sign_id mode (err e) = bind_storage_error sign_id mode

  -- The binding, from what Get has answered.
  unfoldable pub bind_found :
      UsageOps S
      → ConsumeInput
      → Fallible StoreError UsageRecord
      → S
      → S × Fallible AuthResult (Unit {0})
  unfolding bind_consumed bind_storage_error
  bind_found ops input (ok rec) st =
      if not (is_empty rec.first_ip) && not (same_ip g k rec.first_ip input.ip)
      then (st, err (maybe_dry_run s (deny_mode "ip_mismatch" input.mode)))
      else (st, ok tt)
  bind_found ops input (err not_found) st =
      let (st', r) = ops.consume input st in (st', bind_consumed input.id input.mode r)
  bind_found ops input (err closed_store) st = (st, bind_storage_error input.id input.mode)
  bind_found ops input (err invalid_window) st = (st, bind_storage_error input.id input.mode)
  bind_found ops input (err (backend e)) st = (st, bind_storage_error input.id input.mode)

  unfoldable pub bind_with :
      Option (UsageOps S) → ConsumeInput → S → S × Fallible AuthResult (Unit {0})
  unfolding bind_found
  bind_with none input st = (st, ok tt)
  bind_with (some ops) input st = bind_found ops input (ops.get input.id st) st

  -- A denial to return, or nothing. The payload afterwards is `bound p req`.
  unfoldable pub bind_empty_ip_first_use :
      TokenPayload
      → AuthRequest
      → String
      → String
      → String
      → ℤ
      → S
      → S × Fallible AuthResult (Unit {0})
  unfolding bind_with consume_input
  bind_empty_ip_first_use p req token_raw sign mode bind_at st =
      bind_with s.usage_store (consume_input p req token_raw sign mode bind_at (pos 1) true) st

  -- The assignment `p.IP = req.RealIP`.
  unfoldable pub bound : TokenPayload → AuthRequest → TokenPayload
  bound p req = record p { ip = req.real_ip }

  unfoldable pub ip_bound_allow : TokenPayload → String → String → AuthResult
  ip_bound_allow p sign mode = record (allow "ip_bound_valid" mode) {
    sign_id = compute_sign_id k p sign mode;
  }

  unfoldable pub bound_result :
      TokenPayload → String → String → Fallible AuthResult (Unit {0}) → AuthResult
  unfolding ip_bound_allow
  bound_result p sign mode (err res) = res
  bound_result p sign mode (ok u) = ip_bound_allow p sign mode

  unfoldable pub finalize_ip_bound :
      TokenPayload → AuthRequest → String → String → String → ℤ → S → S × AuthResult
  unfolding bound_result bind_empty_ip_first_use ip_bound_allow bound
  finalize_ip_bound p req token_raw sign mode bind_at st =
      if is_empty req.real_ip
      then (st, deny_status 500 "missing_real_ip" mode)
      else if is_empty p.ip
      then (let (st', r) = bind_empty_ip_first_use p req token_raw sign mode bind_at st in
          (st', bound_result (bound p req) sign mode r))
      else if same_ip g k p.ip req.real_ip
      then (st, ip_bound_allow p sign mode)
      else (st, maybe_dry_run s (deny_mode "ip_mismatch" mode))

  unfoldable pub finalize_by_mode :
      AuthRequest → TokenPayload → String → String → String → Clock → S → S × AuthResult
  unfolding finalize_ip_bound finalize_generic
  finalize_by_mode req p token_raw sign mode c st =
      if str_eq mode "ip_bound"
      then finalize_ip_bound p req token_raw sign mode c.bind st
      else if str_eq mode "generic"
      then finalize_generic p req token_raw sign mode c.verify st
      else (st, maybe_dry_run s (deny_mode "unsupported_mode" mode))

  -- After the checks of the token.
  unfoldable pub checked :
      AuthRequest
      → TokenPayload
      → String
      → String
      → Clock
      → Fallible String (Unit {0})
      → S
      → S × AuthResult
  unfolding finalize_by_mode
  checked req p token_raw sign c (err reason) st = (st, maybe_dry_run s (deny_mode reason p.mode))
  checked req p token_raw sign c (ok u) st = finalize_by_mode req p token_raw sign p.mode c st

  -- The length limits, and a token that is present.
  unfoldable pub presented : String → String → Fallible String (Unit {0})
  presented token_raw sign =
      if is_empty token_raw || is_empty sign
      then err "missing_token_or_sign"
      else if too_long token_raw s.cfg.pow.max_token_length
      then err "token_too_long"
      else if too_long sign s.cfg.pow.max_sign_length
      then err "sign_too_long"
      else ok tt

  unfoldable pub verify_presented :
      AuthRequest
      → String
      → String
      → Clock
      → Fallible String (Unit {0})
      → Option TokenPayload
      → S
      → S × AuthResult
  unfolding checked
  verify_presented req token_raw sign c (err reason) payload st =
      (st, maybe_dry_run s (deny reason))
  verify_presented req token_raw sign c (ok u) none st =
      (st, maybe_dry_run s (deny "malformed_token"))
  verify_presented req token_raw sign c (ok u) (some p) st =
      checked req p token_raw sign c
        (validate_token_for_mode g k s p p.mode req.original_uri sign c.verify) st

  unfoldable pub verify_pow_only :
      AuthRequest → String → String → Option TokenPayload → Clock → S → S × AuthResult
  unfolding verify_presented presented
  verify_pow_only req token_raw sign payload c st =
      verify_presented req token_raw sign c (presented token_raw sign) payload st
