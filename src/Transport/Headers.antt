-- ===== src/Transport/Headers.antt =====
-- internal/transport/echo/handlers.go: what the reverse proxy reads from an answer.
use hustmirrors_waf_backend.Base.{
  ℕ, ◌≡◌, refl, inl, inr, ◌⊎◌, String, Bool, true, false, not, Option, some, [], Bool-cases,
  Option-cases, is_empty, if◌then◌else◌, str_eq, map_get, map_put, map_get-map_put,
}
use hustmirrors_waf_backend.Base.Int.{ℤ}
use hustmirrors_waf_backend.Platform.{Platform, to_lower, trim_space}
use hustmirrors_waf_backend.Auth.Result.{AuthResult}
use hustmirrors_waf_backend.Transport.Answer.{
  Header, set_when, outcome_headers, write_auth_result, format_risk_trace, limit_rate_bytes,
  trimmed_rate, unit_of, rate_text, drop_last, rate_headers, common_before, common_after,
}

set_when-other :
    (b : Bool) (key text k : String) (h : Header)
    → str_eq key k ≡ false
    → map_get k (set_when b key text h) ≡ map_get k h
set_when-other true key text k h e = map_get-map_put key k text h e
set_when-other false key text k h e = refl

-- What the proxy must find in the header h under the status.
unfoldable pub Answers : AuthResult → Header → ℕ → Type 0
unfolding map_get
Answers res h status =
    (map_get "X-Pow-Result" h ≡ some (if res.allowed then "allow" else "deny"))
    × (map_get "X-Pow-Reason" h ≡ some res.reason)
    × (status ≡ (if res.allowed then 200 else res.http_status))
    × ((res.allowed ≡ true) ⊎ (map_get "X-Pow-Error" h ≡ some res.error_header))

module _ (first_bytes : ℕ → String → String) (g : Platform) (parse_int : String → Option ℤ) where
  outcome_headers-Answers :
      (res : AuthResult) (h : Header)
      → Answers res
          (outcome_headers first_bytes g parse_int res h).0
          (outcome_headers first_bytes g parse_int res h).1
  unfolding Answers outcome_headers map_get map_put
  outcome_headers-Answers res h = elim (Bool-cases res.allowed) [
    | inl e ↦ rw e (
      set_when-other (not (is_empty res.dry_run_original_error)) "X-Pow-Dry-Run-Original-Error"
          res.dry_run_original_error "X-Pow-Result"
          (map_put "X-Pow-Reason" res.reason (map_put "X-Pow-Result" "allow" h)) refl,
      set_when-other (not (is_empty res.dry_run_original_error)) "X-Pow-Dry-Run-Original-Error"
          res.dry_run_original_error "X-Pow-Reason"
          (map_put "X-Pow-Reason" res.reason (map_put "X-Pow-Result" "allow" h)) refl,
      refl,
      inl refl,
    )
    | inr e ↦
        let trace = format_risk_trace first_bytes res.risk_trace in
        let answer =
          map_put "X-Pow-Reason" res.reason
            (map_put "X-Pow-Error" res.error_header (map_put "X-Pow-Result" "deny" h)) in
        rw e (
          set_when-other (not (is_empty trace)) "X-Pow-Trace" trace "X-Pow-Result" answer refl,
          set_when-other (not (is_empty trace)) "X-Pow-Trace" trace "X-Pow-Reason" answer refl,
          refl,
          inr (set_when-other (not (is_empty trace)) "X-Pow-Trace" trace "X-Pow-Error" answer refl),
        )
  ]

  trimmed_rate-some :
      (rate : String)
      → is_empty rate ≡ false
      → (n : String) × (trimmed_rate first_bytes g parse_int rate ≡ some n)
  unfolding trimmed_rate
  trimmed_rate-some rate h = elim (Option-cases (unit_of rate)) [
    | inl e ↦ (rate_text 1 (parse_int rate), rw (h, e) refl)
    | inr (unit, e) ↦ (rate_text unit (parse_int (drop_last rate)), rw (h, e) refl)
  ]

  limit_rate_bytes-some :
      (rate : String)
      → is_empty rate ≡ false
      → is_empty (to_lower g (trim_space rate)) ≡ false
      → (n : String) × (limit_rate_bytes first_bytes g parse_int rate ≡ some n)
  unfolding limit_rate_bytes
  limit_rate_bytes-some rate h k =
      let (n, e) = trimmed_rate-some (to_lower g (trim_space rate)) k in (n, rw h e)

  rate_headers-some :
      (rate : String) (h : Header)
      → (is_empty rate ≡ true) ⊎ (is_empty (to_lower g (trim_space rate)) ≡ false)
      → (h1 : Header) × (rate_headers first_bytes g parse_int rate h ≡ some h1)
  unfolding rate_headers
  rate_headers-some rate h k = elim (Bool-cases (is_empty rate)) [
    | inl e ↦ (h, rw e refl)
    | inr e ↦ elim k [
      | inl bad ↦ (h, rw bad refl)
      | inr f ↦
          let (n, q) = limit_rate_bytes-some rate e f in
          (map_put "X-Pow-Limit-Rate-Bytes" n (map_put "X-Pow-Limit-Rate" rate h), rw (q, e) refl)
    ]
  ]

  -- A result is answered, without a panic, where its rate limit is empty or holds more than white space, and the
  -- answer has the result, the reason and the status of the decision, and a denial its error, whatever other
  -- headers it carries.
  pub write_auth_result-Answers :
      (res : AuthResult)
      → (is_empty res.limit_rate ≡ true)
        ⊎ (is_empty (to_lower g (trim_space res.limit_rate)) ≡ false)
      → (h : Header) × (status : ℕ) × (write_auth_result first_bytes g parse_int res
          ≡ some (h, status))
        × Answers res h status
  unfolding write_auth_result
  write_auth_result-Answers res k =
      let (h1, e) =
        rate_headers-some res.limit_rate (common_before first_bytes g parse_int res []) k in
      let h2 = common_after first_bytes g parse_int res h1 in
      let answer = outcome_headers first_bytes g parse_int res h2 in
      (answer.0, answer.1, rw (e, write_auth_result) refl, outcome_headers-Answers res h2)
