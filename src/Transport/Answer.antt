-- ===== src/Transport/Answer.antt =====
-- internal/transport/echo/handlers.go, but the two probes. A header is a map; `first_bytes n s` stands for
-- the slice s[:n], and `parse_int` for strconv.ParseInt.
use Prim.Native.String
use hustmirrors_waf_backend.Base.{
  ℕ, ◌+◌, ◌*◌, String, Bool, not, ◌||◌, Option, none, some, List, [], ◌∷◌, ltb, if◌then◌else◌,
  is_empty, map_put,
}
use hustmirrors_waf_backend.Base.Int.{signed, ℤ, pos, ltb_ℤ, pos_part}
use hustmirrors_waf_backend.Platform.{Platform, to_lower, trim_space, has_suffix}
use hustmirrors_waf_backend.Pow.Canonical.{decimal}
use hustmirrors_waf_backend.Storage.Counter.{itoa}
use hustmirrors_waf_backend.Risk.Types.{TraceStep}
use hustmirrors_waf_backend.Auth.Result.{AuthResult}

abbrev pub Header : Type 0
Header = List (String × String)

abbrev pub max_trace_header_len : ℕ
max_trace_header_len = 512

unfoldable pub trace_entry : TraceStep → String
trace_entry s =
    let entry = String.◌++◌ s.chain (String.◌++◌ ":" s.rule) in
    if is_empty s.jump_to then entry else String.◌++◌ entry (String.◌++◌ ">" s.jump_to)

unfoldable pub join_marks : List String → String
join_marks [] = ""
join_marks (m ∷ []) = m
join_marks (m ∷ n ∷ ms) = String.◌++◌ m (String.◌++◌ "," (join_marks (n ∷ ms)))

-- rate[:len(rate)-1], where the last byte is a letter.
unfoldable pub drop_last : String → String
drop_last String.[] = ""
drop_last (String.◌∷◌ c String.[]) = ""
drop_last (String.◌∷◌ c (String.◌∷◌ d s)) =
    let rest = drop_last (String.◌∷◌ d s) in String.◌∷◌ c rest

unfoldable pub unit_of : String → Option ℕ
unfolding has_suffix
unit_of rate =
    if has_suffix rate "k"
    then some 1024
    else if has_suffix rate "m"
    then some (1024 * 1024)
    else if has_suffix rate "g"
    then some (1024 * 1024 * 1024)
    else none

unfoldable pub rate_text : ℕ → Option ℤ → String
unfolding decimal signed
rate_text unit none = "0"
rate_text unit (some v) = if ltb_ℤ v (pos 0) then "0" else decimal (signed (pos_part v * unit))

-- `h.Set` under a condition.
abbrev pub set_when : Bool → String → String → Header → Header
set_when b key text h = if b then map_put key text h else h

module _ (first_bytes : ℕ → String → String) where
  -- The loop of formatRiskTrace, on what the builder holds.
  unfoldable pub trace_loop : String → List TraceStep → String
  unfolding trace_entry
  trace_loop b [] = b
  trace_loop b (s ∷ ss) =
      let entry = trace_entry s in
      let skip = trace_loop b ss in
      let first = trace_loop (String.◌++◌ b entry) ss in
      let next = trace_loop (String.◌++◌ b (String.◌++◌ "," entry)) ss in
      if not s.matched
      then skip
      else if not (is_empty b)
      then (if ltb max_trace_header_len (String.len b + 1 + String.len entry)
          then String.◌++◌ b ",..."
          else next)
      else if ltb max_trace_header_len (String.len entry)
      then String.◌++◌ (first_bytes max_trace_header_len entry) ",..."
      else first

  unfoldable pub format_risk_trace : List TraceStep → String
  unfolding trace_loop
  format_risk_trace steps = trace_loop "" steps

  module _ (g : Platform) (parse_int : String → Option ℤ) where
    -- After the trimming; `none` where indexing an empty text panics.
    unfoldable pub trimmed_rate : String → Option String
    unfolding unit_of rate_text drop_last
    trimmed_rate rate = if is_empty rate then none else elim (unit_of rate) [
      | none ↦ some (rate_text 1 (parse_int rate))
      | some unit ↦ some (rate_text unit (parse_int (drop_last rate)))
    ]

    unfoldable pub limit_rate_bytes : String → Option String
    unfolding trimmed_rate to_lower trim_space
    limit_rate_bytes rate =
        if is_empty rate then some "0" else trimmed_rate (to_lower g (trim_space rate))

    unfoldable pub rate_headers : String → Header → Option Header
    unfolding limit_rate_bytes map_put
    rate_headers rate h = if is_empty rate then some h else elim (limit_rate_bytes rate) [
      | none ↦ none
      | some bytes ↦
          some (map_put "X-Pow-Limit-Rate-Bytes" bytes (map_put "X-Pow-Limit-Rate" rate h))
    ]

    unfoldable pub common_before : AuthResult → Header → Header
    unfolding itoa map_put
    common_before res h =
        let h1 = set_when (not (is_empty res.mode)) "X-Pow-Mode" res.mode h in
        let id =
          if ltb 12 (String.len res.sign_id) then first_bytes 12 res.sign_id else res.sign_id in
        let h2 = set_when (not (is_empty res.sign_id)) "X-Pow-Sign-Id" id h1 in
        if ltb 0 res.uses || ltb_ℤ (pos 0) res.max_uses
        then map_put "X-Pow-Max-Uses" (itoa res.max_uses)
            (map_put "X-Pow-Uses" (itoa (pos res.uses)) h2)
        else h2

    unfoldable pub common_after : AuthResult → Header → Header
    unfolding join_marks map_put
    common_after res h =
        let h1 = set_when (not (is_empty res.decision)) "X-Pow-Decision" res.decision h in
        let h2 = set_when (not (is_empty res.risk_chain)) "X-Pow-Chain" res.risk_chain h1 in
        let h3 = set_when (not (is_empty res.risk_rule)) "X-Pow-Rule" res.risk_rule h2 in
        elim res.risk_marks [ [] ↦ h3 | m ∷ ms ↦ map_put "X-Pow-Marks" (join_marks (m ∷ ms)) h3 ]

    -- The header and the status.
    unfoldable pub outcome_headers : AuthResult → Header → Header × ℕ
    unfolding format_risk_trace map_put
    outcome_headers res h =
        if res.allowed
        then (
          set_when (not (is_empty res.dry_run_original_error)) "X-Pow-Dry-Run-Original-Error"
              res.dry_run_original_error
              (map_put "X-Pow-Reason" res.reason (map_put "X-Pow-Result" "allow" h)),
          200,
        )
        else (let trace = format_risk_trace res.risk_trace in
            (
              set_when (not (is_empty trace)) "X-Pow-Trace" trace (
                  map_put "X-Pow-Reason" res.reason
                    (map_put "X-Pow-Error" res.error_header (map_put "X-Pow-Result" "deny" h))),
              res.http_status,
            ))

    -- writeAuthResult on an empty header; `none` where it panics.
    unfoldable pub write_auth_result : AuthResult → Option (Header × ℕ)
    unfolding common_before rate_headers common_after outcome_headers
    write_auth_result res = elim (rate_headers res.limit_rate (common_before res [])) [
      | none ↦ none
      | some h ↦ some (outcome_headers res (common_after res h))
    ]
