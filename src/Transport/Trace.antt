-- ===== src/Transport/Trace.antt =====
-- internal/transport/echo/handlers.go: the length of the trace header.
use Prim.Native.String
use text.Mathlib.TextPositions.{len-append}
use hustmirrors_waf_backend.Base.{
  ℕ, ◌+◌, ◌≤◌, ◌≡◌, inl, inr, String, false, not, List, [], ◌∷◌, ltb, arith, Bool-cases, is_empty,
}
use hustmirrors_waf_backend.Risk.Types.{TraceStep}
use hustmirrors_waf_backend.Transport.Answer.{trace_loop, trace_entry, format_risk_trace}

module _ (first_bytes : ℕ → String → String)
    (cuts : (n : ℕ) (s : String) → String.len (first_bytes n s) ≤ n) where
  cut_mark : (b : String) → String.len b ≤ 512 → String.len (String.◌++◌ b ",...") ≤ 516
  cut_mark b h = rw (len-append b ",...") (omega arith)

  next_mark :
      (b entry : String)
      → ltb 512 (String.len b + 1 + String.len entry) ≡ false
      → String.len (String.◌++◌ b (String.◌++◌ "," entry)) ≤ 512
  next_mark b entry h =
      rw (len-append b (String.◌++◌ "," entry), len-append "," entry) (ground arith)

  first_mark :
      (b entry : String)
      → not (is_empty b) ≡ false
      → ltb 512 (String.len entry) ≡ false
      → String.len (String.◌++◌ b entry) ≤ 512
  first_mark String.[] entry e h = rw (len-append "" entry) (ground arith)
  first_mark (String.◌∷◌ c b) entry e h = ground arith

  trace_loop-bound :
      (b : String) (ss : List TraceStep)
      → String.len b ≤ 512
      → String.len (trace_loop first_bytes b ss) ≤ 516
  unfolding trace_loop
  trace_loop-bound b [] h = omega arith
  trace_loop-bound b (s ∷ ss) h =
      let entry = trace_entry s in
      elim (Bool-cases s.matched) [
        | inr e ↦ rw e (trace_loop-bound b ss h)
        | inl e ↦ elim (Bool-cases (not (is_empty b))) [
          | inl f ↦ elim (Bool-cases (ltb 512 (String.len b + 1 + String.len (trace_entry s)))) [
            | inl k ↦ rw (e, f, k) (cut_mark b h)
            | inr k ↦
                rw (e, f, k)
                  (trace_loop-bound (String.◌++◌ b (String.◌++◌ "," (trace_entry s))) ss
                    (next_mark b (trace_entry s) k))
          ]
          | inr f ↦ elim (Bool-cases (ltb 512 (String.len (trace_entry s)))) [
            | inl k ↦
                rw (e, f, k) (cut_mark (first_bytes 512 (trace_entry s)) (cuts 512 (trace_entry s)))
            | inr k ↦
                rw (e, f, k) (trace_loop-bound (String.◌++◌ b entry) ss (first_mark b entry f k))
          ]
        ]
      ]

  -- Where a slice s[:n] has at most n bytes, the trace header of any steps has at most 516 bytes: the limit of 512 and
  -- the mark of a cut.
  pub format_risk_trace-bound :
      (steps : List TraceStep) → String.len (format_risk_trace first_bytes steps) ≤ 516
  unfolding format_risk_trace
  format_risk_trace-bound steps = trace_loop-bound "" steps (omega arith)
