-- ===== src/Tests/Answers.antt =====
-- The theorems on answers, at a denied request with a trace.
use hustmirrors_waf_backend.Base.{
  ◌^◌, str_eq, ◌*◌, ℕ, ◌≡◌, ◌≤◌, refl, inl, inr, ◌-◌, Bool-cases, String, Bool, true, false, none,
  some, [], ◌∷◌, arith, ltb, if◌then◌else◌,
}
use Prim.Native.String
use Prim.Native.String.len
use Prim.Native.Char.{len_utf8}
use hustmirrors_waf_backend.Base.Int.{pos}
use hustmirrors_waf_backend.Platform.{to_lower, trim_space}
use hustmirrors_waf_backend.Risk.Types.{TraceStep}
use hustmirrors_waf_backend.Auth.Result.{AuthResult, deny}
use hustmirrors_waf_backend.Fixtures.{platform}
use hustmirrors_waf_backend.Transport.Answer.{
  limit_rate_bytes, Header, format_risk_trace, write_auth_result,
}
use hustmirrors_waf_backend.Transport.Rate.{kibi, limit_rate_bytes-unit}
use hustmirrors_waf_backend.Pow.Canonical.{decimal}
use hustmirrors_waf_backend.Transport.Trace.{format_risk_trace-bound}
use hustmirrors_waf_backend.Transport.Headers.{Answers, write_auth_result-Answers}

-- The longest prefix of whole code points within n bytes.
unfoldable cut : ℕ → String → String
cut n String.[] = ""
cut n (String.◌∷◌ c s) =
    let rest = cut (n - len_utf8 c) s in if ltb n (len_utf8 c) then "" else String.◌∷◌ c rest

cut-fits : (n : ℕ) (s : String) → String.len (cut n s) ≤ n
unfolding cut
cut-fits n String.[] = omega arith
cut-fits n (String.◌∷◌ c s) = elim (Bool-cases (ltb n (len_utf8 c))) [
  | inl e ↦ rw e (omega arith)
  | inr e ↦
      let fit = cut-fits (n - len_utf8 c) s in
      rw (e, len.cons c (cut (n - len_utf8 c) s)) (ground arith)
]

abbrev step : String → Bool → TraceStep
step rule matched = record {
  chain = "INPUT";
  rule = rule;
  matched = matched;
  target = "DENY";
  jump_to = "";
}

abbrev denial : AuthResult
denial = record (deny "missing_pow") {
  risk_trace = step "a" false ∷ step "b" true ∷ [];
  limit_rate = "512k";
}

format_risk_trace-bound_example : String.len (format_risk_trace cut denial.risk_trace) ≤ 516
format_risk_trace-bound_example = format_risk_trace-bound cut cut-fits denial.risk_trace

write_auth_result-Answers_example :
    (h : Header) × (status : ℕ) × (write_auth_result cut platform (λ s. some (pos 512)) denial
      ≡ some (h, status))
    × Answers denial h status
unfolding to_lower trim_space
write_auth_result-Answers_example =
    write_auth_result-Answers cut platform (λ s. some (pos 512)) denial (inr refl)

limit_rate_bytes-unit_example :
    limit_rate_bytes cut platform (λ s. if str_eq s "512" then some (pos 512) else none) " 512k"
    ≡ some (decimal (pos (512 * 2 ^ 10)))
unfolding to_lower trim_space hustmirrors_waf_backend.Transport.Answer.unit_of
limit_rate_bytes-unit_example =
    limit_rate_bytes-unit platform (λ s. if str_eq s "512" then some (pos 512) else none) cut
      " 512k" "512" kibi 512 refl refl refl (omega arith)
