-- ===== src/Auth/Result.antt =====
-- internal/auth: request.go, result.go and statusForReason of reasons.go.
use hustmirrors_waf_backend.Base.{
  ℕ, String, Bool, true, false, List, [], ◌∷◌, contains, if◌then◌else◌,
}
use hustmirrors_waf_backend.Base.Int.{ℤ, pos}
use hustmirrors_waf_backend.Risk.Types.{TraceStep}

pub record AuthRequest : Type 0 where
  pub original_uri : String
  pub original_method : String
  pub original_args : String
  pub real_ip : String
  pub user_agent : String
  pub original_range : String

-- A RiskTraceStep has the fields of the engine's TraceStep.
pub record AuthResult : Type 0 where
  pub allowed : Bool
  pub http_status : ℕ
  pub reason : String
  pub mode : String
  pub sign_id : String
  pub uses : ℕ
  pub max_uses : ℤ
  pub error_header : String
  pub limit_rate : String
  pub decision : String
  pub dry_run_original_error : String
  pub risk_chain : String
  pub risk_rule : String
  pub risk_trace : List TraceStep
  pub risk_marks : List String

unfoldable pub allow_reasons : List String
allow_reasons =
    "not_protected" ∷ "ip_bound_valid" ∷ "generic_valid" ∷ "dry_run_allow" ∷ "bypass_all"
    ∷ "pow_disabled" ∷ "risk_accept" ∷ "risk_rate_limit" ∷ "require_pow_pass" ∷ []

unfoldable pub status_for_reason : String → ℕ
unfolding allow_reasons
status_for_reason reason =
    if contains reason allow_reasons
    then 200
    else if contains reason ("rate_limited" ∷ "risk_too_many" ∷ "ip_pending_blocked" ∷ [])
    then 429
    else if contains reason
        ("storage_error" ∷ "internal_error" ∷ "missing_headers" ∷ "missing_real_ip" ∷ [])
    then 500
    else 403

unfoldable pub allow_decision : String → String → String → AuthResult
allow_decision reason mode decision = record {
  allowed = true;
  http_status = 200;
  reason = reason;
  mode = mode;
  sign_id = "";
  uses = 0;
  max_uses = pos 0;
  error_header = "";
  limit_rate = "";
  decision = decision;
  dry_run_original_error = "";
  risk_chain = "";
  risk_rule = "";
  risk_trace = [];
  risk_marks = [];
}

unfoldable pub allow : String → String → AuthResult
unfolding allow_decision
allow reason mode = allow_decision reason mode "verified"

unfoldable pub deny : String → AuthResult
deny reason = record {
  allowed = false;
  http_status = status_for_reason reason;
  reason = reason;
  mode = "";
  sign_id = "";
  uses = 0;
  max_uses = pos 0;
  error_header = reason;
  limit_rate = "";
  decision = "denied";
  dry_run_original_error = "";
  risk_chain = "";
  risk_rule = "";
  risk_trace = [];
  risk_marks = [];
}

unfoldable pub deny_mode : String → String → AuthResult
unfolding deny
deny_mode reason mode = record (deny reason) { mode = mode }

unfoldable pub deny_status : ℕ → String → String → AuthResult
unfolding deny_mode
deny_status status reason mode = record (deny_mode reason mode) { http_status = status }

unfoldable pub with_sign_id : AuthResult → String → AuthResult
with_sign_id r sign_id = record r { sign_id = sign_id }
