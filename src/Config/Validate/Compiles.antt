-- ===== src/Config/Validate/Compiles.antt =====
-- Validate of internal/config/validate.go, against what internal/risk makes of the configuration.
use hustmirrors_waf_backend.Base.{
  ◌≡◌, refl, sym, ◌∙◌, inl, inr, ℕ, ◌+◌, String, Bool, true, false, not, ◌&&◌, List, [], ◌∷◌, ◌++◌,
  All, is_empty, if◌then◌else◌, Bool-cases, arith,
}
use hustmirrors_waf_backend.Platform.{Platform}
use hustmirrors_waf_backend.Risk.Target.{is_valid_rule_target, is_valid_policy_target}
use hustmirrors_waf_backend.Risk.Compile.{RuleConfig, ChainConfig, compile_chains}
use hustmirrors_waf_backend.Risk.Compile.Errors.{
  IsCidrOnly, IsGoodRegexp, IsGoodRule, IsGoodChain, compile_chains-IsCidrOnly,
}
use hustmirrors_waf_backend.Config.Settings.{RiskControlConfig, Settings}
use hustmirrors_waf_backend.Config.Validate.{
  Problem, in_rule, report, is_one_of, is_valid_target, bad_regexp_at, check_rule, check_rules,
  check_chains, check_patterns, read_timeout, shutdown_timeout, no_chain,
}
use hustmirrors_waf_backend.Base.Int.{pos, leb_ℤ, ltb_ℤ}
use hustmirrors_waf_backend.Config.Validate.Everything.{
  check_modes, check_storage, check_algorithm, check_pending, has_none, check_risk_control,
  validate,
}

-- isValidTarget agrees with the validators of internal/risk that it mirrors.
pub is_valid_target_parity :
    (t : String)
    → (is_valid_target t false ≡ is_valid_rule_target t)
      × (is_valid_target t true ≡ is_valid_policy_target t)
unfolding is_valid_target is_one_of is_valid_rule_target is_valid_policy_target
is_valid_target_parity t = (ground arith, ground arith)

append-eq-nil : (xs ys : List Problem) → xs ++ ys ≡ [] → (xs ≡ []) × (ys ≡ [])
append-eq-nil [] ys h = (refl, h)
append-eq-nil (x ∷ xs) ys h = cc

report-eq-nil : (b : Bool) (p : Problem) → report b p ≡ [] → b ≡ false
report-eq-nil true p h = cc
report-eq-nil false p h = refl

not-false : (b : Bool) → not b ≡ false → b ≡ true
not-false true h = refl
not-false false h = cc

module _ (g : Platform) where
  bad_regexp_at-IsGoodRegexp :
      (problem : String → Problem) (re : String)
      → bad_regexp_at g problem re ≡ []
      → IsGoodRegexp g re
  bad_regexp_at-IsGoodRegexp problem re h =
      let b = report-eq-nil (not (is_empty re) && not (g.regexp_compiles re)) (problem re) h in
      elim (Bool-cases (is_empty re)) [
        | inl e ↦ inl e
        | inr e ↦ inr (not-false (g.regexp_compiles re) (rw e at b))
      ]

  check_rule-IsGoodRule :
      (rc : RiskControlConfig) (problem : String → Problem) (r : RuleConfig)
      → check_rule g rc problem r ≡ []
      → IsGoodRule g r
  unfolding check_rule
  check_rule-IsGoodRule rc problem r h =
      let (_, h1) = append-eq-nil _ _ h in
      let (a, h2) =
        append-eq-nil (report (not (is_valid_target r.target false)) (problem "target")) _ h1 in
      let (b, h3) =
        append-eq-nil (bad_regexp_at g (λ re. problem "path_regex") r.match.path_regex) _ h2 in
      let (c, _) =
        append-eq-nil (bad_regexp_at g (λ re. problem "user_agent_regex") r.match.user_agent_regex)
          _ h3 in
      let target = not-false (is_valid_target r.target false) (report-eq-nil _ _ a) in
      (
        sym (is_valid_target_parity r.target).0 ∙ target,
        bad_regexp_at-IsGoodRegexp (λ re. problem "path_regex") r.match.path_regex b,
        bad_regexp_at-IsGoodRegexp (λ re. problem "user_agent_regex") r.match.user_agent_regex c,
      )

  check_rules-IsGoodRule :
      (rc : RiskControlConfig) (name : String) (rs : List RuleConfig) (i : ℕ)
      → check_rules g rc name i rs ≡ []
      → All (IsGoodRule g) rs
  unfolding check_rules
  check_rules-IsGoodRule rc name [] i h = tt
  check_rules-IsGoodRule rc name (r ∷ rs) i h =
      let (a, b) = append-eq-nil (check_rule g rc (in_rule name i) r) _ h in
      (check_rule-IsGoodRule rc (in_rule name i) r a, check_rules-IsGoodRule rc name rs (i + 1) b)

  check_chains-IsGoodChain :
      (rc : RiskControlConfig) (cs : List (String × ChainConfig))
      → check_chains g rc cs ≡ []
      → All (IsGoodChain g) cs
  unfolding check_chains
  check_chains-IsGoodChain rc [] h = tt
  check_chains-IsGoodChain rc ((name, c) ∷ cs) h =
      let (_, h1) = append-eq-nil _ _ h in
      let (a, h2) = append-eq-nil (report (not (is_valid_target c.policy.target true)) _) _ h1 in
      let (_, h3) = append-eq-nil _ _ h2 in
      let (b, d) = append-eq-nil (check_rules g rc name 0 c.rules) _ h3 in
      let target = not-false (is_valid_target c.policy.target true) (report-eq-nil _ _ a) in
      (
        (
          sym (is_valid_target_parity c.policy.target).1 ∙ target,
          check_rules-IsGoodRule rc name c.rules 0 b,
        ),
        check_chains-IsGoodChain rc cs d,
      )

  validate-check_risk_control :
      (c : Settings)
      → c.risk_control.enabled ≡ true
      → validate g c ≡ []
      → check_risk_control g c.risk_control ≡ []
  unfolding validate
  validate-check_risk_control c e h =
      let (_, h1) = append-eq-nil (check_modes c.pow) _ h in
      let (_, h2) =
        append-eq-nil (check_patterns g "protected_paths" c.protection.protected_paths) _ h1 in
      let (_, h3) =
        append-eq-nil (check_patterns g "excluded_paths" c.protection.excluded_paths) _ h2 in
      let (_, h4) = append-eq-nil (check_storage c.storage) _ h3 in
      let (_, h5) = append-eq-nil (check_algorithm g c.pow) _ h4 in
      let (_, h6) = append-eq-nil (check_pending c.risk_control.pending) _ h5 in
      let last =
        report (leb_ℤ c.server.read_timeout (pos 0)) read_timeout
        ++ report (ltb_ℤ c.server.shutdown_timeout (pos 0)) shutdown_timeout in
      let (a, _) =
        append-eq-nil (if c.risk_control.enabled then check_risk_control g c.risk_control else [])
          last h6 in
      rw e at a

  -- A configuration with risk control that Validate accepts compiles: the one error that the engine's
  -- compilation of its chains can still give is that a network of an ip_cidr_in does not parse.
  pub validate-compile_chains :
      (c : Settings)
      → c.risk_control.enabled ≡ true
      → validate g c ≡ []
      → IsCidrOnly (compile_chains g c.risk_control.chains)
  unfolding check_risk_control
  validate-compile_chains c e h =
      let rc = c.risk_control in
      let (_, h1) =
        append-eq-nil (report (has_none rc.chains) no_chain) _
          (validate-check_risk_control c e h) in
      let (a, _) = append-eq-nil (check_chains g rc rc.chains) _ h1 in
      compile_chains-IsCidrOnly g rc.chains (check_chains-IsGoodChain rc rc.chains a)
