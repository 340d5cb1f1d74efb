-- ===== src/Config/Validate/Everything.antt =====
-- Validate of internal/config/validate.go: all problems of a configuration, in the order of the code.
use hustmirrors_waf_backend.Base.{
  String, Bool, true, false, not, ◌&&◌, List, [], ◌∷◌, ◌++◌, str_eq, if◌then◌else◌, is_empty,
}
use hustmirrors_waf_backend.Base.Int.{pos, leb_ℤ, ltb_ℤ}
use hustmirrors_waf_backend.Platform.{Platform, equal_fold}
use hustmirrors_waf_backend.Pow.Token.{default_algorithm}
use hustmirrors_waf_backend.Risk.Counter.{CounterConfig, CounterDefs}
use hustmirrors_waf_backend.Auth.Service.{PowSettings}
use hustmirrors_waf_backend.Config.Settings.{
  StorageConfig, PendingConfig, RiskControlConfig, Settings,
}
use hustmirrors_waf_backend.Config.Validate.{
  Problem, no_mode, max_uses, dsn_required, addr_required, max_per_ip_low, max_per_ip_high,
  block_ttl, no_chain, read_timeout, shutdown_timeout, count_usage, max_ttl, bad_driver,
  bad_counter_driver, bad_algorithm, empty_param, bad_window, no_key, bad_key, bad_storage, report,
  check_mode_difficulty, is_one_of, check_patterns, check_chains,
}
use hustmirrors_waf_backend.Config.Validate.Cycles.{detect_cycles}

unfoldable pub check_modes : PowSettings → List Problem
unfolding check_mode_difficulty
check_modes p =
    report (not p.ip_bound.enabled && not p.generic.enabled) no_mode
    ++ (check_mode_difficulty "ip_bound" p.ip_bound
        ++ (check_mode_difficulty "generic" p.generic
            ++ (report p.ip_bound.count_usage (count_usage "ip_bound")
                ++ (report p.generic.count_usage (count_usage "generic")
                    ++ (report (p.ip_bound.enabled && leb_ℤ p.ip_bound.max_ttl_seconds (pos 0))
                          (max_ttl "ip_bound")
                        ++ (report (p.generic.enabled && leb_ℤ p.generic.max_ttl_seconds (pos 0))
                              (max_ttl "generic")
                            ++ report (p.generic.enabled && leb_ℤ p.generic.max_uses (pos 0))
                                max_uses))))))

unfoldable pub check_storage : StorageConfig → List Problem
unfolding is_one_of
check_storage s =
    report (not (is_one_of s.driver ("memory" ∷ "postgres" ∷ "redis" ∷ []))) (bad_driver s.driver)
    ++ (report (not (is_one_of s.counter_driver ("memory" ∷ "redis" ∷ [])))
          (bad_counter_driver s.counter_driver)
        ++ (report (str_eq s.driver "postgres" && is_empty s.postgres_dsn) dsn_required
            ++ report (str_eq s.driver "redis" && is_empty s.redis_addr) addr_required))

unfoldable pub check_pending : PendingConfig → List Problem
check_pending p =
    (if leb_ℤ p.max_per_ip (pos 0)
      then max_per_ip_low ∷ []
      else report (ltb_ℤ (pos 1000000) p.max_per_ip) max_per_ip_high)
    ++ report (leb_ℤ p.block_ttl (pos 0)) block_ttl

unfoldable pub check_counter_def : String → CounterConfig → List Problem
unfolding is_one_of
check_counter_def name c =
    report (leb_ℤ c.window (pos 0)) (bad_window name)
    ++ ((if is_one_of c.key ("ip" ∷ "path" ∷ "ip_path" ∷ [])
          then []
          else if is_empty c.key
          then no_key name ∷ []
          else bad_key name ∷ [])
        ++ report (not (is_one_of c.storage ("" ∷ "memory" ∷ "redis" ∷ []))) (bad_storage name))

unfoldable pub check_counter_defs : CounterDefs → List Problem
unfolding check_counter_def
check_counter_defs [] = []
check_counter_defs ((name, c) ∷ cs) = check_counter_def name c ++ check_counter_defs cs

unfoldable pub has_none : {A : Type 0} → List A → Bool
has_none [] = true
has_none (x ∷ xs) = false

module _ (g : Platform) where
  unfoldable pub check_risk_control : RiskControlConfig → List Problem
  unfolding has_none check_chains detect_cycles check_counter_defs
  check_risk_control rc =
      report (has_none rc.chains) no_chain
      ++ (check_chains g rc rc.chains
          ++ (detect_cycles g rc.chains ++ check_counter_defs rc.counters))

  unfoldable pub check_algorithm : PowSettings → List Problem
  unfolding equal_fold
  check_algorithm p =
      report (not (is_empty p.algorithm) && not (equal_fold g p.algorithm default_algorithm))
        (bad_algorithm p.algorithm)
      ++ (report (is_empty p.token_param) (empty_param "token_param")
          ++ report (is_empty p.sign_param) (empty_param "sign_param"))

  unfoldable pub validate : Settings → List Problem
  unfolding check_modes check_patterns check_storage check_algorithm check_pending
      check_risk_control
  validate c =
      check_modes c.pow
      ++ (check_patterns g "protected_paths" c.protection.protected_paths
          ++ (check_patterns g "excluded_paths" c.protection.excluded_paths
              ++ (check_storage c.storage
                  ++ (check_algorithm c.pow
                      ++ (check_pending c.risk_control.pending
                          ++ ((if c.risk_control.enabled
                                then check_risk_control c.risk_control
                                else [])
                              ++ (report (leb_ℤ c.server.read_timeout (pos 0)) read_timeout
                                  ++ report (ltb_ℤ c.server.shutdown_timeout (pos 0))
                                      shutdown_timeout)))))))
