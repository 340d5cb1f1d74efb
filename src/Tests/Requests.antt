-- ===== src/Tests/Requests.antt =====
-- The theorems on requests, at the inputs of Fixtures.
use hustmirrors_waf_backend.Base.{
  ◌≡◌, refl, ◌⊎◌, ◌↔◌, inl, inr, String, Bool, true, false, ◌||◌, Option, none, some, List, [], ◌∷◌,
  str_eq, Fallible, ok, err, contains,
}
use hustmirrors_waf_backend.Base.Int.{pos}
use hustmirrors_waf_backend.Platform.{Platform}
use hustmirrors_waf_backend.Pow.Token.{TokenPayload}
use hustmirrors_waf_backend.Pow.Sign.{decode_token}
use hustmirrors_waf_backend.Storage.Usage.{UsageStore}
use hustmirrors_waf_backend.Auth.Result.{AuthResult, allow_reasons, AuthRequest, deny_mode}
use hustmirrors_waf_backend.Auth.Service.{ModeConfig, mode_config, maybe_dry_run}
use hustmirrors_waf_backend.Auth.Check.{
  extract_token_and_sign, validate_token_for_mode, classify_pow,
}
use hustmirrors_waf_backend.Auth.Check.Sound.{IsGood, fits_ip, classify_pow_sound}
use hustmirrors_waf_backend.Auth.Usage.{verify_pow_only, bind_empty_ip_first_use}
use hustmirrors_waf_backend.Auth.Usage.Binding.{bind_empty_ip_first_use_binds}
use hustmirrors_waf_backend.Auth.Usage.Allowed.{verify_pow_only-allowed}
use hustmirrors_waf_backend.Auth.Verdict.{World, VerifyCtx, apply_decision, or_reason}
use hustmirrors_waf_backend.Auth.Verify.{verify}
use hustmirrors_waf_backend.Auth.Verify.Safety.{Justified, verify-allowed}
use hustmirrors_waf_backend.Auth.Verify.Total.{verify_gives_back}
use hustmirrors_waf_backend.Risk.Pending.Returned.{count_of}
use hustmirrors_waf_backend.Auth.Service.{Service}
use hustmirrors_waf_backend.Risk.Engine.{Engine}
use hustmirrors_waf_backend.Fixtures.{
  input_chain, rule, platform, crypto, service, url, request, clock, world, payload, zero_hex,
}

-- Asks for the proof of work.
abbrev asking : Engine
asking = record {
  chains = ("INPUT", record input_chain { rules = rule "ask" "REQUIRE_POW" "" ∷ [] }) ∷ [];
}

-- With an engine and the blocker.
abbrev guarded : Service UsageStore (Unit {0})
guarded = record service {
  cfg = record service.cfg { risk_control_enabled = true };
  has_blocker = true;
  risk_engine = some asking;
}

verify_gives_back_example :
    (r : World UsageStore (Unit {0}) × AuthResult) × (verify platform crypto guarded url request
        clock world
      ≡ some r)
    × (count_of "1.2.3.4" r.0.blocker ≡ count_of "1.2.3.4" world.blocker)
verify_gives_back_example =
    verify_gives_back platform crypto guarded url request clock world "1.2.3.4"

verify-allowed_example :
    Justified platform crypto guarded request
      (extract_token_and_sign platform crypto guarded url request.original_args).0
      (extract_token_and_sign platform crypto guarded url request.original_args).1
      clock
      world.counters
unfolding hustmirrors_waf_backend.Auth.Service.bypass_all_effective
    hustmirrors_waf_backend.Auth.Service.pow_enabled verify
    hustmirrors_waf_backend.Auth.Verdict.run_risk_engine verify_pow_only extract_token_and_sign
    classify_pow decode_token mode_config hustmirrors_waf_backend.Pow.Token.validate_payload
    hustmirrors_waf_backend.Pow.Token.check_fields hustmirrors_waf_backend.Pow.Token.mode_ok
    hustmirrors_waf_backend.Auth.Service.generic_options hustmirrors_waf_backend.Platform.equal_fold
    hustmirrors_waf_backend.Pow.Token.want_algorithm
    hustmirrors_waf_backend.Pow.Token.is_canonical_safe hustmirrors_waf_backend.Platform.is_control
    hustmirrors_waf_backend.Pow.Token.check_ip hustmirrors_waf_backend.Pow.Token.is_counter_safe
    hustmirrors_waf_backend.Pow.Token.min_allowed hustmirrors_waf_backend.Pow.Token.max_allowed
    hustmirrors_waf_backend.Pow.Token.salt_ok hustmirrors_waf_backend.Base.Int.◌-ℤ◌
    hustmirrors_waf_backend.Base.Int.◌+ℤ◌ hustmirrors_waf_backend.Auth.Check.is_valid_sign_hex
    hustmirrors_waf_backend.Pow.Sign.compare_sign hustmirrors_waf_backend.Pow.Sign.compute_sign
    hustmirrors_waf_backend.Pow.Difficulty.has_leading_zero_bits
    hustmirrors_waf_backend.Pow.Sign.hash_canonical hustmirrors_waf_backend.Storage.Usage.usage_ops
    hustmirrors_waf_backend.Storage.Usage.consume hustmirrors_waf_backend.Storage.Usage.consume_open
    hustmirrors_waf_backend.Storage.Usage.used_up hustmirrors_waf_backend.Storage.Usage.record_for
    hustmirrors_waf_backend.Storage.Usage.find hustmirrors_waf_backend.Auth.Result.allow
    hustmirrors_waf_backend.Risk.Pending.enter hustmirrors_waf_backend.Risk.Pending.canonical_ip
    hustmirrors_waf_backend.Platform.trim_space hustmirrors_waf_backend.Platform.has_infix
    hustmirrors_waf_backend.Risk.Pending.new_ip_pending_blocker
    hustmirrors_waf_backend.Risk.Pending.admit hustmirrors_waf_backend.Risk.Pending.expire_entry
    hustmirrors_waf_backend.Risk.Pending.entry_of hustmirrors_waf_backend.Risk.Pending.sweep
    hustmirrors_waf_backend.Risk.Engine.evaluate hustmirrors_waf_backend.Risk.Engine.eval_chain
    hustmirrors_waf_backend.Risk.Engine.eval_fuel hustmirrors_waf_backend.Risk.Engine.enter_chain
    hustmirrors_waf_backend.Risk.Engine.lookup_chain
    hustmirrors_waf_backend.Risk.Engine.lookup_exact hustmirrors_waf_backend.Risk.Engine.visit
    hustmirrors_waf_backend.Platform.to_upper hustmirrors_waf_backend.Risk.Engine.walk_rules
    hustmirrors_waf_backend.Risk.Engine.step_rule hustmirrors_waf_backend.Risk.Matcher.matches
    hustmirrors_waf_backend.Risk.Engine.with_resolver hustmirrors_waf_backend.Risk.Engine.action
    hustmirrors_waf_backend.Risk.Target.is_terminal
    hustmirrors_waf_backend.Risk.Engine.decision_from_rule deny_mode
verify-allowed_example =
    verify-allowed platform crypto guarded url request clock world _ _ refl refl refl refl refl refl

verify_pow_only-allowed_example :
    (p : TokenPayload) × (◌≡◌ {A = Option TokenPayload} (some payload) (some p))
    × (mc : ModeConfig) × (mode_config service p.mode ≡ some mc)
    × IsGood platform crypto mc p request.original_uri zero_hex clock.verify
    × (fits_ip platform crypto service p request.real_ip ≡ true)
unfolding verify_pow_only validate_token_for_mode mode_config
    hustmirrors_waf_backend.Pow.Token.validate_payload
    hustmirrors_waf_backend.Pow.Token.check_fields hustmirrors_waf_backend.Pow.Token.mode_ok
    hustmirrors_waf_backend.Auth.Service.generic_options hustmirrors_waf_backend.Platform.equal_fold
    hustmirrors_waf_backend.Pow.Token.want_algorithm
    hustmirrors_waf_backend.Pow.Token.is_canonical_safe hustmirrors_waf_backend.Platform.is_control
    hustmirrors_waf_backend.Pow.Token.check_ip hustmirrors_waf_backend.Pow.Token.is_counter_safe
    hustmirrors_waf_backend.Pow.Token.min_allowed hustmirrors_waf_backend.Pow.Token.max_allowed
    hustmirrors_waf_backend.Pow.Token.salt_ok hustmirrors_waf_backend.Base.Int.◌-ℤ◌
    hustmirrors_waf_backend.Base.Int.◌+ℤ◌ hustmirrors_waf_backend.Auth.Check.is_valid_sign_hex
    hustmirrors_waf_backend.Pow.Sign.compare_sign hustmirrors_waf_backend.Pow.Sign.compute_sign
    hustmirrors_waf_backend.Pow.Difficulty.has_leading_zero_bits
    hustmirrors_waf_backend.Pow.Sign.hash_canonical hustmirrors_waf_backend.Storage.Usage.usage_ops
    hustmirrors_waf_backend.Storage.Usage.consume hustmirrors_waf_backend.Storage.Usage.consume_open
    hustmirrors_waf_backend.Storage.Usage.used_up hustmirrors_waf_backend.Storage.Usage.record_for
    hustmirrors_waf_backend.Storage.Usage.find hustmirrors_waf_backend.Auth.Result.allow
verify_pow_only-allowed_example =
    verify_pow_only-allowed platform crypto service request "t" zero_hex (some payload) clock
      world.usage refl refl

classify_pow_sound_example :
    (decode_token crypto "t" ≡ ok payload)
    × (◌≡◌ {A = String} "generic" payload.mode)
    × (validate_token_for_mode platform crypto service payload payload.mode "/ubuntu.iso" zero_hex
          (pos 1500)
        ≡ ok tt)
    × (fits_ip platform crypto service payload "1.2.3.4" ≡ true)
unfolding classify_pow decode_token mode_config hustmirrors_waf_backend.Pow.Token.validate_payload
    hustmirrors_waf_backend.Pow.Token.check_fields hustmirrors_waf_backend.Pow.Token.mode_ok
    hustmirrors_waf_backend.Auth.Service.generic_options hustmirrors_waf_backend.Platform.equal_fold
    hustmirrors_waf_backend.Pow.Token.want_algorithm
    hustmirrors_waf_backend.Pow.Token.is_canonical_safe hustmirrors_waf_backend.Platform.is_control
    hustmirrors_waf_backend.Pow.Token.check_ip hustmirrors_waf_backend.Pow.Token.is_counter_safe
    hustmirrors_waf_backend.Pow.Token.min_allowed hustmirrors_waf_backend.Pow.Token.max_allowed
    hustmirrors_waf_backend.Pow.Token.salt_ok hustmirrors_waf_backend.Base.Int.◌-ℤ◌
    hustmirrors_waf_backend.Base.Int.◌+ℤ◌ hustmirrors_waf_backend.Auth.Check.is_valid_sign_hex
    hustmirrors_waf_backend.Pow.Sign.compare_sign hustmirrors_waf_backend.Pow.Sign.compute_sign
    hustmirrors_waf_backend.Pow.Difficulty.has_leading_zero_bits
    hustmirrors_waf_backend.Pow.Sign.hash_canonical
classify_pow_sound_example =
    classify_pow_sound platform crypto service (pos 1500) "t" zero_hex "/ubuntu.iso" "1.2.3.4"
      {p = payload} {m = "generic"} refl

abbrev context_with_token : VerifyCtx
context_with_token = record {
  req = request;
  payload = some payload;
  token_raw = "t";
  sign = zero_hex;
}

abbrev other_request : AuthRequest
other_request = record request { real_ip = "5.6.7.8" }

-- Addresses that do not parse are the same only as texts.
abbrev strict : Platform
strict = record platform { parse_addr = λ s. none }

bind_empty_ip_first_use_binds_example :
    let first =
      bind_empty_ip_first_use strict crypto service payload request "t" zero_hex "ip_bound"
        (pos 1500)
        world.usage in
    (first.1 ≡ ok tt)
    × (bind_empty_ip_first_use strict crypto service payload other_request "t" zero_hex "ip_bound"
          (pos 1501)
          first.0
        ≡ (first.0, err (maybe_dry_run service (deny_mode "ip_mismatch" "ip_bound"))))
unfolding hustmirrors_waf_backend.Storage.Usage.find hustmirrors_waf_backend.Auth.Check.same_ip
    hustmirrors_waf_backend.Platform.equal_fold
bind_empty_ip_first_use_binds_example =
    bind_empty_ip_first_use_binds strict crypto service payload request other_request "t" "t"
      zero_hex "ip_bound" (pos 1500) (pos 1501) (pos 1500) world.usage refl refl refl refl refl
