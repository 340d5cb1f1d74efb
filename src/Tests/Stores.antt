-- ===== src/Tests/Stores.antt =====
-- The theorems on the pending blocker, the usage store and sign ids, at concrete inputs.
use hustmirrors_waf_backend.Base.{
  ◌≡◌, refl, ◌≤◌, ◌↔◌, String, true, false, none, some, List, [], ◌∷◌, str_eq, arith, if◌then◌else◌,
}
use hustmirrors_waf_backend.Base.Int.{pos}
use hustmirrors_waf_backend.Storage.Types.{ConsumeInput}
use hustmirrors_waf_backend.Storage.Usage.{new_usage_store}
use hustmirrors_waf_backend.Storage.Usage.Quota.{Op, consume_op, granted, granted-le-max_uses}
use hustmirrors_waf_backend.Risk.Pending.{
  IpPendingBlocker, Time, put, enter, canonical_ip, new_ip_pending_blocker,
}
use hustmirrors_waf_backend.Risk.Pending.Slots.{
  System, Reach, here, next, request, start, held, pending_of, Reach-slots,
}
use hustmirrors_waf_backend.Risk.Pending.Blocking.{IsBlocked, overflow_blocks}
use hustmirrors_waf_backend.Pow.Sign.{sign_id_input}
use hustmirrors_waf_backend.Pow.Sign.Identity.{sign_id_input-sign}
use hustmirrors_waf_backend.Fixtures.{platform, crypto, payload}

abbrev entered_once : System
entered_once = record {
  blocker = (enter platform 5 "1.2.3.4" (start (pos 2) (pos 0)).blocker).0;
  slots = "1.2.3.4" ∷ [];
}

one_request : Reach platform (start (pos 2) (pos 0)) entered_once
unfolding enter new_ip_pending_blocker canonical_ip hustmirrors_waf_backend.Platform.trim_space
    hustmirrors_waf_backend.Platform.has_infix hustmirrors_waf_backend.Risk.Pending.admit
    hustmirrors_waf_backend.Risk.Pending.expire_entry hustmirrors_waf_backend.Risk.Pending.entry_of
    hustmirrors_waf_backend.Risk.Pending.sweep
one_request = next here (request (start (pos 2) (pos 0)) 5 "1.2.3.4" _ refl)

Reach-slots_example :
    (pending_of (entered_once.blocker.entries "1.2.3.4") ≡ held "1.2.3.4" entered_once.slots)
    × (held "1.2.3.4" entered_once.slots ≤ entered_once.blocker.max_per_ip)
unfolding enter new_ip_pending_blocker canonical_ip hustmirrors_waf_backend.Platform.trim_space
    hustmirrors_waf_backend.Platform.has_infix hustmirrors_waf_backend.Risk.Pending.admit
    hustmirrors_waf_backend.Risk.Pending.expire_entry hustmirrors_waf_backend.Risk.Pending.entry_of
    hustmirrors_waf_backend.Risk.Pending.sweep
Reach-slots_example = Reach-slots (pos 2) (pos 0) one_request refl "1.2.3.4"

-- One slot of at most one is taken.
abbrev full : System
full = record {
  blocker = record {
    max_per_ip = 1;
    block_ttl = 100;
    entries = λ k.
        if str_eq k "1.2.3.4" then some (record { pending = 1; auto_blocked_until = 0 }) else none;
    closed = false;
    last_sweep = 0;
    auto_blocks = 0;
  };
  slots = "1.2.3.4" ∷ [];
}

overflow_blocks_example :
    ((enter platform 5 "1.2.3.4" full.blocker).1 ≡ true)
    × IsBlocked "1.2.3.4" 105 (enter platform 5 "1.2.3.4" full.blocker).0
    × ((enter platform 50 " 1.2.3.4 " (enter platform 5 "1.2.3.4" full.blocker).0).1 ≡ true)
    × ((enter platform 50 " 1.2.3.4 " (enter platform 5 "1.2.3.4" full.blocker).0).2 ≡ none)
unfolding canonical_ip hustmirrors_waf_backend.Platform.trim_space
    hustmirrors_waf_backend.Platform.has_infix
overflow_blocks_example =
    overflow_blocks {g = platform} full 5 50 "1.2.3.4" " 1.2.3.4 " "1.2.3.4" refl refl refl
      (omega arith) (omega arith) here tt (omega arith)

abbrev one_use : ConsumeInput
one_use = record {
  id = "a";
  mode = "generic";
  path = "/ubuntu.iso";
  sign = "00";
  token_hash = "";
  expires_at = pos 2000;
  max_uses = pos 1;
  ip = "1.2.3.4";
  user_agent = "curl";
  now_unix = pos 1500;
  grace_seconds = pos 0;
  skip_consume = false;
}

abbrev two_uses : List Op
two_uses = consume_op (pos 1500) one_use ∷ consume_op (pos 1501) one_use ∷ []

granted-le-max_uses_example : granted "a" two_uses new_usage_store ≤ 1
granted-le-max_uses_example =
    granted-le-max_uses "a" 1 (pos 2000) two_uses ((λ e. (refl, refl)), ((λ e. (refl, refl)), tt))

sign_id_input-sign_example :
    (sign_id_input crypto payload "ab" "generic" ≡ sign_id_input crypto payload "AB" "generic")
    ↔ (◌≡◌ {A = String} "ab" "AB")
sign_id_input-sign_example = sign_id_input-sign crypto payload "ab" "AB" "generic"
