-- ===== src/Tests/Counters.antt =====
-- The theorems on counters, at concrete requests.
use hustmirrors_waf_backend.Base.{
  ◌≡◌, ◌⊎◌, refl, ℕ, ◌-◌, ◌^◌, String, some, none, List, [], ◌∷◌, All, arith, ok,
}
use hustmirrors_waf_backend.Base.Int.{pos, negsuc}
use hustmirrors_waf_backend.Pow.Canonical.{decimal}
use hustmirrors_waf_backend.Storage.Counter.{new_counter_store, get, bucket_key, itoa}
use hustmirrors_waf_backend.Storage.Counter.Decimal.{itoa-decimal}
use hustmirrors_waf_backend.Storage.Counter.Count.{Hit, incr_all, hits_of, incr_all-get}
use hustmirrors_waf_backend.Risk.Counter.{CounterConfig, CounterDefs, lookup_resolver}
use hustmirrors_waf_backend.Risk.Counter.Requests.{
  Arrival, memory_registry, count_arrivals, count_arrivals-lookup_resolver, all_hits,
}
use hustmirrors_waf_backend.Fixtures.{context}

itoa-decimal_example :
    (itoa (negsuc 41) ≡ decimal (negsuc 41))
    ⊎ ((negsuc 41 ≡ negsuc (2 ^ 63 - 1)) × (itoa (negsuc 41) ≡ "-"))
itoa-decimal_example = itoa-decimal (negsuc 41) refl

abbrev hit : ℕ → String → Hit
hit now name = record { now = now; later = now; name = name; key = "k"; window = 10 }

abbrev some_hits : List Hit
some_hits = hit 21 "a" ∷ hit 22 "b" ∷ hit 25 "a" ∷ []

incr_all-get_example : get 28 "a" "k" (pos 10) (incr_all some_hits new_counter_store) ≡ ok 2
unfolding new_counter_store hustmirrors_waf_backend.Base.map_get hits_of bucket_key
incr_all-get_example =
    incr_all-get 28 10 "a" "k" some_hits new_counter_store refl (omega arith) refl (
      (omega arith, omega arith, omega arith),
      ((omega arith, omega arith, omega arith), ((omega arith, omega arith, omega arith), tt)),
    )

abbrev per_ip : CounterConfig
per_ip = record {
  key = "ip";
  window = pos 10;
  when = record { is_protected = none; is_range_request = none; pow_status = ""; pow_mode = "" };
  storage = "memory";
}

abbrev defs : CounterDefs
defs = ("per_ip", per_ip) ∷ []

abbrev arrivals : List Arrival
arrivals =
    (record { now = 21; later = 21; request = context })
    ∷ (record { now = 23; later = 23; request = context })
    ∷ []

count_arrivals-lookup_resolver_example :
    lookup_resolver
      (memory_registry defs 28 28)
      context
      (count_arrivals defs arrivals new_counter_store)
      "per_ip"
    ≡ pos 2
unfolding hustmirrors_waf_backend.Base.map_get hustmirrors_waf_backend.Risk.Counter.counter_key
    all_hits hits_of bucket_key
count_arrivals-lookup_resolver_example =
    count_arrivals-lookup_resolver defs arrivals 28 28 10 "per_ip" per_ip context refl refl
      (omega arith) refl
      ((omega arith, omega arith, omega arith), ((omega arith, omega arith, omega arith), tt))
