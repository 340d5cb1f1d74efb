-- ===== src/Risk/Counter/Requests.antt =====
-- The registry of internal/risk/counter.go over the counters of internal/storage/memory/counter.go, for any
-- sequence of requests.
use hustmirrors_waf_backend.Base.{
  ℕ, ◌<◌, ◌≡◌, refl, sym, ap, ◌∙◌, inl, inr, String, Bool, true, false, some, List, [], ◌∷◌, ◌++◌,
  All, Fallible, ok, err, if◌then◌else◌, is_empty, Bool-cases, arith, map_get,
}
use hustmirrors_waf_backend.Base.Int.{ℤ, pos, negsuc, pos_part, ltb_ℤ}
use hustmirrors_waf_backend.Storage.Types.{StoreError, CounterStoreOps}
use hustmirrors_waf_backend.Storage.Counter.{
  CounterStore, new_counter_store, incr, get, check_call, checked_incr, bucket_key,
}
use hustmirrors_waf_backend.Storage.Counter.Count.{Hit, incr_all, hits_of, IsRecent, incr_all-get}
use hustmirrors_waf_backend.Risk.Types.{RequestContext}
use hustmirrors_waf_backend.Risk.Counter.{
  CounterConfig, CounterDefs, CounterRegistry, counter_key, counts_under, counter_when_matches,
  increment_defs, increment_for_request, read_counter, keep_read, resolver_get, lookup_resolver,
}

unfoldable pub as_int64 :
    CounterStore × Fallible StoreError (ℕ × ℕ) → CounterStore × Fallible StoreError (ℤ × ℕ)
as_int64 (s, err e) = (s, err e)
as_int64 (s, ok (n, left)) = (s, ok (pos n, left))

unfoldable pub value_as_int64 : Fallible StoreError ℕ → Fallible StoreError ℤ
value_as_int64 (err e) = err e
value_as_int64 (ok n) = ok (pos n)

-- The store in memory at given readings of the clock.
abbrev pub memory_counters : ℕ → ℕ → CounterStoreOps CounterStore
memory_counters now later = record {
  incr = λ name key window s. as_int64 (incr now later name key window s);
  get = λ name key window s. value_as_int64 (get now name key window s);
}

abbrev pub memory_registry : CounterDefs → ℕ → ℕ → CounterRegistry CounterStore
memory_registry defs now later = record { defs = defs; store = some (memory_counters now later) }

-- A request and the readings of the clock while it is counted.
pub record Arrival : Type 0 where
  pub now : ℕ
  pub later : ℕ
  pub request : RequestContext

unfoldable pub count_arrivals : CounterDefs → List Arrival → CounterStore → CounterStore
unfolding increment_for_request as_int64
count_arrivals defs [] s = s
count_arrivals defs (a ∷ later) s =
    count_arrivals defs later
      (increment_for_request (memory_registry defs a.now a.later) a.request s).0

-- The calls of Incr that a request makes.
abbrev pub hit_of : Arrival → String → CounterConfig → Hit
hit_of a name def = record {
  now = a.now;
  later = a.later;
  name = name;
  key = counter_key def.key a.request;
  window = pos_part def.window;
}

unfoldable pub hits : CounterDefs → Arrival → List Hit
unfolding counter_key counter_when_matches
hits [] a = []
hits ((name, def) ∷ defs) a =
    let rest = hits defs a in if counts_under def a.request then hit_of a name def ∷ rest else rest

unfoldable pub all_hits : CounterDefs → List Arrival → List Hit
unfolding hits
all_hits defs [] = []
all_hits defs (a ∷ later) = hits defs a ++ all_hits defs later

as_int64-store : (r : CounterStore × Fallible StoreError (ℕ × ℕ)) → (as_int64 r).0 ≡ r.0
unfolding as_int64
as_int64-store (s, err e) = refl
as_int64-store (s, ok (n, left)) = refl

refused :
    (b : Bool) (now later w : ℕ) (name key : String) (s : CounterStore) (z : ℤ)
    → ltb_ℤ (pos 0) z ≡ false
    → s.closed ≡ b
    → (checked_incr (check_call z s) now later name key w s).0 ≡ s
unfolding checked_incr check_call
refused true now later w name key s z h c = rw c refl
refused false now later w name key s z h c = rw (c, h) refl

-- A window that is not positive is refused whatever its value.
incr_window :
    (now later : ℕ) (name key : String) (z : ℤ) (s : CounterStore)
    → (incr now later name key z s).0 ≡ (incr now later name key (pos (pos_part z)) s).0
unfolding incr
incr_window now later name key (pos n) s = refl
incr_window now later name key (negsuc n) s =
    let below : ltb_ℤ (pos 0) (negsuc n) ≡ false = ground arith in
    refused s.closed now later 0 name key s (negsuc n) below refl
    ∙ sym (refused s.closed now later 0 name key s (pos 0) refl refl)

increment_defs-incr_all :
    (defs : CounterDefs) (a : Arrival) (s : CounterStore)
    → (increment_defs (memory_counters a.now a.later) a.request defs s).0 ≡ incr_all (hits defs a) s
unfolding increment_defs hits incr_all
increment_defs-incr_all [] a s = refl
increment_defs-incr_all ((name, def) ∷ defs) a s = elim (Bool-cases (counts_under def a.request)) [
  | inr e ↦ rw e (increment_defs-incr_all defs a s)
  | inl e ↦
      let key = counter_key def.key a.request in
      let next =
        as_int64-store (incr a.now a.later name key def.window s)
        ∙ incr_window a.now a.later name key def.window s in
      rw e (increment_defs-incr_all defs a _ ∙ ap (incr_all (hits defs a)) next)
]

incr_all-append :
    (xs ys : List Hit) (s : CounterStore) → incr_all (xs ++ ys) s ≡ incr_all ys (incr_all xs s)
unfolding incr_all
incr_all-append [] ys s = refl
incr_all-append (x ∷ xs) ys s =
    incr_all-append xs ys (incr x.now x.later x.name x.key (pos x.window) s).0

count_arrivals-incr_all :
    (defs : CounterDefs) (as' : List Arrival) (s : CounterStore)
    → count_arrivals defs as' s ≡ incr_all (all_hits defs as') s
unfolding count_arrivals all_hits incr_all increment_for_request
count_arrivals-incr_all defs [] s = refl
count_arrivals-incr_all defs (a ∷ later) s =
    count_arrivals-incr_all defs later _
    ∙ ap (incr_all (all_hits defs later)) (increment_defs-incr_all defs a s)
    ∙ sym (incr_all-append (hits defs a) (all_hits defs later) s)

read_found :
    {C : Type 0} (ops : CounterStoreOps C) (req : RequestContext) (c : C) (name : String)
    (def : CounterConfig) (v : ℤ)
    → is_empty (counter_key def.key req) ≡ false
    → ops.get name (counter_key def.key req) def.window c ≡ ok v
    → (keep_read name (read_counter ops req c name (some def)) []).1 ≡ v
unfolding read_counter keep_read
read_found ops req c name def v k g = rw k (
    ap
      (λ r.
        (keep_read name (elim r as (λ x. ℤ × Bool) [ err e ↦ (pos 0, false) | ok u ↦ (u, true) ])
          []).1)
      g)

-- The rules see the true count. After any requests have been counted by the registry over an empty store
-- in memory, with the definitions checked to have windows and every request recent for the definitions
-- that it counts under, the resolver answers a request for a counter with the number of calls that
-- have counted under the bucket of that counter, its key for this request, and the time.
pub count_arrivals-lookup_resolver :
    (defs : CounterDefs) (arrivals : List Arrival) (t t' w : ℕ) (name : String)
    (def : CounterConfig) (req : RequestContext)
    → map_get name defs ≡ some def
    → def.window ≡ pos w
    → 0 < w
    → is_empty (counter_key def.key req) ≡ false
    → All (IsRecent t) (all_hits defs arrivals)
    → lookup_resolver
        (memory_registry defs t t')
        req
        (count_arrivals defs arrivals new_counter_store)
        name
      ≡ pos (hits_of (bucket_key name (counter_key def.key req) w t) (all_hits defs arrivals))
unfolding lookup_resolver resolver_get new_counter_store value_as_int64
count_arrivals-lookup_resolver defs arrivals t t' w name def req found window p key recent =
    let counted =
      incr_all-get t w name (counter_key def.key req) (all_hits defs arrivals) new_counter_store
        refl p refl recent in
    let c = count_arrivals defs arrivals new_counter_store in
    let ops = memory_counters t t' in
    let key_text = counter_key def.key req in
    let seen : ops.get name key_text def.window c
        ≡ ok (pos (hits_of (bucket_key name key_text w t) (all_hits defs arrivals))) =
      ap (λ z. ops.get name key_text z c) window
      ∙ ap (λ s. ops.get name key_text (pos w) s)
          (count_arrivals-incr_all defs arrivals new_counter_store)
      ∙ ap value_as_int64 counted in
    ap (λ o. (keep_read name (read_counter ops req c name o) []).1) found
    ∙ read_found ops req c name def _ key seen
