-- ===== src/Storage/Counter.antt =====
-- internal/storage/memory/counter.go. A time is a number of nanoseconds since 1970; `now` and `later` are
-- the two readings of the clock in Incr. The count of a bucket starts at 0 and is only incremented, so it
-- is a number. An operation is one step: no Close comes between its test for one and its locked part.
pub mod Decimal
pub mod Count
use Prim.Native.String
use hustmirrors_waf_backend.Base.{
  ℕ, zero, suc, ◌+◌, ◌-◌, ◌*◌, ◌/◌, ◌%◌, ◌^◌, String, Bool, true, false, not, Option, none, some,
  List, [], ◌∷◌, ltb, leb, ◌==◌, if◌then◌else◌, Fallible, ok, err, ◌>>=◌, ◌>>◌, require, map_get,
  map_put, map_delete, map_keep,
}
use hustmirrors_waf_backend.Base.Int.{signed, ℤ, pos, negsuc, ltb_ℤ, pos_part}
use hustmirrors_waf_backend.Pow.Canonical.{digit}
use hustmirrors_waf_backend.Storage.Types.{StoreError, closed_store, invalid_window}

pub record Bucket : Type 0 where
  pub value : ℕ
  pub expires_at : ℕ

abbrev pub Buckets : Type 0
Buckets = List (String × Bucket)

-- `last_sweep` is `none` until the first sweep: the zero Time, which lies far back.
pub record CounterStore : Type 0 where
  pub buckets : Buckets
  pub closed : Bool
  pub last_sweep : Option ℕ

abbrev pub sweep_interval : ℕ
sweep_interval = 30000000000

unfoldable pub new_counter_store : CounterStore
new_counter_store = record { buckets = []; closed = false; last_sweep = none }

-- The digits of itoa, written from the last on; a number is itself fuel enough.
unfoldable pub itoa_digits : ℕ → ℕ → String → String
unfolding digit
itoa_digits zero n text = text
itoa_digits (suc f) n text =
    let rest = itoa_digits f (n / 10) (String.◌++◌ (digit (n % 10)) text) in
    if n == 0 then text else rest

-- The loop of itoa, which a number that is not above 0 does not enter.
unfoldable pub itoa_loop : ℤ → String
unfolding itoa_digits
itoa_loop (pos n) = itoa_digits n n ""
itoa_loop (negsuc n) = ""

-- The negation of an int64 wraps around.
unfoldable pub itoa : ℤ → String
unfolding itoa_loop signed
itoa (pos n) = if n == 0 then "0" else itoa_loop (pos n)
itoa (negsuc n) = String.◌++◌ "-" (itoa_loop (signed (suc n)))

unfoldable pub bucket_key : String → String → ℕ → ℕ → String
unfolding itoa
bucket_key name key window t =
    String.◌++◌ name
      (String.◌++◌ "|" (String.◌++◌ key (String.◌++◌ "|" (itoa (pos (t / window * window))))))

-- !now.After(b.expiresAt)
abbrev pub is_live : ℕ → Bucket → Bool
is_live now b = leb now b.expires_at

unfoldable pub is_due : ℕ → Option ℕ → Bool
is_due now none = true
is_due now (some last) = leb sweep_interval (now - last)

unfoldable pub sweep_locked : ℕ → CounterStore → CounterStore
unfolding is_due map_keep
sweep_locked now s =
    if is_due now s.last_sweep
    then record s { last_sweep = some now; buckets = map_keep (is_live now) s.buckets }
    else s

unfoldable pub check_call : ℤ → CounterStore → Fallible StoreError (Unit {0})
check_call window s = do
  require (not s.closed) closed_store
  require (ltb_ℤ (pos 0) window) invalid_window

-- The bucket that Incr counts in.
unfoldable pub bucket_for : ℕ → ℕ → Option Bucket → Bucket
bucket_for now window none = record { value = 0; expires_at = now + window }
bucket_for now window (some b) =
    if is_live now b then b else record { value = 0; expires_at = now + window }

unfoldable pub incr_locked :
    ℕ → ℕ → String → ℕ → CounterStore → CounterStore × Fallible StoreError (ℕ × ℕ)
unfolding bucket_for map_put map_get
incr_locked now later key window s =
    let b = bucket_for now window (map_get key s.buckets) in
    let b' = record b { value = b.value + 1 } in
    (record s { buckets = map_put key b' s.buckets }, ok (b'.value, b'.expires_at - later))

-- The first argument is the outcome of the checks.
unfoldable pub checked_incr :
    Fallible StoreError (Unit {0})
    → ℕ
    → ℕ
    → String
    → String
    → ℕ
    → CounterStore
    → CounterStore × Fallible StoreError (ℕ × ℕ)
unfolding sweep_locked bucket_key incr_locked
checked_incr (err e) now later name key window s = (s, err e)
checked_incr (ok u) now later name key window s =
    incr_locked now later (bucket_key name key window now) window (sweep_locked now s)

-- The count, and what is left of the window.
unfoldable pub incr :
    ℕ → ℕ → String → String → ℤ → CounterStore → CounterStore × Fallible StoreError (ℕ × ℕ)
unfolding checked_incr check_call
incr now later name key window s =
    checked_incr (check_call window s) now later name key (pos_part window) s

unfoldable pub live_count : ℕ → Option Bucket → ℕ
live_count now none = 0
live_count now (some b) = if is_live now b then b.value else 0

unfoldable pub get : ℕ → String → String → ℤ → CounterStore → Fallible StoreError ℕ
unfolding check_call live_count bucket_key map_get
get now name key window s = do
  check_call window s
  ok (live_count now (map_get (bucket_key name key (pos_part window) now) s.buckets))

unfoldable pub reset :
    ℕ → String → String → ℤ → CounterStore → CounterStore × Fallible StoreError (Unit {0})
unfolding check_call bucket_key map_delete
reset now name key window s = elim (check_call window s) [
  | err e ↦ (s, err e)
  | ok u ↦ (
    record s { buckets = map_delete (bucket_key name key (pos_part window) now) s.buckets },
    ok tt,
  )
]

unfoldable pub close : CounterStore → CounterStore
close s = record s { closed = true; buckets = [] }
