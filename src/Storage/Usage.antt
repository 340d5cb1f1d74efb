-- ===== src/Storage/Usage.antt =====
-- internal/storage/memory/usage.go. The map is an association list; the mutex makes each operation
-- one step, with no Close between its test for one and its locked part. `wall` is what time.Now().Unix() gives.
pub mod Quota
use hustmirrors_waf_backend.Base.{
  ℕ, zero, suc, ◌+◌, ◌≡◌, String, Bool, true, false, not, Option, none, some, List, [], ◌∷◌, str_eq,
  length, if◌then◌else◌, is_empty, Fallible, ok, err,
}
use hustmirrors_waf_backend.Base.Int.{ℤ, pos, eq_ℤ, leb_ℤ, ltb_ℤ}
use hustmirrors_waf_backend.Storage.Types.{
  StoreError, not_found, closed_store, ConsumeInput, ConsumeResult, UsageRecord, UsageOps,
}

abbrev pub Records : Type 0
Records = List (String × UsageRecord)

pub record UsageStore : Type 0 where
  pub records : Records
  pub closed : Bool

unfoldable pub new_usage_store : UsageStore
new_usage_store = record { records = []; closed = false }

unfoldable pub find : String → Records → Option UsageRecord
find id [] = none
find id ((k, r) ∷ rest) = if str_eq k id then some r else find id rest

-- Replaces the record of the id, or adds it at the end.
unfoldable pub put : String → UsageRecord → Records → Records
put id rec [] = (id, rec) ∷ []
put id rec ((k, r) ∷ rest) = if str_eq k id then (k, rec) ∷ rest else (k, r) ∷ put id rec rest

unfoldable pub new_record : ConsumeInput → ℤ → UsageRecord
new_record input now = record {
  id = input.id;
  mode = input.mode;
  path = input.path;
  sign = input.sign;
  token_hash = input.token_hash;
  uses = 0;
  max_uses = input.max_uses;
  first_ip = input.ip;
  last_ip = input.ip;
  user_agent = input.user_agent;
  expires_at = input.expires_at;
  created_at = now;
  updated_at = now;
}

-- The record that Consume works on.
unfoldable pub record_for : ConsumeInput → ℤ → Option UsageRecord → UsageRecord
unfolding new_record
record_for input now none = new_record input now
record_for input now (some rec) = rec

unfoldable pub used_up : ConsumeInput → UsageRecord → Bool
used_up input rec = leb_ℤ input.max_uses (pos rec.uses)

unfoldable pub charge : ConsumeInput → ℤ → UsageRecord → UsageRecord
charge input now rec = record rec {
  uses = if input.skip_consume then rec.uses else rec.uses + 1;
  last_ip = input.ip;
  user_agent = if is_empty rec.user_agent then input.user_agent else rec.user_agent;
  updated_at = now;
}

-- What Consume stores and answers; the first argument says that the record is used up.
unfoldable pub answer : Bool → ConsumeInput → ℤ → Records → UsageRecord → Records × ConsumeResult
answer true input now records rec = (
  put input.id rec records,
  record { allowed = false; uses = rec.uses; max_uses = input.max_uses; reason = "used_up" },
)
answer false input now records rec =
    let charged = charge input now rec in
    (
      put input.id charged records,
      record { allowed = true; uses = charged.uses; max_uses = input.max_uses; reason = "ok" },
    )

unfoldable pub consume_open : ConsumeInput → ℤ → Records → Records × ConsumeResult
unfolding answer
consume_open input now records =
    let rec = record_for input now (find input.id records) in
    answer (used_up input rec) input now records rec

-- The first argument says that the store is closed.
unfoldable pub consume_locked :
    Bool → ℤ → ConsumeInput → UsageStore → UsageStore × Fallible StoreError ConsumeResult
consume_locked true wall input s = (s, err closed_store)
consume_locked false wall input s =
    let now = if eq_ℤ input.now_unix (pos 0) then wall else input.now_unix in
    let (records, result) = consume_open input now s.records in
    (record s { records = records }, ok result)

unfoldable pub consume :
    ℤ → ConsumeInput → UsageStore → UsageStore × Fallible StoreError ConsumeResult
unfolding consume_locked
consume wall input s = consume_locked s.closed wall input s

unfoldable pub get : String → UsageStore → Fallible StoreError UsageRecord
unfolding find
get id s =
    if s.closed
    then err closed_store
    else elim (find id s.records) [ none ↦ err not_found | some rec ↦ ok rec ]

-- The records that a cleanup leaves, and how many it deletes.
unfoldable pub sweep_records : ℤ → Records → Records × ℕ
sweep_records before [] = ([], 0)
sweep_records before ((k, r) ∷ rest) =
    let (kept, removed) = sweep_records before rest in
    if ltb_ℤ r.expires_at before then (kept, removed + 1) else ((k, r) ∷ kept, removed)

unfoldable pub cleanup_locked : Bool → ℤ → UsageStore → UsageStore × Fallible StoreError ℕ
cleanup_locked true before s = (s, err closed_store)
cleanup_locked false before s =
    let (kept, removed) = sweep_records before s.records in
    (record s { records = kept }, ok removed)

unfoldable pub cleanup_expired : ℤ → UsageStore → UsageStore × Fallible StoreError ℕ
unfolding cleanup_locked
cleanup_expired before s = cleanup_locked s.closed before s

unfoldable pub count_active : UsageStore → Fallible StoreError ℕ
count_active s = if s.closed then err closed_store else ok (length s.records)

unfoldable pub close : UsageStore → UsageStore
close s = record { records = []; closed = true }

-- The memory store as an implementation of the interface; `wall` is the clock of the machine.
unfoldable pub usage_ops : ℤ → UsageOps UsageStore
usage_ops wall = record { consume = consume wall; get = get }
