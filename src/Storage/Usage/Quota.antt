-- ===== src/Storage/Usage/Quota.antt =====
-- The memory store enforces max_uses over any sequence of operations.
use hustmirrors_waf_backend.Base.{
  ℕ, suc, ◌+◌, ◌≤◌, ◌<◌, ◌≡◌, refl, sym, ◌∙◌, ◌⊎◌, inl, inr, String, Bool, true, false, not, ◌&&◌,
  Option, none, some, List, [], ◌∷◌, str_eq, if◌then◌else◌, arith, eq_iff, eq_refl, Bool-cases, All,
  Fallible, ok, err,
}
use mathlib.Core.Path.{subst}
use native.Mathlib.Nat.{add-zero}
use hustmirrors_waf_backend.Base.Int.{ℤ, pos, eq_ℤ, ltb_ℤ}
use hustmirrors_waf_backend.Storage.Types.{StoreError, ConsumeInput, ConsumeResult, UsageRecord}
use hustmirrors_waf_backend.Storage.Usage.{
  Records, UsageStore, new_usage_store, find, put, record_for, used_up, charge, answer,
  consume_open, consume_locked, consume, sweep_records, cleanup_locked, cleanup_expired, close,
}

pub find-put :
    (i j : String) (r : UsageRecord) (m : Records)
    → find j (put i r m) ≡ (if str_eq i j then some r else find j m)
unfolding find put
find-put i j r [] = refl
find-put i j r ((k, q) ∷ m) = ground (arith, eq_iff i j, eq_iff k i, eq_iff k j, find-put i j r m)

-- A sweep that does not reach the expiry of a record leaves the record.
pub find-sweep_records :
    (before : ℤ) (id : String) (m : Records) (r : UsageRecord)
    → find id m ≡ some r
    → ltb_ℤ r.expires_at before ≡ false
    → find id (sweep_records before m).0 ≡ some r
unfolding find sweep_records
find-sweep_records before id [] r e h = cc
find-sweep_records before id ((k, q) ∷ m) r e h = ground (arith, find-sweep_records before id m r)

pub find-sweep_records-none :
    (before : ℤ) (id : String) (m : Records)
    → find id m ≡ none
    → find id (sweep_records before m).0 ≡ none
unfolding find sweep_records
find-sweep_records-none before id [] e = refl
find-sweep_records-none before id ((k, q) ∷ m) e =
    ground (arith, find-sweep_records-none before id m)

-- The operations on a store; reading it changes nothing.
pub data Op : Type 0 where
  consume_op : ℤ → ConsumeInput → Op
  get_op : String → Op
  cleanup_op : ℤ → Op
  close_op : Op

unfoldable pub apply : Op → UsageStore → UsageStore
apply (consume_op wall input) s = (consume wall input s).0
apply (get_op id) s = s
apply (cleanup_op before) s = (cleanup_expired before s).0
apply close_op s = close s

is_allowed : Fallible StoreError ConsumeResult → Bool
is_allowed (ok r) = r.allowed
is_allowed (err e) = false

-- Whether the operation is granted a use of the id that counts.
unfoldable pub is_charged : String → Op → UsageStore → Bool
unfolding is_allowed
is_charged id (consume_op wall input) s =
    str_eq input.id id && (not input.skip_consume && is_allowed (consume wall input s).1)
is_charged id (get_op j) s = false
is_charged id (cleanup_op before) s = false
is_charged id close_op s = false

-- How many counted uses of the id a sequence of operations is granted.
unfoldable pub granted : String → List Op → UsageStore → ℕ
granted id [] s = 0
granted id (op ∷ ops) s =
    let rest = granted id ops (apply op s) in if is_charged id op s then suc rest else rest

-- The operations on the id come from one token: one limit, one expiry, and no cleanup beyond it.
abbrev pub IsFair : String → ℕ → ℤ → Op → Type 0
IsFair id m expiry (consume_op wall input) =
    input.id ≡ id → (input.max_uses ≡ pos m) × (input.expires_at ≡ expiry)
IsFair id m expiry (get_op j) = Unit
IsFair id m expiry (cleanup_op before) = ltb_ℤ expiry before ≡ false
IsFair id m expiry close_op = Unit

-- The id has been charged n times.
abbrev Charged : ℕ → ℤ → Option UsageRecord → Type 0
Charged n expiry none = n ≡ 0
Charged n expiry (some r) = (r.uses ≡ n) × (r.expires_at ≡ expiry)

record_for-charged :
    (input : ConsumeInput) (now : ℤ) (o : Option UsageRecord) (n : ℕ) (expiry : ℤ)
    → input.expires_at ≡ expiry
    → Charged n expiry o
    → ((record_for input now o).uses ≡ n) × ((record_for input now o).expires_at ≡ expiry)
unfolding record_for
record_for-charged input now none n expiry e h = ground arith
record_for-charged input now (some r) n expiry e h = h

-- One counted use, if the record is not used up and the use is to count.
abbrev one_use : Bool → ConsumeInput → ℕ
one_use true input = 0
one_use false input = if input.skip_consume then 0 else 1

charge-uses :
    (input : ConsumeInput) (now : ℤ) (rec : UsageRecord)
    → ((charge input now rec).uses ≡ rec.uses + one_use false input)
      × ((charge input now rec).expires_at ≡ rec.expires_at)
unfolding charge
charge-uses input now rec = ground arith

-- The record of the id after Consume.
answer-charges :
    (t : Bool) (input : ConsumeInput) (now : ℤ) (m : Records) (rec : UsageRecord) (n : ℕ)
    (expiry : ℤ)
    → rec.uses ≡ n
    → rec.expires_at ≡ expiry
    → Charged (n + one_use t input) expiry (find input.id (answer t input now m rec).0)
unfolding answer
answer-charges true input now m rec n expiry u x =
    rw (find-put input.id input.id rec m, eq_refl input.id) (omega (arith, u), x)
answer-charges false input now m rec n expiry u x =
    let (used, expires) = charge-uses input now rec in
    rw (find-put input.id input.id (charge input now rec) m, eq_refl input.id)
      (omega (arith, used, u), expires ∙ x)

-- No other record changes.
answer-other :
    (t : Bool) (input : ConsumeInput) (now : ℤ) (m : Records) (rec : UsageRecord) (id : String)
    → str_eq input.id id ≡ false
    → find id (answer t input now m rec).0 ≡ find id m
unfolding answer
answer-other true input now m rec id e = rw (find-put input.id id rec m, e)
answer-other false input now m rec id e = rw (find-put input.id id (charge input now rec) m, e)

answer-allowed :
    (t : Bool) (input : ConsumeInput) (now : ℤ) (m : Records) (rec : UsageRecord)
    → (answer t input now m rec).1.allowed ≡ not t
unfolding answer
answer-allowed true input now m rec = refl
answer-allowed false input now m rec = refl

used_up-limit :
    (input : ConsumeInput) (rec : UsageRecord) (limit : ℕ)
    → input.max_uses ≡ pos limit
    → used_up input rec ≡ false
    → rec.uses < limit
unfolding used_up
used_up-limit input rec limit e h = ground arith

-- The state of an open store: the id has been charged n times, within its limit.
record IsWithin (id : String) (limit n : ℕ) (expiry : ℤ) (s : UsageStore) : Type 0 where
  open_ : s.closed ≡ false
  charged : Charged n expiry (find id s.records)
  within : n ≤ limit

abbrev one_if : Bool → ℕ
one_if true = 1
one_if false = 0

-- What a consume of an open store does for the id.
abbrev Within : String → ℕ → ℕ → ℤ → UsageStore × Fallible StoreError ConsumeResult → Type 0
Within id limit k expiry r = IsWithin id limit k expiry r.0

consume_own :
    (t : Bool) (input : ConsumeInput) (now : ℤ) (m : Records) (rec : UsageRecord) (limit n : ℕ)
    (expiry : ℤ)
    → used_up input rec ≡ t
    → rec.uses ≡ n
    → rec.expires_at ≡ expiry
    → input.max_uses ≡ pos limit
    → n ≤ limit
    → let r = answer t input now m rec in
      Charged (n + one_if (not input.skip_consume && r.1.allowed)) expiry (find input.id r.0)
      × (n + one_if (not input.skip_consume && r.1.allowed) ≤ limit)
consume_own true input now m rec limit n expiry e u x l h =
    rw (answer-allowed true input now m rec)
      (ground (arith, answer-charges true input now m rec n expiry u x))
consume_own false input now m rec limit n expiry e u x l h =
    rw (answer-allowed false input now m rec) (
      ground (
        arith,
        answer-charges false input now m rec n expiry u x,
        used_up-limit input rec limit l e,
      ))

module _ (wall : ℤ) (input : ConsumeInput) (s : UsageStore) (limit n : ℕ) (expiry : ℤ) where
  -- The result of Consume on an open store.
  abbrev locked : UsageStore × Fallible StoreError ConsumeResult
  locked = consume_locked false wall input s

  abbrev counts : Bool
  counts = not input.skip_consume && is_allowed locked.1

  own_step :
      input.max_uses ≡ pos limit
      → input.expires_at ≡ expiry
      → IsWithin input.id limit n expiry s
      → IsWithin input.id limit (n + one_if counts) expiry locked.0
  unfolding consume_locked consume_open is_allowed
  own_step l x w =
      let now = if eq_ℤ input.now_unix (pos 0) then wall else input.now_unix in
      let o = find input.id s.records in
      let rec = record_for input now o in
      let (u, ends) = record_for-charged input now o n expiry x w.charged in
      let (charged, within) =
        consume_own (used_up input rec) input now s.records rec limit n expiry refl u ends l
          w.within in
      record { open_ = w.open_; charged = charged; within = within }

  other_step :
      (id : String)
      → str_eq input.id id ≡ false
      → IsWithin id limit n expiry s
      → IsWithin id limit n expiry locked.0
  unfolding consume_locked consume_open
  other_step id e w =
      let now = if eq_ℤ input.now_unix (pos 0) then wall else input.now_unix in
      let rec = record_for input now (find input.id s.records) in
      record {
        open_ = w.open_;
        charged =
            subst (Charged n expiry)
              (sym (answer-other (used_up input rec) input now s.records rec id e)) w.charged;
        within = w.within;
      }

  locked_step :
      (id : String)
      → IsFair id limit expiry (consume_op wall input)
      → IsWithin id limit n expiry s
      → IsWithin id limit (n + one_if (str_eq input.id id && counts)) expiry locked.0
  locked_step id fair w = elim (Bool-cases (str_eq input.id id)) [
    | inl same ↦
        let e : input.id ≡ id = (eq_iff input.id id).0 same in
        let (l, x) = fair e in
        subst (λ j. IsWithin j limit (n + one_if (str_eq input.id j && counts)) expiry locked.0) e
          (rw (eq_refl input.id)
            (own_step l x (subst (λ j. IsWithin j limit n expiry s) (sym e) w)))
    | inr other ↦ rw other (rw add-zero (other_step id other w))
  ]

swept-charged :
    (before : ℤ) (id : String) (m : Records) (n : ℕ) (expiry : ℤ) (o : Option UsageRecord)
    → find id m ≡ o
    → ltb_ℤ expiry before ≡ false
    → Charged n expiry o
    → Charged n expiry (find id (sweep_records before m).0)
swept-charged before id m n expiry none e fair c = rw (find-sweep_records-none before id m e) c
swept-charged before id m n expiry (some r) e fair c =
    rw (find-sweep_records before id m r e (rw c.1 fair)) c

cleanup_step :
    (before : ℤ) (s : UsageStore) (id : String) (limit n : ℕ) (expiry : ℤ)
    → ltb_ℤ expiry before ≡ false
    → IsWithin id limit n expiry s
    → IsWithin id limit n expiry (cleanup_locked false before s).0
unfolding cleanup_locked
cleanup_step before s id limit n expiry fair w = record {
  open_ = w.open_;
  charged = swept-charged before id s.records n expiry (find id s.records) refl fair w.charged;
  within = w.within;
}

step-IsWithin :
    (op : Op) (s : UsageStore) (id : String) (limit n : ℕ) (expiry : ℤ)
    → IsFair id limit expiry op
    → IsWithin id limit n expiry s
    → IsWithin id limit (n + one_if (is_charged id op s)) expiry (apply op s)
      ⊎ ((is_charged id op s ≡ false) × ((apply op s).closed ≡ true))
unfolding is_charged apply
step-IsWithin (consume_op wall input) s id limit n expiry fair w = inl (
    unfold consume in
    subst
      (λ c.
        IsWithin id limit
          (n
            + one_if (
                str_eq input.id id
                && (not input.skip_consume && is_allowed (consume_locked c wall input s).1)))
          expiry (consume_locked c wall input s).0)
      (sym w.open_) (locked_step wall input s limit n expiry id fair w))
step-IsWithin (get_op j) s id limit n expiry fair w = inl (rw add-zero w)
step-IsWithin (cleanup_op before) s id limit n expiry fair w = inl (
    rw add-zero (
      unfold cleanup_expired in
      subst (λ c. IsWithin id limit n expiry (cleanup_locked c before s).0) (sym w.open_)
        (cleanup_step before s id limit n expiry fair w)))
step-IsWithin close_op s id limit n expiry fair w = inr (refl, unfold close in refl)

-- A closed store stays closed and grants nothing.
closed_step :
    (op : Op) (s : UsageStore) (id : String)
    → s.closed ≡ true
    → (is_charged id op s ≡ false) × ((apply op s).closed ≡ true)
unfolding is_charged apply consume cleanup_expired
closed_step (consume_op wall input) s id h =
    subst
      (λ c.
        (str_eq input.id id
            && (not input.skip_consume && is_allowed (consume_locked c wall input s).1)
          ≡ false)
        × ((consume_locked c wall input s).0.closed ≡ true))
      (sym h) (unfold consume_locked is_allowed in (ground arith, h))
closed_step (get_op j) s id h = (refl, h)
closed_step (cleanup_op before) s id h = (
  refl,
  subst (λ c. (cleanup_locked c before s).0.closed ≡ true) (sym h) (unfold cleanup_locked in h),
)
closed_step close_op s id h = (refl, unfold close in refl)

granted-closed :
    (ops : List Op) (s : UsageStore) (id : String) → s.closed ≡ true → granted id ops s ≡ 0
unfolding granted
granted-closed [] s id h = refl
granted-closed (op ∷ ops) s id h =
    let (free, still) = closed_step op s id h in rw free (granted-closed ops (apply op s) id still)

granted-within :
    (ops : List Op) (s : UsageStore) (id : String) (limit n : ℕ) (expiry : ℤ)
    → All (IsFair id limit expiry) ops
    → IsWithin id limit n expiry s
    → n + granted id ops s ≤ limit
unfolding granted
granted-within [] s id limit n expiry fair w = omega (arith, w.within)
granted-within (op ∷ ops) s id limit n expiry (f, fs) w =
    let t = is_charged id op s in
    elim (step-IsWithin op s id limit n expiry f w) [
      | inl w' ↦
          let rest = granted-within ops (apply op s) id limit (n + one_if t) expiry fs w' in
          elim (Bool-cases t) [
            | inl yes_ ↦ rw yes_ (omega (arith, rw yes_ at rest))
            | inr no_ ↦ rw no_ (omega (arith, rw no_ at rest))
          ]
      | inr (free, gone) ↦
          rw free (omega (arith, granted-closed ops (apply op s) id gone, w.within))
    ]

-- However consumes, reads, cleanups and a close are ordered, the store grants at most max_uses
-- counted uses of one token, where the token's consumes carry one limit and one expiry and no
-- cleanup reaches beyond that expiry.
pub granted-le-max_uses :
    (id : String) (limit : ℕ) (expiry : ℤ) (ops : List Op)
    → All (IsFair id limit expiry) ops
    → granted id ops new_usage_store ≤ limit
unfolding new_usage_store
granted-le-max_uses id limit expiry ops fair = omega (
  arith,
  granted-within ops new_usage_store id limit 0 expiry fair
      (record { open_ = refl; charged = unfold find in refl; within = omega arith }),
)
