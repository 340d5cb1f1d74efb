-- ===== src/Storage/Counter/Count.antt =====
-- What the counters of internal/storage/memory/counter.go count.
use hustmirrors_waf_backend.Base.{
  ℕ, ◌+◌, ◌≤◌, ◌<◌, ◌≡◌, refl, sym, ap, ◌∙◌, inl, inr, String, true, false, Option, none, some,
  List, [], ◌∷◌, All, str_eq, if◌then◌else◌, ok, arith, Bool-cases, map_get, map_put, kept,
  map_get-map_keep, map_get-map_put, map_get-map_put_same, eq_iff,
}
use mathlib.Core.Path.{subst}
use hustmirrors_waf_backend.Base.Int.{pos, ltb_ℤ}
use hustmirrors_waf_backend.Storage.Counter.{
  Bucket, CounterStore, is_live, is_due, sweep_locked, bucket_key, bucket_for, incr_locked,
  checked_incr, check_call, incr, live_count, get,
}

-- One call of Incr.
pub record Hit : Type 0 where
  pub now : ℕ
  pub later : ℕ
  pub name : String
  pub key : String
  pub window : ℕ

abbrev pub hit_key : Hit → String
hit_key h = bucket_key h.name h.key h.window h.now

unfoldable pub incr_all : List Hit → CounterStore → CounterStore
unfolding incr
incr_all [] s = s
incr_all (h ∷ hs) s = incr_all hs (incr h.now h.later h.name h.key (pos h.window) s).0

-- The calls that have counted under a bucket key.
unfoldable pub hits_of : String → List Hit → ℕ
hits_of k [] = 0
hits_of k (h ∷ hs) = (if str_eq (hit_key h) k then 1 else 0) + hits_of k hs

-- A call at most one window before a time; not later than that.
abbrev pub IsRecent : ℕ → Hit → Type 0
IsRecent t h = (0 < h.window) × (h.now ≤ t) × (t ≤ h.now + h.window)

-- The bucket of a key has counted n calls, and is alive at a time.
abbrev pub Counts : ℕ → ℕ → Option Bucket → Type 0
Counts t n none = n ≡ 0
Counts t n (some b) = (b.value ≡ n) × (t ≤ b.expires_at)

Counts-live_count : (t n : ℕ) (o : Option Bucket) → Counts t n o → live_count t o ≡ n
unfolding live_count
Counts-live_count t n none h = sym h
Counts-live_count t n (some b) (v, l) = ground arith

recount : (t n m : ℕ) (o : Option Bucket) → n ≡ m → Counts t n o → Counts t m o
recount t n m o e c = subst (λ x. Counts t x o) e c

kept_live :
    (t now n : ℕ) (o : Option Bucket) → now ≤ t → Counts t n o → Counts t n (kept (is_live now) o)
kept_live t now n none h c = c
kept_live t now n (some b) h (v, l) =
    let live : is_live now b ≡ true = ground arith in rw live (v, l)

sweep_locked-Counts :
    (t now n : ℕ) (k : String) (s : CounterStore)
    → now ≤ t
    → Counts t n (map_get k s.buckets)
    → Counts t n (map_get k (sweep_locked now s).buckets)
unfolding sweep_locked
sweep_locked-Counts t now n k s h c = elim (Bool-cases (is_due now s.last_sweep)) [
  | inl d ↦
      rw (d, map_get-map_keep (is_live now) k s.buckets)
        (kept_live t now n (map_get k s.buckets) h c)
  | inr d ↦ rw d c
]

bucket_for-Counts :
    (t now window n : ℕ) (o : Option Bucket)
    → now ≤ t
    → t ≤ now + window
    → Counts t n o
    → ((bucket_for now window o).value ≡ n) × (t ≤ (bucket_for now window o).expires_at)
unfolding bucket_for
bucket_for-Counts t now window n none h l c = (sym c, l)
bucket_for-Counts t now window n (some b) h l (v, m) =
    let live : is_live now b ≡ true = ground arith in rw live (v, m)

incr_locked-Counts_same :
    (t now later window n : ℕ) (key k : String) (s : CounterStore)
    → str_eq key k ≡ true
    → now ≤ t
    → t ≤ now + window
    → Counts t n (map_get k s.buckets)
    → Counts t (1 + n) (map_get k (incr_locked now later key window s).0.buckets)
unfolding incr_locked
incr_locked-Counts_same t now later window n key k s e h l c =
    let same : k ≡ key = sym ((eq_iff key k).0 e) in
    let b = bucket_for now window (map_get key s.buckets) in
    let (v, m) =
      bucket_for-Counts t now window n (map_get key s.buckets) h l
        (subst (λ x. Counts t n (map_get x s.buckets)) same c) in
    let b' = record b { value = b.value + 1 } in
    let found =
      ap (λ x. map_get x (map_put key b' s.buckets)) same ∙ map_get-map_put_same key b' s.buckets in
    let sum : b.value + 1 ≡ 1 + n = omega (arith, v) in
    subst (Counts t (1 + n)) (sym found) (sum, m)

incr_locked-Counts_other :
    (t now later window n : ℕ) (key k : String) (s : CounterStore)
    → str_eq key k ≡ false
    → Counts t n (map_get k s.buckets)
    → Counts t n (map_get k (incr_locked now later key window s).0.buckets)
unfolding incr_locked
incr_locked-Counts_other t now later window n key k s e c =
    let b = bucket_for now window (map_get key s.buckets) in
    rw (map_get-map_put key k (record b { value = b.value + 1 }) s.buckets e) c

call_passes : (w : ℕ) (s : CounterStore) → s.closed ≡ false → 0 < w → check_call (pos w) s ≡ ok tt
unfolding check_call
call_passes w s c h =
    let positive : ltb_ℤ (pos 0) (pos w) ≡ true = ground arith in rw (c, positive) refl

sweep_locked-closed : (now : ℕ) (s : CounterStore) → (sweep_locked now s).closed ≡ s.closed
unfolding sweep_locked
sweep_locked-closed now s = ground arith

incr_call :
    (h : Hit) (s : CounterStore)
    → s.closed ≡ false
    → 0 < h.window
    → incr h.now h.later h.name h.key (pos h.window) s
      ≡ incr_locked h.now h.later (hit_key h) h.window (sweep_locked h.now s)
unfolding incr checked_incr
incr_call h s c p =
    ap (λ r. checked_incr r h.now h.later h.name h.key h.window s) (call_passes h.window s c p)

incr_locked-closed :
    (now later window : ℕ) (key : String) (s : CounterStore)
    → (incr_locked now later key window s).0.closed ≡ s.closed
unfolding incr_locked
incr_locked-closed now later window key s = refl

incr_step :
    (t n : ℕ) (k : String) (h : Hit) (s : CounterStore)
    → s.closed ≡ false
    → IsRecent t h
    → Counts t n (map_get k s.buckets)
    → ((incr h.now h.later h.name h.key (pos h.window) s).0.closed ≡ false)
      × Counts t
          ((if str_eq (hit_key h) k then 1 else 0) + n)
          (map_get k (incr h.now h.later h.name h.key (pos h.window) s).0.buckets)
incr_step t n k h s closed (p, before, after) c =
    let swept = sweep_locked-Counts t h.now n k s before c in
    let open_still =
      incr_locked-closed h.now h.later h.window (hit_key h) (sweep_locked h.now s)
      ∙ sweep_locked-closed h.now s
      ∙ closed in
    rw (incr_call h s closed p) (
      open_still,
      elim (Bool-cases (str_eq (hit_key h) k)) [
        | inl e ↦ rw e (
            incr_locked-Counts_same t h.now h.later h.window n (hit_key h) k (sweep_locked h.now s)
              e before after swept)
        | inr e ↦ rw e (
            recount t n (0 + n) _ (omega arith) (
              incr_locked-Counts_other t h.now h.later h.window n (hit_key h) k
                (sweep_locked h.now s) e swept))
      ],
    )

incr_all-Counts :
    (t : ℕ) (k : String) (hs : List Hit) (n : ℕ) (s : CounterStore)
    → s.closed ≡ false
    → All (IsRecent t) hs
    → Counts t n (map_get k s.buckets)
    → ((incr_all hs s).closed ≡ false)
      × Counts t (hits_of k hs + n) (map_get k (incr_all hs s).buckets)
unfolding incr_all hits_of
incr_all-Counts t k [] n s closed a c = (closed, recount t n (0 + n) _ (omega arith) c)
incr_all-Counts t k (h ∷ hs) n s closed (r, a) c =
    let (closed', c') = incr_step t n k h s closed r c in
    let (closed'', c'') =
      incr_all-Counts t k hs ((if str_eq (hit_key h) k then 1 else 0) + n)
        (incr h.now h.later h.name h.key (pos h.window) s).0 closed' a c' in
    let sum : hits_of k hs + ((if str_eq (hit_key h) k then 1 else 0) + n)
        ≡ (if str_eq (hit_key h) k then 1 else 0) + hits_of k hs + n =
      omega arith in
    (closed'', recount t _ _ _ sum c'')

-- A counter loses no request and invents none. From an open store that has no bucket of the key yet,
-- after any calls of Incr, on any names, keys and windows, none of which lies further back than its
-- window or after the time of the Get, the Get returns how many of them have counted under its bucket
-- key. The sweeps on the way remove nothing that counts.
pub incr_all-get :
    (t w : ℕ) (name key : String) (hs : List Hit) (s : CounterStore)
    → s.closed ≡ false
    → 0 < w
    → map_get (bucket_key name key w t) s.buckets ≡ none
    → All (IsRecent t) hs
    → get t name key (pos w) (incr_all hs s) ≡ ok (hits_of (bucket_key name key w t) hs)
unfolding get
incr_all-get t w name key hs s closed p fresh a =
    let k = bucket_key name key w t in
    let start : Counts t 0 (map_get k s.buckets) = rw fresh refl in
    let (closed', c) = incr_all-Counts t k hs 0 s closed a start in
    let count = Counts-live_count t (hits_of k hs + 0) (map_get k (incr_all hs s).buckets) c in
    let same : hits_of k hs + 0 ≡ hits_of k hs = omega arith in
    rw (call_passes w (incr_all hs s) closed' p, count, same) refl
