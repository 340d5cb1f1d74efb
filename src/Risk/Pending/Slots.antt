-- ===== src/Risk/Pending/Slots.antt =====
-- The number of slots that an address holds, over any sequence of requests and releases.
use hustmirrors_waf_backend.Base.{
  ℕ, suc, ◌+◌, ◌-◌, ◌≤◌, ◌≡◌, refl, ◌∙◌, inl, inr, String, Bool, true, false, Option, none, some,
  List, [], ◌∷◌, ◌++◌, ltb, str_eq, if◌then◌else◌, arith, eq_iff, Bool-cases, Option-cases,
}
use mathlib.Core.Path.{subst}
use hustmirrors_waf_backend.Base.Int.{ℤ}
use hustmirrors_waf_backend.Platform.{Platform}
use hustmirrors_waf_backend.Risk.Pending.{
  Time, PendingEntry, IpPendingBlocker, entry_of, expire_entry, keep_entry, sweep_entry, sweep,
  admit, enter_locked, enter_at, release_entry, release, close, canonical_ip, enter,
  new_ip_pending_blocker,
}

-- A blocker, and the slots whose release is still to come. A release closure acts once: the slot is
-- then gone from the list.
pub record System : Type 0 where
  pub blocker : IpPendingBlocker
  pub slots : List String

abbrev pub add_slot : Option String → List String → List String
add_slot none slots = slots
add_slot (some ip) slots = ip ∷ slots

pub data Step (g : Platform) : System → System → Type 0 where
  request :
      (s : System) (now : Time) (ip : String) (r : IpPendingBlocker × Bool × Option String)
      → enter g now ip s.blocker ≡ r
      → Step g s (record { blocker = r.0; slots = add_slot r.2 s.slots })
  finish :
      (s : System) (now : Time) (ip : String) (xs ys : List String)
      → s.slots ≡ xs ++ (ip ∷ ys)
      → Step g s (record { blocker = release now ip s.blocker; slots = xs ++ ys })
  shut : (s : System) → Step g s (record { blocker = close s.blocker; slots = s.slots })

pub data Reach (g : Platform) (s : System) : System → Type 0 where
  here : Reach g s s
  next : {t u : System} → Reach g s t → Step g t u → Reach g s u

-- How many slots an address holds.
pub held : String → List String → ℕ
held ip [] = 0
held ip (k ∷ ks) = let rest = held ip ks in if str_eq k ip then suc rest else rest

abbrev pub pending_of : Option PendingEntry → ℕ
pending_of none = 0
pending_of (some e) = e.pending

abbrev pub one_if : Bool → ℕ
one_if true = 1
one_if false = 0

keep_entry-pending : (now : Time) (e : PendingEntry) → pending_of (keep_entry now e) ≡ e.pending
unfolding keep_entry
keep_entry-pending now e = ground arith

pub expire_entry-pending :
    (now : Time) (e : PendingEntry) → (expire_entry now e).pending ≡ e.pending
unfolding expire_entry
expire_entry-pending now e = ground arith

sweep_entry-pending :
    (now : Time) (o : Option PendingEntry) → pending_of (sweep_entry now o) ≡ pending_of o
unfolding sweep_entry
sweep_entry-pending now none = refl
sweep_entry-pending now (some e) =
    keep_entry-pending now (expire_entry now e) ∙ expire_entry-pending now e

pub entry_of-pending : (o : Option PendingEntry) → (entry_of o).pending ≡ pending_of o
unfolding entry_of
entry_of-pending none = refl
entry_of-pending (some e) = refl

-- A sweep changes neither the counts nor the limits.
pub sweep-pending :
    (now : Time) (b : IpPendingBlocker) (k : String)
    → (pending_of ((sweep now b).entries k) ≡ pending_of (b.entries k))
      × ((sweep now b).closed ≡ b.closed)
      × ((sweep now b).max_per_ip ≡ b.max_per_ip)
unfolding sweep
sweep-pending now b k = ground (arith, sweep_entry-pending now (b.entries k))

held-append : (ip : String) (xs ys : List String) → held ip (xs ++ ys) ≡ held ip xs + held ip ys
unfolding held
held-append ip [] ys = omega arith
held-append ip (x ∷ xs) ys = ground (arith, held-append ip xs ys)

-- The blocker counts each address's slots, and no address holds more than the limit.
abbrev pub IsCounted : System → Type 0
IsCounted s =
    s.blocker.closed ≡ false
    → (k : String)
    → (pending_of (s.blocker.entries k) ≡ held k s.slots) × (held k s.slots ≤ s.blocker.max_per_ip)

-- What admission does to the counts.
admit-counts :
    (now : Time) (ip k : String) (e : PendingEntry) (b : IpPendingBlocker) (slots : List String)
    → e.pending ≡ held ip slots
    → pending_of (b.entries k) ≡ held k slots
    → held k slots ≤ b.max_per_ip
    → let r = admit now ip e b in
      (pending_of (r.0.entries k) ≡ held k (add_slot r.2 slots))
      × (held k (add_slot r.2 slots) ≤ r.0.max_per_ip)
unfolding admit held
admit-counts now ip k e b slots he hk hm = ground (arith, eq_iff ip k)

enter_locked-IsCounted :
    (c : Bool) (now : Time) (ip : String) (b : IpPendingBlocker) (slots : List String)
    → b.closed ≡ c
    → IsCounted (record { blocker = b; slots = slots })
    → let r = enter_locked c now ip b in
      IsCounted (record { blocker = r.0; slots = add_slot r.2 slots })
unfolding enter_locked
enter_locked-IsCounted true now ip b slots e h open_ k = absurd (ground arith)
enter_locked-IsCounted false now ip b slots e h open_ k =
    let swept = sweep now b in
    let (at_ip, _, _) = sweep-pending now b ip in
    let (at_k, _, limit) = sweep-pending now b k in
    let (count_k, max_k) = h e k in
    let (count_ip, _) = h e ip in
    let entry = entry_of (swept.entries ip) in
    admit-counts now ip k (expire_entry now entry) swept slots
      (expire_entry-pending now entry ∙ entry_of-pending (swept.entries ip) ∙ at_ip ∙ count_ip)
      (at_k ∙ count_k) (rw limit max_k)

enter-IsCounted :
    (g : Platform) (now : Time) (ip : String) (b : IpPendingBlocker) (slots : List String)
    → IsCounted (record { blocker = b; slots = slots })
    → let r = enter g now ip b in IsCounted (record { blocker = r.0; slots = add_slot r.2 slots })
unfolding enter enter_at
enter-IsCounted g now ip b slots h = elim (Option-cases (canonical_ip g ip)) [
  | inl bad ↦ rw (bad, enter) h
  | inr (c, good) ↦ rw (good, enter) (enter_locked-IsCounted b.closed now c b slots refl h)
]

pub release_entry-pending :
    (now : Time) (o : Option PendingEntry) → pending_of (release_entry now o) ≡ pending_of o - 1
unfolding release_entry
release_entry-pending now none = refl
release_entry-pending now (some e) =
    let lowered = if ltb 0 e.pending then record e { pending = e.pending - 1 } else e in
    keep_entry-pending now (expire_entry now lowered)
    ∙ expire_entry-pending now lowered
    ∙ ground arith

release-IsCounted :
    (now : Time) (ip : String) (b : IpPendingBlocker) (xs ys : List String)
    → IsCounted (record { blocker = b; slots = xs ++ (ip ∷ ys) })
    → IsCounted (record { blocker = release now ip b; slots = xs ++ ys })
unfolding release held
release-IsCounted now ip b xs ys h = elim (Bool-cases b.closed) [
  | inl gone ↦ rw (gone, release) (λ open_. absurd (ground arith))
  | inr live ↦
      rw (live, release)
        (λ open_ k. ground (
          arith,
          eq_iff ip k,
          h live k,
          held-append k xs ys,
          held-append k xs (ip ∷ ys),
          release_entry-pending now (b.entries ip),
        ))
]

close-IsCounted :
    (b : IpPendingBlocker) (slots : List String)
    → IsCounted (record { blocker = close b; slots = slots })
unfolding close
close-IsCounted b slots open_ = absurd (ground arith)

Step-IsCounted : {g : Platform} {s t : System} → IsCounted s → Step g s t → IsCounted t
Step-IsCounted {g} h (request s now ip r e) =
    subst
      (λ (q : IpPendingBlocker × Bool × Option String).
        IsCounted (record { blocker = q.0; slots = add_slot q.2 s.slots }))
      e (enter-IsCounted g now ip s.blocker s.slots h)
Step-IsCounted h (finish s now ip xs ys e) =
    release-IsCounted now ip s.blocker xs ys
      (subst (λ l. IsCounted (record { blocker = s.blocker; slots = l })) e h)
Step-IsCounted h (shut s) = close-IsCounted s.blocker s.slots

Reach-IsCounted : {g : Platform} {s t : System} → IsCounted s → Reach g s t → IsCounted t
Reach-IsCounted h here = h
Reach-IsCounted h (next r st) = Step-IsCounted (Reach-IsCounted h r) st

abbrev pub start : ℤ → ℤ → System
start max_per_ip block_ttl = record {
  blocker = new_ip_pending_blocker max_per_ip block_ttl;
  slots = [];
}

-- In whatever order requests enter and finish, as long as the blocker is open, it counts for each
-- address exactly the requests of that address that are still running, and their number is at most
-- the limit.
pub Reach-slots :
    {g : Platform} {t : System} (max_per_ip block_ttl : ℤ)
    → Reach g (start max_per_ip block_ttl) t
    → t.blocker.closed ≡ false
    → (k : String)
    → (pending_of (t.blocker.entries k) ≡ held k t.slots) × (held k t.slots ≤ t.blocker.max_per_ip)
unfolding new_ip_pending_blocker held
Reach-slots max_per_ip block_ttl r = Reach-IsCounted (λ live k. (refl, omega arith)) r
