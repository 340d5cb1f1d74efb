-- ===== src/Risk/Pending/Blocking.antt =====
-- How long an address stays blocked.
use mathlib.Core.Path.{subst}
use hustmirrors_waf_backend.Base.{
  ◌+◌, ◌≤◌, ◌<◌, ◌≡◌, refl, sym, ap, ◌∙◌, inl, inr, String, Bool, true, false, Option, none, some,
  str_eq, if◌then◌else◌, arith, eq_iff, eq_refl, Bool-cases, Option-cases,
}
use hustmirrors_waf_backend.Platform.{Platform}
use hustmirrors_waf_backend.Risk.Pending.{
  Time, PendingEntry, IpPendingBlocker, entry_of, expire_entry, keep_entry, sweep_entry, sweep,
  admit, enter_locked, enter_at, release_entry, release, close, canonical_ip, enter,
}
use hustmirrors_waf_backend.Base.{◌⊎◌}
use hustmirrors_waf_backend.Risk.Pending.Slots.{
  System, Step, request, finish, shut, Reach, here, next, pending_of, sweep-pending,
  expire_entry-pending, entry_of-pending,
}

-- When the block of an entry ends; 0 without one.
abbrev pub until_of : Option PendingEntry → Time
until_of none = 0
until_of (some e) = e.auto_blocked_until

-- Before the block ends, neither a sweep nor a release nor clearing expired blocks touches it.
expire_entry-until :
    (now : Time) (e : PendingEntry) → now < e.auto_blocked_until → expire_entry now e ≡ e
unfolding expire_entry
expire_entry-until now e h = ground arith

sweep_entry-until :
    (now : Time) (o : Option PendingEntry) → now < until_of o → sweep_entry now o ≡ o
unfolding sweep_entry keep_entry expire_entry
sweep_entry-until now none h = refl
sweep_entry-until now (some e) h = ground arith

release_entry-until :
    (now : Time) (o : Option PendingEntry)
    → now < until_of o
    → until_of (release_entry now o) ≡ until_of o
unfolding release_entry keep_entry expire_entry
release_entry-until now none h = refl
release_entry-until now (some e) h = ground arith

sweep-until :
    (now : Time) (b : IpPendingBlocker) (k : String)
    → now < until_of (b.entries k)
    → (sweep now b).entries k ≡ b.entries k
unfolding sweep
sweep-until now b k h = ground (arith, sweep_entry-until now (b.entries k))

-- While an entry is blocked, admission turns the request away and puts the entry back.
admit_blocked :
    (now : Time) (ip k : String) (e : PendingEntry) (b : IpPendingBlocker)
    → now < e.auto_blocked_until
    → let r = admit now ip e b in
      (r.1 ≡ true) × (r.2 ≡ none) × (r.0.entries k ≡ (if str_eq ip k then some e else b.entries k))
unfolding admit
admit_blocked now ip k e b h = ground arith

enter_locked_blocked :
    (c : Bool) (now : Time) (ip : String) (e : PendingEntry) (b : IpPendingBlocker)
    → b.entries ip ≡ some e
    → now < e.auto_blocked_until
    → let r = enter_locked c now ip b in (r.1 ≡ true) × (r.2 ≡ none) × (r.0.entries ip ≡ some e)
unfolding enter_locked
enter_locked_blocked true now ip e b found h = (refl, refl, found)
enter_locked_blocked false now ip e b found h =
    let kept : (sweep now b).entries ip ≡ some e = sweep-until now b ip (rw found h) ∙ found in
    let same : expire_entry now (entry_of ((sweep now b).entries ip)) ≡ e =
      rw kept (unfold entry_of in expire_entry-until now e h) in
    let (turned, no_slot, put_back) = admit_blocked now ip ip e (sweep now b) h in
    rw same (turned, no_slot, put_back ∙ (rw (eq_refl ip)))

-- A request of another address leaves the entry alone.
admit_other :
    (now : Time) (ip k : String) (e : PendingEntry) (b : IpPendingBlocker)
    → str_eq ip k ≡ false
    → (admit now ip e b).0.entries k ≡ b.entries k
unfolding admit
admit_other now ip k e b h = ground arith

-- The latest time of a step; closing has none.
abbrev pub stamp : {g : Platform} {s t : System} → Step g s t → Time
stamp (request s now ip r e) = now
stamp (finish s now ip xs ys e) = now
stamp (shut s) = 0

-- Every step of the run happened before a time.
abbrev pub IsBefore : {g : Platform} {s t : System} → Time → Reach g s t → Type 0
IsBefore until here = Unit
IsBefore until (next r st) = IsBefore until r × (stamp st < until)

-- The address is blocked until exactly that time, unless the blocker has been closed.
abbrev pub IsBlocked : String → Time → IpPendingBlocker → Type 0
IsBlocked k until b = (b.closed ≡ true) ⊎ (until_of (b.entries k) ≡ until)

entry_at :
    (o : Option PendingEntry) (until now : Time)
    → until_of o ≡ until
    → now < until
    → (e : PendingEntry) × (o ≡ some e) × (e.auto_blocked_until ≡ until)
entry_at none until now h lt = absurd (omega arith)
entry_at (some e) until now h lt = (e, refl, h)

enter_locked-IsBlocked :
    (c : Bool) (now : Time) (ip k : String) (b : IpPendingBlocker) (until : Time)
    → b.closed ≡ c
    → now < until
    → IsBlocked k until b
    → IsBlocked k until (enter_locked c now ip b).0
unfolding enter_locked
enter_locked-IsBlocked true now ip k b until e lt h = h
enter_locked-IsBlocked false now ip k b until e lt (inl gone) = absurd (ground arith)
enter_locked-IsBlocked false now ip k b until e lt (inr h) = elim (Bool-cases (str_eq ip k)) [
  | inl same ↦
      let is_k : ip ≡ k = (eq_iff ip k).0 same in
      let (entry, found, ends) = entry_at (b.entries k) until now h lt in
      let (_, _, kept) = enter_locked_blocked false now k entry b found (rw ends lt) in
      inr (rw is_k (ap until_of (unfold enter_locked in kept) ∙ ends))
  | inr other ↦
      let entry = expire_entry now (entry_of ((sweep now b).entries ip)) in
      inr (
        ap until_of (admit_other now ip k entry (sweep now b) other ∙ sweep-until now b k (rw h lt))
        ∙ h)
]

enter-IsBlocked :
    (g : Platform) (now : Time) (raw k : String) (b : IpPendingBlocker) (until : Time)
    → now < until
    → IsBlocked k until b
    → IsBlocked k until (enter g now raw b).0
unfolding enter enter_at
enter-IsBlocked g now raw k b until lt h = elim (Option-cases (canonical_ip g raw)) [
  | inl bad ↦ rw (bad, enter) h
  | inr (c, good) ↦ rw (good, enter) (enter_locked-IsBlocked b.closed now c k b until refl lt h)
]

release-IsBlocked :
    (now : Time) (ip k : String) (b : IpPendingBlocker) (until : Time)
    → now < until
    → IsBlocked k until b
    → IsBlocked k until (release now ip b)
unfolding release
release-IsBlocked now ip k b until lt h =
    ground (arith, eq_iff ip k, release_entry-until now (b.entries ip))

close-IsBlocked : (k : String) (b : IpPendingBlocker) (until : Time) → IsBlocked k until (close b)
unfolding close
close-IsBlocked k b until = ground arith

Reach-IsBlocked :
    {g : Platform} {s t : System} (k : String) (until : Time) (r : Reach g s t)
    → IsBefore until r
    → IsBlocked k until s.blocker
    → IsBlocked k until t.blocker
Reach-IsBlocked k until here early h = h
Reach-IsBlocked {g} k until (next r (request s now ip q e)) (early, lt) h =
    subst (λ (x : IpPendingBlocker × Bool × Option String). IsBlocked k until x.0) e
      (enter-IsBlocked g now ip k s.blocker until lt (Reach-IsBlocked k until r early h))
Reach-IsBlocked k until (next r (finish s now ip xs ys e)) (early, lt) h =
    release-IsBlocked now ip k s.blocker until lt (Reach-IsBlocked k until r early h)
Reach-IsBlocked k until (next r (shut s)) (early, lt) h = close-IsBlocked k s.blocker until

sweep_expired :
    (now : Time) (b : IpPendingBlocker) (k : String)
    → until_of (b.entries k) ≤ now
    → until_of ((sweep now b).entries k) ≤ now
unfolding sweep sweep_entry keep_entry expire_entry
sweep_expired now b k h = elim (Option-cases (b.entries k)) [
  | inl gone ↦ ground (arith)
  | inr (e, found) ↦ ground (arith)
]

expired :
    (now : Time) (o : Option PendingEntry)
    → until_of o ≤ now
    → (expire_entry now (entry_of o)).auto_blocked_until ≤ now
unfolding expire_entry entry_of
expired now none h = ground arith
expired now (some e) h = ground arith

admit_overflow :
    (now : Time) (ip : String) (e : PendingEntry) (b : IpPendingBlocker)
    → e.auto_blocked_until ≤ now
    → b.max_per_ip ≤ e.pending
    → let r = admit now ip e b in (r.1 ≡ true) × (until_of (r.0.entries ip) ≡ now + b.block_ttl)
unfolding admit
admit_overflow now ip e b h m = ground (arith, eq_refl ip)

sweep-limits :
    (now : Time) (b : IpPendingBlocker)
    → ((sweep now b).max_per_ip ≡ b.max_per_ip) × ((sweep now b).block_ttl ≡ b.block_ttl)
unfolding sweep
sweep-limits now b = ground arith

enter_locked_overflow :
    (now : Time) (ip : String) (b : IpPendingBlocker)
    → until_of (b.entries ip) ≤ now
    → b.max_per_ip ≤ pending_of (b.entries ip)
    → let r = enter_locked false now ip b in
      (r.1 ≡ true) × (until_of (r.0.entries ip) ≡ now + b.block_ttl)
unfolding enter_locked
enter_locked_overflow now ip b h m =
    let swept = sweep now b in
    let (limit, ttl) = sweep-limits now b in
    let (count, _, _) = sweep-pending now b ip in
    let e = entry_of (swept.entries ip) in
    let (turned, ends) =
      admit_overflow now ip (expire_entry now e) swept
        (expired now (swept.entries ip) (sweep_expired now b ip h))
        (omega
          (arith, limit, count, expire_entry-pending now e, entry_of-pending (swept.entries ip))) in
    (turned, omega (arith, ends, ttl))

enter_at-blocked_or_closed :
    (now : Time) (k : String) (b : IpPendingBlocker) (until : Time)
    → now < until
    → IsBlocked k until b
    → ((enter_at now k b).1 ≡ true) × ((enter_at now k b).2 ≡ none)
unfolding enter_at
enter_at-blocked_or_closed now k b until lt (inl gone) =
    rw gone (unfold enter_locked in (refl, refl))
enter_at-blocked_or_closed now k b until lt (inr h) =
    let (e, found, ends) = entry_at (b.entries k) until now h lt in
    let (turned, none_taken, _) = enter_locked_blocked b.closed now k e b found (rw ends lt) in
    (turned, none_taken)

enter_at_overflow :
    (now : Time) (ip : String) (b : IpPendingBlocker)
    → b.closed ≡ false
    → until_of (b.entries ip) ≤ now
    → b.max_per_ip ≤ pending_of (b.entries ip)
    → ((enter_at now ip b).1 ≡ true)
      × (until_of ((enter_at now ip b).0.entries ip) ≡ now + b.block_ttl)
unfolding enter_at
enter_at_overflow now ip b live h m =
    subst
      (λ c.
        ((enter_locked c now ip b).1 ≡ true)
        × (until_of ((enter_locked c now ip b).0.entries ip) ≡ now + b.block_ttl))
      (sym live) (enter_locked_overflow now ip b h m)

enter_canonical :
    (g : Platform) (now : Time) (raw c : String) (b : IpPendingBlocker)
    → canonical_ip g raw ≡ some c
    → enter g now raw b ≡ enter_at now c b
unfolding enter
enter_canonical g now raw c b good = rw (good, enter)

-- A request of an address that holds its limit of slots, with no block in force, is turned away and
-- blocks the address for the configured time: whatever requests and releases come before the end,
-- the end of the block stays where it was set, and every request of the address, however its text
-- is written, is turned away and takes no slot.
pub overflow_blocks :
    {g : Platform} {t : System} (s : System) (now later : Time) (raw raw' c : String)
    → canonical_ip g raw ≡ some c
    → canonical_ip g raw' ≡ some c
    → s.blocker.closed ≡ false
    → until_of (s.blocker.entries c) ≤ now
    → s.blocker.max_per_ip ≤ pending_of (s.blocker.entries c)
    → (run : Reach g (record { blocker = (enter g now raw s.blocker).0; slots = s.slots }) t)
    → IsBefore (now + s.blocker.block_ttl) run
    → later < now + s.blocker.block_ttl
    → ((enter g now raw s.blocker).1 ≡ true)
      × IsBlocked c (now + s.blocker.block_ttl) t.blocker
      × ((enter g later raw' t.blocker).1 ≡ true)
      × ((enter g later raw' t.blocker).2 ≡ none)
overflow_blocks {g} {t} s now later raw raw' c good good' live idle full run early lt =
    let until = now + s.blocker.block_ttl in
    let now_at = enter_canonical g now raw c s.blocker good in
    let later_at = enter_canonical g later raw' c t.blocker good' in
    let (turned, ends) = enter_at_overflow now c s.blocker live idle full in
    let blocked =
      Reach-IsBlocked c until run early (inr (ap (λ r. until_of (r.0.entries c)) now_at ∙ ends)) in
    let (again, no_slot) = enter_at-blocked_or_closed later c t.blocker until lt blocked in
    (
      ap (λ r. r.1) now_at ∙ turned,
      blocked,
      ap (λ r. r.1) later_at ∙ again,
      ap (λ r. r.2) later_at ∙ no_slot,
    )
