-- ===== src/Risk/Pending/Returned.antt =====
-- internal/risk/pending.go: one Enter, and the release of the slot that it takes.
use hustmirrors_waf_backend.Base.{
  ℕ, ◌+◌, ◌≡◌, refl, ap, ◌∙◌, inl, inr, String, Bool, true, false, Option, none, some, leb, str_eq,
  if◌then◌else◌, arith, eq_iff, Option-cases,
}
use hustmirrors_waf_backend.Platform.{Platform}
use hustmirrors_waf_backend.Risk.Pending.{
  Time, PendingEntry, IpPendingBlocker, entry_of, expire_entry, sweep, admit, enter_locked,
  enter_at, release, canonical_ip, enter, put, blocked_at,
}
use hustmirrors_waf_backend.Risk.Pending.Slots.{
  pending_of, one_if, expire_entry-pending, entry_of-pending, sweep-pending, release_entry-pending,
}

-- How many requests of an address a blocker counts.
abbrev pub count_of : String → IpPendingBlocker → ℕ
count_of k b = pending_of (b.entries k)

-- What a slot adds to the count of an address.
abbrev pub share : String → Option String → ℕ
share k none = 0
share k (some ip) = one_if (str_eq ip k)

-- After an Enter: each count has grown by the slot, which only a request that is let in takes,
-- and a blocker that gives one is open.
abbrev pub IsTaken : IpPendingBlocker → IpPendingBlocker × Bool × Option String → String → Type 0
IsTaken b (b', blocked, none) k = count_of k b' ≡ count_of k b
IsTaken b (b', true, some ip) k = ⊥
IsTaken b (b', false, some ip) k =
    (count_of k b' ≡ count_of k b + one_if (str_eq ip k)) × (b'.closed ≡ false)

either_IsTaken :
    (c : Bool) (b : IpPendingBlocker) (x y : IpPendingBlocker × Bool × Option String) (k : String)
    → IsTaken b x k
    → IsTaken b y k
    → IsTaken b (if c then x else y) k
either_IsTaken true b x y k h j = h
either_IsTaken false b x y k h j = j

same_count :
    (ip k : String) (e : PendingEntry) (s b : IpPendingBlocker)
    → e.pending ≡ count_of ip b
    → count_of k s ≡ count_of k b
    → pending_of (if str_eq ip k then some e else s.entries k) ≡ count_of k b
same_count ip k e s b he hk = ground (arith, eq_iff ip k)

one_more :
    (ip k : String) (e : PendingEntry) (s b : IpPendingBlocker)
    → e.pending ≡ count_of ip b + 1
    → count_of k s ≡ count_of k b
    → pending_of (if str_eq ip k then some e else s.entries k) ≡ count_of k b + one_if (str_eq ip k)
one_more ip k e s b he hk = ground (arith, eq_iff ip k)

admit-IsTaken :
    (now : Time) (ip k : String) (e : PendingEntry) (s b : IpPendingBlocker)
    → e.pending ≡ count_of ip b
    → count_of k s ≡ count_of k b
    → s.closed ≡ false
    → IsTaken b (admit now ip e s) k
unfolding admit put
admit-IsTaken now ip k e s b he hk hc =
    let third : IpPendingBlocker × Bool × Option String = (
      record s { entries = put ip (some (record e { pending = e.pending + 1 })) s.entries },
      false,
      some ip,
    ) in
    let taken : IsTaken b third k =
      (one_more ip k (record e { pending = e.pending + 1 }) s b (ap (λ n. n + 1) he) hk, hc) in
    either_IsTaken (blocked_at now e) b _ _ k (same_count ip k e s b he hk) (
      either_IsTaken (leb s.max_per_ip e.pending) b _ third k
        (same_count ip k (record e { auto_blocked_until = now + s.block_ttl }) s b he hk) taken)

enter_locked-IsTaken :
    (c : Bool) (now : Time) (ip k : String) (b : IpPendingBlocker)
    → b.closed ≡ c
    → IsTaken b (enter_locked c now ip b) k
unfolding enter_locked
enter_locked-IsTaken true now ip k b h = refl
enter_locked-IsTaken false now ip k b h =
    let swept = sweep now b in
    let (at_ip, closed, _) = sweep-pending now b ip in
    let (at_k, _, _) = sweep-pending now b k in
    let entry = entry_of (swept.entries ip) in
    admit-IsTaken now ip k (expire_entry now entry) swept b
      (expire_entry-pending now entry ∙ entry_of-pending (swept.entries ip) ∙ at_ip) at_k
      (closed ∙ h)

pub enter-IsTaken :
    (g : Platform) (now : Time) (ip k : String) (b : IpPendingBlocker)
    → IsTaken b (enter g now ip b) k
unfolding enter enter_at
enter-IsTaken g now ip k b = elim (Option-cases (canonical_ip g ip)) [
  | inl bad ↦ rw (bad, enter) refl
  | inr (c, good) ↦ rw (good, enter) (enter_locked-IsTaken b.closed now c k b refl)
]

-- The release of one slot takes back what the slot has added.
pub release-count_of :
    (now : Time) (ip k : String) (n : ℕ) (b : IpPendingBlocker)
    → b.closed ≡ false
    → count_of k b ≡ n + one_if (str_eq ip k)
    → count_of k (release now ip b) ≡ n
unfolding release
release-count_of now ip k n b open_ h =
    ground (arith, eq_iff ip k, release_entry-pending now (b.entries ip))
