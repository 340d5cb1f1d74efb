-- ===== src/Risk/Pending.antt =====
-- internal/risk/pending.go. A time.Time is the number of nanoseconds since the zero Time, and `now`
-- is an argument of the operations. The map of entries is a function. The release closure that Enter
-- returns is the address whose slot it frees, if it frees one.
pub mod Slots
pub mod Blocking
pub mod Returned
use hustmirrors_waf_backend.Base.{
  ℕ, ◌+◌, ◌-◌, ◌*◌, ◌≡◌, String, Bool, true, false, not, ◌&&◌, ◌||◌, Option, none, some, ltb, leb,
  ◌==◌, str_eq, if◌then◌else◌, is_empty,
}
use hustmirrors_waf_backend.Base.Int.{ℤ, pos, pos_part, ltb_ℤ, leb_ℤ}
use hustmirrors_waf_backend.Platform.{Platform, Addr, unmap, trim_space, has_infix}

abbrev pub Time : Type 0
Time = ℕ

pub record PendingEntry : Type 0 where
  pub pending : ℕ
  pub auto_blocked_until : Time

abbrev pub Entries : Type 0
Entries = String → Option PendingEntry

pub record IpPendingBlocker : Type 0 where
  pub max_per_ip : ℕ
  pub block_ttl : ℕ
  pub entries : Entries
  pub closed : Bool
  pub last_sweep : Time
  -- how often the hook onAutoBlock has been called
  pub auto_blocks : ℕ

abbrev pub second : ℕ
second = 1000000000

abbrev pub pending_sweep_interval : ℕ
pending_sweep_interval = 30 * second

unfoldable pub new_ip_pending_blocker : ℤ → ℤ → IpPendingBlocker
new_ip_pending_blocker max_per_ip block_ttl = record {
  max_per_ip = if ltb_ℤ max_per_ip (pos 1) then 1 else pos_part max_per_ip;
  block_ttl = if leb_ℤ block_ttl (pos 0) then 3600 * second else pos_part block_ttl;
  entries = λ _. none;
  closed = false;
  last_sweep = 0;
  auto_blocks = 0;
}

-- The zero value that a lookup of a missing key gives.
unfoldable pub entry_of : Option PendingEntry → PendingEntry
entry_of none = record { pending = 0; auto_blocked_until = 0 }
entry_of (some e) = e

unfoldable pub put : String → Option PendingEntry → Entries → Entries
put ip e entries k = if str_eq ip k then e else entries k

unfoldable pub blocked_at : Time → PendingEntry → Bool
blocked_at now e = ltb now e.auto_blocked_until

unfoldable pub expire_entry : Time → PendingEntry → PendingEntry
expire_entry now e =
    if not (e.auto_blocked_until == 0) && not (ltb now e.auto_blocked_until)
    then record e { auto_blocked_until = 0 }
    else e

-- An entry with no slot taken and no block is deleted.
unfoldable pub keep_entry : Time → PendingEntry → Option PendingEntry
unfolding blocked_at
keep_entry now e = if e.pending == 0 && not (blocked_at now e) then none else some e

unfoldable pub sweep_entry : Time → Option PendingEntry → Option PendingEntry
unfolding keep_entry expire_entry
sweep_entry now none = none
sweep_entry now (some e) = keep_entry now (expire_entry now e)

unfoldable pub sweep : Time → IpPendingBlocker → IpPendingBlocker
unfolding sweep_entry
sweep now b =
    if not (b.last_sweep == 0) && ltb now (b.last_sweep + pending_sweep_interval)
    then b
    else record b { last_sweep = now; entries = λ ip. sweep_entry now (b.entries ip) }

-- Enter for an entry whose expired block has been cleared: the new blocker, whether the request is
-- turned away, and the slot that was taken.
unfoldable pub admit :
    Time → String → PendingEntry → IpPendingBlocker → IpPendingBlocker × Bool × Option String
unfolding blocked_at put
admit now ip e b =
    if blocked_at now e
    then (record b { entries = put ip (some e) b.entries }, true, none)
    else if leb b.max_per_ip e.pending
    then (
      record b {
        entries = put ip (some (record e { auto_blocked_until = now + b.block_ttl })) b.entries;
        auto_blocks = b.auto_blocks + 1;
      },
      true,
      none,
    )
    else (
      record b { entries = put ip (some (record e { pending = e.pending + 1 })) b.entries },
      false,
      some ip,
    )

-- The rest of Enter under the lock; the first argument says that the blocker is closed.
unfoldable pub enter_locked :
    Bool → Time → String → IpPendingBlocker → IpPendingBlocker × Bool × Option String
enter_locked true now ip b = (b, true, none)
enter_locked false now ip b =
    let swept = sweep now b in admit now ip (expire_entry now (entry_of (swept.entries ip))) swept

unfoldable pub enter_at : Time → String → IpPendingBlocker → IpPendingBlocker × Bool × Option String
unfolding enter_locked
enter_at now ip b = enter_locked b.closed now ip b

unfoldable pub release_entry : Time → Option PendingEntry → Option PendingEntry
unfolding keep_entry expire_entry
release_entry now none = none
release_entry now (some e) =
    keep_entry now
      (expire_entry now (if ltb 0 e.pending then record e { pending = e.pending - 1 } else e))

unfoldable pub release : Time → String → IpPendingBlocker → IpPendingBlocker
unfolding release_entry put
release now ip b =
    if b.closed
    then b
    else record b { entries = put ip (release_entry now (b.entries ip)) b.entries }

unfoldable pub close : IpPendingBlocker → IpPendingBlocker
close b = if b.closed then b else record b { closed = true; entries = λ _. none }

module _ (g : Platform) where
  unfoldable pub canonical_ip : String → Option String
  canonical_ip ip =
      let s = trim_space ip in
      if is_empty s || has_infix s "/"
      then none
      else elim (g.parse_addr s) [ none ↦ none | some a ↦ some (g.addr_string (unmap a)) ]

  unfoldable pub enter : Time → String → IpPendingBlocker → IpPendingBlocker × Bool × Option String
  unfolding enter_at
  enter now ip b = elim (canonical_ip ip) [ none ↦ (b, false, none) | some c ↦ enter_at now c b ]
