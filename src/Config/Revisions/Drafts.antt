-- ===== src/Config/Revisions/Drafts.antt =====
-- The draft of internal/configstore/store.go, over any sequence of the operations that change the store.
use mathlib.Core.Path.{subst}
use hustmirrors_waf_backend.Base.{
  ℕ, ◌≡◌, ◌≤◌, refl, sym, ap, String, Bool, true, false, not, ◌&&◌, Option, none, some, ◌==◌,
  str_eq, Fallible, ok, err, ◌>>◌, require, require->>-eq-ok, require-eq-ok, if◌then◌else◌, arith,
  leb, leb→le, ==_iff, is_empty,
}
use Prim.Native.String
use hustmirrors_waf_backend.Config.Files.{FileOps}
use hustmirrors_waf_backend.Config.Files.Atomic.{AreFiles}
use hustmirrors_waf_backend.Config.Store.{
  Store, Draft, ApplyRequest, ApplyResult, Encoding, ConfigError, unmanaged, too_large, conflict,
  draft_conflict, next_revision, max_draft_bytes, draft_matches, save_checks, base_or_current,
  draft_revision, new_draft, saved, save_draft, draft_at, get_draft, mark_at, mark_draft_validated,
  discard_at, discard_draft,
}
use hustmirrors_waf_backend.Config.Revisions.{apply, applied_store}
use hustmirrors_waf_backend.Config.Revisions.Apply.{Outcome, apply-Outcome}

-- A draft is of the store's own revision, is of at most the permitted size, and only a managed store has one.
abbrev pub IsOfStore : Option Draft → Store → Type 0
IsOfStore none s = Unit {0}
IsOfStore (some d) s =
    (s.managed ≡ true) × (d.base_revision ≡ s.revision) × (String.len d.raw ≤ max_draft_bytes)

abbrev pub IsCurrent : Store → Type 0
IsCurrent s = IsOfStore s.draft s

module _ {F : Type 0} (ops : FileOps F) (enc : Encoding) where
  -- One call of an operation, with any arguments and at any time.
  pub data Step (s : Store) : Store → Type 0 where
    save :
        (now : ℕ) (fresh : String) (base : ℕ) (id : String) (expected : ℕ) (raw : String)
        → Step s (save_draft now fresh base id expected raw s).0
    get : (now : ℕ) (id : String) → Step s (get_draft now id s).0
    validated :
        (id : String) (revision diff : ℕ) → Step s (mark_draft_validated id revision diff s).0
    discard : (id : String) (expected : ℕ) → Step s (discard_draft id expected s).0
    apply_request : (now : ℕ) (req : ApplyRequest) (f : F) → Step s (apply ops enc now req s f).0

  pub data Reach (s : Store) : Store → Type 0 where
    start : Reach s s
    next : {t u : Store} → Reach s t → Step t u → Reach s u

save_checks-facts :
    (s : Store) (base : ℕ) (id : String) (expected : ℕ) (raw : String)
    → save_checks s base id expected raw ≡ ok tt
    → (s.managed ≡ true)
      × (String.len raw ≤ max_draft_bytes)
      × (base ≡ s.revision)
      × (draft_matches s.draft id expected ≡ ok tt)
unfolding save_checks
save_checks-facts s base id expected raw h =
    let (m, h1) = require->>-eq-ok _ _ _ h in
    let (l, h2) = require->>-eq-ok _ _ _ h1 in
    let (c, h3) = require->>-eq-ok _ _ _ h2 in (m, leb→le _ _ l, (==_iff _ _).0 c, h3)

saved-IsCurrent :
    (d : Draft) (s : Store) (r : Fallible ConfigError (Unit {0}))
    → IsCurrent s
    → (r ≡ ok tt → IsOfStore (some d) s)
    → IsCurrent (saved d s r).0
unfolding saved
saved-IsCurrent d s (err e) i h = i
saved-IsCurrent d s (ok tt) i h = h refl

save_draft-IsCurrent :
    (now : ℕ) (fresh : String) (base : ℕ) (id : String) (expected : ℕ) (raw : String) (s : Store)
    → IsCurrent s
    → IsCurrent (save_draft now fresh base id expected raw s).0
unfolding save_draft new_draft
save_draft-IsCurrent now fresh base id expected raw s i =
    let checked = base_or_current base s in
    saved-IsCurrent (new_draft now fresh checked id raw s) s (save_checks s checked id expected raw)
      i λ h. let (m, l, same, _) = save_checks-facts s checked id expected raw h in (m, same, l)

either_IsCurrent :
    {A : Type 0} (b : Bool) (x y : Store × A)
    → IsCurrent x.0
    → IsCurrent y.0
    → IsCurrent (if b then x else y).0
either_IsCurrent true x y p q = p
either_IsCurrent false x y p q = q

draft_at-IsCurrent :
    (now : ℕ) (id : String) (o : Option Draft) (s : Store)
    → IsCurrent s
    → IsCurrent (draft_at now id o s).0
unfolding draft_at
draft_at-IsCurrent now id none s i = i
draft_at-IsCurrent now id (some d) s i =
    let gone : IsCurrent (record s { draft = none }) = tt in search either_IsCurrent

mark_at-IsCurrent :
    (id : String) (n diff : ℕ) (o : Option Draft) (s : Store)
    → s.draft ≡ o
    → IsOfStore o s
    → IsCurrent (mark_at id n diff o s).0
unfolding mark_at
mark_at-IsCurrent id n diff none s e i = subst (λ o. IsOfStore o s) (sym e) i
mark_at-IsCurrent id n diff (some d) s e i =
    let kept : IsCurrent s = subst (λ o. IsOfStore o s) (sym e) i in search either_IsCurrent

discard_at-IsCurrent :
    (id : String) (expected : ℕ) (o : Option Draft) (s : Store)
    → IsCurrent s
    → IsCurrent (discard_at id expected o s).0
unfolding discard_at
discard_at-IsCurrent id expected none s i = i
discard_at-IsCurrent id expected (some d) s i =
    let gone : IsCurrent (record s { draft = none }) = tt in search either_IsCurrent

discard_draft-IsCurrent :
    (id : String) (expected : ℕ) (s : Store)
    → IsCurrent s
    → IsCurrent (discard_draft id expected s).0
unfolding discard_draft
discard_draft-IsCurrent id expected s i =
    either_IsCurrent s.managed (discard_at id expected s.draft s) (s, err unmanaged)
      (discard_at-IsCurrent id expected s.draft s i) i

module _ {F : Type 0} (ops : FileOps F) (enc : Encoding) where
  Outcome-IsCurrent :
      (req : ApplyRequest) (s : Store) (f : F) (r : Store × F × Fallible ConfigError ApplyResult)
      → Outcome ops enc req s f r
      → IsCurrent s
      → IsCurrent r.0
  unfolding applied_store
  Outcome-IsCurrent req s f (s', f', err e) (same, _) i = subst IsCurrent (sym same) i
  Outcome-IsCurrent req s f (s', f', ok res) (_, _, new, _, _) i = subst IsCurrent (sym new) tt

  module _ (laws : AreFiles ops) where
    step_IsCurrent : {s t : Store} → Step ops enc s t → IsCurrent s → IsCurrent t
    unfolding get_draft mark_draft_validated
    step_IsCurrent (save now fresh base id expected raw) i =
        save_draft-IsCurrent now fresh base id expected raw _ i
    step_IsCurrent {s = s} (get now id) i = draft_at-IsCurrent now id s.draft s i
    step_IsCurrent {s = s} (validated id n diff) i = mark_at-IsCurrent id n diff s.draft s refl i
    step_IsCurrent (discard id expected) i = discard_draft-IsCurrent id expected _ i
    step_IsCurrent {s = s} (apply_request now req f) i =
        Outcome-IsCurrent req s f _ (apply-Outcome ops enc laws now req s f) i

    -- Whatever is called after the store is opened, in any order and at any times, a draft is of the
    -- revision that the store has, is of at most the permitted size, and only a managed store has one:
    -- an Apply, which moves the store to a new revision, leaves no draft of the old one.
    pub reach_IsCurrent : {s t : Store} → IsCurrent s → Reach ops enc s t → IsCurrent t
    reach_IsCurrent i start = i
    reach_IsCurrent i (next r step) = step_IsCurrent step (reach_IsCurrent i r)

next_revision_moves : (n : ℕ) → (n == next_revision n) ≡ false
next_revision_moves n = ground arith

-- What a save that succeeds leaves, as the next save finds it.
saved-draft :
    (d : Draft) (s t : Store) (r : Fallible ConfigError (Unit {0})) (e : Draft)
    → saved d s r ≡ (t, ok e)
    → (t.draft ≡ some d) × (r ≡ ok tt)
unfolding saved
saved-draft d s t (err x) e h = cc
saved-draft d s t (ok tt) e h = (ap (λ p. p.0.draft) (sym h), refl)

stale_number :
    (a b : Bool) (n m k : ℕ) → (a && (b && n == m)) ≡ true → k ≡ next_revision m → (n == k) ≡ false
stale_number true true n m k h e = ground arith
stale_number true false n m k h e = cc
stale_number false b n m k h e = cc

require_last_false :
    (a b c : Bool) (e : ConfigError) → c ≡ false → require (a && (b && c)) e ≡ err e
require_last_false true true c e h = ap (λ t. require t e) h
require_last_false true false c e h = refl
require_last_false false b c e h = refl

-- The draft that a save has matched, once it is replaced by its successor.
stale_match :
    (o : Option Draft) (id : String) (expected : ℕ) (d : Draft)
    → draft_matches o id expected ≡ ok tt
    → d.revision ≡ draft_revision o
    → draft_matches (some d) id expected ≡ err draft_conflict
unfolding draft_matches draft_revision
stale_match none id expected d h e = let x = require-eq-ok _ _ h in rw x refl
stale_match (some c) id expected d h e =
    require_last_false (not (is_empty id)) (str_eq id d.id) (expected == d.revision) draft_conflict
      (stale_number (not (is_empty id)) (str_eq id c.id) expected c.revision d.revision
        (require-eq-ok _ _ h) e)

>>_err :
    {A : Type 0} (c : Fallible ConfigError (Unit {0})) (k : Fallible ConfigError A)
    (e : ConfigError)
    → k ≡ err e
    → (x : ConfigError) × ((c >> k) ≡ err x)
>>_err (ok tt) k e h = (e, h)
>>_err (err x) k e h = (x, refl)

stale_checks :
    (s : Store) (base : ℕ) (id : String) (expected : ℕ) (raw : String) (e : ConfigError)
    → draft_matches s.draft id expected ≡ err e
    → (x : ConfigError) × (save_checks s base id expected raw ≡ err x)
unfolding save_checks
stale_checks s base id expected raw e h =
    let (e1, h1) = >>_err (require (base == s.revision) conflict) _ e h in
    let (e2, h2) = >>_err (require (leb (String.len raw) max_draft_bytes) too_large) _ e1 h1 in
    >>_err (require s.managed unmanaged) _ e2 h2

-- No update of the draft is lost: when two editors save over the same draft, or both start one, the
-- save that comes second is refused and changes nothing, whatever it brings.
pub save_draft-save_draft :
    (now now' : ℕ) (fresh fresh' : String) (base base' : ℕ) (id : String) (expected : ℕ)
    (raw raw' : String) (s t : Store) (d : Draft)
    → save_draft now fresh base id expected raw s ≡ (t, ok d)
    → (e : ConfigError) × (save_draft now' fresh' base' id expected raw' t ≡ (t, err e))
unfolding save_draft saved new_draft
save_draft-save_draft now now' fresh fresh' base base' id expected raw raw' s t d h =
    let checked = base_or_current base s in
    let checked' = base_or_current base' t in
    let (left, passed) =
      saved-draft (new_draft now fresh checked id raw s) s t (save_checks s checked id expected raw)
        d h in
    let (_, _, _, matched) = save_checks-facts s checked id expected raw passed in
    let again =
      stale_match s.draft id expected (new_draft now fresh checked id raw s) matched refl in
    let (e, refused) = stale_checks t checked' id expected raw' draft_conflict (rw left again) in
    (e, ap (saved (new_draft now' fresh' checked' id raw' t) t) refused)
