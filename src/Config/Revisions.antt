-- ===== src/Config/Revisions.antt =====
-- internal/configstore/store.go: the operations that read and write the file and the history directory.
-- They take and return a store and a state of the file system.
pub mod Written
pub mod Apply
pub mod Drafts
use Prim.Native.String
use hustmirrors_waf_backend.Base.{
  ℕ, zero, suc, ◌+◌, String, Bool, true, false, not, ◌&&◌, ◌||◌, Option, none, some, List, [], ◌∷◌,
  ltb, leb, ◌==◌, str_eq, if◌then◌else◌, is_empty, Fallible, ok, err, ◌>>=◌, ◌>>◌, require,
}
use hustmirrors_waf_backend.Base.Int.{ℤ, pos, ltb_ℤ, leb_ℤ, pos_part}
use hustmirrors_waf_backend.Platform.{trim_space, has_suffix}
use hustmirrors_waf_backend.Config.Files.{FileName, source, entry, FileOps, atomic_replace}
use hustmirrors_waf_backend.Config.Store.{
  Store, Draft, RevisionMeta, Revision, ApplyRequest, ApplyResult, Encoding, ConfigError, unmanaged,
  conflict, revision_not_found, too_large, io, max_draft_bytes, next_revision, yaml_of, json_of,
}

unfoldable pub take_metas : ℕ → List RevisionMeta → List RevisionMeta
take_metas zero ms = []
take_metas (suc n) [] = []
take_metas (suc n) (m ∷ ms) = m ∷ take_metas n ms

unfoldable pub limit_of : ℤ → ℕ
limit_of limit = if leb_ℤ limit (pos 0) || ltb_ℤ (pos 200) limit then 50 else pos_part limit

module _ {F : Type 0} (ops : FileOps F) (enc : Encoding) where
  unfoldable pub remove_revision : ℕ → F → F
  remove_revision revision f = ops.remove (json_of revision) (ops.remove (yaml_of revision) f)

  -- The last file of a revision, with the clean-up where it fails.
  unfoldable pub written_json : ℕ → F × Bool → F × Bool
  unfolding remove_revision
  written_json revision (f, true) = (f, true)
  written_json revision (f, false) = (remove_revision revision f, false)

  unfoldable pub write_meta : RevisionMeta → Option String → F × Bool → F × Bool
  unfolding written_json remove_revision
  write_meta meta text (f, false) = (f, false)
  write_meta meta none (f, true) = (remove_revision meta.revision f, false)
  write_meta meta (some text) (f, true) =
      written_json meta.revision (atomic_replace ops (json_of meta.revision) text f)

  unfoldable pub write_yaml : RevisionMeta → String → F × Bool → F × Bool
  unfolding write_meta
  write_yaml meta raw (f, false) = (f, false)
  write_yaml meta raw (f, true) =
      write_meta meta (enc.marshal meta) (atomic_replace ops (yaml_of meta.revision) raw f)

  unfoldable pub write_revision : RevisionMeta → String → F → F × Bool
  unfolding write_yaml
  write_revision meta raw f = write_yaml meta raw (ops.mkdir_all f)

  unfoldable pub check_external : Store → F → Fallible ConfigError (Unit {0})
  check_external s f = if not s.managed then err unmanaged else elim (ops.read source f) [
    | none ↦ err io
    | some raw ↦ require (str_eq raw s.raw) conflict
  ]

  unfoldable pub apply_checks : ApplyRequest → Store → F → Fallible ConfigError (Unit {0})
  unfolding check_external
  apply_checks req s f = do
    require s.managed unmanaged
    check_external s f
    require (req.expected_revision == 0 || req.expected_revision == s.revision) conflict
    require (leb (String.len req.raw) max_draft_bytes) too_large

  unfoldable pub apply_meta : ℕ → ApplyRequest → Store → RevisionMeta
  apply_meta now req s = record {
    revision = next_revision s.revision;
    parent_revision = s.revision;
    action = if is_empty req.action then "apply" else req.action;
    actor = req.actor;
    reason = req.reason;
    rollback_target = req.rollback_target;
    changed = req.changed;
    danger = req.danger;
    restart_required = req.restart_required;
    created_at = now;
  }

  -- The store after a successful Apply.
  unfoldable pub applied_store : RevisionMeta → String → Store → Store
  applied_store meta raw s = record s {
    raw = raw;
    revision = meta.revision;
    updated = meta.created_at;
    pending_restart = true;
    draft = none;
  }

  unfoldable pub applied :
      RevisionMeta → ApplyRequest → Store → F × Bool → Store × F × Fallible ConfigError ApplyResult
  unfolding applied_store remove_revision
  applied meta req s (f, false) = (s, remove_revision meta.revision f, err io)
  applied meta req s (f, true) = (
    applied_store meta req.raw s,
    f,
    ok (record {
      revision = meta.revision;
      previous = s.revision;
      meta = meta;
      restart_required = req.restart_required;
    }),
  )

  unfoldable pub recorded :
      RevisionMeta → ApplyRequest → Store → F × Bool → Store × F × Fallible ConfigError ApplyResult
  unfolding applied
  recorded meta req s (f, false) = (s, f, err io)
  recorded meta req s (f, true) = applied meta req s (atomic_replace ops source req.raw f)

  unfoldable pub checked_apply :
      ℕ
      → ApplyRequest
      → Store
      → F
      → Fallible ConfigError (Unit {0})
      → Store × F × Fallible ConfigError ApplyResult
  unfolding recorded apply_meta write_revision
  checked_apply now req s f (err e) = (s, f, err e)
  checked_apply now req s f (ok u) =
      recorded (apply_meta now req s) req s (write_revision (apply_meta now req s) req.raw f)

  unfoldable pub apply : ℕ → ApplyRequest → Store → F → Store × F × Fallible ConfigError ApplyResult
  unfolding checked_apply apply_checks
  apply now req s f = checked_apply now req s f (apply_checks req s f)

  unfoldable pub read_meta : FileName → F → Fallible ConfigError RevisionMeta
  read_meta name f = elim (ops.read name f) [
    | none ↦ err io
    | some text ↦ elim (enc.unmarshal text) [ none ↦ err io | some meta ↦ ok meta ]
  ]

  unfoldable pub read_yaml : ℕ → F → RevisionMeta → Fallible ConfigError Revision
  read_yaml revision f meta = elim (ops.read (yaml_of revision) f) [
    | none ↦ err io
    | some raw ↦ ok (record { meta = meta; raw = raw })
  ]

  -- os.IsNotExist of the error of readMeta.
  unfoldable pub has_no_meta : ℕ → F → Bool
  has_no_meta revision f = elim (ops.read (json_of revision) f) [
    | none ↦ ops.is_missing (json_of revision) f
    | some text ↦ false
  ]

  unfoldable pub history_get : ℕ → Store → F → Fallible ConfigError Revision
  unfolding read_meta read_yaml has_no_meta
  history_get revision s f = do
    require (s.managed && not (revision == 0)) revision_not_found
    require (not (has_no_meta revision f)) revision_not_found
    meta ← read_meta (json_of revision) f
    read_yaml revision f meta

  unfoldable pub read_metas : List String → F → Fallible ConfigError (List RevisionMeta)
  unfolding read_meta
  read_metas [] f = ok []
  read_metas (name ∷ names) f =
      let rest = read_metas names f in
      if not (has_suffix name ".json")
      then rest
      else do meta ← read_meta (entry name) f; metas ← rest; ok (meta ∷ metas)

  unfoldable pub read_history : F → Fallible ConfigError (List RevisionMeta)
  unfolding read_metas
  read_history f = elim (ops.read_dir f) [ none ↦ err io | some names ↦ read_metas names f ]

  unfoldable pub history : ℤ → Store → F → Fallible ConfigError (List RevisionMeta)
  unfolding read_history
  history limit s f = do
    require s.managed unmanaged
    metas ← read_history f
    ok (take_metas (limit_of limit) (enc.sort_newest metas))

  -- The loop of loadHistory: the newest revision, and when it was made.
  unfoldable pub newest : List RevisionMeta → Store → Store
  newest [] s = s
  newest (m ∷ ms) s = newest ms (
      if ltb s.revision m.revision
      then record s { revision = m.revision; updated = m.created_at }
      else s)

  unfoldable pub fresh_store : String → Bool → Store
  fresh_store raw managed = record {
    managed = managed;
    raw = raw;
    revision = 0;
    updated = 0;
    draft = none;
    pending_restart = false;
  }

  -- The metadata that New writes, for a first revision or for an external change.
  unfoldable pub opening_meta : ℕ → ℕ → ℕ → String → RevisionMeta
  opening_meta now revision parent action = record {
    revision = revision;
    parent_revision = parent;
    action = action;
    actor = "";
    reason = "";
    rollback_target = 0;
    changed = pos 0;
    danger = "";
    restart_required = false;
    created_at = now;
  }

  unfoldable pub opened : RevisionMeta → Store → F × Bool → F × Fallible ConfigError Store
  opened meta s (f, false) = (f, err io)
  opened meta s (f, true) =
      (f, ok (record s { revision = meta.revision; updated = meta.created_at }))

  -- After loadHistory. The two readings of the clock for a first revision are one.
  unfoldable pub open_at : ℕ → Bool → Store → F → F × Fallible ConfigError Store
  unfolding opened write_revision opening_meta
  open_at now true s f =
      let meta = opening_meta now 1 0 "bootstrap" in opened meta s (write_revision meta s.raw f)
  open_at now false s f = elim (ops.read (yaml_of s.revision) f) [
    | none ↦ (f, err io)
    | some latest ↦
        if str_eq latest s.raw
        then (f, ok s)
        else (let meta = opening_meta now (next_revision s.revision) s.revision "external" in
            opened meta s (write_revision meta s.raw f))
  ]

  unfoldable pub open_loaded :
      ℕ → String → F → Fallible ConfigError (List RevisionMeta) → F × Fallible ConfigError Store
  unfolding open_at newest fresh_store
  open_loaded now raw f (err e) = (f, err e)
  open_loaded now raw f (ok metas) =
      let s = newest metas (fresh_store raw true) in open_at now (s.revision == 0) s f

  unfoldable pub open_made : ℕ → String → F × Bool → F × Fallible ConfigError Store
  unfolding open_loaded read_history
  open_made now raw (f, false) = (f, err io)
  open_made now raw (f, true) = open_loaded now raw f (read_history f)

  unfoldable pub probed : ℕ → String → F × Bool → F × Fallible ConfigError Store
  unfolding open_made
  probed now raw (f, false) = (f, err io)
  probed now raw (f, true) = open_made now raw (ops.mkdir_all f)

  unfoldable pub new : ℕ → String → String → Bool → F → F × Fallible ConfigError Store
  unfolding probed fresh_store
  new now path raw managed f =
      if not managed
      then (f, ok (fresh_store raw false))
      else if is_empty (trim_space path)
      then (f, err unmanaged)
      else if not (ops.resolves path)
      then (f, err io)
      else if not (ops.is_writable f)
      then (f, err io)
      else probed now raw (ops.close_probe f)
