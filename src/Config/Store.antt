-- ===== src/Config/Store.antt =====
-- internal/configstore/store.go. The bytes of a configuration are a text, a time is a number of
-- nanoseconds, and `now` is an argument. The mutex makes each operation one step; an operation on files
-- takes and returns a state of the file system. A uint64 wraps around.
use Prim.Native.String
use hustmirrors_waf_backend.Base.{
  ℕ, zero, suc, ◌+◌, ◌-◌, ◌*◌, ◌%◌, ◌^◌, String, Bool, true, false, not, ◌&&◌, Option, none, some,
  List, ltb, leb, ◌==◌, str_eq, if◌then◌else◌, is_empty, Fallible, ok, err, ◌>>◌, require,
}
use hustmirrors_waf_backend.Base.Int.{ℤ, pos}
use hustmirrors_waf_backend.Pow.Canonical.{decimal}
use hustmirrors_waf_backend.Config.Files.{FileName, entry}

pub data ConfigError : Type 0 where
  unmanaged conflict draft_not_found draft_expired draft_conflict revision_not_found : ConfigError
  too_large : ConfigError
  -- an error of the file system or of an encoding
  io : ConfigError

pub record Draft : Type 0 where
  pub id : String
  pub revision : ℕ
  pub base_revision : ℕ
  pub raw : String
  pub updated_at : ℕ
  pub validated : Bool
  pub diff_revision : ℕ

pub record RevisionMeta : Type 0 where
  pub revision : ℕ
  pub parent_revision : ℕ
  pub action : String
  pub actor : String
  pub reason : String
  pub rollback_target : ℕ
  pub changed : ℤ
  pub danger : String
  pub restart_required : Bool
  pub created_at : ℕ

pub record Revision : Type 0 where
  pub meta : RevisionMeta
  pub raw : String

pub record ApplyRequest : Type 0 where
  pub raw : String
  pub expected_revision : ℕ
  pub actor : String
  pub reason : String
  pub changed : ℤ
  pub danger : String
  pub restart_required : Bool
  pub action : String
  pub rollback_target : ℕ

pub record ApplyResult : Type 0 where
  pub revision : ℕ
  pub previous : ℕ
  pub meta : RevisionMeta
  pub restart_required : Bool

pub record Store : Type 0 where
  pub managed : Bool
  pub raw : String
  pub revision : ℕ
  pub updated : ℕ
  pub draft : Option Draft
  pub pending_restart : Bool

-- encoding/json on the metadata, and package sort.
pub record Encoding : Type 0 where
  pub marshal : RevisionMeta → Option String
  pub unmarshal : String → Option RevisionMeta
  pub sort_newest : List RevisionMeta → List RevisionMeta

abbrev pub max_draft_bytes : ℕ
max_draft_bytes = 128 * 1024

abbrev pub day : ℕ
day = 86400000000000

-- `revision + 1` of a uint64.
abbrev pub next_revision : ℕ → ℕ
next_revision n = (n + 1) % 2 ^ 64

unfoldable pub zeros : ℕ → String
zeros zero = ""
zeros (suc n) = String.◌++◌ "0" (zeros n)

-- The format "%06d".
unfoldable pub revision_name : ℕ → String
unfolding zeros decimal
revision_name revision =
    let digits = decimal (pos revision) in
    String.◌++◌ "revision-" (String.◌++◌ (zeros (6 - String.len digits)) digits)

abbrev pub yaml_of : ℕ → FileName
yaml_of revision = entry (String.◌++◌ (revision_name revision) ".yaml")

abbrev pub json_of : ℕ → FileName
json_of revision = entry (String.◌++◌ (revision_name revision) ".json")

-- SaveDraft

unfoldable pub draft_matches : Option Draft → String → ℕ → Fallible ConfigError (Unit {0})
draft_matches none id expected = require (is_empty id) draft_not_found
draft_matches (some d) id expected =
    require (not (is_empty id) && (str_eq id d.id && expected == d.revision)) draft_conflict

-- The base revision of a call; 0 stands for the revision of the store.
unfoldable pub base_or_current : ℕ → Store → ℕ
base_or_current base s = if base == 0 then s.revision else base

-- `base` is what base_or_current gives.
unfoldable pub save_checks : Store → ℕ → String → ℕ → String → Fallible ConfigError (Unit {0})
unfolding draft_matches
save_checks s base id expected raw = do
  require s.managed unmanaged
  require (leb (String.len raw) max_draft_bytes) too_large
  require (base == s.revision) conflict
  draft_matches s.draft id expected

unfoldable pub draft_revision : Option Draft → ℕ
draft_revision none = 1
draft_revision (some d) = next_revision d.revision

-- The draft that is saved; `fresh` is a random id.
unfoldable pub new_draft : ℕ → String → ℕ → String → String → Store → Draft
unfolding draft_revision
new_draft now fresh base id raw s = record {
  id = if is_empty id then fresh else id;
  revision = draft_revision s.draft;
  base_revision = base;
  raw = raw;
  updated_at = now;
  validated = false;
  diff_revision = 0;
}

unfoldable pub saved :
    Draft → Store → Fallible ConfigError (Unit {0}) → Store × Fallible ConfigError Draft
saved d s (err e) = (s, err e)
saved d s (ok u) = (record s { draft = some d }, ok d)

unfoldable pub save_draft :
    ℕ → String → ℕ → String → ℕ → String → Store → Store × Fallible ConfigError Draft
unfolding saved new_draft save_checks base_or_current
save_draft now fresh base id expected raw s =
    let checked = base_or_current base s in
    saved (new_draft now fresh checked id raw s) s (save_checks s checked id expected raw)

-- The other operations on the draft

unfoldable pub draft_at : ℕ → String → Option Draft → Store → Store × Fallible ConfigError Draft
draft_at now id none s = (s, err draft_not_found)
draft_at now id (some d) s =
    if not (is_empty id) && not (str_eq d.id id)
    then (s, err draft_not_found)
    else if ltb day (now - d.updated_at)
    then (record s { draft = none }, err draft_expired)
    else (s, ok d)

unfoldable pub get_draft : ℕ → String → Store → Store × Fallible ConfigError Draft
unfolding draft_at
get_draft now id s = draft_at now id s.draft s

unfoldable pub mark_at :
    String → ℕ → ℕ → Option Draft → Store → Store × Fallible ConfigError (Unit {0})
mark_at id revision diff_revision none s = (s, err draft_not_found)
mark_at id revision diff_revision (some d) s =
    if not (str_eq d.id id)
    then (s, err draft_not_found)
    else if not (d.revision == revision)
    then (s, err draft_conflict)
    else (
      record s { draft = some (record d { validated = true; diff_revision = diff_revision }) },
      ok tt,
    )

unfoldable pub mark_draft_validated :
    String → ℕ → ℕ → Store → Store × Fallible ConfigError (Unit {0})
unfolding mark_at
mark_draft_validated id revision diff_revision s = mark_at id revision diff_revision s.draft s

unfoldable pub discard_at :
    String → ℕ → Option Draft → Store → Store × Fallible ConfigError (Unit {0})
discard_at id expected none s = (s, err draft_not_found)
discard_at id expected (some d) s =
    if not (str_eq d.id id)
    then (s, err draft_not_found)
    else if not (expected == 0) && not (d.revision == expected)
    then (s, err draft_conflict)
    else (record s { draft = none }, ok tt)

unfoldable pub discard_draft : String → ℕ → Store → Store × Fallible ConfigError (Unit {0})
unfolding discard_at
discard_draft id expected s =
    if s.managed then discard_at id expected s.draft s else (s, err unmanaged)
