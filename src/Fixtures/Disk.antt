-- ===== src/Fixtures/Disk.antt =====
-- A disk in memory, for the tests of the configuration store, and an encoding of the metadata.
use hustmirrors_waf_backend.Base.{
  ◌≡◌, refl, sym, ap, ◌⊎◌, inl, inr, String, Bool, true, false, Option, none, some, [], str_eq,
  eq_iff, eq_refl, if◌then◌else◌, Bool-cases, ◌==◌, ==_iff, ◌&&◌,
}
use hustmirrors_waf_backend.Base.Int.{pos, eq_ℤ, eq_ℤ_iff}
use hustmirrors_waf_backend.Platform.{bool_eq}
use hustmirrors_waf_backend.Config.Files.{FileName, source, entry, FileOps}
use hustmirrors_waf_backend.Config.Files.Atomic.{AreFiles}
use hustmirrors_waf_backend.Config.Store.{Store, RevisionMeta, ApplyRequest, Encoding}

-- The named files, and the one temporary file.
pub record Disk : Type 0 where
  pub named : FileName → Option String
  pub temp : Option String

unfoldable pub name_eq : FileName → FileName → Bool
name_eq source source = true
name_eq source (entry b) = false
name_eq (entry a) source = false
name_eq (entry a) (entry b) = str_eq a b

unfoldable pub renamed_to : FileName → Disk → Option String → Disk × Bool
unfolding name_eq
renamed_to name f none = (f, false)
renamed_to name f (some text) =
    (record f { named = λ other. if name_eq other name then some text else f.named other }, true)

abbrev pub disk_ops : FileOps Disk
disk_ops = record {
  read = λ name f. f.named name;
  is_missing = λ name f. true;
  resolves = λ path. true;
  is_writable = λ f. true;
  close_probe = λ f. (f, true);
  read_dir = λ f. some [];
  mkdir_all = λ f. (f, true);
  create_temp = λ f. (f, some 0);
  chmod = λ t f. (f, true);
  write = λ t text f. (record f { temp = some text }, true);
  sync = λ t f. (f, true);
  close = λ t f. (f, true);
  rename = λ t name f. renamed_to name f f.temp;
  remove_temp = λ t f. f;
  remove =
      λ name f. record f { named = λ other. if name_eq other name then none else f.named other };
}

name_eq_refl : (n : FileName) → name_eq n n ≡ true
unfolding name_eq
name_eq_refl source = refl
name_eq_refl (entry a) = eq_refl a

name_eq-eq : (a b : FileName) → name_eq a b ≡ true → a ≡ b
unfolding name_eq
name_eq-eq source source h = refl
name_eq-eq source (entry b) h = cc
name_eq-eq (entry a) source h = cc
name_eq-eq (entry a) (entry b) h = ap entry ((eq_iff a b).0 h)

renamed_to-read :
    (name : FileName) (f : Disk) (o : Option String)
    → (renamed_to name f o).1 ≡ true
    → (renamed_to name f o).0.named name ≡ o
unfolding renamed_to
renamed_to-read name f none h = cc
renamed_to-read name f (some text) h = rw (name_eq_refl name) refl

renamed_to-others :
    (name other : FileName) (f : Disk) (o : Option String)
    → (other ≡ name) ⊎ ((renamed_to name f o).0.named other ≡ f.named other)
unfolding renamed_to
renamed_to-others name other f none = inr refl
renamed_to-others name other f (some text) = elim (Bool-cases (name_eq other name)) [
  | inl e ↦ inl (name_eq-eq other name e)
  | inr e ↦ inr (rw e refl)
]

renamed_to_fails :
    (name other : FileName) (f : Disk) (o : Option String)
    → (renamed_to name f o).1 ≡ false
    → (renamed_to name f o).0.named other ≡ f.named other
unfolding renamed_to
renamed_to_fails name other f none h = refl
renamed_to_fails name other f (some text) h = cc

remove-others :
    (name other : FileName) (f : Disk)
    → (other ≡ name) ⊎ ((disk_ops.remove name f).named other ≡ f.named other)
remove-others name other f = elim (Bool-cases (name_eq other name)) [
  | inl e ↦ inl (name_eq-eq other name e)
  | inr e ↦ inr (rw e refl)
]

pub disk_files : AreFiles disk_ops
disk_files = record {
  text_of = λ t f. f.temp;
  mkdir_same = λ f n. refl;
  temp_same = λ f n. refl;
  chmod_same = λ t f n. refl;
  write_same = λ t text f n. refl;
  sync_same = λ t f n. refl;
  close_same = λ t f n. refl;
  remove_temp_same = λ t f n. refl;
  written = λ t text f h. refl;
  sync_text = λ t f. refl;
  close_text = λ t f. refl;
  renamed = λ t name f h. renamed_to-read name f f.temp h;
  rename_others = λ t name other f. renamed_to-others name other f f.temp;
  rename_fails = λ t name f h n. renamed_to_fails name n f f.temp h;
  remove_others = remove-others;
}

abbrev pub disk : Disk
disk = record { named = λ n. if name_eq n source then some "a: 1" else none; temp = none }

-- What the first Apply of the test records.
abbrev pub first_meta : RevisionMeta
first_meta = record {
  revision = 2;
  parent_revision = 1;
  action = "apply";
  actor = "root";
  reason = "test";
  rollback_target = 0;
  changed = pos 1;
  danger = "normal";
  restart_required = true;
  created_at = 9;
}

unfoldable pub is_first : RevisionMeta → Bool
is_first m =
    m.revision == 2
    && (m.parent_revision == 1
        && (str_eq m.action "apply"
            && (str_eq m.actor "root"
                && (str_eq m.reason "test"
                    && (m.rollback_target == 0
                        && (eq_ℤ m.changed (pos 1)
                            && (str_eq m.danger "normal"
                                && (bool_eq m.restart_required true && m.created_at == 9))))))))

and_true : (a b : Bool) → (a && b) ≡ true → (a ≡ true) × (b ≡ true)
and_true true b h = (refl, h)
and_true false b h = cc

is_true : (b : Bool) → bool_eq b true ≡ true → b ≡ true
is_true true h = refl
is_true false h = cc

is_first-eq : (m : RevisionMeta) → is_first m ≡ true → m ≡ first_meta
unfolding is_first
is_first-eq m h =
    let (a, h1) = and_true _ _ h in
    let (b, h2) = and_true _ _ h1 in
    let (c, h3) = and_true _ _ h2 in
    let (d, h4) = and_true _ _ h3 in
    let (e, h5) = and_true _ _ h4 in
    let (f, h6) = and_true _ _ h5 in
    let (g, h7) = and_true _ _ h6 in
    let (h', h8) = and_true _ _ h7 in
    let (i, j) = and_true _ _ h8 in
    λ k. record {
      revision = (==_iff m.revision 2).0 a k;
      parent_revision = (==_iff m.parent_revision 1).0 b k;
      action = (eq_iff m.action "apply").0 c k;
      actor = (eq_iff m.actor "root").0 d k;
      reason = (eq_iff m.reason "test").0 e k;
      rollback_target = (==_iff m.rollback_target 0).0 f k;
      changed = (eq_ℤ_iff m.changed (pos 1)).0 g k;
      danger = (eq_iff m.danger "normal").0 h' k;
      restart_required = is_true m.restart_required i k;
      created_at = (==_iff m.created_at 9).0 j k;
    }

-- Encodes that one only.
abbrev pub encoding : Encoding
encoding = record {
  marshal = λ m. if is_first m then some "{}" else none;
  unmarshal = λ text. if str_eq text "{}" then some first_meta else none;
  sort_newest = λ ms. ms;
}

pub unmarshal-marshal :
    (m : RevisionMeta) (text : String)
    → encoding.marshal m ≡ some text
    → encoding.unmarshal text ≡ some m
unmarshal-marshal m text h = elim (Bool-cases (is_first m)) [
  | inl e ↦
      let f : some "{}" ≡ some text = rw e at h in
      let t : text ≡ "{}" = cc in rw t (ap some (sym (is_first-eq m e)))
  | inr e ↦ let f : none ≡ some text = rw e at h in cc
]

-- A store at its first revision, and a change of it.
abbrev pub opened_store : Store
opened_store = record {
  managed = true;
  raw = "a: 1";
  revision = 1;
  updated = 0;
  draft = none;
  pending_restart = false;
}

abbrev pub request : ApplyRequest
request = record {
  raw = "a: 2";
  expected_revision = 1;
  actor = "root";
  reason = "test";
  changed = pos 1;
  danger = "normal";
  restart_required = true;
  action = "";
  rollback_target = 0;
}
