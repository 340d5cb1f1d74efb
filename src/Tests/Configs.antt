-- ===== src/Tests/Configs.antt =====
-- The theorems on the configuration store and its manager, at concrete inputs.
use hustmirrors_waf_backend.Base.{
  ℕ, ◌≡◌, ◌≤◌, refl, Bool, true, false, [], ◌∷◌, All, ok, err, Fallible, str_eq, if◌then◌else◌, ltb,
}
use hustmirrors_waf_backend.Base.Int.{pos, pos_part, eq_ℤ}
use hustmirrors_waf_backend.Config.Files.{source, atomic_replace}
use hustmirrors_waf_backend.Config.Files.Atomic.{Replaced, atomic_replace-Replaced}
use hustmirrors_waf_backend.Config.Store.{Store, Draft, ApplyResult, ConfigError, save_draft}
use hustmirrors_waf_backend.Config.Revisions.{apply, history_get}
use hustmirrors_waf_backend.Config.Revisions.Apply.{Outcome, apply-Outcome, apply-history_get}
use hustmirrors_waf_backend.Config.Revisions.Drafts.{
  IsCurrent, start, next, save, apply_request, reach_IsCurrent, save_draft-save_draft,
}
use hustmirrors_waf_backend.Config.Manager.{
  Value, nil, integer, object, no_fields, field, Plan, ValueOps, diff, apply_plan, danger_rank,
}
use hustmirrors_waf_backend.Config.Manager.Diff.{IsBlank, diff-IsBlank}
use hustmirrors_waf_backend.Config.Manager.Confirmed.{Confirmed, apply_plan-Confirmed}
use hustmirrors_waf_backend.Fixtures.{platform}
use hustmirrors_waf_backend.Fixtures.Disk.{
  Disk, disk_ops, disk_files, disk, encoding, unmarshal-marshal, opened_store, request, first_meta,
}

atomic_replace-Replaced_example :
    Replaced disk_ops source "a: 2" disk (atomic_replace disk_ops source "a: 2" disk)
atomic_replace-Replaced_example = atomic_replace-Replaced disk_ops disk_files source "a: 2" disk

apply-Outcome_example :
    Outcome disk_ops encoding request opened_store disk
      (apply disk_ops encoding 9 request opened_store disk)
apply-Outcome_example = apply-Outcome disk_ops encoding disk_files 9 request opened_store disk

-- The state after the change.
abbrev applied_once : Store × Disk × Fallible ConfigError ApplyResult
applied_once = apply disk_ops encoding 9 request opened_store disk

abbrev first_result : ApplyResult
first_result = record { revision = 2; previous = 1; meta = first_meta; restart_required = true }

apply-history_get_example :
    history_get disk_ops encoding 2 applied_once.0 applied_once.1
    ≡ ok (record { meta = first_meta; raw = "a: 2" })
unfolding apply hustmirrors_waf_backend.Fixtures.Disk.name_eq atomic_replace
    hustmirrors_waf_backend.Fixtures.Disk.renamed_to hustmirrors_waf_backend.Fixtures.Disk.is_first
apply-history_get_example =
    apply-history_get disk_ops encoding disk_files 9 request opened_store applied_once.0 disk
      applied_once.1 first_result refl refl unmarshal-marshal refl

abbrev drafted : Store × Fallible ConfigError Draft
drafted = save_draft 5 "d1" 1 "" 0 "a: 3" opened_store

abbrev draft : Draft
draft = record {
  id = "d1";
  revision = 1;
  base_revision = 1;
  raw = "a: 3";
  updated_at = 5;
  validated = false;
  diff_revision = 0;
}

reach_IsCurrent_example : IsCurrent (apply disk_ops encoding 9 request drafted.0 disk).0
reach_IsCurrent_example =
    reach_IsCurrent disk_ops encoding disk_files {s = opened_store} tt
      (next (next start (save 5 "d1" 1 "" 0 "a: 3")) (apply_request 9 request disk))

save_draft-save_draft_example :
    (e : ConfigError) × (save_draft 6 "d2" 1 "" 0 "a: 4" drafted.0 ≡ (drafted.0, err e))
unfolding save_draft
save_draft-save_draft_example =
    save_draft-save_draft 5 6 "d1" "d2" 1 1 "" 0 "a: 3" "a: 4" opened_store drafted.0 draft refl

same_integer : Value ℕ → Value ℕ → Bool
same_integer (integer a) (integer b) = eq_ℤ a b
same_integer nil nil = true
same_integer v w = false

difficulty : ℕ → Value ℕ
difficulty n = object (field "difficulty" (integer (pos n)) no_fields)

-- Two documents, of which one lowers a difficulty; a float64 is a number.
value_ops : ValueOps ℕ
value_ops = record {
  decode = λ raw.
      if str_eq raw "a: 1"
      then difficulty 22
      else if str_eq raw "a: 3"
      then difficulty 24
      else difficulty 20;
  deep_equal = same_integer;
  sort_changes = λ cs. cs;
  of_integer = pos_part;
  less = ltb;
}

diff-IsBlank_example :
    All (IsBlank platform value_ops) (diff platform value_ops "a: 1" "a: 2").0
    × All
        (λ c. danger_rank c.danger ≤ danger_rank (diff platform value_ops "a: 1" "a: 2").1)
        (diff platform value_ops "a: 1" "a: 2").0
diff-IsBlank_example = diff-IsBlank platform value_ops "a: 1" "a: 2"

-- The first plan of the test.
abbrev test_plan : Plan ℕ
test_plan = record {
  base_revision = 1;
  changes =
      (record {
        path = "a";
        kind = "changed";
        before = integer (pos 1);
        after = integer (pos 2);
        sensitive = false;
        danger = "normal";
        restart_required = true;
      })
      ∷ [];
  danger = "normal";
  phrase = "";
}

apply_plan-Confirmed_example :
    Confirmed disk_ops encoding "a: 2" test_plan " test " "root" "apply" 0 opened_store disk
      (applied_once.0, applied_once.1, first_result)
unfolding apply_plan hustmirrors_waf_backend.Fixtures.Disk.name_eq atomic_replace
    hustmirrors_waf_backend.Fixtures.Disk.renamed_to hustmirrors_waf_backend.Fixtures.Disk.is_first
apply_plan-Confirmed_example =
    apply_plan-Confirmed disk_ops encoding 9 "a: 2" " test " test_plan "root" "apply" 0 opened_store
      applied_once.0 disk applied_once.1 first_result disk_files refl
