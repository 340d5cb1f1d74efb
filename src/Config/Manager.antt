-- ===== src/Config/Manager.antt =====
-- internal/configctl/manager.go. A decoded YAML value is a tree; `N` stands for float64, with what the
-- code does with one.
pub mod Diff
pub mod Confirmed
use Prim.Native.String
use Prim.Native.Char.{Char, code}
use hustmirrors_waf_backend.Base.{
  ℕ, zero, suc, String, Bool, true, false, not, ◌&&◌, ◌||◌, Option, none, some, List, [], ◌∷◌, ◌++◌,
  ltb, leb, ◌==◌, str_eq, length, map_get, if◌then◌else◌, is_empty, Fallible, ok, err, ◌>>=◌, ◌>>◌,
  require,
}
use hustmirrors_waf_backend.Base.Int.{ℤ, pos}
use hustmirrors_waf_backend.Platform.{
  Platform, to_lower, to_upper, trim_space, has_prefix, has_suffix, has_infix,
}
use hustmirrors_waf_backend.Config.Files.{FileOps}
use hustmirrors_waf_backend.Config.Store.{Store, ApplyRequest, ApplyResult, Encoding, ConfigError}
use hustmirrors_waf_backend.Config.Revisions.{apply}
use hustmirrors_waf_backend.Config.Secret.{join_path, is_sensitive_path}

mutual
  -- An int, int64 or uint64 is an integer.
  pub data Value (N : Type 0) : Type 0 where
    nil : Value N
    text : String → Value N
    boolean : Bool → Value N
    integer : ℤ → Value N
    float : N → Value N
    items : Values N → Value N
    object : Fields N → Value N

  pub data Values (N : Type 0) : Type 0 where
    no_values : Values N
    item : Value N → Values N → Values N

  pub data Fields (N : Type 0) : Type 0 where
    no_fields : Fields N
    field : String → Value N → Fields N → Fields N

pub record DiffChange (N : Type 0) : Type 0 where
  pub path : String
  pub kind : String
  pub before : Value N
  pub after : Value N
  pub sensitive : Bool
  pub danger : String
  pub restart_required : Bool

pub record Plan (N : Type 0) : Type 0 where
  pub base_revision : ℕ
  pub changes : List (DiffChange N)
  pub danger : String
  pub phrase : String

pub data ManagerError : Type 0 where
  reason_required reason_too_long reason_has_control : ManagerError
  refused : ConfigError → ManagerError

unfoldable pub confirmation_required : {N : Type 0} → Plan N → Bool
confirmation_required p = not (is_empty p.phrase)

unfoldable pub has_control : String → Bool
has_control String.[] = false
has_control (String.◌∷◌ c s) = ltb (code c) 32 || (code c == 127 || has_control s)

unfoldable pub validate_reason : String → Bool → Fallible ManagerError String
unfolding has_control trim_space
validate_reason given required =
    let reason = trim_space given in
    do
      require (not (required && is_empty reason)) reason_required
      require (leb (String.len reason) 256) reason_too_long
      require (not (has_control reason)) reason_has_control
      ok reason

unfoldable pub danger_rank : String → ℕ
danger_rank danger =
    if str_eq danger "critical" then 3 else if str_eq danger "dangerous" then 2 else 1

-- The value of a key, nil where it is missing, and whether it is there.
unfoldable pub value_at : {N : Type 0} → String → Fields N → Value N
value_at k no_fields = nil
value_at k (field j v fs) = let rest = value_at k fs in if str_eq j k then v else rest

unfoldable pub has_field : {N : Type 0} → String → Fields N → Bool
has_field k no_fields = false
has_field k (field j v fs) = str_eq j k || has_field k fs

unfoldable pub is_nil : {N : Type 0} → Value N → Bool
is_nil nil = true
is_nil v = false

unfoldable pub change_kind : {N : Type 0} → Value N → Value N → String
unfolding is_nil
change_kind before after =
    if is_nil after then "removed" else if is_nil before then "added" else "changed"

unfoldable pub leaf_change : {N : Type 0} → String → Value N → Value N → List (DiffChange N)
unfolding change_kind
leaf_change path before after =
    (record {
      path = path;
      kind = change_kind before after;
      before = before;
      after = after;
      sensitive = false;
      danger = "";
      restart_required = false;
    })
    ∷ []

-- package yaml and normalizeYAML, reflect.DeepEqual, sort.Slice by path, and float64.
pub record ValueOps (N : Type 0) : Type 0 where
  -- the value that a document decodes to, with texts as keys; nil where it does not decode
  pub decode : String → Value N
  pub deep_equal : Value N → Value N → Bool
  pub sort_changes : List (DiffChange N) → List (DiffChange N)
  pub of_integer : ℤ → N
  pub less : N → N → Bool

module _ {N : Type 0} (g : Platform) (ops : ValueOps N) where
  -- diffValue. The keys come in the order of the documents, since the changes are sorted in the end.
  unfoldable pub added_changes : String → Fields N → Fields N → List (DiffChange N)
  unfolding has_field leaf_change join_path
  added_changes path before no_fields = []
  added_changes path before (field k v after) =
      let rest = added_changes path before after in
      if has_field k before || ops.deep_equal nil v
      then rest
      else leaf_change (join_path path k) nil v ++ rest

  unfoldable mutual
    unfolding value_at leaf_change join_path added_changes

    pub diff_value : String → Value N → Value N → List (DiffChange N)
    diff_value path (object bs) (object fs) =
        let below = diff_fields path bs fs in
        if ops.deep_equal (object bs) (object fs) then [] else below ++ added_changes path bs fs
    diff_value path before after =
        if ops.deep_equal before after then [] else leaf_change path before after

    pub diff_fields : String → Fields N → Fields N → List (DiffChange N)
    diff_fields path no_fields after = []
    diff_fields path (field k v before) after =
        diff_value (join_path path k) v (value_at k after) ++ diff_fields path before after

  unfoldable pub numeric_value : Value N → Option N
  numeric_value (integer z) = some (ops.of_integer z)
  numeric_value (float x) = some x
  numeric_value v = none

  unfoldable pub is_reduced : Option N → Option N → Bool
  is_reduced (some old) (some new) = ops.less new old
  is_reduced (some old) none = false
  is_reduced none new = false

  unfoldable pub difficulty_reduced : String → Value N → Value N → Bool
  unfolding has_infix numeric_value is_reduced
  difficulty_reduced path before after =
      if not (has_infix path "difficulty")
      then false
      else is_reduced (numeric_value before) (numeric_value after)

  -- The danger alone; Diff does not use the other result.
  unfoldable pub classify_change : String → Value N → Value N → String
  unfolding has_infix has_suffix to_lower is_sensitive_path difficulty_reduced
  classify_change path before after =
      let lower = to_lower g path in
      let critical =
        has_infix lower "bypass_all"
        || (has_suffix lower "pow.enabled"
            || (has_suffix lower "risk_control.enabled"
                || (has_infix lower "allow_empty_salt"
                    || difficulty_reduced lower before after))) in
      let dangerous =
        has_infix lower "bypass_all"
        || (has_infix lower "enabled"
            || (has_infix lower "excluded"
                || (has_prefix lower "protection." || is_sensitive_path g path))) in
      if critical then "critical" else if dangerous then "dangerous" else "normal"

  -- The body of the loop in Diff.
  unfoldable pub mark_change : DiffChange N → DiffChange N
  unfolding is_sensitive_path classify_change
  mark_change c =
      let secret = is_sensitive_path g c.path in
      let before = if secret then nil else c.before in
      let after = if secret then nil else c.after in
      record c {
        sensitive = secret;
        before = before;
        after = after;
        danger = classify_change c.path before after;
        restart_required = true;
      }

  unfoldable pub mark_changes : List (DiffChange N) → List (DiffChange N)
  unfolding mark_change
  mark_changes [] = []
  mark_changes (c ∷ cs) = mark_change c ∷ mark_changes cs

  -- The danger of the plan, over the marked changes.
  unfoldable pub worst_danger : String → List (DiffChange N) → String
  unfolding danger_rank
  worst_danger danger [] = danger
  worst_danger danger (c ∷ cs) =
      worst_danger (if ltb (danger_rank danger) (danger_rank c.danger) then c.danger else danger) cs

  unfoldable pub decode_raw : String → Value N
  decode_raw raw = if is_empty raw then nil else ops.decode raw

  unfoldable pub diff : String → String → List (DiffChange N) × String
  unfolding decode_raw diff_value mark_changes worst_danger
  diff before after =
      let changes =
        mark_changes (ops.sort_changes (diff_value "" (decode_raw before) (decode_raw after))) in
      (changes, worst_danger "normal" changes)

  -- The plan of an action; `token` is what confirmToken gives.
  unfoldable pub plan_for : ℕ → String → String → List (DiffChange N) × String → Plan N
  unfolding to_upper
  plan_for revision token action ([], danger) = record {
    base_revision = revision;
    changes = [];
    danger = "normal";
    phrase = "";
  }
  plan_for revision token action (c ∷ cs, danger) = record {
    base_revision = revision;
    changes = c ∷ cs;
    danger = danger;
    phrase =
        if not (str_eq danger "normal") || str_eq action "rollback"
        then String.◌++◌ (to_upper g action) (String.◌++◌ " " token)
        else "";
  }

  unfoldable pub plan : String → String → String → Store → Plan N
  unfolding plan_for diff
  plan token raw action s = plan_for s.revision token action (diff s.raw raw)

unfoldable pub request_of :
    {N : Type 0} → String → Plan N → String → String → String → ℕ → ApplyRequest
request_of raw p reason actor action target = record {
  raw = raw;
  expected_revision = p.base_revision;
  actor = actor;
  reason = reason;
  changed = pos (length p.changes);
  danger = p.danger;
  restart_required = true;
  action = action;
  rollback_target = target;
}

abbrev pub with_refusal :
    {F : Type 0}
    → Store × F × Fallible ConfigError ApplyResult
    → Store × F × Fallible ManagerError ApplyResult
with_refusal (s, f, err e) = (s, f, err (refused e))
with_refusal (s, f, ok res) = (s, f, ok res)

module _ {N F : Type 0} (files : FileOps F) (enc : Encoding) where
  unfoldable pub apply_with_reason :
      ℕ
      → String
      → Plan N
      → Fallible ManagerError String
      → String
      → String
      → ℕ
      → Store
      → F
      → Store × F × Fallible ManagerError ApplyResult
  unfolding apply request_of
  apply_with_reason now raw p (err e) actor action target s f = (s, f, err e)
  apply_with_reason now raw p (ok reason) actor action target s f =
      with_refusal (apply files enc now (request_of raw p reason actor action target) s f)

  -- Manager.Apply.
  unfoldable pub apply_plan :
      ℕ
      → String
      → Plan N
      → String
      → String
      → String
      → ℕ
      → Store
      → F
      → Store × F × Fallible ManagerError ApplyResult
  unfolding validate_reason apply_with_reason
  apply_plan now raw p reason actor action target s f =
      apply_with_reason now raw p
        (validate_reason reason (not (str_eq p.danger "normal") || str_eq action "rollback")) actor
        action target s f
