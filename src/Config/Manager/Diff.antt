-- ===== src/Config/Manager/Diff.antt =====
-- What Diff and Plan of internal/configctl/manager.go show, and what they want confirmed.
use Prim.Native.String
use hustmirrors_waf_backend.Base.{
  ◌≤◌, ◌≡◌, refl, ◌⊎◌, inl, inr, String, false, List, [], ◌∷◌, All, ltb, if◌then◌else◌, Bool-cases,
  arith,
}
use hustmirrors_waf_backend.Platform.{Platform}
use hustmirrors_waf_backend.Config.Store.{Store}
use hustmirrors_waf_backend.Config.Secret.{is_sensitive_path}
use hustmirrors_waf_backend.Config.Manager.{
  nil, DiffChange, ValueOps, danger_rank, diff_value, decode_raw, mark_change, mark_changes,
  worst_danger, diff,
}

module _ {N : Type 0} (g : Platform) (ops : ValueOps N) where
  -- A change at a sensitive path shows no value.
  abbrev pub IsBlank : DiffChange N → Type 0
  IsBlank c = (is_sensitive_path g c.path ≡ false) ⊎ ((c.before ≡ nil) × (c.after ≡ nil))

  mark_change-IsBlank : (c : DiffChange N) → IsBlank (mark_change g ops c)
  unfolding mark_change
  mark_change-IsBlank c = elim (Bool-cases (is_sensitive_path g c.path)) [
    | inl s ↦ inr (rw s refl, rw s refl)
    | inr s ↦ inl s
  ]

  mark_changes-IsBlank : (cs : List (DiffChange N)) → All IsBlank (mark_changes g ops cs)
  unfolding mark_changes
  mark_changes-IsBlank [] = tt
  mark_changes-IsBlank (c ∷ cs) = (mark_change-IsBlank c, mark_changes-IsBlank cs)

  worse :
      (a b : String)
      → danger_rank a ≤ danger_rank (if ltb (danger_rank a) (danger_rank b) then b else a)
  worse a b = ground arith

  as_bad :
      (a b : String)
      → danger_rank b ≤ danger_rank (if ltb (danger_rank a) (danger_rank b) then b else a)
  as_bad a b = ground arith

  worst_danger_start :
      (cs : List (DiffChange N)) (d : String)
      → danger_rank d ≤ danger_rank (worst_danger g ops d cs)
  unfolding worst_danger
  worst_danger_start [] d = omega arith
  worst_danger_start (c ∷ cs) d =
      let next = if ltb (danger_rank d) (danger_rank c.danger) then c.danger else d in
      omega (arith, worse d c.danger, worst_danger_start cs next)

  worst_danger-All :
      (cs : List (DiffChange N)) (d : String)
      → All (λ c. danger_rank c.danger ≤ danger_rank (worst_danger g ops d cs)) cs
  unfolding worst_danger
  worst_danger-All [] d = tt
  worst_danger-All (c ∷ cs) d =
      let next = if ltb (danger_rank d) (danger_rank c.danger) then c.danger else d in
      (omega (arith, as_bad d c.danger, worst_danger_start cs next), worst_danger-All cs next)

  -- The changes that Diff shows give no sensitive value away, where a change is at the sensitive path
  -- itself, and none of them is more dangerous than Diff says of them together.
  pub diff-IsBlank :
      (before after : String)
      → All IsBlank (diff g ops before after).0
        × All
            (λ c. danger_rank c.danger ≤ danger_rank (diff g ops before after).1)
            (diff g ops before after).0
  unfolding diff
  diff-IsBlank before after =
      let cs =
        ops.sort_changes (diff_value g ops "" (decode_raw g ops before) (decode_raw g ops after)) in
      (mark_changes-IsBlank cs, worst_danger-All (mark_changes g ops cs) "normal")
