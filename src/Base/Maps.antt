-- ===== src/Base/Maps.antt =====
-- A map with texts as keys, as a list of pairs.
use Prim.Native.String.{String}
use mathlib.Core.Path.{◌≡◌, ◌∙◌, refl}
use mathlib.Core.Logic.{inl, inr}
use mathlib.Core.Bool.{Bool, true, false}
use mathlib.Core.Option.{Option, none, some}
use mathlib.Core.List.{List, [], ◌∷◌}
use native.Mathlib.Omega.{arith}
use text.Mathlib.TextEquality.{eq_iff}
use text.Mathlib.TextPositions.{eq_refl}
use hustmirrors_waf_backend.Base.Tests.{str_eq, if◌then◌else◌, Bool-cases}

other_key : (j k i : String) → str_eq j k ≡ true → str_eq j i ≡ true → str_eq k i ≡ true
other_key j k i e f = ground (arith, eq_iff j k, eq_iff j i, eq_iff k i)

other_than : (j k i : String) → str_eq j k ≡ false → str_eq k i ≡ true → str_eq j i ≡ false
other_than j k i e f = ground (arith, eq_iff j k, eq_iff j i, eq_iff k i)

module _ {A : Type 0} where
  unfoldable pub map_get : String → List (String × A) → Option A
  map_get k [] = none
  map_get k ((j, v) ∷ m) = if str_eq j k then some v else map_get k m

  unfoldable pub map_delete : String → List (String × A) → List (String × A)
  map_delete k [] = []
  map_delete k ((j, v) ∷ m) =
      let rest = map_delete k m in if str_eq j k then rest else (j, v) ∷ rest

  unfoldable pub map_put : String → A → List (String × A) → List (String × A)
  unfolding map_delete
  map_put k v m = (k, v) ∷ map_delete k m

  -- Deletes the keys whose value fails the test.
  unfoldable pub map_keep : (A → Bool) → List (String × A) → List (String × A)
  unfolding map_delete
  map_keep p [] = []
  map_keep p ((j, v) ∷ m) =
      let rest = map_keep p m in if p v then (j, v) ∷ rest else map_delete j rest

  pub map_get-map_delete_same :
      (k i : String) (m : List (String × A)) → str_eq k i ≡ true → map_get i (map_delete k m) ≡ none
  unfolding map_get map_delete
  map_get-map_delete_same k i [] h = refl
  map_get-map_delete_same k i ((j, v) ∷ m) h = elim (Bool-cases (str_eq j k)) [
    | inl e ↦ rw e (map_get-map_delete_same k i m h)
    | inr e ↦ rw (e, other_than j k i e h) (map_get-map_delete_same k i m h)
  ]

  pub map_get-map_delete :
      (k i : String) (m : List (String × A))
      → str_eq k i ≡ false
      → map_get i (map_delete k m) ≡ map_get i m
  unfolding map_get map_delete
  map_get-map_delete k i [] h = refl
  map_get-map_delete k i ((j, v) ∷ m) h = elim (Bool-cases (str_eq j k)) [
    | inr e ↦ rw (e, map_get-map_delete k i m h) refl
    | inl e ↦ elim (Bool-cases (str_eq j i)) [
      | inl f ↦ let bad = other_key j k i e f in cc
      | inr f ↦ rw (e, f) (map_get-map_delete k i m h)
    ]
  ]

  abbrev pub kept : (A → Bool) → Option A → Option A
  kept p none = none
  kept p (some v) = if p v then some v else none

  pub map_get-map_keep :
      (p : A → Bool) (k : String) (m : List (String × A))
      → map_get k (map_keep p m) ≡ kept p (map_get k m)
  unfolding map_get map_keep
  map_get-map_keep p k [] = refl
  map_get-map_keep p k ((j, v) ∷ m) = elim (Bool-cases (p v)) [
    | inl g ↦ elim (Bool-cases (str_eq j k)) [
      | inl e ↦ rw (g, e, g) refl
      | inr e ↦ rw (g, e) (map_get-map_keep p k m)
    ]
    | inr g ↦ elim (Bool-cases (str_eq j k)) [
      | inl e ↦ rw (g, e, g) (map_get-map_delete_same j k (map_keep p m) e)
      | inr e ↦ rw (g, e) (map_get-map_delete j k (map_keep p m) e ∙ map_get-map_keep p k m)
    ]
  ]

  pub map_get-map_put_same :
      (k : String) (v : A) (m : List (String × A)) → map_get k (map_put k v m) ≡ some v
  unfolding map_get map_put
  map_get-map_put_same k v m = rw (eq_refl k) refl

  pub map_get-map_put :
      (k i : String) (v : A) (m : List (String × A))
      → str_eq k i ≡ false
      → map_get i (map_put k v m) ≡ map_get i m
  unfolding map_get map_put
  map_get-map_put k i v m h = rw h (map_get-map_delete k i m h)
