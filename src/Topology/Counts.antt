-- ===== src/Topology/Counts.antt =====
-- The search for compute resources finds an assignment exactly when there are enough of each type.
use Prim.Native.String.{String}
use text.Mathlib.Text.{◌==◌ as str_eq}
use text.Mathlib.TextEquality.{eq_iff}
use hi_cr.Prelude.{
  ℕ, ◌+◌, ◌≤◌, true, if◌then◌else◌, Bool-cases, none, some, Option-cases, some_injective, List, [],
  ◌∷◌, ◌≡◌, ◌↔◌, refl, arith, inl, inr, ap,
}
use hi_cr.Topology.{ComputeResource, take_first, all_taken, resource_fits}

module _ {J : Type 0} where
  -- How many compute resources have the type.
  abbrev pub count : String → List (ComputeResource J) → ℕ
  count kind [] = 0
  count kind (r ∷ rs) = (if str_eq r.type_name kind then 1 else 0) + count kind rs

  one_of : (r : ComputeResource J) → count r.type_name (r ∷ []) ≡ 1
  one_of r = rw ((eq_iff r.type_name r.type_name).1 refl)

  -- `resource_fits` compares the types.
  taken-count :
      (need : ComputeResource J) (rs : List (ComputeResource J)) {rest : List (ComputeResource J)}
      → take_first (resource_fits need) rs ≡ some rest
      → (kind : String)
      → count kind rs ≡ (if str_eq need.type_name kind then 1 else 0) + count kind rest
  unfolding take_first resource_fits
  taken-count need [] e kind = cc
  taken-count need (r ∷ rs) {rest} e kind = elim (Bool-cases (str_eq r.type_name need.type_name)) [
    | inl same ↦ rw ((eq_iff r.type_name need.type_name).0 same) (
        ap (λ l. (if str_eq need.type_name kind then 1 else 0) + count kind l)
          (some_injective (rw same at e)))
    | inr other ↦ elim (Option-cases (take_first (resource_fits need) rs)) [
      | inl missing ↦ cc (rw (other, missing) at e)
      | inr (left, found) ↦
          let ih = taken-count need rs found kind in
          let same : (r ∷ left) ≡ rest = some_injective (rw (other, found) at e) in
          omega (arith, ih, ap (count kind) same)
    ]
  ]

  missing-count :
      (need : ComputeResource J) (rs : List (ComputeResource J))
      → take_first (resource_fits need) rs ≡ none
      → count need.type_name rs ≡ 0
  unfolding take_first resource_fits
  missing-count need [] e = refl
  missing-count need (r ∷ rs) e = elim (Bool-cases (str_eq r.type_name need.type_name)) [
    | inl same ↦ cc (rw same at e)
    | inr other ↦ elim (Option-cases (take_first (resource_fits need) rs)) [
      | inl missing ↦ rw other (omega (arith, missing-count need rs missing))
      | inr (left, found) ↦ cc (rw (other, found) at e)
    ]
  ]

  enough :
      (needs rs : List (ComputeResource J))
      → all_taken resource_fits needs rs ≡ true
      → (kind : String) → count kind needs ≤ count kind rs
  unfolding all_taken
  enough [] rs e kind = omega arith
  enough (need ∷ needs) rs e kind = elim (Option-cases (take_first (resource_fits need) rs)) [
    | inl missing ↦ cc (rw (missing, all_taken) at e)
    | inr (rest, found) ↦
        omega (
          arith,
          taken-count need rs found kind,
          enough needs rest (rw (found, all_taken) at e) kind,
        )
  ]

  taken :
      (needs rs : List (ComputeResource J))
      → ((kind : String) → count kind needs ≤ count kind rs)
      → all_taken resource_fits needs rs ≡ true
  unfolding all_taken
  taken [] rs counts = refl
  taken (need ∷ needs) rs counts = elim (Option-cases (take_first (resource_fits need) rs)) [
    | inl missing ↦
        absurd (omega (arith, missing-count need rs missing, one_of need, counts need.type_name))
    | inr (rest, found) ↦
        rw (found, all_taken)
          (taken needs rest (λ kind. omega (arith, taken-count need rs found kind, counts kind)))
  ]

  -- The loops over the compute resources of a device find one for each that is needed exactly when
  -- the device has at least as many of each type as are needed, in whichever order they stand.
  pub resources_taken_iff :
      (needs rs : List (ComputeResource J))
      → (all_taken resource_fits needs rs ≡ true)
        ↔ ((kind : String) → count kind needs ≤ count kind rs)
  resources_taken_iff needs rs = (enough needs rs, taken needs rs)
