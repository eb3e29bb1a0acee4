-- ===== src/Topology/Assign.antt =====
-- What the greedy search of Topology.isSubset gives: an assignment of the entries needed to
-- different entries that there are.
use hi_cr.Prelude.{
  Bool, true, Bool-cases, Option-cases, some_injective, some, List, [], ◌∷◌, ◌++◌, ◌≡◌, refl, subst,
  inl, inr, append-nil,
}
use mathlib.Core.List.{Perm}
use mathlib.Core.List.Perm
use hi_cr.Topology.{take_first, all_taken}

-- Entry by entry, and as many of the one as of the other.
abbrev pub Each {ℓ κ} : {A : Type ℓ} {B : Type κ} → (B → A → Type 0) → List B → List A → Type 0
Each R [] [] = Unit
Each R [] (y ∷ ys) = ⊥
Each R (x ∷ xs) [] = ⊥
Each R (x ∷ xs) (y ∷ ys) = R x y × Each R xs ys

-- Each entry needed has one of its own that suits it; the others are left.
abbrev pub Assigned {ℓ κ} : {A : Type ℓ} {B : Type κ} → (B → A → Type 0) → List B → List A → Type ℓ
Assigned {A} R needs available =
    (used rest : List A) × Perm available (used ++ rest) × Each R needs used

module _ {ℓ} {A : Type ℓ} (passes : A → Bool) where
  pub take_first-perm :
      (xs : List A) {rest : List A}
      → take_first passes xs ≡ some rest
      → (a : A) × (passes a ≡ true) × Perm xs (a ∷ rest)
  unfolding take_first
  take_first-perm [] e = cc
  take_first-perm (x ∷ xs) {rest} e = elim (Bool-cases (passes x)) [
    | inl fits ↦
        (x, fits, subst (λ r. Perm (x ∷ xs) (x ∷ r)) (some_injective (rw fits at e)) Perm.rfl)
    | inr unfit ↦ elim (Option-cases (take_first passes xs)) [
      | inl missing ↦ cc (rw (unfit, missing) at e)
      | inr (r, found) ↦
          let (a, fits, p) = take_first-perm xs found in
          (
            a,
            fits,
            subst (λ l. Perm (x ∷ xs) (a ∷ l)) (some_injective (rw (unfit, found) at e))
                (Perm.trans (Perm.cons x p) (Perm.swap a x r)),
          )
    ]
  ]

module _ {ℓ κ} {A : Type ℓ} {B : Type κ} (fits : B → A → Bool) (R : B → A → Type 0) where
  pub all_taken-Assigned :
      ((n : B) (a : A) → fits n a ≡ true → R n a)
      → (needs : List B) (available : List A) → all_taken fits needs available ≡ true
      → Assigned R needs available
  unfolding all_taken
  all_taken-Assigned sound [] available e = ([], available, Perm.rfl, tt)
  all_taken-Assigned sound (n ∷ ns) available e =
      elim (Option-cases (take_first (fits n) available)) [
        | inl missing ↦ cc (rw (missing, all_taken) at e)
        | inr (left, found) ↦
            let (a, fit, p) = take_first-perm (fits n) available found in
            let (used, rest, q, each) =
              all_taken-Assigned sound ns left (rw (found, all_taken) at e) in
            (a ∷ used, rest, Perm.trans p (Perm.cons a q), (sound n a fit, each))
      ]

module _ {ℓ} {A : Type ℓ} (fits : A → A → Bool) (fits_self : (a : A) → fits a a ≡ true) where
  -- Where everything fits itself, the search takes the entries themselves if they stand first.
  pub all_taken-append : (xs ys : List A) → all_taken fits xs (xs ++ ys) ≡ true
  unfolding all_taken take_first
  all_taken-append [] ys = refl
  all_taken-append (x ∷ xs) ys = rw (fits_self x, all_taken, take_first) (all_taken-append xs ys)

  pub all_taken_self : (xs : List A) → all_taken fits xs xs ≡ true
  all_taken_self xs =
      subst (λ l. all_taken fits xs l ≡ true) (append-nil xs) (all_taken-append xs [])
