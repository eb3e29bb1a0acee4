-- ===== src/Mpi/Keys.antt =====
-- The set of the keys that are to be destroyed, and a lookup after one is erased.
use hi_cr.Prelude.{
  ℕ, suc, ◌<◌, ◌≤◌, ◌==◌, if◌then◌else◌, Bool, true, false, List, [], ◌∷◌, none, ◌≡◌, refl, arith,
}
use hi_cr.Registry.{find, erase}
use hi_cr.Mpi.{insert_key, key_set}

abbrev pub member : ℕ → List ℕ → Bool
member k [] = false
member k (x ∷ xs) = if k == x then true else member k xs

-- In ascending order, from a lower bound on.
abbrev pub Ascends : ℕ → List ℕ → Type 0
Ascends low [] = Unit
Ascends low (x ∷ xs) = (low ≤ x) × Ascends (suc x) xs

pub insert_key-Ascends :
    (low k : ℕ) (xs : List ℕ) → low ≤ k → Ascends low xs → Ascends low (insert_key k xs)
unfolding insert_key
insert_key-Ascends low k [] le a = (le, tt)
insert_key-Ascends low k (x ∷ xs) le a = ground (arith, insert_key-Ascends (suc x) k xs)

pub key_set-Ascends : (ks : List ℕ) → Ascends 0 (key_set ks)
unfolding key_set
key_set-Ascends [] = tt
key_set-Ascends (k ∷ ks) = insert_key-Ascends 0 k (key_set ks) (omega arith) (key_set-Ascends ks)

pub member-insert_key :
    (j k : ℕ) (xs : List ℕ) → member j (insert_key k xs) ≡ (if j == k then true else member j xs)
unfolding insert_key
member-insert_key j k [] = refl
member-insert_key j k (x ∷ xs) = ground (arith, member-insert_key j k xs)

pub member-key_set : (j : ℕ) (ks : List ℕ) → member j (key_set ks) ≡ member j ks
unfolding key_set
member-key_set j [] = refl
member-key_set j (k ∷ ks) = ground (arith, member-insert_key j k (key_set ks), member-key_set j ks)

pub not-member : (j low : ℕ) (xs : List ℕ) → Ascends low xs → j < low → member j xs ≡ false
not-member j low [] a lt = refl
not-member j low (x ∷ xs) (le, a) lt = ground (arith, not-member j (suc x) xs a)

pub find-erase {ℓ} :
    {A : Type ℓ} (j k : ℕ) (m : List (ℕ × A))
    → find j (erase k m) ≡ (if j == k then none else find j m)
unfolding find erase
find-erase j k [] = ground arith
find-erase j k (e ∷ m) = ground (arith, find-erase j k m)
