-- ===== src/Mpi/Gather.antt =====
-- What MPI documents of its collective calls, and the offsets that the code hands them.
use hi_cr.Prelude.{
  ℕ, zero, suc, ◌+◌, ◌^◌, ◌<◌, List, [], ◌∷◌, ◌++◌, map, length, get_elem?, some, ◌≡◌, refl, sym,
  ap, ◌∙◌, arith,
}
use hi_cr.Mpi.{Collectives, slot_offsets, slot_count, add_int}

abbrev pub sum : List ℕ → ℕ
sum [] = 0
sum (x ∷ xs) = x + sum xs

-- The sum of the first ones.
abbrev pub sum_first : ℕ → List ℕ → ℕ
sum_first zero xs = 0
sum_first (suc n) [] = 0
sum_first (suc n) (x ∷ xs) = x + sum_first n xs

abbrev pub concat {ℓ} : {A : Type ℓ} → List (List A) → List A
concat [] = []
concat (xs ∷ xss) = xs ++ concat xss

-- Where the blocks of the receive buffer have the lengths that are sent, follow one another and
-- fill the buffer, it holds what the processes sent, in their order.
pub record IsDocumented (c : Collectives) : Type 0 where
  pub gather : (values : List ℕ) → c.all_gather values ≡ values
  pub gather_v :
      (values : List (List ℕ)) (counts offsets : List ℕ) (total : ℕ)
      → counts ≡ map length values
      → ((r : ℕ) → r < length values → get_elem? offsets r ≡ some (sum_first r counts))
      → total ≡ sum counts
      → c.all_gather_v values counts offsets total ≡ concat values

offset_at :
    (counts : List ℕ) (current r : ℕ)
    → current + sum counts < 2 ^ 31
    → r < length counts
    → get_elem? (slot_offsets current counts) r ≡ some (current + sum_first r counts)
unfolding slot_offsets
offset_at [] current r small lt = absurd (omega arith)
offset_at (n ∷ ns) current zero small lt = ground arith
offset_at (n ∷ ns) current (suc r) small lt =
    let e : add_int current n ≡ current + n = omega arith in
    offset_at ns (add_int current n) r (omega (arith, e)) (omega arith) ∙ ap some (omega (arith, e))

pub slot_count-sum :
    (counts : List ℕ) (total : ℕ)
    → total + sum counts < 2 ^ 31
    → slot_count total counts ≡ total + sum counts
unfolding slot_count
slot_count-sum [] total small = omega arith
slot_count-sum (n ∷ ns) total small =
    let e : add_int total n ≡ total + n = omega arith in
    slot_count-sum ns (add_int total n) (omega (arith, e)) ∙ omega (arith, e)

length-map : {A : Type 0} (xs : List (List A)) → length (map length xs) ≡ length xs
length-map [] = refl
length-map (x ∷ xs) = ap suc (length-map xs)

-- A collective call of the exchange, whose values have the lengths of the counts.
pub gathered :
    {c : Collectives} (values : List (List ℕ)) (lengths : List ℕ)
    → IsDocumented c
    → map length values ≡ lengths
    → sum lengths < 2 ^ 31
    → c.all_gather_v values
        (c.all_gather lengths)
        (slot_offsets 0 (c.all_gather lengths))
        (slot_count 0 (c.all_gather lengths))
      ≡ concat values
gathered values lengths d e small = rw (d.gather lengths) (
    d.gather_v values lengths (slot_offsets 0 lengths) (slot_count 0 lengths) (sym e)
      (λ r lt.
        offset_at lengths 0 r (omega arith) (omega (arith, ap length e, length-map values))
        ∙ ap some (omega arith))
      (slot_count-sum lengths 0 (omega arith) ∙ omega arith))
