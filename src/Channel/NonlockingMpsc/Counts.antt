-- ===== src/Channel/NonlockingMpsc/Counts.antt =====
-- How often an index stands in the queue.
use hi_cr.Prelude.{
  ℕ, zero, suc, ◌+◌, ◌-◌, ◌^◌, ◌≡◌, ◌≤◌, ◌<◌, ◌==◌, if◌then◌else◌, List, [], ◌∷◌, ◌++◌, length,
  replicate, refl, arith, ap₂, dec_lt, ltb,
}
use hi_cr.Channel.NonlockingMpsc.{sum_depths, record_pushes}

abbrev pub one_if : ℕ → ℕ → ℕ
one_if i x = if i == x then 1 else 0

abbrev pub count : ℕ → List ℕ → ℕ
count i [] = 0
count i (x ∷ l) = one_if i x + count i l

pub count-append : (i : ℕ) (k l : List ℕ) → count i (k ++ l) ≡ count i k + count i l
count-append i [] l = omega arith
count-append i (x ∷ k) l = omega (arith, count-append i k l)

pub count-replicate : (i n x : ℕ) → count i (replicate n x) ≡ (if i == x then n else 0)
count-replicate i zero x = ground arith
count-replicate i (suc n) x = ground (arith, count-replicate i n x)

-- The sum without wrap-around.
abbrev pub sum : (ℕ → ℕ) → ℕ → ℕ
sum f zero = 0
sum f (suc n) = sum f n + f n

pub sum_depths-sum : (d : ℕ → ℕ) (n : ℕ) → sum d n < 2 ^ 64 → sum_depths d n ≡ sum d n
unfolding sum_depths
sum_depths-sum d zero h = refl
sum_depths-sum d (suc n) h = omega (arith, sum_depths-sum d n (omega arith))

pub sum-eq : (f g : ℕ → ℕ) (n : ℕ) → ((i : ℕ) → i < n → f i ≡ g i) → sum f n ≡ sum g n
sum-eq f g zero h = refl
sum-eq f g (suc n) h = ap₂ ◌+◌ (sum-eq f g n (λ i lt. h i (omega arith))) (h n (omega arith))

pub sum-zero : (n : ℕ) → sum (λ i. 0) n ≡ 0
sum-zero zero = refl
sum-zero (suc n) = omega (arith, sum-zero n)

pub sum-one_if : (x n : ℕ) → sum (λ i. one_if i x) n ≡ (if ltb x n then 1 else 0)
sum-one_if x zero = ground arith
sum-one_if x (suc n) = ground (arith, sum-one_if x n)

sum-cons :
    (x : ℕ) (l : List ℕ) (n : ℕ)
    → sum (λ i. count i (x ∷ l)) n ≡ sum (λ i. one_if i x) n + sum (λ i. count i l) n
sum-cons x l zero = refl
sum-cons x l (suc n) = omega (arith, sum-cons x l n)

-- A queue of indices below `n` is as long as their counts add up to.
pub sum-count :
    (l : List ℕ) (n : ℕ) → ((i : ℕ) → n ≤ i → count i l ≡ 0) → sum (λ i. count i l) n ≡ length l
sum-count [] n h = sum-zero n
sum-count (x ∷ l) n h =
    let below : x < n = elim (dec_lt x n) [
      | yes p ↦ p
      | no p ↦ absurd ground (arith, h x (omega arith))
    ] in
    let rest = sum-count l n (λ i le. omega (arith, h i le)) in
    ground (arith, sum-cons x l n, sum-one_if x n, rest, below)

-- What the recording adds to each count.
pub count-record_pushes :
    (old new : ℕ → ℕ) (n i : ℕ) (l : List ℕ)
    → count i (record_pushes old new n l) ≡ count i l + (if ltb i n then new i - old i else 0)
unfolding record_pushes
count-record_pushes old new zero i l = ground arith
count-record_pushes old new (suc n) i l = ground (
  arith,
  count-record_pushes old new n i l,
  count-append i (record_pushes old new n l) (replicate (new n - old n) n),
  count-replicate i (new n - old n) n,
)
