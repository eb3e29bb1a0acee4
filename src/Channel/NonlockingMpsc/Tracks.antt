-- ===== src/Channel/NonlockingMpsc/Tracks.antt =====
-- A queue of indices that keeps step with a vector of depths, whatever the channels are.
use hi_cr.Prelude.{ℕ, ◌^◌, ◌≡◌, ◌≤◌, ◌<◌, List, length, arith, ◌∙◌, sym}
use hi_cr.Channel.NonlockingMpsc.{record_pushes, sum_depths}
use hi_cr.Channel.NonlockingMpsc.Counts.{
  count, sum, sum-eq, sum-count, sum_depths-sum, count-record_pushes,
}

-- Each index below `n` stands in the queue as often as its depth says, and no other does.
pub record Tracks (n : ℕ) (depths : ℕ → ℕ) (pushes : List ℕ) : Type 0 where
  pub counted : (i : ℕ) → i < n → count i pushes ≡ depths i
  pub known : (i : ℕ) → n ≤ i → count i pushes ≡ 0

-- The queue after new depths have been recorded.
pub record-Tracks :
    {old : ℕ → ℕ} {pushes : List ℕ} (n : ℕ) (new : ℕ → ℕ)
    → Tracks n old pushes
    → ((i : ℕ) → i < n → old i ≤ new i)
    → Tracks n new (record_pushes old new n pushes)
record-Tracks {old} {pushes} n new t h = record {
  counted = λ i lt. ground (arith, count-record_pushes old new n i pushes, t.counted i lt, h i lt);
  known = λ i le. ground (arith, count-record_pushes old new n i pushes, t.known i le);
}

-- The queue is as long as the depths add up to.
pub Tracks-length :
    {n : ℕ} {depths : ℕ → ℕ} {pushes : List ℕ}
    → Tracks n depths pushes
    → sum depths n < 2 ^ 64
    → sum_depths depths n ≡ length pushes
Tracks-length {n} {depths} {pushes} t w =
    sum_depths-sum depths n w
    ∙ (sum-eq depths (λ i. count i pushes) n (λ i lt. sym (t.counted i lt))
        ∙ sum-count pushes n t.known)
