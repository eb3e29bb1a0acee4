-- ===== src/Channel/NonlockingMpsc.antt =====
-- include/hicr/frontends/channel/fixedSize/mpsc/nonlocking/consumer.hpp: one fixed-size SPSC
-- channel for each producer, and a queue that remembers from which channel the next token comes. A
-- vector with an element for each producer is a function on their indices. What `front` reads from
-- an empty queue is a parameter. The producer is that of the SPSC channel.
pub mod Counts
pub mod Sync
pub mod Tracks
pub mod Repeat
pub mod Send
pub mod Create
pub mod Calls
mod Tests
use hi_cr.Prelude.{
  ℕ, zero, suc, ◌-◌, Bool, true, false, not, ltb, leb, ◌==◌, if◌then◌else◌, add_size, sub_size,
  List, [], ◌∷◌, ◌++◌, length, drop, replicate, Result, ok, ◌>>=◌, ◌>>◌, require, logic, runtime,
}
use hi_cr.Channel.CircularBuffer.{get_depth}
use hi_cr.Channel.FixedSpsc.{Spsc}
use hi_cr.Channel.FixedSpsc

pub record Mpsc : Type 0 where
  pub producers : ℕ
  pub channels : ℕ → Spsc
  pub pushes : List ℕ
  pub depths : ℕ → ℕ

-- One element of a vector is replaced.
abbrev pub replace {ℓ} : {A : Type ℓ} → (ℕ → A) → ℕ → A → ℕ → A
replace f i x k = if k == i then x else f k

-- The constructor, round after round. A token that is there at once is not recorded yet.
unfoldable pub create_rounds : (ℕ → Spsc) → ℕ → Mpsc
create_rounds channels zero = record {
  producers = 0;
  channels = channels;
  pushes = [];
  depths = λ k. 0;
}
create_rounds channels (suc n) = record (create_rounds channels n) {
  producers = suc n;
  depths = replace (create_rounds channels n).depths n 0;
}

-- The sum over the first `n` elements.
unfoldable pub sum_depths : (ℕ → ℕ) → ℕ → ℕ
sum_depths d zero = 0
sum_depths d (suc n) = add_size (sum_depths d n) (d n)

unfoldable pub total_depth : Mpsc → ℕ
total_depth c = sum_depths c.depths c.producers

-- The first loop of `updateDepth`, over the first `n` channels.
unfoldable pub read_depths : (ℕ → Spsc) → ℕ → Result (ℕ → ℕ)
read_depths channels zero = ok (λ k. 0)
read_depths channels (suc n) = do
  depths ← read_depths channels n
  depth ← get_depth (channels n).consumer
  ok (replace depths n depth)

-- The second loop: an index is pushed for each token that is new in its channel.
unfoldable pub record_pushes : (ℕ → ℕ) → (ℕ → ℕ) → ℕ → List ℕ → List ℕ
record_pushes old new zero pushes = pushes
record_pushes old new (suc n) pushes = record_pushes old new n pushes ++ replicate (new n - old n) n

unfoldable pub update_depth : Mpsc → Result Mpsc
update_depth c = do
  depths ← read_depths c.channels c.producers
  let pushes = record_pushes c.depths depths c.producers c.pushes
  require (sum_depths depths c.producers == length pushes) logic
  ok (record c { depths = depths; pushes = pushes })

unfoldable pub is_nil : List ℕ → Bool
is_nil [] = true
is_nil (x ∷ l) = false

unfoldable pub front : ℕ → List ℕ → ℕ
front garbage [] = garbage
front garbage (x ∷ l) = x

-- The channel and the position in it.
unfoldable pub peek : ℕ → Mpsc → ℕ → Result ((ℕ × ℕ) × Mpsc)
unfolding is_nil front
peek garbage c pos = do
  require (pos == 0) logic
  c' ← update_depth c
  require (not (is_nil c'.pushes)) runtime
  let id = front garbage c'.pushes
  require (ltb id c'.producers) logic
  k ← FixedSpsc.peek (c'.channels id) 0
  ok ((id, k), c')

-- One round of the loop of `pop`.
pop_round : ℕ → Mpsc → Result Mpsc
pop_round id c = do
  s ← FixedSpsc.pop (c.channels id) 1
  ok (record c {
    channels = replace c.channels id s;
    depths = replace c.depths id (sub_size (c.depths id) 1);
    pushes = drop 1 c.pushes;
  })

unfoldable pub pop_rounds : ℕ → ℕ → Mpsc → Result Mpsc
unfolding pop_round
pop_rounds zero id c = ok c
pop_rounds (suc n) id c = pop_round id c >>= pop_rounds n id

-- The front is read once, before the loop.
unfoldable pub pop : ℕ → Mpsc → ℕ → Result Mpsc
unfolding total_depth front
pop garbage c n = do
  c' ← update_depth c
  require (leb n (total_depth c')) runtime
  let id = front garbage c'.pushes
  require (ltb id c'.producers) logic
  pop_rounds n id c'

unfoldable pub is_empty : Mpsc → Bool
unfolding total_depth
is_empty c = total_depth c == 0
