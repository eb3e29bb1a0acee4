-- ===== src/Channel/VariableNonlocking.antt =====
-- include/hicr/frontends/channel/variableSize/mpsc/nonlocking/consumer.hpp: one variable-size SPSC
-- channel for each producer, and a queue that remembers from which channel the next message comes. A
-- vector with an element for each producer is a function on their indices. What `front` reads from an
-- empty queue is a parameter. The producer is that of the SPSC channel.
pub mod Sync
pub mod Calls
mod Tests
use hi_cr.Prelude.{
  ℕ, zero, suc, Bool, not, ltb, leb, ◌==◌, if◌then◌else◌, sub_size, List, length, drop, Result, ok,
  ◌>>=◌, ◌>>◌, require, logic, runtime, [], ◌++◌, replicate,
}
use hi_cr.Channel.NonlockingMpsc.{replace, sum_depths, record_pushes, is_nil, front}
use hi_cr.Channel.VariableSpsc.{Channel, get_coordination_depth}
use hi_cr.Channel.VariableSpsc as Spsc

pub record Mpsc : Type 0 where
  pub producers : ℕ
  pub channels : ℕ → Channel
  pub pushes : List ℕ
  pub depths : ℕ → ℕ

-- The constructor, round after round: the depth of a channel that is there at once is recorded.
unfoldable pub create_rounds : (ℕ → Channel) → ℕ → Result Mpsc
create_rounds channels zero =
    ok (record { producers = 0; channels = channels; pushes = []; depths = λ k. 0 })
create_rounds channels (suc n) = do
  c ← create_rounds channels n
  depth ← get_coordination_depth (channels n)
  ok (record {
    producers = suc n;
    channels = channels;
    pushes = c.pushes ++ replicate depth n;
    depths = replace c.depths n depth;
  })

-- `getDepth`
unfoldable pub total_depth : Mpsc → Result ℕ
total_depth c = do
  let total = sum_depths c.depths c.producers
  require (total == length c.pushes) logic
  ok total

unfoldable pub is_empty : Mpsc → Result Bool
unfolding total_depth
is_empty c = do total ← total_depth c; ok (total == 0)

-- The first loop of `updateDepth`, over the first `n` channels.
unfoldable pub read_depths : (ℕ → Channel) → ℕ → Result (ℕ → ℕ)
read_depths channels zero = ok (λ k. 0)
read_depths channels (suc n) = do
  depths ← read_depths channels n
  depth ← get_coordination_depth (channels n)
  ok (replace depths n depth)

unfoldable pub update_depth : Mpsc → Result Mpsc
unfolding total_depth
update_depth c = do
  depths ← read_depths c.channels c.producers
  let pushes = record_pushes c.depths depths c.producers c.pushes
  let c' = record c { depths = depths; pushes = pushes }
  total ← total_depth c'
  require (total == length pushes) logic
  ok c'

-- The channel, and the position and the size of the message in it.
unfoldable pub peek : ℕ → Mpsc → ℕ → Result ((ℕ × ℕ × ℕ) × Mpsc)
unfolding is_nil front
peek garbage c pos = do
  require (pos == 0) logic
  c' ← update_depth c
  require (not (is_nil c'.pushes)) runtime
  let id = front garbage c'.pushes
  require (ltb id c'.producers) logic
  first ← Spsc.peek (c'.channels id) 0
  second ← Spsc.peek (c'.channels id) 0
  ok ((id, first.0, second.1), c')

-- One round of the loop of `pop`.
unfoldable pub pop_round : ℕ → Mpsc → Result Mpsc
pop_round id c = do
  s ← Spsc.pop (c.channels id) 1
  ok (record c {
    channels = replace c.channels id s;
    depths = replace c.depths id (sub_size (c.depths id) 1);
    pushes = drop 1 c.pushes;
  })

unfoldable pub pop_rounds : ℕ → ℕ → Mpsc → Result Mpsc
unfolding pop_round
pop_rounds zero id c = ok c
pop_rounds (suc n) id c = pop_round id c >>= pop_rounds n id

-- The front is read once, before the loop.
unfoldable pub pop : ℕ → Mpsc → ℕ → Result Mpsc
unfolding total_depth front
pop garbage c n = do
  c' ← update_depth c
  total ← total_depth c'
  require (leb n total) runtime
  let id = front garbage c'.pushes
  require (ltb id c'.producers) logic
  pop_rounds n id c'
