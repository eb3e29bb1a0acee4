-- ===== src/Channel/VariableSpsc.antt =====
-- include/hicr/frontends/channel/variableSize/spsc: one producer and one consumer of messages of
-- any size, over shared memory. A message lies in one piece in the payload buffer, which is twice
-- its capacity so that a message may run past it; its size lies in the token buffer.
pub mod Inv
pub mod Sizes
pub mod Push
pub mod Pop
pub mod Create
mod Tests
use hi_cr.Prelude.{
  ℕ, zero, suc, ◌+◌, ◌%◌, Bool, true, false, not, ltb, leb, ◌==◌, if◌then◌else◌, add_size, mul_size,
  Result, ok, ◌>>=◌, ◌>>◌, require, logic, runtime, fatal,
}
use hi_cr.Memory.{Slot, memcpy_global}
use hi_cr.Channel.CircularBuffer.{
  CircularBuffer, get_head_position, get_tail_position, get_depth, advance_head, advance_tail,
}

-- The token buffer: a slot of `size` bytes that the source reads and writes as elements of eight.
pub record SizeBuffer : Type 0 where
  pub size : ℕ
  pub element : ℕ → ℕ

pub record Channel : Type 0 where
  pub payload : Slot
  pub sizes : SizeBuffer
  pub producer_counts : CircularBuffer
  pub producer_payloads : CircularBuffer
  pub consumer_counts : CircularBuffer
  pub consumer_payloads : CircularBuffer

unfoldable pub is_full : CircularBuffer → CircularBuffer → ℕ → Result Bool
is_full counts payloads required = do
  depth ← get_depth counts
  if depth == counts.capacity then ok true else (do
    payload_depth ← get_depth payloads
    ok (ltb payloads.capacity (add_size payload_depth required)))

-- The copy of the eight bytes of the size information buffer to the position.
unfoldable pub put_size : SizeBuffer → ℕ → ℕ → Result SizeBuffer
put_size b pos value = do
  require (leb (add_size 8 (mul_size 8 pos)) b.size) runtime
  ok (record b { element = λ k. if k == pos then value else b.element k })

unfoldable pub push : Channel → Slot → ℕ → Result (Channel × Slot)
push c src n = do
  require (n == 1) runtime
  full ← is_full c.producer_counts c.producer_payloads src.size
  require (not full) runtime
  (payload, src') ← memcpy_global c.payload (get_head_position c.producer_payloads) src 0 src.size
  payloads ← advance_head c.producer_payloads src.size
  sizes ← put_size c.sizes (get_head_position c.producer_counts) src.size
  counts ← advance_head c.producer_counts 1
  ok (
    record {
      payload = payload;
      sizes = sizes;
      producer_counts = counts;
      producer_payloads = payloads;
      consumer_counts = record c.consumer_counts { head = counts.head };
      consumer_payloads = record c.consumer_payloads { head = payloads.head };
    },
    src',
  )

unfoldable pub base_peek : CircularBuffer → ℕ → Result ℕ
base_peek counts pos = do
  require (ltb pos counts.capacity) logic
  depth ← get_depth counts
  require (ltb pos depth) runtime
  ok (add_size (get_tail_position counts) pos % counts.capacity)

-- The starting position and the size of a message.
unfoldable pub peek : Channel → ℕ → Result (ℕ × ℕ)
peek c pos = do
  require (pos == 0) fatal
  depth ← get_depth c.consumer_counts
  require (ltb pos depth) runtime
  k ← base_peek c.consumer_counts pos
  ok (get_tail_position c.consumer_payloads % c.consumer_payloads.capacity, c.sizes.element k)

-- The loop from index `i` on, with the rounds left.
unfoldable pub sum_sizes : Channel → ℕ → ℕ → ℕ → Result ℕ
sum_sizes c zero i bytes = ok bytes
sum_sizes c (suc rounds) i bytes = do
  k ← base_peek c.consumer_counts i
  sum_sizes c rounds (suc i) (add_size bytes (c.sizes.element k))

-- For `n = 0` the early return is the loop without a round.
unfoldable pub get_old_payload_bytes : Channel → ℕ → Result ℕ
get_old_payload_bytes c n = sum_sizes c n 0 0

unfoldable pub pop : Channel → ℕ → Result Channel
pop c n = do
  require (leb n c.consumer_counts.capacity) logic
  depth ← get_depth c.consumer_counts
  require (leb n depth) runtime
  bytes ← get_old_payload_bytes c n
  counts ← advance_tail c.consumer_counts n
  payloads ← advance_tail c.consumer_payloads bytes
  ok (record c {
    consumer_counts = counts;
    consumer_payloads = payloads;
    producer_counts = record c.producer_counts { tail = counts.tail };
    producer_payloads = record c.producer_payloads { tail = payloads.tail };
  })

unfoldable pub get_coordination_depth : Channel → Result ℕ
get_coordination_depth c = get_depth c.consumer_counts

unfoldable pub get_payload_depth : Channel → Result ℕ
get_payload_depth c = get_depth c.consumer_payloads

unfoldable pub is_empty : Channel → Result Bool
unfolding get_coordination_depth
is_empty c = do depth ← get_coordination_depth c; ok (depth == 0)
