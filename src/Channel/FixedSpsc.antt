-- ===== src/Channel/FixedSpsc.antt =====
-- include/hicr/frontends/channel/fixedSize/spsc: one producer and one consumer of tokens of one
-- size, over shared memory. A coordination buffer is the circular buffer whose counters it holds,
-- and a copy of one counter between two of them is an assignment of the field. Fences of a slot,
-- `flushReceived` and `queryMemorySlotUpdates` do nothing in this backend.
pub mod Inv
pub mod Tokens
pub mod Push
pub mod Pop
pub mod Create
pub mod Refine
pub mod Threads
mod Tests
use hi_cr.Prelude.{
  ℕ, zero, suc, ◌+◌, ◌%◌, ◌^◌, Bool, ltb, leb, if◌then◌else◌, add_size, mul_size, Result, ok, err,
  ◌>>=◌, ◌>>◌, require, Error, logic, runtime,
}
use hi_cr.Memory.{Slot, memcpy_global}
use hi_cr.Channel.CircularBuffer.{
  CircularBuffer, get_head_position, get_tail_position, get_depth, advance_head, advance_tail,
}

-- The token buffer of the consumer, and the circular buffer of each side.
pub record Spsc : Type 0 where
  pub token_size : ℕ
  pub token_buffer : Slot
  pub producer : CircularBuffer
  pub consumer : CircularBuffer

-- One round of the loop of `push`: the token `i` of the source goes to the head position.
unfoldable pub put_token : ℕ → Spsc → Slot → Result (Spsc × Slot)
put_token i c src = do
  (dst, src') ←
      memcpy_global c.token_buffer (mul_size c.token_size (get_head_position c.producer)) src
        (mul_size i c.token_size) c.token_size
  ok (record c { token_buffer = dst }, src')

-- The loop from index `i` on, with the rounds left.
unfoldable pub put_tokens : ℕ → ℕ → Spsc → Slot → Result (Spsc × Slot)
put_tokens zero i c src = ok (c, src)
put_tokens (suc rounds) i c src = do
  (c', src') ← put_token i c src
  put_tokens rounds (suc i) c' src'

-- The end of `push`: the producer's head moves, and is copied to the consumer.
unfoldable pub publish : ℕ → Spsc → Result Spsc
publish n c = do
  p ← advance_head c.producer n
  ok (record c { producer = p; consumer = record c.consumer { head = p.head } })

unfoldable pub push : Spsc → Slot → ℕ → Result (Spsc × Slot)
push c src n = do
  require (leb (mul_size c.token_size n) src.size) logic
  depth ← get_depth c.producer
  require (leb (add_size depth n) c.producer.capacity) runtime
  (c', src') ← put_tokens n 0 c src
  c'' ← publish n c'
  ok (c'', src')

-- The position of a token in the token buffer.
unfoldable pub peek : Spsc → ℕ → Result ℕ
peek c pos = do
  require (ltb pos c.consumer.capacity) logic
  depth ← get_depth c.consumer
  require (ltb pos depth) runtime
  ok (add_size (get_tail_position c.consumer) pos % c.consumer.capacity)

-- The consumer's tail moves, and is copied to the producer.
unfoldable pub pop : Spsc → ℕ → Result Spsc
pop c n = do
  require (leb n c.consumer.capacity) logic
  depth ← get_depth c.consumer
  require (leb n depth) runtime
  q ← advance_tail c.consumer n
  ok (record c { consumer = q; producer = record c.producer { tail = q.tail } })
