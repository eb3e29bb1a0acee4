-- ===== src/Channel/LockingMpsc.antt =====
-- include/hicr/frontends/channel/fixedSize/mpsc/locking: several producers and one consumer of
-- tokens of one size. All of them work on the coordination buffer of the consumer, under its global
-- lock, which is only tried. A producer first copies that buffer over its own, so of its own
-- circular buffer only the capacity counts.
pub mod Batch
pub mod Calls
mod Tests
use hi_cr.Prelude.{
  ℕ, zero, suc, ◌%◌, Bool, true, false, Option, none, some, ltb, leb, if◌then◌else◌, add_size,
  mul_size, Result, ok, ◌>>=◌, ◌>>◌, require, logic,
}
use hi_cr.Memory.{Slot}
use hi_cr.Channel.CircularBuffer.{
  CircularBuffer, get_depth, get_tail_position, advance_head, advance_tail,
}
use hi_cr.Channel.FixedSpsc.{Spsc, put_token}

pub record Mpsc : Type 0 where
  pub token_size : ℕ
  pub token_buffer : Slot
  pub consumer : CircularBuffer
  pub locked : Bool

-- `acquireGlobalLock`, which tries the mutex of the slot, and `releaseGlobalLock`.
unfoldable pub acquire_global_lock : Mpsc → Option Mpsc
acquire_global_lock c = if c.locked then none else some (record c { locked = true })

unfoldable pub release_global_lock : Mpsc → Mpsc
release_global_lock c = record c { locked = false }

-- The copy of the consumer's coordination buffer over the producer's, which then has the channel
-- for itself.
unfoldable pub load : Mpsc → CircularBuffer → Spsc
load c p = record {
  token_size = c.token_size;
  token_buffer = c.token_buffer;
  producer = record p { head = c.consumer.head; tail = c.consumer.tail };
  consumer = c.consumer;
}

-- The copy of the producer's coordination buffer over the consumer's.
unfoldable pub store : Spsc → Mpsc → Mpsc
store s c = record c {
  token_buffer = s.token_buffer;
  consumer = record c.consumer { head = s.producer.head; tail = s.producer.tail };
}

-- One round of the loop of `push`, at whose end the head moves.
unfoldable pub put_round : ℕ → Spsc → Slot → Result (Spsc × Slot)
put_round i s src = do
  (s', src') ← put_token i s src
  p ← advance_head s'.producer 1
  ok (record s' { producer = p }, src')

-- The loop from index `i` on, with the rounds left.
unfoldable pub put_rounds : ℕ → ℕ → Spsc → Slot → Result (Spsc × Slot)
put_rounds zero i s src = ok (s, src)
put_rounds (suc rounds) i s src = do
  (s', src') ← put_round i s src
  put_rounds rounds (suc i) s' src'

-- `push`, with the lock held.
push_locked : Mpsc → CircularBuffer → Slot → ℕ → Result (Bool × Mpsc × CircularBuffer × Slot)
unfolding load store release_global_lock
push_locked c p src n = do
  let s = load c p
  depth ← get_depth s.producer
  if leb (add_size depth n) s.producer.capacity
      then (do
        (s', src') ← put_rounds n 0 s src
        ok (true, release_global_lock (store s' c), s'.producer, src'))
      else ok (false, release_global_lock c, s.producer, src)

unfoldable pub push :
    Mpsc → CircularBuffer → Slot → ℕ → Result (Bool × Mpsc × CircularBuffer × Slot)
unfolding acquire_global_lock push_locked
push c p src n = do
  require (leb (mul_size c.token_size n) src.size) logic
  elim (acquire_global_lock c) [ none ↦ ok (false, c, p, src) | some c' ↦ push_locked c' p src n ]

-- The position of a token, or `none` for the `-1` of the source.
unfoldable pub peek : Mpsc → ℕ → Result (Option ℕ × Mpsc)
unfolding acquire_global_lock release_global_lock
peek c pos = do
  require (ltb pos c.consumer.capacity) logic
  elim (acquire_global_lock c) [
    | none ↦ ok (none, c)
    | some c' ↦ do
      depth ← get_depth c'.consumer
      ok (
        if ltb pos depth
            then some (add_size (get_tail_position c'.consumer) pos % c'.consumer.capacity)
            else none,
        release_global_lock c',
      )
  ]

unfoldable pub pop : Mpsc → ℕ → Result (Bool × Mpsc)
unfolding acquire_global_lock release_global_lock
pop c n = do
  require (leb n c.consumer.capacity) logic
  elim (acquire_global_lock c) [
    | none ↦ ok (false, c)
    | some c' ↦ do
      depth ← get_depth c'.consumer
      if leb n depth
          then (do
            q ← advance_tail c'.consumer n
            ok (true, release_global_lock (record c' { consumer = q })))
          else ok (false, release_global_lock c')
  ]
