-- ===== src/Channel/VariableLocking.antt =====
-- include/hicr/frontends/channel/variableSize/mpsc/locking: several producers and one consumer of
-- messages of any size. All of them work on the two coordination buffers of the consumer under the
-- lock of the first, which is only tried. A message may wrap around in the payload buffer, which is
-- exactly as large as its capacity.
pub mod Ring
pub mod Inv
pub mod Chunks
pub mod Push
pub mod Pop
pub mod Peek
pub mod Bytes
pub mod Create
mod Tests
use hi_cr.Prelude.{
  ℕ, zero, suc, ◌-◌, ◌/◌, ◌%◌, Bool, true, false, Option, none, some, ltb, leb, ◌==◌, ◌&&◌,
  if◌then◌else◌, add_size, sub_size, Result, ok, err, ◌>>=◌, ◌>>◌, require, logic, runtime, fatal,
}
use hi_cr.Memory.{Slot, memcpy_global}
use hi_cr.Channel.CircularBuffer.{
  CircularBuffer, get_head_position, get_tail_position, get_depth, advance_head, advance_tail,
}
use hi_cr.Channel.VariableSpsc.{SizeBuffer, put_size}

-- What the consumer holds, and the lock.
pub record Mpsc : Type 0 where
  pub payload : Slot
  pub sizes : SizeBuffer
  pub counts : CircularBuffer
  pub payloads : CircularBuffer
  pub locked : Bool

-- What a producer holds: its own circular buffers, and the size of the data type.
pub record Producer : Type 0 where
  pub own_counts : CircularBuffer
  pub own_payloads : CircularBuffer
  pub payload_size : ℕ

-- `acquireGlobalLock`, which tries the mutex of the slot, and `releaseGlobalLock`.
unfoldable pub acquire_global_lock : Mpsc → Option Mpsc
acquire_global_lock c = if c.locked then none else some (record c { locked = true })

unfoldable pub release_global_lock : Mpsc → Mpsc
release_global_lock c = record c { locked = false }

-- The copies of both coordination buffers of the consumer over the producer's.
unfoldable pub update_depth : Mpsc → Producer → Producer
update_depth c p = record p {
  own_counts = record p.own_counts { head = c.counts.head; tail = c.counts.tail };
  own_payloads = record p.own_payloads { head = c.payloads.head; tail = c.payloads.tail };
}

-- The copy of the message, in two chunks where it runs past the end of the payload buffer.
unfoldable pub put_payload : Slot → CircularBuffer → Slot → Result (Slot × Slot)
put_payload payload payloads src = do
  let pos = get_head_position payloads
  if ltb payloads.capacity (add_size src.size pos)
      then (do
        let first_chunk = payloads.capacity - pos
        let second_chunk = src.size - first_chunk
        (payload', src') ← memcpy_global payload pos src 0 first_chunk
        memcpy_global payload' 0 src' first_chunk second_chunk)
      else memcpy_global payload pos src 0 src.size

-- The part of `push` after the two checks.
unfoldable pub put_message : Mpsc → Producer → Slot → Result (Bool × Mpsc × Producer × Slot)
unfolding release_global_lock
put_message c p src = do
  sizes ← put_size c.sizes (get_head_position p.own_counts) src.size
  (payload, src') ← put_payload c.payload p.own_payloads src
  counts ← advance_head p.own_counts 1
  payloads ← advance_head p.own_payloads src.size
  ok (
    true,
    release_global_lock (record c {
      payload = payload;
      sizes = sizes;
      counts = record c.counts { head = counts.head };
      payloads = record c.payloads { head = payloads.head };
    }),
    record p { own_counts = counts; own_payloads = payloads },
    src',
  )

-- The part of `push` after the update of the depths.
unfoldable pub push_locked : Mpsc → Producer → Slot → Result (Bool × Mpsc × Producer × Slot)
unfolding release_global_lock
push_locked c p src = do
  payload_depth ← get_depth p.own_payloads
  if ltb p.own_payloads.capacity (add_size payload_depth src.size)
      then ok (false, release_global_lock c, p, src)
      else (do
        depth ← get_depth p.own_counts
        if ltb p.own_counts.capacity (add_size depth 1)
            then ok (false, release_global_lock c, p, src)
            else put_message c p src)

-- An exception below the lock, which a failing copy would raise, is not followed further.
unfoldable pub push : Mpsc → Producer → Slot → ℕ → Result (Bool × Mpsc × Producer × Slot)
unfolding acquire_global_lock update_depth
push c p src n = do
  require (n == 1) runtime
  elim (acquire_global_lock c) [
    | none ↦ ok (false, c, p, src)
    | some c' ↦ push_locked c' (update_depth c' p) src
  ]

unfoldable pub base_peek : Mpsc → ℕ → Result ℕ
base_peek c pos = do
  require (ltb pos c.counts.capacity) logic
  depth ← get_depth c.counts
  require (ltb pos depth) runtime
  ok (add_size (get_tail_position c.counts) pos % c.counts.capacity)

-- The starting position and the size of a message; this takes no lock.
unfoldable pub peek : Mpsc → ℕ → Result (ℕ × ℕ)
unfolding base_peek
peek c pos = do
  require (pos == 0) fatal
  depth ← get_depth c.counts
  require (ltb pos depth) runtime
  k ← base_peek c pos
  ok (get_tail_position c.payloads % c.payloads.capacity, c.sizes.element k)

-- The loop of `getOldPayloadBytes` from index `i` on, with the rounds left.
unfoldable pub sum_old : Mpsc → ℕ → ℕ → ℕ → Result ℕ
sum_old c zero i bytes = ok bytes
sum_old c (suc rounds) i bytes = do
  k ← base_peek c i
  sum_old c rounds (suc i) (add_size bytes (c.sizes.element k))

unfoldable pub get_old_payload_bytes : Mpsc → ℕ → Result ℕ
get_old_payload_bytes c n = sum_old c n 0 0

-- The loop of `getNewPayloadBytes`, which counts from the newest message.
unfoldable pub sum_new : Mpsc → ℕ → ℕ → ℕ → Result ℕ
sum_new c zero i bytes = ok bytes
sum_new c (suc rounds) i bytes = do
  depth ← get_depth c.counts
  k ← base_peek c (sub_size (sub_size depth 1) i)
  sum_new c rounds (suc i) (add_size bytes (c.sizes.element k))

unfoldable pub get_new_payload_bytes : Mpsc → ℕ → Result ℕ
get_new_payload_bytes c n = sum_new c n 0 0

-- The part of `pop` below the lock, up to its release. Only the size of the oldest message is read.
unfoldable pub remove : Mpsc → ℕ → Result Mpsc
remove c n = do
  require (leb n c.counts.capacity) logic
  depth ← get_depth c.counts
  require (leb n depth) runtime
  let bytes_oldest_entry = c.sizes.element (get_tail_position c.counts)
  counts ← advance_tail c.counts n
  payloads ← advance_tail c.payloads bytes_oldest_entry
  ok (record c { counts = counts; payloads = payloads })

-- An exception leaves the lock as it is: taken. (A fatal one of `advanceTail` ends the process.)
unfoldable pub pop : Mpsc → ℕ → Mpsc × Result Bool
unfolding acquire_global_lock release_global_lock
pop c n = elim (acquire_global_lock c) [
  | none ↦ (c, ok false)
  | some c' ↦ elim (remove c' n) [
    | err e ↦ (c', err e)
    | ok c'' ↦ (release_global_lock c'', ok true)
  ]
]

-- `Consumer::getDepth`, `Consumer::isEmpty`
unfoldable pub get_message_depth : Mpsc → Result ℕ
get_message_depth c = get_depth c.counts

unfoldable pub is_empty : Mpsc → Result Bool
unfolding get_message_depth
is_empty c = do depth ← get_message_depth c; ok (depth == 0)

-- `Producer::getPayloadDepth`, `Producer::getDepth`, `Producer::isEmpty`
unfoldable pub get_payload_depth : Producer → Result ℕ
get_payload_depth p = get_depth p.own_payloads

unfoldable pub get_producer_depth : Producer → Result ℕ
get_producer_depth p = do
  depth ← get_depth p.own_counts
  payload_depth ← get_depth p.own_payloads
  ok (if leb depth (payload_depth / p.payload_size) then depth else payload_depth / p.payload_size)

unfoldable pub is_producer_empty : Producer → Result Bool
is_producer_empty p = do
  depth ← get_depth p.own_counts
  payload_depth ← get_depth p.own_payloads
  ok ((depth == 0) && (payload_depth == 0))
