-- ===== src/Channel/VariableLocking/Pop.antt =====
-- What `pop` does to a valid channel, and what a failing `pop` leaves behind.
use hi_cr.Prelude.{
  ℕ, ◌+◌, ◌-◌, ◌%◌, ◌≡◌, ◌≤◌, ◌<◌, ◌⊎◌, inl, inr, refl, arith, ok, err, logic, runtime, dec_le,
  drop, sym, Error, true, false,
}
use hi_cr.Memory.{Slot}
use hi_cr.Channel.CircularBuffer.{get_depth, get_tail_position, advance_tail}
use hi_cr.Channel.Region.{total, total-append, drop-messages}
use hi_cr.Channel.VariableLocking.{
  Mpsc, Producer, push, remove, pop, get_old_payload_bytes, get_new_payload_bytes,
}
use hi_cr.Channel.VariableLocking.Bytes.{old_new_bytes}
use hi_cr.Channel.VariableLocking.Ring.{ring}
use hi_cr.Channel.VariableLocking.Inv.{IsValid, depth, bytes_of, contents}

-- The bytes of the oldest message and of the `k` that follow it.
bytes_first :
    (c : Mpsc) (n k : ℕ)
    → n ≡ 1 + k
    → bytes_of c n
      ≡ c.sizes.element (c.counts.tail % c.counts.capacity)
        + total c.sizes.element c.counts.capacity (c.counts.tail + 1) k
bytes_first c n k e = omega (
  arith,
  total-append c.sizes.element c.counts.capacity c.counts.tail 1 k n (c.counts.tail + 1) e refl,
)

bytes_parts :
    (c : Mpsc) (n : ℕ)
    → n ≤ depth c
    → bytes_of c (depth c)
      ≡ bytes_of c n
        + total c.sizes.element c.counts.capacity
            (c.counts.tail + n)
            (c.counts.head - (c.counts.tail + n))
bytes_parts c n h =
    total-append c.sizes.element c.counts.capacity c.counts.tail n
      (c.counts.head - (c.counts.tail + n)) (depth c) (c.counts.tail + n) (omega arith) refl

-- The channel after a pop of `n` messages.
abbrev pub popped : ℕ → Mpsc → Mpsc
popped n c = record c {
  counts = record c.counts { tail = c.counts.tail + n };
  payloads = record c.payloads {
    tail = c.payloads.tail + c.sizes.element (c.counts.tail % c.counts.capacity);
  };
}

pub pop_ok : {c : Mpsc} (n : ℕ) → IsValid c → 0 < n → n ≤ depth c → pop c n ≡ (popped n c, ok true)
unfolding pop remove get_depth get_tail_position advance_tail
pop_ok {c} n v h h' = ground (arith, v, bytes_first c n (n - 1) (omega arith), bytes_parts c n h')

-- A pop of n messages, from one to the depth, of a valid channel moves the tail of the counts by n,
-- but the payload counters stay apart by the bytes of the messages left and of all removed messages
-- except the oldest. The bytes of the oldest n and of the newest depth - n messages, which the
-- channel can count, add up to the payload depth before the pop.
pub pop_bytes :
    {c : Mpsc} (n : ℕ)
    → IsValid c
    → 0 < n
    → n ≤ depth c
    → ((c' : Mpsc) × (pop c n ≡ (c', ok true))
        × (depth c' + n ≡ depth c)
        × (c'.payloads.head - c'.payloads.tail
            ≡ bytes_of c' (depth c')
              + total c.sizes.element c.counts.capacity (c.counts.tail + 1) (n - 1)))
      × ((old new : ℕ) × (get_old_payload_bytes c n ≡ ok old)
          × (get_new_payload_bytes c (depth c - n) ≡ ok new)
          × (old + new ≡ c.payloads.head - c.payloads.tail))
pop_bytes {c} n v h h' = (
  (
    popped n c,
    pop_ok n v h h',
    omega arith,
    omega (arith, bytes_first c n (n - 1) (omega arith), bytes_parts c n h', v.exact),
  ),
  old_new_bytes n v h',
)

pub popped-IsValid : {c : Mpsc} → IsValid c → 1 ≤ depth c → IsValid (popped 1 c)
popped-IsValid {c} v h = record {
  free = v.free;
  counts = ground (arith, v.counts);
  payloads =
      ground (arith, v.payloads, v.exact, bytes_parts c 1 h, bytes_first c 1 0 (omega arith));
  half = v.half;
  payload_half = v.payload_half;
  room = v.room;
  word = v.word;
  sizes = v.sizes;
  exact = omega (arith, v.exact, bytes_parts c 1 h, bytes_first c 1 0 (omega arith));
}

-- Popping one message of a valid channel removes the oldest message and its bytes, keeps the
-- channel valid and gives the lock back where it holds one; on an empty channel it is a runtime
-- error, and the lock stays taken.
pub pop_one :
    {c : Mpsc}
    → IsValid c
    → ((0 < depth c)
        × ((c' : Mpsc) × (pop c 1 ≡ (c', ok true))
            × IsValid c'
            × (contents c' ≡ drop 1 (contents c))))
      ⊎ ((depth c ≡ 0) × (pop c 1 ≡ (record c { locked = true }, err runtime)))
unfolding pop remove get_depth
pop_one {c} v = elim (dec_le 1 (depth c)) [
  | yes h ↦ inl (
    omega arith,
    (
      popped 1 c,
      pop_ok 1 v (omega arith) h,
      popped-IsValid v h,
      sym (
          drop-messages (ring c.payload.byte c.payloads.capacity) c.sizes.element c.counts.capacity
            c.counts.tail c.payloads.tail 1 (c.counts.head - (c.counts.tail + 1)) (depth c)
            (c.counts.tail + 1)
            (c.payloads.tail + c.sizes.element (c.counts.tail % c.counts.capacity)) (omega arith)
            refl (omega arith)),
    ),
  )
  | no h ↦ inr (omega arith, ground (arith, v))
]

pop_refused :
    {c : Mpsc} (n : ℕ)
    → IsValid c
    → depth c < n
    → (e : Error) × (pop c n ≡ (record c { locked = true }, err e))
unfolding pop remove get_depth
pop_refused {c} n v h = elim (dec_le n c.counts.capacity) [
  | yes h' ↦ (runtime, ground (arith, v))
  | no h' ↦ (logic, ground (arith, v))
]

-- A pop of more messages than a valid channel holds throws and leaves the lock taken, after which
-- every push of a message and every pop, by whichever party, does nothing and returns false.
pub pop_leaks_lock :
    {c : Mpsc} (n : ℕ) (p : Producer) (src : Slot) (k : ℕ)
    → IsValid c
    → depth c < n
    → (c' : Mpsc) × ((e : Error) × (pop c n ≡ (c', err e)))
      × (push c' p src 1 ≡ ok (false, c', p, src))
      × (pop c' k ≡ (c', ok false))
unfolding pop push
pop_leaks_lock {c} n p src k v h =
    (record c { locked = true }, pop_refused n v h, ground arith, ground arith)
