-- ===== src/Channel/CircularBuffer/Inv.antt =====
-- The invariant of a circular buffer, and what its operations do on every branch.
use hi_cr.Prelude.{
  dec_le, inl, inr, ℕ, ◌+◌, ◌-◌, ◌^◌, ◌≡◌, ◌≤◌, ◌<◌, true, arith, ok, err, fatal, ◌⊎◌, ◌↔◌,
}
use hi_cr.Channel.CircularBuffer.{
  CircularBuffer, get_head_position, get_tail_position, get_depth, advance_head, advance_tail,
  is_full, is_empty,
}

-- The tail does not pass the head, nor the head the tail by more than the capacity.
pub record IsValid (b : CircularBuffer) : Type 0 where
  pub nonempty : 0 < b.capacity
  pub ordered : b.tail ≤ b.head
  pub within : b.head ≤ b.tail + b.capacity
  pub word : b.head < 2 ^ 64

-- The depth of a valid buffer is the distance of its counters, at most the capacity.
pub get_depth_lem : {b : CircularBuffer} → IsValid b → get_depth b ≡ ok (b.head - b.tail)
unfolding get_depth
get_depth_lem v = ground arith

-- Both positions of a valid buffer lie inside the buffer.
pub positions_in_range :
    {b : CircularBuffer}
    → IsValid b
    → (get_head_position b < b.capacity) × (get_tail_position b < b.capacity)
unfolding get_head_position get_tail_position
positions_in_range v = omega arith

-- As long as the head counter does not wrap, advancing the head of a valid buffer by `n` either
-- fits the capacity, moves the head alone and keeps the buffer valid, or exceeds it and is fatal.
pub advance_head_lem :
    {b : CircularBuffer} (n : ℕ)
    → IsValid b
    → b.head + n < 2 ^ 64
    → ((b.head + n ≤ b.tail + b.capacity)
        × (advance_head b n ≡ ok (record b { head = b.head + n }))
        × IsValid (record b { head = b.head + n }))
      ⊎ ((b.tail + b.capacity < b.head + n) × (advance_head b n ≡ err fatal))
unfolding advance_head
advance_head_lem {b} n v w = elim (dec_le (b.head + n) (b.tail + b.capacity)) [
  | yes h ↦ inl (h, ground arith, ground arith)
  | no h ↦ inr (omega arith, ground arith)
]

-- Advancing the tail of a valid buffer by n < 2 ^ 64 either takes no more than the depth, moves
-- the tail alone and keeps the buffer valid, or takes more than the depth and is fatal.
pub advance_tail_lem :
    {b : CircularBuffer} (n : ℕ)
    → IsValid b
    → n < 2 ^ 64
    → ((n ≤ b.head - b.tail)
        × (advance_tail b n ≡ ok (record b { tail = b.tail + n }))
        × IsValid (record b { tail = b.tail + n }))
      ⊎ ((b.head - b.tail < n) × (advance_tail b n ≡ err fatal))
unfolding advance_tail
advance_tail_lem {b} n v w = elim (dec_le n (b.head - b.tail)) [
  | yes h ↦ inl (h, ground arith, ground arith)
  | no h ↦ inr (omega arith, ground arith)
]

-- On a valid buffer, full means that the depth is the capacity and empty that it is 0, and never
-- both hold.
pub full_empty :
    {b : CircularBuffer}
    → IsValid b
    → ((is_full b ≡ ok true) ↔ (b.head ≡ b.tail + b.capacity))
      × ((is_empty b ≡ true) ↔ (b.head ≡ b.tail))
      × ¬ ((is_full b ≡ ok true) × (is_empty b ≡ true))
unfolding is_full is_empty
full_empty v = ground arith

-- What the operations do to a valid buffer: advancing the head by n, without a wrap of its counter,
-- or the tail by k < 2 ^ 64 moves that counter alone and keeps the buffer valid, or is fatal where
-- the depth would exceed the capacity or fall below 0; full means that the depth is the capacity
-- and empty that it is 0, and never both hold.
pub operations_lem :
    {b : CircularBuffer} (n k : ℕ)
    → IsValid b
    → b.head + n < 2 ^ 64
    → k < 2 ^ 64
    → (((b.head + n ≤ b.tail + b.capacity)
          × (advance_head b n ≡ ok (record b { head = b.head + n }))
          × IsValid (record b { head = b.head + n }))
        ⊎ ((b.tail + b.capacity < b.head + n) × (advance_head b n ≡ err fatal)))
      × (((k ≤ b.head - b.tail)
            × (advance_tail b k ≡ ok (record b { tail = b.tail + k }))
            × IsValid (record b { tail = b.tail + k }))
          ⊎ ((b.head - b.tail < k) × (advance_tail b k ≡ err fatal)))
      × ((is_full b ≡ ok true) ↔ (b.head ≡ b.tail + b.capacity))
      × ((is_empty b ≡ true) ↔ (b.head ≡ b.tail))
      × ¬ ((is_full b ≡ ok true) × (is_empty b ≡ true))
operations_lem n k v w w' =
    let (full, empty, never) = full_empty v in
    (advance_head_lem n v w, advance_tail_lem k v w', full, empty, never)
