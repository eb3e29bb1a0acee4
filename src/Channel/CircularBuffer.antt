-- ===== src/Channel/CircularBuffer.antt =====
-- include/hicr/frontends/channel/circularBuffer.hpp. The two counters, which the source reaches
-- through pointers into a coordination buffer, are fields. The getters are `noexcept`: a fatal
-- exception raised below one ends the process, which is `err fatal` here as well.
pub mod Inv
mod Tests
use hi_cr.Prelude.{
  ℕ, ◌+◌, ◌-◌, ◌%◌, ◌^◌, Bool, ltb, leb, ◌==◌, add_size, sub_size, Result, ok, ◌>>=◌, ◌>>◌, require,
  not, Error, fatal, if◌then◌else◌, err,
}

pub record CircularBuffer : Type 0 where
  pub capacity : ℕ
  pub head : ℕ
  pub tail : ℕ

-- `getHeadPosition`, `getTailPosition`
unfoldable pub get_head_position : CircularBuffer → ℕ
get_head_position b = b.head % b.capacity

unfoldable pub get_tail_position : CircularBuffer → ℕ
get_tail_position b = b.tail % b.capacity

unfoldable pub calculate_depth : ℕ → ℕ → Result ℕ
calculate_depth head tail = if ltb head tail then err fatal else ok (head - tail)

unfoldable pub get_depth : CircularBuffer → Result ℕ
unfolding calculate_depth
get_depth b = calculate_depth b.head b.tail

unfoldable pub advance_head : CircularBuffer → ℕ → Result CircularBuffer
unfolding get_depth
advance_head b n = do
  depth ← get_depth b
  let new_depth = add_size depth n
  if ltb b.capacity new_depth then err fatal else ok (record b { head = add_size b.head n })

unfoldable pub advance_tail : CircularBuffer → ℕ → Result CircularBuffer
unfolding get_depth
advance_tail b n = do
  depth ← get_depth b
  if ltb depth n then err fatal else ok (record b { tail = add_size b.tail n })

unfoldable pub is_full : CircularBuffer → Result Bool
unfolding get_depth
is_full b = do depth ← get_depth b; ok (depth == b.capacity)

unfoldable pub is_empty : CircularBuffer → Bool
is_empty b = b.head == b.tail
