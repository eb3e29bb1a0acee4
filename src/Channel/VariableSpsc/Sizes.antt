-- ===== src/Channel/VariableSpsc/Sizes.antt =====
-- The token buffer after the size of one more message has been noted at the head position, for
-- every channel of messages of any size.
use native.Mathlib.Nat.{mod-lt}
use hi_cr.Prelude.{ℕ, ◌+◌, ◌-◌, ◌*◌, ◌%◌, ◌^◌, ◌≡◌, ◌≢◌, ◌≤◌, ◌<◌, arith, ok, if◌then◌else◌, ◌==◌}
use hi_cr.Channel.CircularBuffer.{CircularBuffer, get_head_position}
use hi_cr.Channel.CircularBuffer.Inv as Ring
use hi_cr.Channel.Window.{mod-ne}
use hi_cr.Channel.VariableSpsc.{SizeBuffer, put_size}
use hi_cr.Channel.Region.{total, total-eq, total-append}

abbrev pub noted : SizeBuffer → CircularBuffer → ℕ → SizeBuffer
noted b q z = record b { element = λ k. if k == q.head % q.capacity then z else b.element k }

pub put_size_lem :
    (b : SizeBuffer) (q : CircularBuffer) (z : ℕ)
    → Ring.IsValid q
    → q.capacity ≤ 2 ^ 60
    → 8 * q.capacity ≤ b.size
    → put_size b (get_head_position q) z ≡ ok (noted b q z)
unfolding put_size get_head_position
put_size_lem b q z v half room = ground (arith, mod-lt q.head v.nonempty)

-- The live messages keep their sizes where the channel is not full.
pub sizes_kept :
    (b : SizeBuffer) (q : CircularBuffer) (z : ℕ)
    → q.head < q.tail + q.capacity
    → (k : ℕ) → q.tail ≤ k
    → k < q.head
    → (noted b q z).element (k % q.capacity) ≡ b.element (k % q.capacity)
sizes_kept b q z room k lo hi =
    let ne : k % q.capacity ≢ q.head % q.capacity = mod-ne q.capacity k q.head hi (omega arith) in
    ground (arith, ne)

pub new_size :
    (b : SizeBuffer) (q : CircularBuffer) (z : ℕ) → (noted b q z).element (q.head % q.capacity) ≡ z
new_size b q z = ground arith

pub total_kept :
    (b : SizeBuffer) (q : CircularBuffer) (z : ℕ)
    → q.tail ≤ q.head
    → q.head < q.tail + q.capacity
    → total (noted b q z).element q.capacity q.tail (q.head - q.tail)
      ≡ total b.element q.capacity q.tail (q.head - q.tail)
total_kept b q z le room =
    total-eq b.element (noted b q z).element q.capacity q.tail (q.head - q.tail)
      (λ k lo hi. sizes_kept b q z room k lo (omega arith))

-- The bytes of the messages after a push of `z` bytes.
pub total_grown :
    (b : SizeBuffer) (q : CircularBuffer) (z : ℕ)
    → q.tail ≤ q.head
    → q.head < q.tail + q.capacity
    → total (noted b q z).element q.capacity q.tail (q.head + 1 - q.tail)
      ≡ total b.element q.capacity q.tail (q.head - q.tail) + z
total_grown b q z le room = omega (
  arith,
  total-append (noted b q z).element q.capacity q.tail (q.head - q.tail) 1 (q.head + 1 - q.tail)
      q.head (omega arith) (omega arith),
  total_kept b q z le room,
  new_size b q z,
)
