-- ===== src/Channel/FixedSpsc/Create.antt =====
-- The constructors of the producer and of the consumer, joined into the channel that they share.
use hi_cr.Prelude.{
  ℕ, ◌*◌, ◌^◌, ◌≡◌, ◌≤◌, ◌<◌, [], Option, none, some, leb, Result, ok, err, ◌>>=◌, ◌>>◌, require,
  logic, arith,
}
use hi_cr.Memory.{Slot}
use hi_cr.Channel.CircularBuffer.{CircularBuffer}
use hi_cr.Channel.Base.{
  CoordinationBuffer, initialize_coordination_buffer, create_base, token_buffer_size,
}
use hi_cr.Channel.FixedSpsc.{Spsc}
use hi_cr.Channel.FixedSpsc.Inv.{IsValid, contents}

unfoldable pub create_producer : CoordinationBuffer → ℕ → ℕ → Result CircularBuffer
create_producer b token_size capacity = create_base b token_size capacity

-- `none` is a token buffer whose slot is not local.
local_slot : Option Slot → Result Slot
local_slot none = err logic
local_slot (some s) = ok s

unfoldable pub create_consumer :
    Option Slot → CoordinationBuffer → ℕ → ℕ → Result (CircularBuffer × Slot)
unfolding local_slot
create_consumer token_buffer b token_size capacity = do
  q ← create_base b token_size capacity
  slot ← local_slot token_buffer
  require (leb (token_buffer_size token_size capacity) slot.size) logic
  ok (q, slot)

-- Both sides initialise their coordination buffers, then construct their ends.
unfoldable pub create : Option Slot → CoordinationBuffer → CoordinationBuffer → ℕ → ℕ → Result Spsc
create token_buffer producer_buffer consumer_buffer token_size capacity = do
  pb ← initialize_coordination_buffer producer_buffer
  cb ← initialize_coordination_buffer consumer_buffer
  p ← create_producer pb token_size capacity
  (q, slot) ← create_consumer token_buffer cb token_size capacity
  ok (record { token_size = token_size; token_buffer = slot; producer = p; consumer = q })

-- Where the bytes of the tokens and of the token buffer can be counted in 64 bits and the
-- capacity is at most 2 ^ 63, a channel that the constructors accept is valid and empty, with the
-- capacity and token size asked for.
pub create-IsValid :
    (t : Option Slot) (pb cb : CoordinationBuffer) (token_size capacity : ℕ) {c : Spsc}
    → create t pb cb token_size capacity ≡ ok c
    → token_size * capacity < 2 ^ 64
    → capacity ≤ 2 ^ 63
    → c.token_buffer.size < 2 ^ 64
    → IsValid c × (contents c ≡ []) × (c.consumer.capacity ≡ capacity) × (c.token_size ≡ token_size)
unfolding create create_producer create_consumer create_base initialize_coordination_buffer
    token_buffer_size
create-IsValid t pb cb token_size capacity e w half word = ground arith
