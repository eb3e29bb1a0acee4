-- ===== src/Channel/Base.antt =====
-- include/hicr/frontends/channel/base.hpp: the coordination buffer and the constructor that every
-- channel shares (include/hicr/frontends/channel/fixedSize/base.hpp adds nothing to it).
use hi_cr.Prelude.{ℕ, leb, ◌==◌, not, mul_size, Result, ok, ◌>>◌, require, logic}
use hi_cr.Channel.CircularBuffer.{CircularBuffer}

-- A local memory slot of `size` bytes that begins with the two counters.
pub record CoordinationBuffer : Type 0 where
  pub size : ℕ
  pub head : ℕ
  pub tail : ℕ

-- Two elements of eight bytes.
abbrev pub coordination_buffer_size : ℕ
coordination_buffer_size = 16

unfoldable pub initialize_coordination_buffer : CoordinationBuffer → Result CoordinationBuffer
initialize_coordination_buffer b = do
  require (leb coordination_buffer_size b.size) logic
  ok (record b { head = 0; tail = 0 })

unfoldable pub token_buffer_size : ℕ → ℕ → ℕ
token_buffer_size token_size capacity = mul_size token_size capacity

-- The circular buffer that the constructor sets up over the coordination buffer.
unfoldable pub create_base : CoordinationBuffer → ℕ → ℕ → Result CircularBuffer
create_base b token_size capacity = do
  require (not (token_size == 0)) logic
  require (not (capacity == 0)) logic
  require (leb coordination_buffer_size b.size) logic
  ok (record { capacity = capacity; head = b.head; tail = b.tail })
