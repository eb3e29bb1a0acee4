-- ===== src/Channel/VariableSpsc/Create.antt =====
-- The constructors of include/hicr/frontends/channel/variableSize/base.hpp and of the producer and
-- the consumer, joined into the channel that they share.
use hi_cr.Prelude.{
  ℕ, ◌*◌, ◌^◌, ◌≡◌, ◌≤◌, ◌<◌, [], leb, not, ◌==◌, add_size, Result, ok, ◌>>=◌, ◌>>◌, require, logic,
  arith, refl,
}
use hi_cr.Memory.{Slot}
use hi_cr.Channel.CircularBuffer.{CircularBuffer}
use hi_cr.Channel.Base.{CoordinationBuffer, initialize_coordination_buffer, create_base}
use hi_cr.Channel.VariableSpsc.{SizeBuffer, Channel}
use hi_cr.Channel.VariableSpsc.Inv.{IsValid, contents}

-- The two circular buffers of one side. The payload capacity is not checked.
unfoldable pub create_variable_base :
    CoordinationBuffer → CoordinationBuffer → ℕ → ℕ → Result (CircularBuffer × CircularBuffer)
create_variable_base counts payloads capacity payload_capacity = do
  base ← create_base counts 8 capacity
  require (not (capacity == 0)) logic
  require (leb 32 (add_size payloads.size counts.size)) logic
  ok (
    record { capacity = capacity; head = counts.head; tail = counts.tail },
    record { capacity = payload_capacity; head = payloads.head; tail = payloads.tail },
  )

-- The coordination buffers of one side, for the counts and for the payloads.
abbrev pub Side : Type 0
Side = CoordinationBuffer × CoordinationBuffer

-- A side initialises its coordination buffers, then constructs its end.
unfoldable pub create_side : Side → ℕ → ℕ → Result (CircularBuffer × CircularBuffer)
create_side side capacity payload_capacity = do
  counts ← initialize_coordination_buffer side.0
  payloads ← initialize_coordination_buffer side.1
  create_variable_base counts payloads capacity payload_capacity

unfoldable pub create : Slot → SizeBuffer → Side → Side → ℕ → ℕ → Result Channel
create payload sizes producer consumer capacity payload_capacity = do
  (producer_counts, producer_payloads) ← create_side producer capacity payload_capacity
  (consumer_counts, consumer_payloads) ← create_side consumer capacity payload_capacity
  ok (record {
    payload = payload;
    sizes = sizes;
    producer_counts = producer_counts;
    producer_payloads = producer_payloads;
    consumer_counts = consumer_counts;
    consumer_payloads = consumer_payloads;
  })

-- The two circular buffers of a new side.
abbrev pub fresh : ℕ → CircularBuffer
fresh capacity = record { capacity = capacity; head = 0; tail = 0 }

-- What the initialisation and the constructor of a side need, and what they leave.
pub record Accepted (side : Side) (capacity : ℕ) : Type 0 where
  pub counts : 16 ≤ side.0.size
  pub payloads : 16 ≤ side.1.size
  pub counts_word : side.0.size < 2 ^ 63
  pub payloads_word : side.1.size < 2 ^ 63
  pub nonempty : 0 < capacity

pub create_side_lem :
    {side : Side} {capacity : ℕ} (payload_capacity : ℕ)
    → Accepted side capacity
    → create_side side capacity payload_capacity ≡ ok (fresh capacity, fresh payload_capacity)
unfolding create_side create_variable_base create_base initialize_coordination_buffer
create_side_lem {side} {capacity} payload_capacity a = ground (arith, a)

-- The constructors accept both sides of a channel whose coordination buffers hold the counters and
-- whose capacity is not 0, and make a valid and empty channel, where the payload capacity is not 0,
-- the payload slot holds twice that capacity, the token buffer holds a size for each message, and
-- the bounds of the counters hold.
pub create_variable :
    (payload : Slot) (sizes : SizeBuffer) (producer consumer : Side) (capacity payload_capacity : ℕ)
    → Accepted producer capacity
    → Accepted consumer capacity
    → 0 < payload_capacity
    → capacity ≤ 2 ^ 60
    → payload_capacity ≤ 2 ^ 62
    → 2 * payload_capacity ≤ payload.size
    → payload.size < 2 ^ 64
    → 8 * capacity ≤ sizes.size
    → (c : Channel) × (create payload sizes producer consumer capacity payload_capacity ≡ ok c)
      × IsValid c
      × (contents c ≡ [])
unfolding create
create_variable payload sizes producer consumer capacity payload_capacity a b pos half half' twice
      word enough =
    (
      record {
        payload = payload;
        sizes = sizes;
        producer_counts = fresh capacity;
        producer_payloads = fresh payload_capacity;
        consumer_counts = fresh capacity;
        consumer_payloads = fresh payload_capacity;
      },
      rw (create_side_lem payload_capacity a, create_side_lem payload_capacity b) refl,
      record {
        counts = ground (arith, a);
        payloads = ground arith;
        half = half;
        payload_half = half';
        twice = twice;
        word = word;
        sizes = enough;
        producer_counts = refl;
        producer_payloads = refl;
        exact = refl;
      },
      refl,
    )
