-- ===== src/Rpc/Returning.antt =====
-- `initializeReturnValueChannels` of include/hicr/frontends/RPCEngine/RPCEngine.hpp: the channel of an
-- instance for its return values, over newly allocated slots, and the end of another instance, which
-- finds the buffers by their tags; and the first value on it.
mod Tests
use hi_cr.Prelude.{
  ℕ, ◌+◌, ◌^◌, ◌≡◌, ◌≤◌, ◌<◌, List, [], ◌∷◌, ◌++◌, Option, some, refl, arith, ok, Result, replicate,
  false, ◌*◌, inl, inr,
}
use hi_cr.Memory.{Slot, read}
use hi_cr.Channel.Base.{token_buffer_size, initialize_coordination_buffer, create_base}
use hi_cr.Channel.VariableSpsc.{SizeBuffer}
use hi_cr.Channel.VariableSpsc.Create.{Side, create_side, create_variable_base, fresh}
use hi_cr.Channel.VariableLocking.{Mpsc, Producer}
use hi_cr.Channel.VariableLocking.Create.{create_consumer, create_producer}
use hi_cr.Channel.VariableLocking.Inv.{IsValid, contents}
use hi_cr.Rpc.{submit_return_value}
use hi_cr.Rpc.Start.{Garbage, allocated_buffer, count_capacity}
use hi_cr.Rpc.Answer.{await_return_value, value_returns}

-- `_HICR_RPC_ENGINE_CHANNEL_PAYLOAD_CAPACITY`
abbrev pub payload_capacity : ℕ
payload_capacity = 1048576

-- The coordination buffers of a side, for the counts and for the payloads.
abbrev buffers : Garbage → Garbage → Side
buffers counts payloads = (allocated_buffer counts, allocated_buffer payloads)

abbrev payload_buffer : (ℕ → ℕ) → Slot
payload_buffer bytes = record {
  size = payload_capacity;
  byte = bytes;
  messages_recv = 0;
  messages_sent = 0;
}

unfoldable pub make_return_consumer : (ℕ → ℕ) → (ℕ → ℕ) → Garbage → Garbage → Result Mpsc
make_return_consumer bytes sizes counts payloads =
    create_consumer (payload_buffer bytes)
      (record { size = token_buffer_size 8 count_capacity; element = sizes })
      (buffers counts payloads) count_capacity payload_capacity

unfoldable pub make_return_producer : Garbage → Garbage → Result Producer
make_return_producer counts payloads =
    create_producer (buffers counts payloads) count_capacity payload_capacity 1

abbrev made_channel : (ℕ → ℕ) → (ℕ → ℕ) → Mpsc
made_channel bytes sizes = record {
  payload = payload_buffer bytes;
  sizes = record { size = 8 * count_capacity; element = sizes };
  counts = fresh count_capacity;
  payloads = fresh payload_capacity;
  locked = false;
}

abbrev made_producer : Producer
made_producer = record {
  own_counts = fresh count_capacity;
  own_payloads = fresh payload_capacity;
  payload_size = 1;
}

make_consumer_ok :
    (bytes sizes : ℕ → ℕ) (counts payloads : Garbage)
    → make_return_consumer bytes sizes counts payloads ≡ ok (made_channel bytes sizes)
unfolding make_return_consumer create_consumer create_side create_variable_base create_base
    initialize_coordination_buffer token_buffer_size
make_consumer_ok bytes sizes counts payloads = refl

make_producer_ok :
    (counts payloads : Garbage) → make_return_producer counts payloads ≡ ok made_producer
unfolding make_return_producer create_producer create_side create_variable_base create_base
    initialize_coordination_buffer
make_producer_ok counts payloads = refl

made_channel-IsValid : (bytes sizes : ℕ → ℕ) → IsValid (made_channel bytes sizes)
made_channel-IsValid bytes sizes = record {
  free = refl;
  counts = ground arith;
  payloads = ground arith;
  half = omega arith;
  payload_half = omega arith;
  room = omega arith;
  word = omega arith;
  sizes = omega arith;
  exact = refl;
}

-- The channel for return values can be made, whatever the memory held before, and the first value on
-- it comes back whole: a value of at most the payload capacity is submitted, and a requester that
-- finds the channel empty for n rounds and then looks again gets a slot with the bytes of the value
-- and has a valid and empty channel.
pub first_value_returns :
    (garbage garbage' bytes sizes : ℕ → ℕ) (counts payloads own_counts own_payloads : Garbage)
    (n : ℕ) (source : Slot)
    → source.size ≤ payload_capacity
    → (c c' : Mpsc) × (p p' : Producer) × (out : Slot × Mpsc) × (make_return_consumer bytes sizes
          counts payloads
        ≡ ok c)
      × (make_return_producer own_counts own_payloads ≡ ok p)
      × (submit_return_value garbage c p source ≡ ok (c', p'))
      × (await_return_value garbage' (replicate n c ++ (c' ∷ [])) ≡ ok (some out))
      × (read out.0.byte 0 out.0.size ≡ read source.byte 0 source.size)
      × IsValid out.1
      × (contents out.1 ≡ [])
first_value_returns garbage garbage' bytes sizes counts payloads own_counts own_payloads n source
      fits =
    let (c', p', submitted, result) =
      value_returns garbage garbage' n made_producer source (made_channel-IsValid bytes sizes) refl
        refl (record { counts = refl; payloads = refl }) fits (omega arith) (omega arith) in
    elim result [
      | inr (wraps, _) ↦ absurd (omega arith)
      | inl (_, out, got, same, v, left) ↦ (
        made_channel bytes sizes,
        c',
        made_producer,
        p',
        out,
        make_consumer_ok bytes sizes counts payloads,
        make_producer_ok own_counts own_payloads,
        submitted,
        got,
        same,
        v,
        left,
      )
    ]
