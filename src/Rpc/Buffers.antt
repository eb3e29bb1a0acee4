-- ===== src/Rpc/Buffers.antt =====
-- The buffers of the request channels in `initializeRPCChannels` of
-- include/hicr/frontends/RPCEngine/RPCEngine.hpp: each instance exchanges three local slots for each
-- other one, and finds those that its channels need by their keys. `slots id i` names the slot that the instance `id` allocates in round `i`.
use hi_cr.Prelude.{ℕ, zero, suc, List, [], ◌∷◌, ◌++◌, add_size, mul_size, Result, ok, ◌>>=◌}
use hi_cr.Registry.{
  Registry, GlobalSlot, insert, exchange_global_memory_slots, fence, get_global_memory_slot,
}

unfoldable pub slot_key : ℕ → ℕ → ℕ → ℕ
slot_key count id i = add_size (mul_size id count) i

-- The pairs of the first `n` rounds.
unfoldable pub slot_pairs : ℕ → ℕ → (ℕ → ℕ) → ℕ → List (ℕ × ℕ)
slot_pairs count id slots zero = []
slot_pairs count id slots (suc n) =
    slot_pairs count id slots n ++ ((slot_key count id n, slots n) ∷ [])

-- The exchange of one kind of buffer by the first `n` instances, whose fence ends it.
unfoldable pub exchange_all : ℕ → ℕ → (ℕ → ℕ → ℕ) → ℕ → Registry → Registry
exchange_all tag count slots zero r = r
exchange_all tag count slots (suc n) r = fence tag (
    exchange_global_memory_slots tag (slot_pairs count n (slots n) count)
      (exchange_all tag count slots n r))

unfoldable pub token_tag : ℕ → ℕ
token_tag base = add_size base 4

unfoldable pub producer_tag : ℕ → ℕ
producer_tag base = add_size base 5

unfoldable pub consumer_tag : ℕ → ℕ
consumer_tag base = add_size base 6

-- The three exchanges: token buffers, producer and consumer coordination buffers.
unfoldable pub exchange_buffers :
    ℕ → ℕ → (ℕ → ℕ → ℕ) → (ℕ → ℕ → ℕ) → (ℕ → ℕ → ℕ) → Registry → Registry
exchange_buffers base count tokens producers consumers r =
    exchange_all (consumer_tag base) count consumers count (
      exchange_all (producer_tag base) count producers count
        (exchange_all (token_tag base) count tokens count r))

-- The token buffer, the producer's and the consumer's coordination buffer of a channel.
pub record ChannelBuffers : Type 0 where
  pub token_buffer : GlobalSlot
  pub producer_buffer : GlobalSlot
  pub consumer_buffer : GlobalSlot

-- What the instance `id` finds for its channel from the producer `i`.
unfoldable pub consumer_buffers : Registry → ℕ → ℕ → ℕ → ℕ → Result ChannelBuffers
consumer_buffers r base count id i = do
  token ← get_global_memory_slot r (token_tag base) (slot_key count id i)
  producer ← get_global_memory_slot r (producer_tag base) (slot_key count i id)
  consumer ← get_global_memory_slot r (consumer_tag base) (slot_key count id i)
  ok (record { token_buffer = token; producer_buffer = producer; consumer_buffer = consumer })

-- What the instance `id` finds at the position `i` of its channels to the consumers.
unfoldable pub producer_buffers : Registry → ℕ → ℕ → ℕ → ℕ → Result ChannelBuffers
producer_buffers r base count id i = do
  token ← get_global_memory_slot r (token_tag base) (slot_key count i id)
  producer ← get_global_memory_slot r (producer_tag base) (slot_key count id i)
  consumer ← get_global_memory_slot r (consumer_tag base) (slot_key count i id)
  ok (record { token_buffer = token; producer_buffer = producer; consumer_buffer = consumer })

-- The channels of the instance `id` to the consumers at the first `n` positions of the list of
-- instances, each under the id of the instance that stands there.
unfoldable pub producer_channels :
    Registry → ℕ → ℕ → ℕ → (ℕ → ℕ) → ℕ → Result (List (ℕ × ChannelBuffers))
producer_channels r base count id ids zero = ok []
producer_channels r base count id ids (suc n) = do
  channels ← producer_channels r base count id ids n
  buffers ← producer_buffers r base count id n
  ok (insert (ids n) buffers channels)
