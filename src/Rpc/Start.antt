-- ===== src/Rpc/Start.antt =====
-- A fresh engine: the constructor of include/hicr/frontends/RPCEngine/RPCEngine.hpp and
-- `initializeRPCChannels`, and the first request. `Garbage` is what a slot holds before it is
-- initialized, and `past` what lies behind the last channel.
use hi_cr.Prelude.{
  ℕ, zero, suc, ◌*◌, ◌^◌, ◌≡◌, ◌≤◌, ◌<◌, List, [], some, refl, arith, ok, Result, ◌>>=◌, true, ◌∙◌,
  ap, subst, sym, ℕ_discrete,
}
use hi_cr.Compute.{PuState, Backend}
use hi_cr.Compute.Lifetime.{Works}
use hi_cr.Memory.{Slot}
use hi_cr.Registry.{Registry}
use hi_cr.Rpc.Buffers.{ChannelBuffers, exchange_buffers, consumer_buffers, producer_channels}
use hi_cr.Rpc.Ends.{consumer_end, channels_made}
use hi_cr.Channel.CircularBuffer.{CircularBuffer}
use hi_cr.Channel.Base.{
  CoordinationBuffer, coordination_buffer_size, initialize_coordination_buffer, create_base,
  token_buffer_size,
}
use hi_cr.Channel.FixedSpsc.{Spsc}
use hi_cr.Channel.FixedSpsc.Create.{create, create_producer, create_consumer, create-IsValid}
use hi_cr.Channel.NonlockingMpsc.{create_rounds, replace}
use hi_cr.Channel.NonlockingMpsc.Create.{create-IsIdle}
use hi_cr.Channel.NonlockingMpsc.Send.{IsIdle}
use hi_cr.Rpc.{Engine, add_rpc_target, request_rpc, has_pending_rpcs, parse_and_execute_rpc}
use hi_cr.Rpc.Roundtrip.{IsOpen, request_executes}

-- `_HICR_RPC_ENGINE_CHANNEL_COUNT_CAPACITY`
abbrev pub count_capacity : ℕ
count_capacity = 1024

-- `sizeof(RPCPayload_t)`
abbrev pub request_size : ℕ
request_size = 16

pub record Garbage : Type 0 where
  pub bytes : ℕ → ℕ
  pub head : ℕ
  pub tail : ℕ

abbrev pub allocated_buffer : Garbage → CoordinationBuffer
allocated_buffer g = record { size = coordination_buffer_size; head = g.head; tail = g.tail }

abbrev pub token_slot : Garbage → Slot
token_slot g = record {
  size = request_size * count_capacity;
  byte = g.bytes;
  messages_recv = 0;
  messages_sent = 0;
}

-- The channel over the slots of its token buffer and of the coordination buffers of the producer and
-- of the consumer.
unfoldable pub make_part : Garbage → Garbage → Garbage → Result Spsc
make_part token producer consumer =
    create
      (some (record (token_slot token) { size = token_buffer_size request_size count_capacity }))
      (allocated_buffer producer) (allocated_buffer consumer) request_size count_capacity

-- The first `n` channels of the instance `me`, over the global slots that it finds. `memory` is what
-- the slot of a name holds.
unfoldable pub make_parts : (ℕ → Garbage) → Registry → ℕ → ℕ → ℕ → Spsc → ℕ → Result (ℕ → Spsc)
make_parts memory r base count me past zero = ok (λ k. past)
make_parts memory r base count me past (suc n) = do
  parts ← make_parts memory r base count me past n
  buffers ← consumer_buffers r base count me n
  part ←
      make_part (memory buffers.token_buffer.source) (memory buffers.producer_buffer.source)
        (memory buffers.consumer_buffer.source)
  ok (replace parts n part)

-- What the constructor of the engine leaves, as it lies in memory.
pub record Unset : Type 0 where
  pub requester : ℕ
  pub argument : ℕ

-- The engine after the constructor and `initializeRPCChannels`, and its channels to the others, by
-- their ids. `tokens`, `producers` and `consumers` name the slots that each instance allocates, and
-- all of them exchange theirs.
unfoldable pub initialize_rpc_channels :
    Unset
    → (ℕ → Garbage)
    → Spsc
    → ℕ
    → ℕ
    → (ℕ → ℕ → ℕ)
    → (ℕ → ℕ → ℕ)
    → (ℕ → ℕ → ℕ)
    → (ℕ → ℕ)
    → ℕ
    → Registry
    → Result (Engine × List (ℕ × ChannelBuffers))
initialize_rpc_channels unset memory past base count tokens producers consumers ids me r = do
  let exchanged = exchange_buffers base count tokens producers consumers r
  parts ← make_parts memory exchanged base count me past count
  channels ← producer_channels exchanged base count me ids count
  ok (
    record {
      requester_instance_idx = unset.requester;
      current_argument = unset.argument;
      consumer_channel = create_rounds parts count;
      target_map = [];
    },
    channels,
  )

abbrev counters : CircularBuffer
counters = record { capacity = count_capacity; head = 0; tail = 0 }

abbrev made_part : Garbage → Spsc
made_part g = record {
  token_size = request_size;
  token_buffer = token_slot g;
  producer = counters;
  consumer = counters;
}

make_part_ok :
    (token producer consumer : Garbage) → make_part token producer consumer ≡ ok (made_part token)
unfolding make_part create create_producer create_consumer create_base
    initialize_coordination_buffer token_buffer_size
make_part_ok token producer consumer = refl

created :
    (g : Garbage)
    → create
        (some (token_slot g))
        (allocated_buffer g)
        (allocated_buffer g)
        request_size
        count_capacity
      ≡ ok (made_part g)
unfolding create create_producer create_consumer create_base initialize_coordination_buffer
    token_buffer_size
created g = refl

made_part-IsOpen : (g : Garbage) {s : Spsc} → s ≡ made_part g → IsOpen s
made_part-IsOpen g {s} e =
    let v =
      create-IsValid (some (token_slot g)) (allocated_buffer g) (allocated_buffer g) request_size
        count_capacity (created g) (omega arith) (omega arith) (omega arith) in
    subst IsOpen (sym e) (record { valid = v.0; token = refl; none = refl; word = omega arith })

module _ (memory : ℕ → Garbage) (past : Spsc) (base count : ℕ)
    (tokens producers consumers : ℕ → ℕ → ℕ) (r : Registry) (me : ℕ) (small : count ≤ 2 ^ 32)
    (here : me < count) where
  abbrev exchanged : Registry
  exchanged = exchange_buffers base count tokens producers consumers r

  make_parts_ok :
      (n : ℕ)
      → n ≤ count
      → (parts : ℕ → Spsc) × (make_parts memory exchanged base count me past n ≡ ok parts)
        × ((i : ℕ) → i < n → parts i ≡ made_part (memory (tokens me i)))
  unfolding make_parts
  make_parts_ok zero le = (λ k. past, refl, λ i lt. absurd (omega arith))
  make_parts_ok (suc n) le =
      let (parts, e, same) = make_parts_ok n (omega arith) in
      let found =
        consumer_end base count tokens producers consumers r small me n here (omega arith) in
      (
        replace parts n (made_part (memory (tokens me n))),
        rw
            (
              e,
              found,
              make_part_ok (memory (tokens me n)) (memory (producers n me))
                  (memory (consumers me n)),
            )
            refl,
        λ i lt. elim (ℕ_discrete i n) [
          | yes last ↦ rw last (ground (arith))
          | no other ↦ ground (arith, same i)
        ],
      )

-- Once the instances with the ids below count, at most 2 ^ 32, have exchanged their buffers, in a
-- registry that may hold any slots before and over memory that may hold anything, the instance me
-- makes all its request channels, to the others as they stand in any list of instances, and the
-- first request to it is executed to its end: a function that is registered under a name and then
-- requested under that name by the instance with the index i. The request succeeds and is pending,
-- and parsing it records i as the requester and the argument as it was sent, runs the execution
-- unit, and leaves the channel idle again. The hash and the argument have 64 bits, and the backend's
-- operations return.
pub first_request_executes :
    (hash : List ℕ → ℕ) (b : Backend) (garbage i count base me : ℕ) (unset : Unset)
    (memory : ℕ → Garbage) (past : Spsc) (tokens producers consumers : ℕ → ℕ → ℕ) (ids : ℕ → ℕ)
    (r : Registry) (name : List ℕ) (unit argument : ℕ)
    → Works b
    → count ≤ 2 ^ 32
    → me < count
    → i < count
    → hash name < 2 ^ 64
    → argument < 2 ^ 64
    → (fresh posted e' : Engine) × (channels : List (ℕ × ChannelBuffers)) × (initialize_rpc_channels
          unset memory past base count tokens producers consumers ids me r
        ≡ ok (fresh, channels))
      × (request_rpc hash i (add_rpc_target hash fresh name unit) name argument ≡ ok posted)
      × ((seen : Engine) × (has_pending_rpcs posted ≡ ok (true, seen)))
      × (parse_and_execute_rpc b garbage posted ≡ ok (e', ok (unit, PuState.terminated)))
      × (e'.requester_instance_idx ≡ i)
      × (e'.current_argument ≡ argument)
      × IsIdle e'.consumer_channel
unfolding initialize_rpc_channels
first_request_executes hash b garbage i count base me unset memory past tokens producers consumers
      ids r name unit argument w small here lt h h' =
    let (parts, e, same) =
      make_parts_ok memory past base count tokens producers consumers r me small here count
        (omega arith) in
    let (channels, made, _) =
      channels_made base count tokens producers consumers r small me ids count here (omega arith) in
    let of : ℕ → Garbage = λ k. memory (tokens me k) in
    let (idle, n, there, valid, empty, size) =
      create-IsIdle (λ k. some (token_slot (of k))) (λ k. allocated_buffer (of k))
        (λ k. allocated_buffer (of k)) parts count i request_size count_capacity
        (λ k l. created (of k) ∙ ap ok (sym (same k l)))
        (λ k l. omega (arith, ap (λ (s : Spsc). s.token_buffer.size) (same k l))) (omega arith)
        (omega arith) lt in
    let fresh : Engine = record {
      requester_instance_idx = unset.requester;
      current_argument = unset.argument;
      consumer_channel = create_rounds parts count;
      target_map = [];
    } in
    let (posted, e', asked, pending, ran, requester', argument', idle') =
      request_executes hash b garbage i fresh name unit argument w idle (omega (arith, n))
        (subst IsOpen (sym there) (made_part-IsOpen (of i) (same i lt))) h h' in
    (
      fresh,
      posted,
      e',
      channels,
      rw (e, made) refl,
      asked,
      pending,
      ran,
      requester',
      argument',
      idle',
    )
