-- ===== src/Channel/VariableLocking/Create.antt =====
-- The constructors of the consumer and of a producer over that of the variable-size base.
use hi_cr.Prelude.{ℕ, ◌*◌, ◌^◌, ◌≡◌, ◌≤◌, ◌<◌, [], Result, ok, ◌>>=◌, false, arith, refl}
use hi_cr.Memory.{Slot}
use hi_cr.Channel.VariableSpsc.{SizeBuffer, Channel}
use hi_cr.Channel.VariableSpsc.Inv as Spsc
use hi_cr.Channel.VariableSpsc.Create.{
  Side, Accepted, create_side, create_side_lem, create, create_variable, fresh,
}
use hi_cr.Channel.VariableLocking.{Mpsc, Producer}
use hi_cr.Channel.VariableLocking.Inv.{IsValid, contents}
use hi_cr.Channel.VariableLocking.Push.{Matches}

-- The lock of the new global slot is free.
unfoldable pub create_consumer : Slot → SizeBuffer → Side → ℕ → ℕ → Result Mpsc
create_consumer payload sizes side capacity payload_capacity = do
  (counts, payloads) ← create_side side capacity payload_capacity
  ok (record {
    payload = payload;
    sizes = sizes;
    counts = counts;
    payloads = payloads;
    locked = false;
  })

unfoldable pub create_producer : Side → ℕ → ℕ → ℕ → Result Producer
create_producer side capacity payload_capacity payload_size = do
  (counts, payloads) ← create_side side capacity payload_capacity
  ok (record { own_counts = counts; own_payloads = payloads; payload_size = payload_size })

pub locking_lem :
    (payload : Slot) (sizes : SizeBuffer) (producer consumer : Side)
    (capacity payload_capacity payload_size : ℕ)
    → Accepted producer capacity
    → Accepted consumer capacity
    → 0 < payload_capacity
    → capacity ≤ 2 ^ 60
    → payload_capacity ≤ 2 ^ 62
    → payload_capacity ≤ payload.size
    → payload.size < 2 ^ 64
    → 8 * capacity ≤ sizes.size
    → (c : Mpsc) × (p : Producer) × (create_consumer payload sizes consumer capacity
          payload_capacity
        ≡ ok c)
      × (create_producer producer capacity payload_capacity payload_size ≡ ok p)
      × IsValid c
      × (contents c ≡ [])
      × Matches p c
unfolding create_consumer create_producer
locking_lem payload sizes producer consumer capacity payload_capacity payload_size a b pos half
      half' room word enough =
    (
      record {
        payload = payload;
        sizes = sizes;
        counts = fresh capacity;
        payloads = fresh payload_capacity;
        locked = false;
      },
      record {
        own_counts = fresh capacity;
        own_payloads = fresh payload_capacity;
        payload_size = payload_size;
      },
      rw (create_side_lem payload_capacity b) refl,
      rw (create_side_lem payload_capacity a) refl,
      record {
        free = refl;
        counts = ground (arith, b);
        payloads = ground arith;
        half = half;
        payload_half = half';
        room = room;
        word = word;
        sizes = enough;
        exact = refl;
      },
      refl,
      record { counts = refl; payloads = refl },
    )

unchecked :
    (payload : Slot) (sizes : SizeBuffer) (producer consumer : Side) (capacity : ℕ)
    → Accepted producer capacity
    → Accepted consumer capacity
    → (c : Channel) × (create payload sizes producer consumer capacity 0 ≡ ok c)
      × (c.consumer_payloads.capacity ≡ 0)
unfolding create
unchecked payload sizes producer consumer capacity a b = (
  record {
    payload = payload;
    sizes = sizes;
    producer_counts = fresh capacity;
    producer_payloads = fresh 0;
    consumer_counts = fresh capacity;
    consumer_payloads = fresh 0;
  },
  rw (create_side_lem 0 a, create_side_lem 0 b) refl,
  refl,
)

-- Both sides have coordination buffers that hold their counters, the capacity is not 0, the payload
-- slot holds twice a payload capacity that is not 0, the token buffer holds a size for each message,
-- and the bounds of the counters hold. Then the constructors make a valid and empty SPSC channel,
-- and a valid and empty locking MPSC channel with a producer of its capacities. They also accept a
-- payload capacity of 0, by which the positions in the payload buffer would be divided.
pub create_channels :
    (payload : Slot) (sizes : SizeBuffer) (producer consumer : Side)
    (capacity payload_capacity payload_size : ℕ)
    → Accepted producer capacity
    → Accepted consumer capacity
    → 0 < payload_capacity
    → capacity ≤ 2 ^ 60
    → payload_capacity ≤ 2 ^ 62
    → 2 * payload_capacity ≤ payload.size
    → payload.size < 2 ^ 64
    → 8 * capacity ≤ sizes.size
    → ((c : Channel) × (create payload sizes producer consumer capacity payload_capacity ≡ ok c)
        × Spsc.IsValid c
        × (Spsc.contents c ≡ []))
      × ((c : Mpsc) × (p : Producer) × (create_consumer payload sizes consumer capacity
              payload_capacity
            ≡ ok c)
          × (create_producer producer capacity payload_capacity payload_size ≡ ok p)
          × IsValid c
          × (contents c ≡ [])
          × Matches p c)
      × ((c : Channel) × (create payload sizes producer consumer capacity 0 ≡ ok c)
          × (c.consumer_payloads.capacity ≡ 0))
create_channels payload sizes producer consumer capacity payload_capacity payload_size a b pos half
      half' twice word enough =
    (
      create_variable payload sizes producer consumer capacity payload_capacity a b pos half half'
          twice word enough,
      locking_lem payload sizes producer consumer capacity payload_capacity payload_size a b pos
          half half' (omega arith) word enough,
      unchecked payload sizes producer consumer capacity a b,
    )
