-- ===== src/Channel/FixedSpsc/Tokens.antt =====
-- One round of the loop of `push`: the token that it puts, and the bytes that it keeps.
use hi_cr.Prelude.{ℕ, ◌+◌, ◌*◌, ◌%◌, ◌^◌, ◌≡◌, ◌≤◌, ◌<◌, ◌≢◌, refl, arith, ok, add_size, mul_size}
use hi_cr.Memory.{Slot, read, copy}
use hi_cr.Memory.Laws.{memcpy_global_lem, read-copy_self, read-copy_apart}
use native.Mathlib.Nat.{mod-lt}
use hi_cr.Channel.CircularBuffer.{get_head_position}
use hi_cr.Channel.Window.{apart, index_fits}
use hi_cr.Channel.FixedSpsc.{Spsc, put_token}
use hi_cr.Channel.FixedSpsc.Inv.{IsValid}

-- The position of the producer's head.
abbrev pub pos : Spsc → ℕ
pos c = c.producer.head % c.producer.capacity

-- The loop has put the token `i` of the source at the head position, and changed no other byte.
pub record Placed (c : Spsc) (src : Slot) (i : ℕ) (out : Spsc × Slot) : Type 0 where
  pub token_size : out.0.token_size ≡ c.token_size
  pub producer : out.0.producer ≡ c.producer
  pub consumer : out.0.consumer ≡ c.consumer
  pub size : out.0.token_buffer.size ≡ c.token_buffer.size
  pub source_size : out.1.size ≡ src.size
  pub source_byte : out.1.byte ≡ src.byte
  pub byte :
      out.0.token_buffer.byte
      ≡ copy c.token_buffer.byte (c.token_size * pos c) src.byte (i * c.token_size) c.token_size

-- What one round of the loop needs of the channel, whatever the counters are.
pub record HasStorage (c : Spsc) : Type 0 where
  pub token : 0 < c.token_size
  pub nonempty : 0 < c.producer.capacity
  pub storage : c.token_size * c.producer.capacity ≤ c.token_buffer.size
  pub word : c.token_buffer.size < 2 ^ 64

pub IsValid-HasStorage : {c : Spsc} → IsValid c → HasStorage c
IsValid-HasStorage v = record {
  token = v.token;
  nonempty = omega (arith, v.buffer.nonempty, v.capacities);
  storage = rw v.capacities v.storage;
  word = v.word;
}

-- The slot of the head position lies inside the token buffer.
in_range : {c : Spsc} → HasStorage c → c.token_size * pos c + c.token_size ≤ c.token_buffer.size
in_range {c} v = omega (
  arith,
  v.storage,
  index_fits c.token_size (pos c) c.producer.capacity (mod-lt c.producer.head v.nonempty),
)

pub put_token_lem :
    (c : Spsc) (src : Slot) (i : ℕ)
    → HasStorage c
    → src.size < 2 ^ 64
    → i * c.token_size + c.token_size ≤ src.size
    → (out : Spsc × Slot) × (put_token i c src ≡ ok out) × Placed c src i out
unfolding put_token get_head_position
put_token_lem c src i v w h = (
  (
    record c {
      token_buffer = record c.token_buffer {
        byte =
            copy c.token_buffer.byte (c.token_size * pos c) src.byte (i * c.token_size)
              c.token_size;
        messages_recv = add_size (add_size c.token_buffer.messages_recv 1) 1;
      };
    },
    record src { messages_sent = add_size (add_size src.messages_sent 1) 1 },
  ),
  rw (
    dst_offset,
    src_offset,
    memcpy_global_lem c.token_buffer src (c.token_size * pos c) (i * c.token_size) c.token_size
        v.word w (in_range v) h,
  ),
  record {
    token_size = refl;
    producer = refl;
    consumer = refl;
    size = refl;
    source_size = refl;
    source_byte = refl;
    byte = refl;
  },
)
  where
    dst_offset : mul_size c.token_size (pos c) ≡ c.token_size * pos c
    dst_offset = omega (arith, in_range v, v.word, v.token)

    src_offset : mul_size i c.token_size ≡ i * c.token_size
    src_offset = omega (arith, v.token)

-- The token that the loop has put at the head position, and the tokens elsewhere.
pub Placed-token :
    {c : Spsc} {src : Slot} {i : ℕ} {out : Spsc × Slot}
    → Placed c src i out
    → read out.0.token_buffer.byte (c.token_size * pos c) c.token_size
      ≡ read src.byte (i * c.token_size) c.token_size
Placed-token {c} {src} {i} p = rw p.byte (
    read-copy_self c.token_buffer.byte src.byte (c.token_size * pos c) (i * c.token_size)
      c.token_size)

pub kept_token :
    {c : Spsc} {src : Slot} {i : ℕ} {out : Spsc × Slot} (k : ℕ)
    → Placed c src i out
    → k ≢ pos c
    → read out.0.token_buffer.byte (c.token_size * k) c.token_size
      ≡ read c.token_buffer.byte (c.token_size * k) c.token_size
kept_token {c} {src} {i} k p ne = rw p.byte (
    read-copy_apart c.token_buffer.byte src.byte (c.token_size * pos c) (i * c.token_size)
      c.token_size (c.token_size * k) c.token_size (apart c.token_size k (pos c) ne))
