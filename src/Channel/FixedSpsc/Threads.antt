-- ===== src/Channel/FixedSpsc/Threads.antt =====
-- One `push` of one token after another by the producer's thread and `peek`, read and `pop` by the
-- consumer's, interleaved at each access to the memory that they share. The steps call the
-- functions of FixedSpsc.antt. A step reads and writes its own side of the channel, except where
-- it copies a counter to the other side.
pub mod Inv
pub mod Copy
pub mod Safety
pub mod Progress
mod Tests
use hi_cr.Prelude.{ℕ, ◌+◌, ◌*◌, ◌%◌, ◌^◌, ◌≡◌, ◌≤◌, ◌<◌, List, [], ◌∷◌, ◌++◌, ok}
use hi_cr.Memory.{Slot, read}
use hi_cr.Channel.CircularBuffer.{CircularBuffer, get_depth, advance_head, advance_tail}
use hi_cr.Channel.FixedSpsc.{Spsc, put_token, peek}

-- Where the producer stands in `push(source, 1)`.
pub data ProducerPc : Type 0 where
  outside : ProducerPc
  -- past both checks, before the copy of the token
  checked : Slot → ProducerPc
  -- after the fence of the copy
  copied : Slot → ProducerPc
  -- after `advanceHead`, before the consumer is told
  advanced : ProducerPc

-- Where the consumer stands in its loop.
pub data ConsumerPc : Type 0 where
  outside : ConsumerPc
  -- `peek` has returned a position
  peeked : ℕ → ConsumerPc
  -- the token has been read, `pop` is not yet called
  holding : List ℕ → ConsumerPc
  -- after `advanceTail`, before the producer is told
  released : ConsumerPc

-- `sent` lists the tokens of all pushes whose head advance is done, `received` those of all pops.
pub record System : Type 0 where
  pub channel : Spsc
  pub producer_pc : ProducerPc
  pub consumer_pc : ConsumerPc
  pub sent : List (List ℕ)
  pub received : List (List ℕ)

abbrev pub token_at : Spsc → ℕ → List ℕ
token_at c k = read c.token_buffer.byte (c.token_size * k) c.token_size

pub data Step (s : System) : System → Type 0 where
  check :
      (src : Slot) (d : ℕ)
      → s.producer_pc ≡ ProducerPc.outside
      → s.channel.token_size ≤ src.size
      → src.size < 2 ^ 64
      → get_depth s.channel.producer ≡ ok d
      → d + 1 ≤ s.channel.producer.capacity
      → Step s (record s { producer_pc = checked src })
  copy_token :
      (src : Slot) (out : Spsc × Slot)
      → s.producer_pc ≡ checked src
      → put_token 0 s.channel src ≡ ok out
      → Step s (record s { channel = out.0; producer_pc = copied src })
  advance :
      (src : Slot) (p : CircularBuffer)
      → s.producer_pc ≡ copied src
      → advance_head s.channel.producer 1 ≡ ok p
      → Step s (record s {
        channel = record s.channel { producer = p };
        producer_pc = advanced;
        sent = s.sent ++ (read src.byte 0 s.channel.token_size ∷ []);
      })
  tell_consumer :
      s.producer_pc ≡ advanced
      → Step s (record s {
        channel = record s.channel {
          consumer = record s.channel.consumer { head = s.channel.producer.head };
        };
        producer_pc = ProducerPc.outside;
      })
  peek_first :
      (k : ℕ)
      → s.consumer_pc ≡ ConsumerPc.outside
      → peek s.channel 0 ≡ ok k
      → Step s (record s { consumer_pc = peeked k })
  read_token :
      (k : ℕ)
      → s.consumer_pc ≡ peeked k
      → Step s (record s { consumer_pc = holding (token_at s.channel k) })
  release :
      (x : List ℕ) (d : ℕ) (q : CircularBuffer)
      → s.consumer_pc ≡ holding x
      → get_depth s.channel.consumer ≡ ok d
      → 1 ≤ d
      → advance_tail s.channel.consumer 1 ≡ ok q
      → Step s (record s {
        channel = record s.channel { consumer = q };
        consumer_pc = released;
        received = s.received ++ (x ∷ []);
      })
  tell_producer :
      s.consumer_pc ≡ released
      → Step s (record s {
        channel = record s.channel {
          producer = record s.channel.producer { tail = s.channel.consumer.tail };
        };
        consumer_pc = ConsumerPc.outside;
      })

pub data Reach (s : System) : System → Type 0 where
  start : Reach s s
  next : {t u : System} → Reach s t → Step t u → Reach s u

-- Both threads outside, nothing sent yet.
abbrev pub initial : Spsc → System
initial c = record {
  channel = c;
  producer_pc = ProducerPc.outside;
  consumer_pc = ConsumerPc.outside;
  sent = [];
  received = [];
}
