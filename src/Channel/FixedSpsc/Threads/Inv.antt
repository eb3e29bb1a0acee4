-- ===== src/Channel/FixedSpsc/Threads/Inv.antt =====
-- What holds in every state that the two threads can reach.
use hi_cr.Channel.FixedSpsc.Pop.{peek_index}
use hi_cr.Prelude.{subst, ℕ, ◌+◌, ◌-◌, ◌*◌, ◌%◌, ◌^◌, ◌≡◌, ◌≤◌, ◌<◌, List, ◌++◌, ok, arith, length}
use hi_cr.Memory.{Slot, read}
use hi_cr.Channel.CircularBuffer.{get_depth, get_tail_position}
use hi_cr.Channel.Window.{window}
use hi_cr.Channel.FixedSpsc.{Spsc, peek}
use hi_cr.Channel.FixedSpsc.Tokens.{HasStorage, pos}
use hi_cr.Channel.FixedSpsc.Threads.{
  System, ProducerPc, ConsumerPc, checked, copied, advanced, peeked, holding, released, token_at,
}

-- What the producer's place says of the channel.
abbrev pub ProducerAt : Spsc → ProducerPc → Type 0
ProducerAt c ProducerPc.outside = c.consumer.head ≡ c.producer.head
ProducerAt c (checked src) =
    (c.consumer.head ≡ c.producer.head)
    × (c.producer.head + 1 ≤ c.producer.tail + c.producer.capacity)
    × (c.token_size ≤ src.size)
    × (src.size < 2 ^ 64)
ProducerAt c (copied src) =
    (c.consumer.head ≡ c.producer.head)
    × (c.producer.head + 1 ≤ c.producer.tail + c.producer.capacity)
    × (read c.token_buffer.byte (c.token_size * pos c) c.token_size ≡ read src.byte 0 c.token_size)
ProducerAt c advanced = c.producer.head ≡ c.consumer.head + 1

-- What the consumer's place says of the channel.
abbrev pub ConsumerAt : Spsc → ConsumerPc → Type 0
ConsumerAt c ConsumerPc.outside = c.producer.tail ≡ c.consumer.tail
ConsumerAt c (peeked k) =
    (c.producer.tail ≡ c.consumer.tail)
    × (c.consumer.tail < c.consumer.head)
    × (k ≡ c.consumer.tail % c.producer.capacity)
ConsumerAt c (holding x) =
    (c.producer.tail ≡ c.consumer.tail)
    × (c.consumer.tail < c.consumer.head)
    × (x
        ≡ read c.token_buffer.byte (c.token_size * (c.consumer.tail % c.producer.capacity))
            c.token_size)
ConsumerAt c released = c.consumer.tail ≡ c.producer.tail + 1

-- The tokens that are written and not yet popped.
abbrev pub in_flight : Spsc → List (List ℕ)
in_flight c =
    window c.token_buffer.byte c.token_size c.producer.capacity c.consumer.tail
      (c.producer.head - c.consumer.tail)

pub record Inv (s : System) : Type 0 where
  pub storage : HasStorage s.channel
  pub capacities : s.channel.consumer.capacity ≡ s.channel.producer.capacity
  pub half : s.channel.producer.capacity ≤ 2 ^ 63
  pub tails : s.channel.producer.tail ≤ s.channel.consumer.tail
  pub ordered : s.channel.consumer.tail ≤ s.channel.consumer.head
  pub heads : s.channel.consumer.head ≤ s.channel.producer.head
  pub within : s.channel.producer.head ≤ s.channel.producer.tail + s.channel.producer.capacity
  pub producer_at : ProducerAt s.channel s.producer_pc
  pub consumer_at : ConsumerAt s.channel s.consumer_pc
  pub counted : length s.sent ≡ s.channel.producer.head
  pub history : s.sent ≡ s.received ++ in_flight s.channel

pub check-Inv :
    {s : System} (src : Slot) (d : ℕ)
    → s.producer_pc ≡ ProducerPc.outside
    → s.channel.token_size ≤ src.size
    → src.size < 2 ^ 64
    → get_depth s.channel.producer ≡ ok d
    → d + 1 ≤ s.channel.producer.capacity
    → Inv s
    → Inv (record s { producer_pc = checked src })
unfolding get_depth
check-Inv {s} src d e f w g h v =
    let at = subst (ProducerAt s.channel) e v.producer_at in ground (arith, at)

pub tell_consumer-Inv :
    {s : System}
    → s.producer_pc ≡ advanced
    → Inv s
    → Inv (record s {
      channel = record s.channel {
        consumer = record s.channel.consumer { head = s.channel.producer.head };
      };
      producer_pc = ProducerPc.outside;
    })
tell_consumer-Inv {s} e v =
    let at = subst (ProducerAt s.channel) e v.producer_at in ground (arith, at)

pub peek_first-Inv :
    {s : System} (k : ℕ)
    → s.consumer_pc ≡ ConsumerPc.outside
    → peek s.channel 0 ≡ ok k
    → Inv s
    → Inv (record s { consumer_pc = peeked k })
unfolding peek get_depth get_tail_position
peek_first-Inv {s} k e f v =
    let at = subst (ConsumerAt s.channel) e v.consumer_at in
    ground (arith, at, peek_index s.channel.consumer.tail s.channel.consumer.capacity 0)

pub read_token-Inv :
    {s : System} (k : ℕ)
    → s.consumer_pc ≡ peeked k
    → Inv s
    → Inv (record s { consumer_pc = holding (token_at s.channel k) })
read_token-Inv {s} k e v =
    let at = subst (ConsumerAt s.channel) e v.consumer_at in ground (arith, at)

pub tell_producer-Inv :
    {s : System}
    → s.consumer_pc ≡ released
    → Inv s
    → Inv (record s {
      channel = record s.channel {
        producer = record s.channel.producer { tail = s.channel.consumer.tail };
      };
      consumer_pc = ConsumerPc.outside;
    })
tell_producer-Inv {s} e v =
    let at = subst (ConsumerAt s.channel) e v.consumer_at in ground (arith, at)
