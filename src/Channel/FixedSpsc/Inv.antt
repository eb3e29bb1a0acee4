-- ===== src/Channel/FixedSpsc/Inv.antt =====
-- The invariant of the channel between two calls, and the tokens that it holds.
use hi_cr.Prelude.{ℕ, ◌-◌, ◌*◌, ◌^◌, ◌≡◌, ◌≤◌, ◌<◌, List}
use hi_cr.Channel.CircularBuffer.Inv
use hi_cr.Channel.Window.{window}
use hi_cr.Channel.FixedSpsc.{Spsc}

pub record IsValid (c : Spsc) : Type 0 where
  pub token : 0 < c.token_size
  pub storage : c.token_size * c.consumer.capacity ≤ c.token_buffer.size
  pub word : c.token_buffer.size < 2 ^ 64
  -- at most half the address space, so that the sum of two positions does not wrap
  pub half : c.consumer.capacity ≤ 2 ^ 63
  pub buffer : Inv.IsValid c.consumer
  pub capacities : c.producer.capacity ≡ c.consumer.capacity
  pub heads : c.producer.head ≡ c.consumer.head
  pub tails : c.producer.tail ≡ c.consumer.tail

-- What the consumer may read, oldest first.
abbrev pub contents : Spsc → List (List ℕ)
contents c =
    window c.token_buffer.byte c.token_size c.consumer.capacity c.consumer.tail
      (c.consumer.head - c.consumer.tail)
