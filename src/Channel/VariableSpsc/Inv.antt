-- ===== src/Channel/VariableSpsc/Inv.antt =====
-- The invariant of the channel between two calls, and the messages that it holds.
use hi_cr.Prelude.{ℕ, ◌+◌, ◌-◌, ◌*◌, ◌^◌, ◌≡◌, ◌≤◌, ◌<◌, ◌%◌, List}
use hi_cr.Memory.{Slot, read}
use hi_cr.Channel.CircularBuffer.Inv as Ring
use hi_cr.Channel.VariableSpsc.{Channel}
use hi_cr.Channel.Region.{total, messages}

abbrev pub depth : Channel → ℕ
depth c = c.consumer_counts.head - c.consumer_counts.tail

-- The bytes of the first `n` messages.
abbrev pub bytes_of : Channel → ℕ → ℕ
bytes_of c n = total c.sizes.element c.consumer_counts.capacity c.consumer_counts.tail n

-- The bytes from an index on, which lie in one piece: the slot is larger than the capacity.
abbrev pub whole : Slot → ℕ → ℕ → ℕ → List ℕ
whole payload bytes b z = read payload.byte (b % bytes) z

abbrev pub contents : Channel → List (List ℕ)
contents c =
    messages (whole c.payload c.consumer_payloads.capacity) c.sizes.element
      c.consumer_counts.capacity c.consumer_counts.tail c.consumer_payloads.tail (depth c)

pub record IsValid (c : Channel) : Type 0 where
  pub counts : Ring.IsValid c.consumer_counts
  pub payloads : Ring.IsValid c.consumer_payloads
  pub half : c.consumer_counts.capacity ≤ 2 ^ 60
  pub payload_half : c.consumer_payloads.capacity ≤ 2 ^ 62
  -- the excess buffer
  pub twice : 2 * c.consumer_payloads.capacity ≤ c.payload.size
  pub word : c.payload.size < 2 ^ 64
  pub sizes : 8 * c.consumer_counts.capacity ≤ c.sizes.size
  pub producer_counts : c.producer_counts ≡ c.consumer_counts
  pub producer_payloads : c.producer_payloads ≡ c.consumer_payloads
  -- the payload counters are apart by the bytes of all messages
  pub exact : c.consumer_payloads.head ≡ c.consumer_payloads.tail + bytes_of c (depth c)
