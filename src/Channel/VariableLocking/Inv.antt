-- ===== src/Channel/VariableLocking/Inv.antt =====
-- The invariant of the channel between two calls, and the messages that it holds.
use hi_cr.Prelude.{ℕ, ◌+◌, ◌-◌, ◌*◌, ◌^◌, ◌≡◌, ◌≤◌, ◌<◌, List, false}
use hi_cr.Channel.CircularBuffer.Inv as CircularBuffer
use hi_cr.Channel.Region.{total, messages}
use hi_cr.Channel.VariableLocking.{Mpsc}
use hi_cr.Channel.VariableLocking.Ring.{ring}

abbrev pub depth : Mpsc → ℕ
depth c = c.counts.head - c.counts.tail

-- The bytes of the first `n` messages.
abbrev pub bytes_of : Mpsc → ℕ → ℕ
bytes_of c n = total c.sizes.element c.counts.capacity c.counts.tail n

abbrev pub contents : Mpsc → List (List ℕ)
contents c =
    messages (ring c.payload.byte c.payloads.capacity) c.sizes.element c.counts.capacity
      c.counts.tail c.payloads.tail (depth c)

pub record IsValid (c : Mpsc) : Type 0 where
  pub free : c.locked ≡ false
  pub counts : CircularBuffer.IsValid c.counts
  pub payloads : CircularBuffer.IsValid c.payloads
  pub half : c.counts.capacity ≤ 2 ^ 60
  pub payload_half : c.payloads.capacity ≤ 2 ^ 62
  pub room : c.payloads.capacity ≤ c.payload.size
  pub word : c.payload.size < 2 ^ 64
  pub sizes : 8 * c.counts.capacity ≤ c.sizes.size
  -- the payload counters are apart by the bytes of all messages
  pub exact : c.payloads.head ≡ c.payloads.tail + bytes_of c (depth c)
