-- ===== src/Channel/VariableSpsc/Tests.antt =====
-- A channel of capacity three and ten bytes that holds one message of four bytes.
use hi_cr.Prelude.{
  ℕ, ◌+◌, ◌≡◌, ◌≤◌, ◌<◌, ◌⊎◌, [], ◌∷◌, ◌++◌, ok, err, runtime, logic, refl, arith, drop,
}
use hi_cr.Memory.{Slot, read}
use hi_cr.Channel.CircularBuffer.{CircularBuffer}
use hi_cr.Channel.VariableSpsc.{Channel, push, pop}
use hi_cr.Channel.VariableSpsc.Inv.{IsValid, contents, depth}
use hi_cr.Channel.VariableSpsc.Push.{HasRoom, push_message}
use hi_cr.Channel.VariableSpsc.Pop.{pop_messages}

abbrev slot_of : ℕ → ℕ → Slot
slot_of size base = record {
  size = size;
  byte = λ a. a + base;
  messages_recv = 0;
  messages_sent = 0;
}

abbrev counts : CircularBuffer
counts = record { capacity = 3; head = 3; tail = 2 }

abbrev payloads : CircularBuffer
payloads = record { capacity = 10; head = 12; tail = 8 }

abbrev sample : Channel
sample = record {
  payload = slot_of 20 100;
  sizes = record { size = 24; element = λ k. 4 };
  producer_counts = counts;
  producer_payloads = payloads;
  consumer_counts = counts;
  consumer_payloads = payloads;
}

sample-IsValid : IsValid sample
sample-IsValid = record {
  counts = omega arith;
  payloads = omega arith;
  half = omega arith;
  payload_half = omega arith;
  twice = omega arith;
  word = omega arith;
  sizes = omega arith;
  producer_counts = refl;
  producer_payloads = refl;
  exact = refl;
}

-- The message runs past the capacity.
contents-sample : contents sample ≡ (108 ∷ 109 ∷ 110 ∷ 111 ∷ []) ∷ []
unfolding read
contents-sample = refl

push_message_example :
    (HasRoom sample 6
      × ((out : Channel × Slot) × (push sample (slot_of 6 50) 1 ≡ ok out)
          × IsValid out.0
          × (contents out.0 ≡ contents sample ++ (read (slot_of 6 50).byte 0 6 ∷ []))
          × (out.1.byte ≡ (slot_of 6 50).byte)))
    ⊎ (((depth sample ≡ 3) ⊎ (18 < 18)) × (push sample (slot_of 6 50) 1 ≡ err runtime))
push_message_example =
    push_message (slot_of 6 50) sample-IsValid (omega arith) (omega arith) (omega arith)

pop_messages_example :
    ((1 ≤ 1)
      × ((c' : Channel) × (pop sample 1 ≡ ok c')
          × IsValid c'
          × (contents c' ≡ drop 1 (contents sample))))
    ⊎ ((1 < 1) × (1 ≤ 3) × (pop sample 1 ≡ err runtime))
    ⊎ ((3 < 1) × (pop sample 1 ≡ err logic))
pop_messages_example = pop_messages 1 sample-IsValid
