-- ===== src/Channel/VariableLocking/Tests.antt =====
-- A channel of capacity four and ten bytes that holds two messages of three bytes, of which the
-- second wraps around.
use hi_cr.Prelude.{
  ℕ, ◌+◌, ◌-◌, ◌≡◌, ◌≤◌, ◌<◌, ◌⊎◌, [], ◌∷◌, ◌++◌, ok, err, runtime, fatal, true, false, refl, arith,
  drop, get_elem?, some, Error,
}
use hi_cr.Memory.{Slot, read}
use hi_cr.Channel.Region.{total}
use hi_cr.Channel.Base.{CoordinationBuffer}
use hi_cr.Channel.VariableSpsc.{SizeBuffer}
use hi_cr.Channel.VariableSpsc.Create.{Side, Accepted}
use hi_cr.Channel.VariableLocking.{
  Mpsc, Producer, push, peek, pop, get_old_payload_bytes, get_new_payload_bytes,
}
use hi_cr.Channel.VariableLocking.Ring.{ring}
use hi_cr.Channel.VariableLocking.Inv.{IsValid, depth, bytes_of, contents}
use hi_cr.Channel.VariableLocking.Push.{HasRoom, Matches, updated, push_wrapping}
use hi_cr.Channel.VariableLocking.Pop.{pop_bytes, pop_leaks_lock}
use hi_cr.Channel.VariableLocking.Peek.{oldest_message}

abbrev slot_of : ℕ → ℕ → Slot
slot_of size base = record {
  size = size;
  byte = λ a. a + base;
  messages_recv = 0;
  messages_sent = 0;
}

abbrev sample : Mpsc
sample = record {
  payload = slot_of 10 100;
  sizes = record { size = 32; element = λ k. 3 };
  counts = record { capacity = 4; head = 5; tail = 3 };
  payloads = record { capacity = 10; head = 11; tail = 5 };
  locked = false;
}

-- A producer that has not looked at the channel for long.
abbrev stale : Producer
stale = record {
  own_counts = record { capacity = 4; head = 0; tail = 0 };
  own_payloads = record { capacity = 10; head = 0; tail = 0 };
  payload_size = 1;
}

sample-IsValid : IsValid sample
sample-IsValid = record {
  free = refl;
  counts = omega arith;
  payloads = omega arith;
  half = omega arith;
  payload_half = omega arith;
  room = omega arith;
  word = omega arith;
  sizes = omega arith;
  exact = refl;
}

contents-sample : contents sample ≡ (105 ∷ 106 ∷ 107 ∷ []) ∷ (108 ∷ 109 ∷ 100 ∷ []) ∷ []
contents-sample = refl

push_wrapping_example :
    (HasRoom sample 4
      × ((out : Mpsc × Producer × Slot) × (push sample stale (slot_of 4 50) 1
            ≡ ok (true, out.0, out.1, out.2))
          × IsValid out.0
          × Matches out.1 out.0
          × (contents out.0 ≡ contents sample ++ (read (slot_of 4 50).byte 0 4 ∷ []))
          × (out.2.byte ≡ (slot_of 4 50).byte)))
    ⊎ (((depth sample ≡ 4) ⊎ (5 + 10 < 11 + 4))
        × (push sample stale (slot_of 4 50) 1
            ≡ ok (false, sample, updated sample stale, slot_of 4 50)))
push_wrapping_example =
    push_wrapping stale (slot_of 4 50) sample-IsValid (record { counts = refl; payloads = refl })
      (omega arith) (omega arith) (omega arith)

pop_bytes_example :
    ((c' : Mpsc) × (pop sample 2 ≡ (c', ok true))
      × (depth c' + 2 ≡ depth sample)
      × (c'.payloads.head - c'.payloads.tail
          ≡ bytes_of c' (depth c') + total sample.sizes.element 4 4 1))
    × ((old new : ℕ) × (get_old_payload_bytes sample 2 ≡ ok old)
        × (get_new_payload_bytes sample (depth sample - 2) ≡ ok new)
        × (old + new ≡ 11 - 5))
pop_bytes_example = pop_bytes 2 sample-IsValid (omega arith) (omega arith)

pop_leaks_lock_example :
    (c' : Mpsc) × ((e : Error) × (pop sample 3 ≡ (c', err e)))
    × (push c' stale (slot_of 1 50) 1 ≡ ok (false, c', stale, slot_of 1 50))
    × (pop c' 1 ≡ (c', ok false))
pop_leaks_lock_example = pop_leaks_lock 3 stale (slot_of 1 50) 1 sample-IsValid (omega arith)

oldest_message_example :
    (((0 < depth sample)
        × ((r : ℕ × ℕ) × (peek sample 0 ≡ ok r)
            × (r.0 < 10)
            × (r.1 ≤ 10)
            × (get_elem? (contents sample) 0 ≡ some (ring sample.payload.byte 10 r.0 r.1)))
        × ((c' : Mpsc) × (pop sample 1 ≡ (c', ok true))
            × IsValid c'
            × (contents c' ≡ drop 1 (contents sample))))
      ⊎ ((depth sample ≡ 0)
          × (peek sample 0 ≡ err runtime)
          × (pop sample 1 ≡ (record sample { locked = true }, err runtime))))
    × ((i : ℕ) → 0 < i → peek sample i ≡ err fatal)
oldest_message_example = oldest_message sample-IsValid

abbrev small_buffer : CoordinationBuffer
small_buffer = record { size = 16; head = 7; tail = 9 }

abbrev side : Side
side = (small_buffer, small_buffer)

side-Accepted : Accepted side 4
side-Accepted = omega arith

abbrev new_sizes : SizeBuffer
new_sizes = record { size = 32; element = λ k. 3 }
