-- ===== src/Channel/VariableNonlocking/Tests.antt =====
-- Two producers, each of which has sent one message before the consumer is there.
use hi_cr.Prelude.{ℕ, ◌+◌, ◌≡◌, ◌≤◌, [], ◌∷◌, ok, refl, arith, drop, get_elem?, some}
use hi_cr.Memory.{read}
use hi_cr.Channel.CircularBuffer.{CircularBuffer, get_depth}
use hi_cr.Channel.NonlockingMpsc.{replace, record_pushes, sum_depths}
use hi_cr.Channel.VariableSpsc.{Channel, get_coordination_depth}
use hi_cr.Channel.VariableSpsc.Inv as Part
use hi_cr.Channel.VariableNonlocking.{Mpsc, read_depths, update_depth, total_depth, peek, pop}
use hi_cr.Channel.VariableNonlocking.Sync.{IsValid}
use hi_cr.Channel.VariableNonlocking.Calls.{taken, next_message}

abbrev counts : CircularBuffer
counts = record { capacity = 3; head = 3; tail = 2 }

abbrev payloads : CircularBuffer
payloads = record { capacity = 10; head = 12; tail = 8 }

abbrev part : Channel
part = record {
  payload = record { size = 20; byte = λ a. a + 100; messages_recv = 0; messages_sent = 0 };
  sizes = record { size = 24; element = λ k. 4 };
  producer_counts = counts;
  producer_payloads = payloads;
  consumer_counts = counts;
  consumer_payloads = payloads;
}

part-IsValid : Part.IsValid part
part-IsValid = record {
  counts = omega arith;
  payloads = omega arith;
  half = omega arith;
  payload_half = omega arith;
  twice = omega arith;
  word = omega arith;
  sizes = omega arith;
  producer_counts = refl;
  producer_payloads = refl;
  exact = refl;
}

-- The consumer before its first update.
abbrev sample : Mpsc
sample = record { producers = 2; channels = λ k. part; pushes = []; depths = λ k. 0 }

sample-IsValid : IsValid sample
sample-IsValid = record {
  channels = λ i lt. part-IsValid;
  tracks = record { counted = λ i lt. refl; known = λ i le. refl };
  behind = λ i lt. omega arith;
  word = omega arith;
}

abbrev updated : Mpsc
updated = record sample { pushes = 0 ∷ 1 ∷ []; depths = replace (replace (λ k. 0) 0 1) 1 1 }

update-sample : update_depth sample ≡ ok updated
unfolding update_depth read_depths record_pushes sum_depths total_depth get_coordination_depth
    get_depth
update-sample = refl

next_message_example :
    ((r : ℕ × ℕ) × (peek 7 sample 0 ≡ ok ((0, r.0, r.1), updated))
      × (r.0 + r.1 ≤ 20)
      × (get_elem? (Part.contents part) 0 ≡ some (read part.payload.byte r.0 r.1)))
    × (pop 7 sample 1 ≡ ok (taken updated 0 (1 ∷ [])))
    × IsValid (taken updated 0 (1 ∷ []))
    × (Part.contents ((taken updated 0 (1 ∷ [])).channels 0) ≡ drop 1 (Part.contents part))
next_message_example = next_message 7 {c' = updated} 0 (1 ∷ []) sample-IsValid update-sample refl
