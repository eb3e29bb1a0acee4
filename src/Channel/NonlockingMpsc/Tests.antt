-- ===== src/Channel/NonlockingMpsc/Tests.antt =====
-- Two producers, each of which has sent one token.
use hi_cr.Prelude.{some, ℕ, ◌+◌, ◌≡◌, [], ◌∷◌, ok, refl, arith, drop}
use hi_cr.Memory.{Slot}
use hi_cr.Channel.CircularBuffer.{CircularBuffer, get_depth}
use hi_cr.Channel.FixedSpsc.{Spsc}
use hi_cr.Channel.FixedSpsc.Inv as Channel
use hi_cr.Channel.Base.{
  CoordinationBuffer, initialize_coordination_buffer, create_base, token_buffer_size,
}
use hi_cr.Channel.FixedSpsc.Create.{create, create_producer, create_consumer}
use hi_cr.Channel.NonlockingMpsc.{
  Mpsc, update_depth, read_depths, record_pushes, sum_depths, replace, pop,
}
use hi_cr.Channel.NonlockingMpsc.Sync.{IsValid, Updated, update_depth_lem}
use hi_cr.Channel.NonlockingMpsc.Calls.{taken, pop_next}

abbrev slot_of : ℕ → ℕ → Slot
slot_of size base = record {
  size = size;
  byte = λ a. a + base;
  messages_recv = 0;
  messages_sent = 0;
}

abbrev ring : CircularBuffer
ring = record { capacity = 4; head = 4; tail = 3 }

abbrev part : Spsc
part = record { token_size = 2; token_buffer = slot_of 8 10; producer = ring; consumer = ring }

part-IsValid : Channel.IsValid part
part-IsValid = omega arith

abbrev sample : Mpsc
sample = record { producers = 2; channels = λ k. part; pushes = []; depths = λ k. 0 }

abbrev updated : Mpsc
updated = record {
  producers = 2;
  channels = λ k. part;
  pushes = 0 ∷ 1 ∷ [];
  depths = replace (replace (λ k. 0) 0 1) 1 1;
}

sample-IsValid : IsValid sample
sample-IsValid = record {
  channels = λ i lt. part-IsValid;
  counted = λ i lt. refl;
  behind = λ i lt. omega arith;
  known = λ i le. refl;
  word = omega arith;
}

update-sample : update_depth sample ≡ ok updated
unfolding update_depth read_depths record_pushes sum_depths get_depth
update-sample = refl

update_depth_lem_example : (c' : Mpsc) × (update_depth sample ≡ ok c') × Updated sample c'
update_depth_lem_example = update_depth_lem sample-IsValid

pop_next_example :
    (pop 7 sample 1 ≡ ok (taken updated 0 (1 ∷ [])))
    × IsValid (taken updated 0 (1 ∷ []))
    × (Channel.contents ((taken updated 0 (1 ∷ [])).channels 0) ≡ drop 1 (Channel.contents part))
pop_next_example =
    pop_next 7 {c = sample} {c' = updated} 0 (1 ∷ []) sample-IsValid update-sample refl

abbrev blank : CoordinationBuffer
blank = record { size = 16; head = 7; tail = 9 }

abbrev unused : CircularBuffer
unused = record { capacity = 4; head = 0; tail = 0 }

abbrev made : Spsc
made = record { token_size = 2; token_buffer = slot_of 8 10; producer = unused; consumer = unused }

create-made : create (some (slot_of 8 10)) blank blank 2 4 ≡ ok made
unfolding create create_producer create_consumer create_base initialize_coordination_buffer
    token_buffer_size
create-made = refl
