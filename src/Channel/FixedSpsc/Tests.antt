-- ===== src/Channel/FixedSpsc/Tests.antt =====
-- Runs of the channel, and its theorems at concrete inputs.
use hi_cr.Prelude.{ℕ, ◌+◌, ◌≡◌, List, [], ◌∷◌, ok, runtime, arith, refl}
use hi_cr.Memory.{Slot, read, copy, memcpy_global}
use hi_cr.Channel.CircularBuffer.{
  CircularBuffer, get_depth, get_head_position, get_tail_position, advance_head, advance_tail,
}
use hi_cr.Channel.Base.{CoordinationBuffer}
use hi_cr.Channel.FixedSpsc.{Spsc, put_token, put_tokens, publish, push, peek, pop}
use hi_cr.Channel.FixedSpsc.Inv.{IsValid, contents}
use hi_cr.Channel.FixedSpsc.Push.{Pushed, push_lem}
use hi_cr.Channel.FixedSpsc.Refine.{
  Op, send, receive, sent, received, refused, run, queue_run, run_refines,
}

abbrev slot_of : ℕ → ℕ → Slot
slot_of size base = record {
  size = size;
  byte = λ a. a + base;
  messages_recv = 0;
  messages_sent = 0;
}

abbrev ring : CircularBuffer
ring = record { capacity = 4; head = 4; tail = 3 }

-- Four tokens of two bytes, of which the one at position 3 is unread.
abbrev sample : Spsc
sample = record { token_size = 2; token_buffer = slot_of 8 10; producer = ring; consumer = ring }

sample-IsValid : IsValid sample
sample-IsValid = omega arith

abbrev script : List Op
script = send (slot_of 2 50) ∷ receive ∷ receive ∷ receive ∷ []

run-sample :
    run sample script
    ≡ sent ∷ received (16 ∷ 17 ∷ []) ∷ received (50 ∷ 51 ∷ []) ∷ refused runtime ∷ []
unfolding run push peek pop put_tokens put_token publish memcpy_global get_depth get_head_position
    get_tail_position advance_head advance_tail read copy
run-sample = refl

run_refines_example : run sample script ≡ queue_run 2 4 (contents sample) script
run_refines_example = run_refines script sample-IsValid (omega arith) (omega arith)

-- Of a batch of two, the second token is read where the first should be.
push_lem_example :
    (out : Spsc × Slot) × (push sample (slot_of 4 50) 2 ≡ ok out)
    × Pushed sample (slot_of 4 50) 1 out
push_lem_example =
    push_lem (slot_of 4 50) 1 sample-IsValid (omega arith) (omega arith) (omega arith) (omega arith)

abbrev blank : CoordinationBuffer
blank = record { size = 16; head = 7; tail = 9 }

abbrev new : CircularBuffer
new = record { capacity = 4; head = 0; tail = 0 }

abbrev created : Spsc
created = record { token_size = 2; token_buffer = slot_of 8 10; producer = new; consumer = new }
