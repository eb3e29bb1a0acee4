-- ===== src/Channel/FixedSpsc/Threads/Tests.antt =====
-- A schedule in which one token is sent and received.
use hi_cr.Prelude.{ℕ, ◌+◌, ◌≡◌, ◌≤◌, ◌⊎◌, [], ◌∷◌, ◌++◌, refl, arith, length}
use hi_cr.Memory.{Slot, read, copy, memcpy_global}
use hi_cr.Channel.CircularBuffer.{
  CircularBuffer, get_depth, get_head_position, get_tail_position, advance_head,
}
use hi_cr.Channel.FixedSpsc.{Spsc, put_token, peek}
use hi_cr.Channel.FixedSpsc.Threads.{
  System, ProducerPc, ConsumerPc, holding, check, copy_token, advance, tell_consumer, peek_first,
  read_token, Reach, start, next, initial,
}
use hi_cr.Channel.FixedSpsc.Threads.Inv.{in_flight}
use hi_cr.Channel.FixedSpsc.Threads.Safety.{Fresh, delivered_in_order}
use hi_cr.Channel.FixedSpsc.Threads.Progress.{ProducerMoves, ConsumerMoves, calls_finish}

abbrev new : CircularBuffer
new = record { capacity = 2; head = 0; tail = 0 }

abbrev slot_of : ℕ → ℕ → Slot
slot_of size base = record {
  size = size;
  byte = λ a. a + base;
  messages_recv = 0;
  messages_sent = 0;
}

abbrev created : Spsc
created = record { token_size = 2; token_buffer = slot_of 4 10; producer = new; consumer = new }

created-Fresh : Fresh created
created-Fresh = ground arith

abbrev source : Slot
source = slot_of 2 50

abbrev filled : Slot
filled = record {
  size = 4;
  byte = copy (λ a. a + 10) 0 (λ a. a + 50) 0 2;
  messages_recv = 2;
  messages_sent = 0;
}

abbrev ahead : CircularBuffer
ahead = record { capacity = 2; head = 1; tail = 0 }

-- The producer is back, the consumer holds the token.
abbrev after : System
after = record {
  channel = record { token_size = 2; token_buffer = filled; producer = ahead; consumer = ahead };
  producer_pc = ProducerPc.outside;
  consumer_pc = holding (50 ∷ 51 ∷ []);
  sent = (50 ∷ 51 ∷ []) ∷ [];
  received = [];
}

reaches : Reach (initial created) after
unfolding get_depth advance_head put_token memcpy_global peek get_tail_position get_head_position
    read copy
reaches =
    next
      (next
        (next
          (next
            (next (next start (check source 0 refl (omega arith) (omega arith) refl (omega arith)))
              (copy_token source _ refl refl))
            (advance source _ refl refl))
          (tell_consumer refl))
        (peek_first 0 refl refl))
      (read_token 0 refl)

delivered_in_order_example :
    (((50 ∷ 51 ∷ []) ∷ [] ≡ [] ++ in_flight after.channel)) × (length (in_flight after.channel) ≤ 2)
delivered_in_order_example = delivered_in_order created-Fresh reaches (omega arith)

calls_finish_example :
    ((after.producer_pc ≡ ProducerPc.outside) ⊎ ProducerMoves after)
    × ((after.consumer_pc ≡ ConsumerPc.outside) ⊎ ConsumerMoves after)
calls_finish_example = calls_finish created-Fresh reaches (omega arith)
