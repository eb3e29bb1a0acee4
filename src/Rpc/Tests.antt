-- ===== src/Rpc/Tests.antt =====
-- An instance with two producers.
use hi_cr.Prelude.{
  ℕ, ◌+◌, ◌-◌, ◌*◌, ◌≡◌, List, [], ◌∷◌, ◌++◌, ok, true, refl, arith, some, replicate,
}
use hi_cr.Memory.{Slot}
use hi_cr.Registry.{Registry, find}
use hi_cr.Compute.{PuState, Backend, returned}
use hi_cr.Compute.Lifetime.{Works}
use hi_cr.Channel.CircularBuffer.{CircularBuffer}
use hi_cr.Channel.FixedSpsc.{Spsc}
use hi_cr.Channel.FixedSpsc.Inv as Channel
use hi_cr.Channel.NonlockingMpsc as Mpsc
use hi_cr.Channel.NonlockingMpsc.Send.{IsIdle}
use hi_cr.Rpc.{Engine, add_rpc_target, request_rpc, has_pending_rpcs, parse_and_execute_rpc}
use hi_cr.Rpc.Start.{Garbage, Unset, initialize_rpc_channels, first_request_executes}
use hi_cr.Rpc.Roundtrip.{request_executes}
use hi_cr.Rpc.Listen.{listen, listen_executes}
use hi_cr.Rpc.Buffers.{ChannelBuffers, exchange_buffers, consumer_buffers, producer_channels}
use hi_cr.Rpc.Ends.{ends_agree}

abbrev working : Backend
working = record {
  initialize_impl = returned;
  start_impl = returned;
  suspend_impl = returned;
  resume_impl = returned;
  terminate_impl = returned;
  await_impl = returned;
}

working-Works : Works working
working-Works = ground arith

abbrev slot_of : ℕ → ℕ → Slot
slot_of size base = record {
  size = size;
  byte = λ a. a + base;
  messages_recv = 0;
  messages_sent = 0;
}

abbrev ring : ℕ → CircularBuffer
ring head = record { capacity = 4; head = head; tail = 3 }

abbrev part : ℕ → Spsc
part head = record {
  token_size = 16;
  token_buffer = slot_of 64 0;
  producer = ring head;
  consumer = ring head;
}

part-IsValid : Channel.IsValid (part 3)
part-IsValid = omega arith

abbrev idle : Mpsc.Mpsc
idle = record { producers = 2; channels = λ k. part 3; pushes = []; depths = λ k. 0 }

idle-IsIdle : IsIdle idle
idle-IsIdle = record {
  valid = record {
    channels = λ i lt. part-IsValid;
    counted = λ i lt. refl;
    behind = λ i lt. omega arith;
    known = λ i le. refl;
    word = omega arith;
  };
  queue = refl;
  empty = λ j l. refl;
}

abbrev engine : Engine
engine = record {
  requester_instance_idx = 0;
  current_argument = 0;
  consumer_channel = idle;
  target_map = [];
}

-- A stand-in for the hash of the standard library.
abbrev hash : List ℕ → ℕ
hash [] = 5
hash (x ∷ l) = x

request_executes_example :
    (posted e' : Engine) × (request_rpc hash 1
        (add_rpc_target hash engine (72 ∷ []) 9)
        (72 ∷ [])
        300
      ≡ ok posted)
    × ((seen : Engine) × (has_pending_rpcs posted ≡ ok (true, seen)))
    × (parse_and_execute_rpc working 0 posted ≡ ok (e', ok (9, PuState.terminated)))
    × (e'.requester_instance_idx ≡ 1)
    × (e'.current_argument ≡ 300)
    × IsIdle e'.consumer_channel
request_executes_example =
    request_executes hash working 0 1 engine (72 ∷ []) 9 300 working-Works idle-IsIdle (omega arith)
      (record { valid = part-IsValid; token = refl; none = refl; word = omega arith }) (omega arith)
      (omega arith)

abbrev blank : Registry
blank = record { core = []; registered = []; to_destroy = [] }

ends_agree_example :
    (b : ChannelBuffers) × (m : List (ℕ × ChannelBuffers)) × (consumer_buffers
        (exchange_buffers 100 3 (λ x y. x + y) (λ x y. x * y) (λ x y. x) blank)
        100
        3
        1
        2
      ≡ ok b)
    × (producer_channels
          (exchange_buffers 100 3 (λ x y. x + y) (λ x y. x * y) (λ x y. x) blank)
          100
          3
          2
          (λ k. k)
          3
        ≡ ok m)
    × (find 1 m ≡ some b)
    × (b.token_buffer.source ≡ 3)
    × (b.producer_buffer.source ≡ 2)
    × (b.consumer_buffer.source ≡ 1)
ends_agree_example =
    ends_agree 100 3 (λ x y. x + y) (λ x y. x * y) (λ x y. x) blank (λ k. k) 1 2 (omega arith)
      (λ k h. refl) (omega arith) (omega arith)

abbrev noise : ℕ → Garbage
noise k = record { bytes = λ a. a + k; head = k; tail = 7 }

abbrev unset : Unset
unset = record { requester = 5; argument = 6 }

first_request_executes_example :
    (fresh posted e' : Engine) × (channels : List (ℕ × ChannelBuffers)) × (initialize_rpc_channels
        unset noise
        (part 3)
        100
        3
        (λ x y. x + y)
        (λ x y. x * y)
        (λ x y. x)
        (λ k. 2 - k)
        1
        blank
      ≡ ok (fresh, channels))
    × (request_rpc hash 2 (add_rpc_target hash fresh (72 ∷ []) 9) (72 ∷ []) 300 ≡ ok posted)
    × ((seen : Engine) × (has_pending_rpcs posted ≡ ok (true, seen)))
    × (parse_and_execute_rpc working 0 posted ≡ ok (e', ok (9, PuState.terminated)))
    × (e'.requester_instance_idx ≡ 2)
    × (e'.current_argument ≡ 300)
    × IsIdle e'.consumer_channel
first_request_executes_example =
    first_request_executes hash working 0 2 3 100 1 unset noise (part 3) (λ x y. x + y)
      (λ x y. x * y) (λ x y. x) (λ k. 2 - k) blank (72 ∷ []) 9 300 working-Works (omega arith)
      (omega arith) (omega arith) (omega arith) (omega arith)

listen_executes_example :
    (posted e' : Engine) × (request_rpc hash 1
        (add_rpc_target hash engine (72 ∷ []) 9)
        (72 ∷ [])
        300
      ≡ ok posted)
    × (listen working 0
          (replicate 2 engine.consumer_channel.channels ++ (posted.consumer_channel.channels ∷ []))
          (add_rpc_target hash engine (72 ∷ []) 9)
        ≡ ok (some (e', ok (9, PuState.terminated))))
    × (e'.requester_instance_idx ≡ 1)
    × (e'.current_argument ≡ 300)
    × IsIdle e'.consumer_channel
listen_executes_example =
    listen_executes hash working 0 2 1 engine (72 ∷ []) 9 300 working-Works idle-IsIdle
      (omega arith) (record { valid = part-IsValid; token = refl; none = refl; word = omega arith })
      (omega arith) (omega arith)
