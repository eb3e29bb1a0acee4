-- ===== src/Rpc/Returning/Tests.antt =====
-- Return values of four and of eight bytes.
use hi_cr.Prelude.{
  ℕ, ◌+◌, ◌≡◌, ◌≤◌, ◌<◌, ◌⊎◌, [], ◌∷◌, ◌++◌, ok, err, runtime, true, false, refl, arith, some,
  get_elem?, drop, replicate,
}
use hi_cr.Memory.{Slot, read}
use hi_cr.Channel.VariableLocking as Returns
use hi_cr.Channel.VariableLocking.Inv as Held
use hi_cr.Rpc.{submit_return_value, get_return_value}
use hi_cr.Rpc.Start.{Garbage}
use hi_cr.Rpc.Retrieve.{position, oldest_size, get_oldest}
use hi_cr.Rpc.Answer.{await_return_value, value_returns}
use hi_cr.Registry.{Registry, get_global_slot}
use hi_cr.Rpc.ReturnBuffers.{
  Allocated, exchange_return_buffers, return_buffers, return_buffers_found,
}
use hi_cr.Rpc.Returning.{make_return_consumer, make_return_producer, first_value_returns}

abbrev slot_of : ℕ → ℕ → Slot
slot_of size base = record {
  size = size;
  byte = λ a. a + base;
  messages_recv = 0;
  messages_sent = 0;
}

-- A channel of four values and ten bytes that holds one value of three bytes at its end.
abbrev values : Returns.Mpsc
values = record {
  payload = slot_of 10 100;
  sizes = record { size = 32; element = λ k. 3 };
  counts = record { capacity = 4; head = 5; tail = 4 };
  payloads = record { capacity = 10; head = 10; tail = 7 };
  locked = false;
}

abbrev producer : Returns.Producer
producer = record {
  own_counts = record { capacity = 4; head = 0; tail = 0 };
  own_payloads = record { capacity = 10; head = 0; tail = 0 };
  payload_size = 1;
}

values-IsValid : Held.IsValid values
values-IsValid = record {
  free = refl;
  counts = omega arith;
  payloads = omega arith;
  half = omega arith;
  payload_half = omega arith;
  room = omega arith;
  word = omega arith;
  sizes = omega arith;
  exact = refl;
}

get_oldest_example :
    ((position values + oldest_size values ≤ 10)
      × ((out : Slot × Returns.Mpsc) × (get_return_value (λ k. 0) values ≡ ok out)
          × (get_elem? (Held.contents values) 0 ≡ some (read out.0.byte 0 out.0.size))
          × Held.IsValid out.1
          × (Held.contents out.1 ≡ drop 1 (Held.contents values)))
      × ((out : Slot × Returns.Mpsc) × (get_return_value (λ k. 0) (record values { locked = true })
            ≡ ok out)
          × (get_elem? (Held.contents values) 0 ≡ some (read out.0.byte 0 out.0.size))
          × (Held.contents out.1 ≡ Held.contents values)
          × (out.1.locked ≡ true)))
    ⊎ ((10 < position values + oldest_size values)
        × (get_return_value (λ k. 0) values ≡ err runtime))
get_oldest_example = get_oldest (λ k. 0) values-IsValid (omega arith) refl

-- The same channel once the value has been taken.
abbrev emptied : Returns.Mpsc
emptied = record {
  payload = slot_of 10 100;
  sizes = record { size = 32; element = λ k. 3 };
  counts = record { capacity = 4; head = 5; tail = 5 };
  payloads = record { capacity = 10; head = 17; tail = 17 };
  locked = false;
}

emptied-IsValid : Held.IsValid emptied
emptied-IsValid = record {
  free = refl;
  counts = omega arith;
  payloads = omega arith;
  half = omega arith;
  payload_half = omega arith;
  room = omega arith;
  word = omega arith;
  sizes = omega arith;
  exact = refl;
}

-- The value would need the bytes 7 to 10 of a buffer of ten bytes.
value_returns_example :
    (c' : Returns.Mpsc) × (p' : Returns.Producer) × (submit_return_value
        (λ k. 0)
        emptied
        producer
        (slot_of 4 50)
      ≡ ok (c', p'))
    × (((position emptied + 4 ≤ 10)
          × (out : Slot × Returns.Mpsc) × (await_return_value
                (λ k. 1)
                (replicate 2 emptied ++ (c' ∷ []))
              ≡ ok (some out))
          × (read out.0.byte 0 out.0.size ≡ read (slot_of 4 50).byte 0 4)
          × Held.IsValid out.1
          × (Held.contents out.1 ≡ []))
        ⊎ ((10 < position emptied + 4)
            × (await_return_value (λ k. 1) (replicate 2 emptied ++ (c' ∷ [])) ≡ err runtime)))
value_returns_example =
    value_returns (λ k. 0) (λ k. 1) 2 producer (slot_of 4 50) emptied-IsValid refl refl
      (record { counts = refl; payloads = refl }) (omega arith) (omega arith) (omega arith)

abbrev noise : Garbage
noise = record { bytes = λ a. a; head = 3; tail = 7 }

first_value_returns_example :
    (c c' : Returns.Mpsc) × (p p' : Returns.Producer) × (out : Slot × Returns.Mpsc)
    × (make_return_consumer (λ k. k) (λ k. 9) noise noise ≡ ok c)
    × (make_return_producer noise noise ≡ ok p)
    × (submit_return_value (λ k. 0) c p (slot_of 8 50) ≡ ok (c', p'))
    × (await_return_value (λ k. 1) (replicate 3 c ++ (c' ∷ [])) ≡ ok (some out))
    × (read out.0.byte 0 out.0.size ≡ read (slot_of 8 50).byte 0 8)
    × Held.IsValid out.1
    × (Held.contents out.1 ≡ [])
first_value_returns_example =
    first_value_returns (λ k. 0) (λ k. 1) (λ k. k) (λ k. 9) noise noise noise noise 3 (slot_of 8 50)
      (omega arith)

abbrev other_slots : Registry
other_slots = record { core = []; registered = []; to_destroy = [] }

abbrev allocated : Allocated
allocated = record {
  sizes = λ k. 10 + k;
  payload = λ k. 20 + k;
  coordination_sizes = λ k. 30 + k;
  coordination_payloads = λ k. 40 + k;
}

return_buffers_found_example :
    (return_buffers (exchange_return_buffers 100 3 allocated other_slots) 100 2
      ≡ ok (record {
        payload = record { tag = 101; key = 2; source = 22 };
        sizes = record { tag = 100; key = 2; source = 12 };
        coordination_payloads = record { tag = 103; key = 2; source = 42 };
        coordination_sizes = record { tag = 102; key = 2; source = 32 };
      }))
    × (get_global_slot 104 2 (exchange_return_buffers 100 3 allocated other_slots).core
        ≡ get_global_slot 104 2 other_slots.core)
return_buffers_found_example =
    return_buffers_found 100 3 allocated other_slots 2 104 2 (omega arith) (λ k h e. omega arith)
