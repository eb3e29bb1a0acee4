-- ===== src/Channel/LockingMpsc/Tests.antt =====
-- A batch of two tokens, sent by one of the producers.
use hi_cr.Prelude.{
  ◌+◌, ◌*◌, ◌≡◌, ◌≤◌, ◌<◌, ◌⊎◌, ℕ, [], ◌∷◌, ◌++◌, ok, err, logic, true, false, none, some, refl,
  arith, drop, get_elem?,
}
use hi_cr.Memory.{Slot, read}
use hi_cr.Channel.CircularBuffer.{CircularBuffer}
use hi_cr.Channel.LockingMpsc.{Mpsc, push, peek, pop}
use hi_cr.Channel.LockingMpsc.Calls.{IsValid, contents, push_batch, take_lem}

abbrev slot_of : ℕ → ℕ → Slot
slot_of size base = record {
  size = size;
  byte = λ a. a + base;
  messages_recv = 0;
  messages_sent = 0;
}

abbrev ring : CircularBuffer
ring = record { capacity = 4; head = 4; tail = 3 }

abbrev sample : Mpsc
sample = record { token_size = 2; token_buffer = slot_of 8 10; consumer = ring; locked = false }

-- A producer that has not looked at the channel for long.
abbrev stale : CircularBuffer
stale = record { capacity = 4; head = 0; tail = 0 }

sample-IsValid : IsValid sample
sample-IsValid = ground arith

push_batch_example :
    ((6 ≤ 7)
      × ((out : Mpsc × CircularBuffer × Slot) × (push sample stale (slot_of 4 50) 2
            ≡ ok (true, out.0, out.1, out.2))
          × IsValid out.0
          × (contents out.0 ≡ contents sample ++ ((50 ∷ 51 ∷ []) ∷ (52 ∷ 53 ∷ []) ∷ []))
          × (out.1.capacity ≡ 4)
          × (out.2.byte ≡ (slot_of 4 50).byte)))
    ⊎ ((7 < 6)
        × ((p' : CircularBuffer) × (push sample stale (slot_of 4 50) 2
              ≡ ok (false, sample, p', slot_of 4 50))))
unfolding read
push_batch_example =
    push_batch stale (slot_of 4 50) 2 sample-IsValid refl (omega arith) (omega arith) (omega arith)
      (omega arith)

take_lem_example :
    (((1 ≤ 1)
        × ((c' : Mpsc) × (pop sample 1 ≡ ok (true, c'))
            × IsValid c'
            × (contents c' ≡ drop 1 (contents sample))))
      ⊎ ((1 < 1) × (1 ≤ 4) × (pop sample 1 ≡ ok (false, sample)))
      ⊎ ((4 < 1) × (pop sample 1 ≡ err logic)))
    × (((0 < 1)
          × ((k : ℕ) × (peek sample 0 ≡ ok (some k, sample))
              × (k < 4)
              × (get_elem? (contents sample) 0 ≡ some (read sample.token_buffer.byte (2 * k) 2))))
        ⊎ ((1 ≤ 0) × (0 < 4) × (peek sample 0 ≡ ok (none, sample)))
        ⊎ ((4 ≤ 0) × (peek sample 0 ≡ err logic)))
take_lem_example = take_lem 1 0 sample-IsValid
