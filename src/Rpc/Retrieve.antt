-- ===== src/Rpc/Retrieve.antt =====
-- How the requester takes a return value from its channel.
use native.Mathlib.Nat.{mod-lt}
use hi_cr.Prelude.{
  ℕ, ◌+◌, ◌%◌, ◌≡◌, ◌≤◌, ◌<◌, ◌⊎◌, add_size, refl, arith, ok, err, runtime, true, ap, sym, ◌∙◌,
  some, get_elem?, inl, inr, dec_le, drop,
}
use hi_cr.Memory.{Slot, read, memcpy_local, copy}
use hi_cr.Memory.Laws.{memcpy_local_lem, read-copy_self}
use hi_cr.Channel.VariableLocking.{Mpsc, base_peek, peek, pop}
use hi_cr.Channel.VariableLocking.Ring.{ring-read}
use hi_cr.Channel.VariableLocking.Inv.{IsValid, depth, contents}
use hi_cr.Channel.VariableLocking.Pop.{pop_one}
use hi_cr.Channel.VariableLocking.Peek.{peek_ok, first_fits, oldest_at_position}
use hi_cr.Rpc.{get_return_value}

-- The position and the size of the oldest message.
abbrev pub position : Mpsc → ℕ
position c = c.payloads.tail % c.payloads.capacity

abbrev pub oldest_size : Mpsc → ℕ
oldest_size c = c.sizes.element (c.counts.tail % c.counts.capacity)

-- The slot that is handed to the caller.
abbrev taken : (ℕ → ℕ) → Mpsc → Slot
taken fresh c = record {
  size = oldest_size c;
  byte = copy fresh 0 c.payload.byte (position c) (oldest_size c);
  messages_recv = 2;
  messages_sent = 0;
}

-- The channel after the copy of its payload, which is counted as two messages.
abbrev copied_from : Mpsc → Mpsc
copied_from c = record c {
  payload = record c.payload { messages_sent = add_size (add_size c.payload.messages_sent 1) 1 };
}

copied_from-IsValid : {c : Mpsc} → IsValid c → IsValid (copied_from c)
copied_from-IsValid v = record {
  free = v.free;
  counts = v.counts;
  payloads = v.payloads;
  half = v.half;
  payload_half = v.payload_half;
  room = v.room;
  word = v.word;
  sizes = v.sizes;
  exact = v.exact;
}

taken-first :
    (fresh : ℕ → ℕ) (c : Mpsc)
    → 0 < depth c
    → position c + oldest_size c ≤ c.payloads.capacity
    → get_elem? (contents c) 0 ≡ some (read (taken fresh c).byte 0 (taken fresh c).size)
taken-first fresh c h fits =
    oldest_at_position c h
    ∙ ap some (
        ring-read c.payload.byte c.payloads.capacity (position c) (oldest_size c) fits
        ∙ sym (read-copy_self fresh c.payload.byte 0 (position c) (oldest_size c)))

get_wrapped :
    (fresh : ℕ → ℕ) {c : Mpsc}
    → IsValid c
    → 0 < depth c
    → c.payload.size ≡ c.payloads.capacity
    → c.payloads.capacity < position c + oldest_size c
    → get_return_value fresh c ≡ err runtime
unfolding get_return_value memcpy_local
get_wrapped fresh {c} v h whole wraps = ground (
  arith,
  peek_ok v h,
  whole,
  v.payload_half,
  first_fits v h,
  mod-lt c.payloads.tail v.payloads.nonempty,
)

get_whole :
    (fresh : ℕ → ℕ) (c c' : Mpsc)
    → IsValid c
    → 0 < depth c
    → position c + oldest_size c ≤ c.payloads.capacity
    → pop (copied_from c) 1 ≡ (c', ok true)
    → get_return_value fresh c ≡ ok (taken fresh c, c')
unfolding get_return_value
get_whole fresh c c' v h fits e =
    let copy_ok =
      memcpy_local_lem
        (record { size = oldest_size c; byte = fresh; messages_recv = 0; messages_sent = 0 })
        c.payload 0 (position c) (oldest_size c) (omega (arith, first_fits v h, v.payload_half))
        v.word (omega arith) (omega (arith, v.room)) in
    rw (peek_ok v h, copy_ok, e) refl

-- A peek takes no lock.
peek_locked : (c : Mpsc) → peek (record c { locked = true }) 0 ≡ peek c 0
unfolding peek base_peek
peek_locked c = refl

-- Taking a return value while another party holds the lock gives the bytes of the oldest message, but
-- leaves that message in the channel, where the next call finds it again: this holds for a channel
-- that is valid but for the lock, with a message that lies in one piece.
get_again :
    (fresh : ℕ → ℕ) {c : Mpsc}
    → IsValid c
    → 0 < depth c
    → position c + oldest_size c ≤ c.payloads.capacity
    → (out : Slot × Mpsc) × (get_return_value fresh (record c { locked = true }) ≡ ok out)
      × (get_elem? (contents c) 0 ≡ some (read out.0.byte 0 out.0.size))
      × (contents out.1 ≡ contents c)
      × (out.1.locked ≡ true)
unfolding get_return_value peek base_peek pop
get_again fresh {c} v h k =
    let copy_ok =
      memcpy_local_lem
        (record { size = oldest_size c; byte = fresh; messages_recv = 0; messages_sent = 0 })
        c.payload 0 (position c) (oldest_size c) (omega (arith, first_fits v h, v.payload_half))
        v.word (omega arith) (omega (arith, v.room)) in
    (
      (taken fresh c, record (copied_from c) { locked = true }),
      rw (peek_locked c ∙ peek_ok v h, copy_ok) refl,
      taken-first fresh c h k,
      refl,
      refl,
    )

-- Taking a return value from a valid channel that holds one, and whose payload slot is as large as
-- its capacity. Where the oldest message lies in one piece, this gives a slot with its bytes; with a
-- free lock it removes that message and keeps the channel valid, and while another party holds the
-- lock it leaves the message in the channel, where the next call finds it again. Where the message
-- passes the end of the payload buffer, as a push may well place it, it is a runtime error.
pub get_oldest :
    (fresh : ℕ → ℕ) {c : Mpsc}
    → IsValid c
    → 0 < depth c
    → c.payload.size ≡ c.payloads.capacity
    → ((position c + oldest_size c ≤ c.payloads.capacity)
        × ((out : Slot × Mpsc) × (get_return_value fresh c ≡ ok out)
            × (get_elem? (contents c) 0 ≡ some (read out.0.byte 0 out.0.size))
            × IsValid out.1
            × (contents out.1 ≡ drop 1 (contents c)))
        × ((out : Slot × Mpsc) × (get_return_value fresh (record c { locked = true }) ≡ ok out)
            × (get_elem? (contents c) 0 ≡ some (read out.0.byte 0 out.0.size))
            × (contents out.1 ≡ contents c)
            × (out.1.locked ≡ true)))
      ⊎ ((c.payloads.capacity < position c + oldest_size c)
          × (get_return_value fresh c ≡ err runtime))
get_oldest fresh {c} v h whole = elim (dec_le (position c + oldest_size c) c.payloads.capacity) [
  | no k ↦ inr (omega arith, get_wrapped fresh v h whole (omega arith))
  | yes k ↦ elim (pop_one (copied_from-IsValid v)) [
    | inl (_, (c', e, v', f)) ↦ inl (
      k,
      ((taken fresh c, c'), get_whole fresh c c' v h k e, taken-first fresh c h k, v', f),
      get_again fresh v h k,
    )
    | inr (none, _) ↦ absurd (omega arith)
  ]
]
