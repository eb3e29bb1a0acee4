-- ===== src/Channel/VariableLocking/Chunks.antt =====
-- The copy of a message into the payload buffer, in one chunk or in two.
use native.Mathlib.Nat.{mod-lt}
use hi_cr.Prelude.{ℕ, ◌+◌, ◌-◌, ◌%◌, ◌^◌, ◌≡◌, ◌≤◌, ◌<◌, arith, ok, dec_lt, add_size}
use hi_cr.Memory.{Slot, copy}
use hi_cr.Memory.Laws.{memcpy_global_lem}
use hi_cr.Channel.CircularBuffer.{CircularBuffer, get_head_position}
use hi_cr.Channel.VariableLocking.{put_payload}
use hi_cr.Channel.VariableLocking.Ring.{put_bytes}

-- The payload buffer after a push at the head of `q`.
abbrev pub placed : Slot → CircularBuffer → Slot → ℕ → Slot
placed dst q src recv = record dst {
  byte = put_bytes dst.byte q.capacity q.head src.byte src.size;
  messages_recv = recv;
}

abbrev two_more : ℕ → ℕ
two_more k = add_size (add_size k 1) 1

one_chunk :
    (dst : Slot) (q : CircularBuffer) (src : Slot)
    → dst.size < 2 ^ 64
    → q.capacity ≤ dst.size
    → src.size + q.head % q.capacity ≤ q.capacity
    → put_payload dst q src
      ≡ ok (
        placed dst q src (two_more dst.messages_recv),
        record src { messages_sent = two_more src.messages_sent },
      )
unfolding put_payload get_head_position
one_chunk dst q src word room h = ground (
  arith,
  memcpy_global_lem dst src (q.head % q.capacity) 0 src.size word (omega arith) (omega arith)
      (omega arith),
)

two_chunks :
    (dst : Slot) (q : CircularBuffer) (src : Slot)
    → dst.size < 2 ^ 64
    → q.capacity ≤ 2 ^ 62
    → q.capacity ≤ dst.size
    → src.size ≤ q.capacity
    → q.head % q.capacity < q.capacity
    → q.capacity < src.size + q.head % q.capacity
    → put_payload dst q src
      ≡ ok (
        placed dst q src (two_more (two_more dst.messages_recv)),
        record src { messages_sent = two_more (two_more src.messages_sent) },
      )
unfolding put_payload get_head_position
two_chunks dst q src word half room fits pos h =
    let first = q.capacity - q.head % q.capacity in
    let mid : Slot = record dst {
      byte = copy dst.byte (q.head % q.capacity) src.byte 0 first;
      messages_recv = two_more dst.messages_recv;
    } in
    let src' : Slot = record src { messages_sent = two_more src.messages_sent } in
    ground (
      arith,
      memcpy_global_lem dst src (q.head % q.capacity) 0 first word (omega arith) (omega arith)
          (omega arith),
      memcpy_global_lem mid src' 0 first (src.size - first) word (omega arith) (omega arith)
          (omega arith),
    )

-- What `put_payload` leaves, up to the numbers of the messages that it counts.
pub put_payload_lem :
    (dst : Slot) (q : CircularBuffer) (src : Slot)
    → 0 < q.capacity
    → q.capacity ≤ 2 ^ 62
    → q.capacity ≤ dst.size
    → dst.size < 2 ^ 64
    → src.size ≤ q.capacity
    → (recv : ℕ) × (sent : ℕ) × (put_payload dst q src
        ≡ ok (placed dst q src recv, record src { messages_sent = sent }))
put_payload_lem dst q src pos half room word fits =
    let small : q.head % q.capacity < q.capacity = mod-lt q.head pos in
    elim (dec_lt q.capacity (src.size + q.head % q.capacity)) [
      | no h ↦ (_, _, one_chunk dst q src word room (omega arith))
      | yes h ↦ (_, _, two_chunks dst q src word half room fits small h)
    ]
