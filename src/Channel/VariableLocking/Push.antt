-- ===== src/Channel/VariableLocking/Push.antt =====
-- What `push` does to a valid channel, on every branch.
use hi_cr.Prelude.{
  ℕ, ◌+◌, ◌-◌, ◌^◌, ◌≡◌, ◌≤◌, ◌<◌, ◌⊎◌, inl, inr, [], ◌∷◌, ◌++◌, refl, arith, ok, dec_le, dec_lt,
  ap, ap₂, ◌∙◌, true, false,
}
use hi_cr.Memory.{Slot, read}
use hi_cr.Channel.CircularBuffer.{CircularBuffer, get_depth, advance_head}
use hi_cr.Channel.VariableSpsc.Sizes.{
  noted, put_size_lem, sizes_kept, new_size, total_kept, total_grown,
}
use hi_cr.Channel.Region.{messages-eq, messages-append}
use hi_cr.Channel.VariableLocking.{Mpsc, Producer, put_message, push_locked, push, update_depth}
use hi_cr.Channel.VariableLocking.Ring.{ring, ring-eq, put_bytes-kept, ring-put_bytes}
use hi_cr.Channel.VariableLocking.Inv.{IsValid, depth, contents}
use hi_cr.Channel.VariableLocking.Chunks.{placed, put_payload_lem}

-- There is room for one more message of `z` bytes.
pub record HasRoom (c : Mpsc) (z : ℕ) : Type 0 where
  pub count : depth c < c.counts.capacity
  pub space : c.payloads.head + z ≤ c.payloads.tail + c.payloads.capacity

-- A producer whose circular buffers have the capacities of the consumer's.
pub record Matches (p : Producer) (c : Mpsc) : Type 0 where
  pub counts : p.own_counts.capacity ≡ c.counts.capacity
  pub payloads : p.own_payloads.capacity ≡ c.payloads.capacity

abbrev grown : CircularBuffer → ℕ → CircularBuffer
grown q n = record q { head = q.head + n }

-- The producer after its update of the depths.
abbrev pub updated : Mpsc → Producer → Producer
updated c p = record p { own_counts = c.counts; own_payloads = c.payloads }

update_lem : {c : Mpsc} {p : Producer} → Matches p c → update_depth c p ≡ updated c p
unfolding update_depth
update_lem {c} {p} e = λ i. record p {
  own_counts = record c.counts { capacity = e.counts i };
  own_payloads = record c.payloads { capacity = e.payloads i };
}

abbrev pub pushed : Mpsc → Slot → ℕ → Mpsc
pushed c src recv = record {
  payload = placed c.payload c.payloads src recv;
  sizes = noted c.sizes c.counts src.size;
  counts = grown c.counts 1;
  payloads = grown c.payloads src.size;
  locked = false;
}

-- The producer after a push.
abbrev pub advanced : Mpsc → Producer → Slot → Producer
advanced c p src = record p {
  own_counts = grown c.counts 1;
  own_payloads = grown c.payloads src.size;
}

put_message_lem :
    {c : Mpsc} (p : Producer) (src : Slot)
    → IsValid c
    → HasRoom c src.size
    → c.counts.head + 1 < 2 ^ 64
    → c.payloads.head + src.size < 2 ^ 64
    → (recv : ℕ) × (sent : ℕ) × (put_message (record c { locked = true }) (updated c p) src
        ≡ ok (true, pushed c src recv, advanced c p src, record src { messages_sent = sent }))
unfolding put_message advance_head
put_message_lem {c} p src v r w w' =
    let (recv, sent, e) =
      put_payload_lem c.payload c.payloads src v.payloads.nonempty v.payload_half v.room v.word
        (omega (arith, v.payloads, r.space)) in
    (
      recv,
      sent,
      ground (
        arith,
        v.counts,
        v.payloads,
        r,
        put_size_lem c.sizes c.counts src.size v.counts v.half v.sizes,
        e,
      ),
    )

pub push_ok :
    {c : Mpsc} (p : Producer) (src : Slot)
    → IsValid c
    → Matches p c
    → HasRoom c src.size
    → src.size < 2 ^ 63
    → c.counts.head + 1 < 2 ^ 64
    → c.payloads.head + src.size < 2 ^ 64
    → (recv : ℕ) × (sent : ℕ) × (push c p src 1
        ≡ ok (true, pushed c src recv, advanced c p src, record src { messages_sent = sent }))
unfolding push push_locked get_depth
push_ok {c} p src v m r small w w' =
    let (recv, sent, e) = put_message_lem p src v r w w' in
    let u : update_depth (record c { locked = true }) p ≡ updated c p = update_lem m in
    (recv, sent, ground (arith, v.counts, v.payloads, v.half, v.payload_half, r, u, e))

refused :
    {c : Mpsc} (p : Producer) (src : Slot)
    → IsValid c
    → Matches p c
    → src.size < 2 ^ 63
    → (depth c ≡ c.counts.capacity)
      ⊎ (c.payloads.tail + c.payloads.capacity < c.payloads.head + src.size)
    → push c p src 1 ≡ ok (false, c, updated c p, src)
unfolding push push_locked get_depth
refused {c} p src v m small h =
    let u : update_depth (record c { locked = true }) p ≡ updated c p = update_lem m in
    ground (arith, v, u, h)

pub pushed-IsValid :
    {c : Mpsc} (src : Slot) (recv : ℕ)
    → IsValid c
    → HasRoom c src.size
    → c.counts.head + 1 < 2 ^ 64
    → c.payloads.head + src.size < 2 ^ 64
    → IsValid (pushed c src recv)
pushed-IsValid {c} src recv v r w w' = record {
  free = refl;
  counts = ground (arith, v.counts, r);
  payloads = ground (arith, v.payloads, r);
  half = v.half;
  payload_half = v.payload_half;
  room = v.room;
  word = v.word;
  sizes = v.sizes;
  exact = omega (
    arith,
    total_grown c.sizes c.counts src.size v.counts.ordered (omega (arith, v.counts, r.count)),
    v.exact,
  );
}

pub contents-pushed :
    {c : Mpsc} (src : Slot) (recv : ℕ)
    → IsValid c
    → HasRoom c src.size
    → contents (pushed c src recv) ≡ contents c ++ (read src.byte 0 src.size ∷ [])
contents-pushed {c} src recv v r =
    let now = ring (placed c.payload c.payloads src recv).byte c.payloads.capacity in
    let sizes = (noted c.sizes c.counts src.size).element in
    let free : c.counts.head < c.counts.tail + c.counts.capacity =
      omega (arith, v.counts, r.count) in
    messages-append now sizes c.counts.capacity c.counts.tail c.payloads.tail (depth c) 1
      (c.counts.head + 1 - c.counts.tail) c.counts.head c.payloads.head (omega (arith, v.counts))
      (omega (arith, v.counts))
      (omega (arith, total_kept c.sizes c.counts src.size v.counts.ordered free, v.exact))
    ∙ ap₂ ◌++◌
        (messages-eq (ring c.payload.byte c.payloads.capacity) now c.sizes.element sizes
          c.counts.capacity c.counts.tail c.payloads.tail (depth c)
          (λ k lo hi. sizes_kept c.sizes c.counts src.size free k lo (omega (arith, v.counts)))
          (λ a z lo hi.
            ring-eq c.payload.byte (placed c.payload c.payloads src recv).byte c.payloads.capacity a
              z
              (λ b p q.
                put_bytes-kept c.payload.byte src.byte c.payloads.capacity c.payloads.head src.size
                  b v.payloads.nonempty (omega (arith, v.exact)) (omega (arith, r.space)))))
        (ap (λ x. x ∷ [])
          (ap (now c.payloads.head) (new_size c.sizes c.counts src.size)
            ∙ ring-put_bytes c.payload.byte src.byte c.payloads.capacity c.payloads.head src.size
                (omega (arith, r.space, v.payloads))))

-- A push to a valid channel with a free lock, by any producer of its capacities, appends the bytes
-- of the source as one message, also where they run past the end of the payload buffer, and keeps
-- the channel valid and the bytes of the source, where both the count and the bytes have room; else
-- it returns false and leaves the channel and the source as they were. The lock is free afterwards.
-- The counters may not wrap, and the source is smaller than half the address space.
pub push_wrapping :
    {c : Mpsc} (p : Producer) (src : Slot)
    → IsValid c
    → Matches p c
    → src.size < 2 ^ 63
    → c.counts.head + 1 < 2 ^ 64
    → c.payloads.head + src.size < 2 ^ 64
    → (HasRoom c src.size
        × ((out : Mpsc × Producer × Slot) × (push c p src 1 ≡ ok (true, out.0, out.1, out.2))
            × IsValid out.0
            × Matches out.1 out.0
            × (contents out.0 ≡ contents c ++ (read src.byte 0 src.size ∷ []))
            × (out.2.byte ≡ src.byte)))
      ⊎ (((depth c ≡ c.counts.capacity)
            ⊎ (c.payloads.tail + c.payloads.capacity < c.payloads.head + src.size))
          × (push c p src 1 ≡ ok (false, c, updated c p, src)))
push_wrapping {c} p src v m small w w' = elim (dec_lt (depth c) c.counts.capacity) [
  | no h ↦
      inr (inl (omega (arith, v.counts)), refused p src v m small (inl (omega (arith, v.counts))))
  | yes h ↦ elim (dec_le (c.payloads.head + src.size) (c.payloads.tail + c.payloads.capacity)) [
    | no h' ↦ inr (inr (omega arith), refused p src v m small (inr (omega arith)))
    | yes h' ↦
        let r : HasRoom c src.size = record { count = h; space = h' } in
        let (recv, sent, e) = push_ok p src v m r small w w' in
        inl (
          r,
          (
            (pushed c src recv, advanced c p src, record src { messages_sent = sent }),
            e,
            pushed-IsValid src recv v r w w',
            record { counts = refl; payloads = refl },
            contents-pushed src recv v r,
            refl,
          ),
        )
  ]
]
