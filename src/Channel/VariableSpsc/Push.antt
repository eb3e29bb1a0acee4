-- ===== src/Channel/VariableSpsc/Push.antt =====
-- What `push` does to a valid channel, on every branch.
use native.Mathlib.Nat.{mod-lt}
use hi_cr.Prelude.{
  ℕ, ◌+◌, ◌-◌, ◌%◌, ◌^◌, ◌≡◌, ◌≤◌, ◌<◌, ◌⊎◌, inl, inr, [], ◌∷◌, ◌++◌, refl, arith, ok, err, runtime,
  dec_le, dec_lt, ap, ap₂, ◌∙◌, add_size,
}
use hi_cr.Memory.{Slot, read, copy, memcpy_global}
use hi_cr.Memory.Laws.{memcpy_global_lem, read-copy_self, read-copy_apart}
use hi_cr.Channel.CircularBuffer.{CircularBuffer, get_depth, get_head_position, advance_head}
use hi_cr.Channel.VariableSpsc.{Channel, is_full, push}
use hi_cr.Channel.Region.{wraps_apart, messages-eq, messages-append}
use hi_cr.Channel.VariableSpsc.Sizes.{
  noted, put_size_lem, sizes_kept, new_size, total_kept, total_grown,
}
use hi_cr.Channel.VariableSpsc.Inv.{IsValid, depth, bytes_of, contents, whole}

abbrev grown : CircularBuffer → ℕ → CircularBuffer
grown p n = record p { head = p.head + n }

-- The payload after a push.
abbrev placed : Channel → Slot → Slot
placed c src = record c.payload {
  byte =
      copy c.payload.byte (c.consumer_payloads.head % c.consumer_payloads.capacity) src.byte 0
        src.size;
  messages_recv = add_size (add_size c.payload.messages_recv 1) 1;
}

abbrev pushed : Channel → Slot → Channel
pushed c src = record {
  payload = placed c src;
  sizes = noted c.sizes c.consumer_counts src.size;
  producer_counts = grown c.consumer_counts 1;
  producer_payloads = grown c.consumer_payloads src.size;
  consumer_counts = grown c.consumer_counts 1;
  consumer_payloads = grown c.consumer_payloads src.size;
}

-- There is room for one more message of `z` bytes, and the counters do not wrap.
pub record HasRoom (c : Channel) (z : ℕ) : Type 0 where
  pub count : depth c < c.consumer_counts.capacity
  pub space : c.consumer_payloads.head + z ≤ c.consumer_payloads.tail + c.consumer_payloads.capacity
  pub count_word : c.consumer_counts.head + 1 < 2 ^ 64
  pub word : c.consumer_payloads.head + z < 2 ^ 64

copy_lem :
    {c : Channel} (src : Slot)
    → IsValid c
    → HasRoom c src.size
    → memcpy_global c.payload (get_head_position c.consumer_payloads) src 0 src.size
      ≡ ok (placed c src, record src { messages_sent = add_size (add_size src.messages_sent 1) 1 })
unfolding get_head_position
copy_lem {c} src v r =
    memcpy_global_lem c.payload src (c.consumer_payloads.head % c.consumer_payloads.capacity) 0
      src.size v.word (omega (arith, r.word))
      (omega
        (arith, mod-lt c.consumer_payloads.head v.payloads.nonempty, v.twice, v.payloads, r.space))
      (omega arith)

push_ok :
    {c : Channel} (src : Slot)
    → IsValid c
    → HasRoom c src.size
    → push c src 1
      ≡ ok (pushed c src, record src { messages_sent = add_size (add_size src.messages_sent 1) 1 })
unfolding push is_full get_depth advance_head
push_ok {c} src v r =
    rw (v.producer_counts, v.producer_payloads)
      (ground (
        arith,
        v.counts,
        v.payloads,
        v.half,
        v.payload_half,
        r,
        copy_lem src v r,
        put_size_lem c.sizes c.consumer_counts src.size v.counts v.half v.sizes,
      ))

bytes_kept :
    {c : Channel} (src : Slot)
    → IsValid c
    → HasRoom c src.size
    → (a z : ℕ) → c.consumer_payloads.tail ≤ a
    → a + z ≤ c.consumer_payloads.tail + bytes_of c (depth c)
    → read (placed c src).byte (a % c.consumer_payloads.capacity) z
      ≡ read c.payload.byte (a % c.consumer_payloads.capacity) z
bytes_kept {c} src v r a z lo hi =
    read-copy_apart c.payload.byte src.byte
      (c.consumer_payloads.head % c.consumer_payloads.capacity) 0 src.size
      (a % c.consumer_payloads.capacity) z
      (wraps_apart c.consumer_payloads.capacity a z c.consumer_payloads.head src.size
        (omega (arith, v.exact)) (omega (arith, r.space)))

pushed-IsValid :
    {c : Channel} (src : Slot) → IsValid c → HasRoom c src.size → IsValid (pushed c src)
pushed-IsValid {c} src v r = record {
  counts = ground (arith, v.counts, r);
  payloads = ground (arith, v.payloads, r);
  half = v.half;
  payload_half = v.payload_half;
  twice = v.twice;
  word = v.word;
  sizes = v.sizes;
  producer_counts = refl;
  producer_payloads = refl;
  exact = omega (
    arith,
    total_grown c.sizes c.consumer_counts src.size v.counts.ordered
        (omega (arith, v.counts, r.count)),
    v.exact,
  );
}

contents-pushed :
    {c : Channel} (src : Slot)
    → IsValid c
    → HasRoom c src.size
    → contents (pushed c src) ≡ contents c ++ (read src.byte 0 src.size ∷ [])
contents-pushed {c} src v r =
    messages-append (whole (placed c src) c.consumer_payloads.capacity)
      (noted c.sizes c.consumer_counts src.size).element c.consumer_counts.capacity
      c.consumer_counts.tail c.consumer_payloads.tail (depth c) 1
      (c.consumer_counts.head + 1 - c.consumer_counts.tail) c.consumer_counts.head
      c.consumer_payloads.head (omega (arith, v.counts)) (omega (arith, v.counts))
      (omega (
        arith,
        total_kept c.sizes c.consumer_counts src.size v.counts.ordered
            (omega (arith, v.counts, r.count)),
        v.exact,
      ))
    ∙ ap₂ ◌++◌
        (messages-eq (whole c.payload c.consumer_payloads.capacity)
          (whole (placed c src) c.consumer_payloads.capacity) c.sizes.element
          (noted c.sizes c.consumer_counts src.size).element c.consumer_counts.capacity
          c.consumer_counts.tail c.consumer_payloads.tail (depth c)
          (λ k lo hi.
            sizes_kept c.sizes c.consumer_counts src.size (omega (arith, v.counts, r.count)) k lo
              (omega (arith, v.counts)))
          (bytes_kept src v r))
        (ap (λ x. x ∷ [])
          (ap (read (placed c src).byte (c.consumer_payloads.head % c.consumer_payloads.capacity))
              (new_size c.sizes c.consumer_counts src.size)
            ∙ read-copy_self c.payload.byte src.byte
                (c.consumer_payloads.head % c.consumer_payloads.capacity) 0 src.size))

refused :
    {c : Channel} (src : Slot)
    → IsValid c
    → src.size < 2 ^ 63
    → (depth c ≡ c.consumer_counts.capacity)
      ⊎ (c.consumer_payloads.tail + c.consumer_payloads.capacity
          < c.consumer_payloads.head + src.size)
    → push c src 1 ≡ err runtime
unfolding push is_full get_depth
refused {c} src v small h =
    rw (v.producer_counts, v.producer_payloads)
      (ground (arith, v.counts, v.payloads, v.payload_half, h))

-- A push of one message to a valid channel appends the bytes of the source, keeps the channel valid
-- and changes no byte of the source, where both the count and the bytes have room; else it is a
-- runtime error. The counters may not wrap, and the source is smaller than half the address space.
pub push_message :
    {c : Channel} (src : Slot)
    → IsValid c
    → src.size < 2 ^ 63
    → c.consumer_counts.head + 1 < 2 ^ 64
    → c.consumer_payloads.head + src.size < 2 ^ 64
    → (HasRoom c src.size
        × ((out : Channel × Slot) × (push c src 1 ≡ ok out)
            × IsValid out.0
            × (contents out.0 ≡ contents c ++ (read src.byte 0 src.size ∷ []))
            × (out.1.byte ≡ src.byte)))
      ⊎ (((depth c ≡ c.consumer_counts.capacity)
            ⊎ (c.consumer_payloads.tail + c.consumer_payloads.capacity
                < c.consumer_payloads.head + src.size))
          × (push c src 1 ≡ err runtime))
push_message {c} src v small w w' = elim (dec_lt (depth c) c.consumer_counts.capacity) [
  | no h ↦ inr (inl (omega (arith, v.counts)), refused src v small (inl (omega (arith, v.counts))))
  | yes h ↦
      elim (dec_le (c.consumer_payloads.head + src.size)
        (c.consumer_payloads.tail + c.consumer_payloads.capacity)) [
          | no h' ↦ inr (inr (omega arith), refused src v small (inr (omega arith)))
          | yes h' ↦
              let r : HasRoom c src.size = record {
                count = h;
                space = h';
                count_word = w;
                word = w';
              } in
              inl (r, (_, push_ok src v r, pushed-IsValid src v r, contents-pushed src v r, refl))
        ]
]
