-- ===== src/Channel/LockingMpsc/Calls.antt =====
-- What each call does to the channel, on every branch.
use native.Mathlib.Nat.{mod-lt}
use hi_cr.Prelude.{
  ℕ, ◌+◌, ◌-◌, ◌*◌, ◌%◌, ◌^◌, ◌≡◌, ◌≤◌, ◌<◌, List, ◌++◌, refl, arith, ok, err, logic, true, false,
  none, some, ◌⊎◌, inl, inr, dec_le, dec_lt, drop, get_elem?, sym, ap, ◌∙◌,
}
use hi_cr.Memory.{Slot, read}
use hi_cr.Channel.CircularBuffer.{CircularBuffer, get_depth, advance_tail, get_tail_position}
use hi_cr.Channel.CircularBuffer.Inv as Ring
use hi_cr.Channel.Window.{window, drop-window, get_elem?-window}
use hi_cr.Channel.FixedSpsc.{Spsc}
use hi_cr.Channel.FixedSpsc.Tokens.{HasStorage}
use hi_cr.Channel.FixedSpsc.Pop.{peek_index}
use hi_cr.Channel.LockingMpsc.{Mpsc, put_rounds, load, store, push, peek, pop}
use hi_cr.Channel.LockingMpsc.Batch.{held, source_tokens, HasRoom, rounds_lem}

-- The channel between two calls.
pub record IsValid (c : Mpsc) : Type 0 where
  pub free : c.locked ≡ false
  pub token : 0 < c.token_size
  pub storage : c.token_size * c.consumer.capacity ≤ c.token_buffer.size
  pub word : c.token_buffer.size < 2 ^ 64
  pub half : c.consumer.capacity ≤ 2 ^ 63
  pub buffer : Ring.IsValid c.consumer

abbrev pub contents : Mpsc → List (List ℕ)
contents c =
    window c.token_buffer.byte c.token_size c.consumer.capacity c.consumer.tail
      (c.consumer.head - c.consumer.tail)

-- While another party holds the lock of a locking MPSC channel, no call does anything: a push of
-- n tokens that its source holds, a peek at position n and a pop of n, for n below the capacity.
pub busy_lem :
    (c : Mpsc) (p : CircularBuffer) (src : Slot) (n : ℕ)
    → c.locked ≡ true
    → n * c.token_size ≤ src.size
    → src.size < 2 ^ 64
    → n < c.consumer.capacity
    → (push c p src n ≡ ok (false, c, p, src))
      × (peek c n ≡ ok (none, c))
      × (pop c n ≡ ok (false, c))
unfolding push peek pop
busy_lem c p src n e h w b = (ground arith, ground arith, ground arith)

-- Popping n tokens of a valid locking MPSC channel removes the oldest n where it holds as many,
-- does nothing where it does not, and is a logic error beyond the capacity; the lock is free
-- afterwards.
pop_batch :
    {c : Mpsc} (n : ℕ)
    → IsValid c
    → ((n ≤ c.consumer.head - c.consumer.tail)
        × ((c' : Mpsc) × (pop c n ≡ ok (true, c'))
            × IsValid c'
            × (contents c' ≡ drop n (contents c))))
      ⊎ ((c.consumer.head - c.consumer.tail < n)
          × (n ≤ c.consumer.capacity)
          × (pop c n ≡ ok (false, c)))
      ⊎ ((c.consumer.capacity < n) × (pop c n ≡ err logic))
unfolding pop advance_tail get_depth
pop_batch {c} n v = elim (dec_le n (c.consumer.head - c.consumer.tail)) [
  | yes h ↦ inl (
    h,
    (
      record c { consumer = record c.consumer { tail = c.consumer.tail + n } },
      ground (arith, v),
      ground (arith, v),
      sym (
          drop-window c.token_buffer.byte c.token_size c.consumer.capacity c.consumer.tail n
            (c.consumer.head - c.consumer.tail) (c.consumer.tail + n)
            (c.consumer.head - (c.consumer.tail + n)) (omega arith) refl),
    ),
  )
  | no h ↦ elim (dec_le n c.consumer.capacity) [
    | yes h' ↦ inr (inl (omega arith, h', ground (arith, v)))
    | no h' ↦ inr (inr (omega arith, ground (arith, v)))
  ]
]

-- Peeking at a token that a valid locking MPSC channel holds gives a position inside the buffer
-- where that token lies; else none, and a logic error from the capacity on; the channel stays as
-- it was.
peek_found :
    {c : Mpsc} (i : ℕ)
    → IsValid c
    → ((i < c.consumer.head - c.consumer.tail)
        × ((k : ℕ) × (peek c i ≡ ok (some k, c))
            × (k < c.consumer.capacity)
            × (get_elem? (contents c) i
                ≡ some (read c.token_buffer.byte (c.token_size * k) c.token_size))))
      ⊎ ((c.consumer.head - c.consumer.tail ≤ i)
          × (i < c.consumer.capacity)
          × (peek c i ≡ ok (none, c)))
      ⊎ ((c.consumer.capacity ≤ i) × (peek c i ≡ err logic))
unfolding peek get_depth get_tail_position
peek_found {c} i v = elim (dec_lt i (c.consumer.head - c.consumer.tail)) [
  | yes h ↦ inl (
    h,
    (
      (c.consumer.tail + i) % c.consumer.capacity,
      ground (arith, v, peek_index c.consumer.tail c.consumer.capacity i),
      mod-lt (c.consumer.tail + i) v.buffer.nonempty,
      get_elem?-window c.token_buffer.byte c.token_size c.consumer.capacity c.consumer.tail
          (c.consumer.head - c.consumer.tail) i h,
    ),
  )
  | no h ↦ elim (dec_lt i c.consumer.capacity) [
    | yes h' ↦ inr (inl (omega arith, h', ground (arith, v)))
    | no h' ↦ inr (inr (omega arith, ground (arith, v)))
  ]
]

-- On a valid locking MPSC channel, popping n tokens removes the oldest n where it holds as many and
-- does nothing where it does not, and is a logic error beyond the capacity; peeking at token i that
-- it holds gives a position inside the buffer where that token lies, and else none, and is a logic
-- error from the capacity on; the lock is free afterwards.
pub take_lem :
    {c : Mpsc} (n i : ℕ)
    → IsValid c
    → (((n ≤ c.consumer.head - c.consumer.tail)
          × ((c' : Mpsc) × (pop c n ≡ ok (true, c'))
              × IsValid c'
              × (contents c' ≡ drop n (contents c))))
        ⊎ ((c.consumer.head - c.consumer.tail < n)
            × (n ≤ c.consumer.capacity)
            × (pop c n ≡ ok (false, c)))
        ⊎ ((c.consumer.capacity < n) × (pop c n ≡ err logic)))
      × (((i < c.consumer.head - c.consumer.tail)
            × ((k : ℕ) × (peek c i ≡ ok (some k, c))
                × (k < c.consumer.capacity)
                × (get_elem? (contents c) i
                    ≡ some (read c.token_buffer.byte (c.token_size * k) c.token_size))))
          ⊎ ((c.consumer.head - c.consumer.tail ≤ i)
              × (i < c.consumer.capacity)
              × (peek c i ≡ ok (none, c)))
          ⊎ ((c.consumer.capacity ≤ i) × (peek c i ≡ err logic)))
take_lem n i v = (pop_batch n v, peek_found i v)

-- The channel after a push.
abbrev released : Spsc → Mpsc → Mpsc
released s c = record (store s c) { locked = false }

contents-released :
    (c : Mpsc) (s : Spsc)
    → s.producer.capacity ≡ c.consumer.capacity
    → s.token_size ≡ c.token_size
    → contents (released s c) ≡ held s
unfolding store
contents-released c s e f = rw (e, f) refl

held-load :
    (c : Mpsc) (p : CircularBuffer)
    → p.capacity ≡ c.consumer.capacity
    → held (load c p) ≡ contents c
unfolding load
held-load c p e = rw e refl

push_ok :
    {c : Mpsc} (p : CircularBuffer) (src : Slot) (n : ℕ)
    → IsValid c
    → p.capacity ≡ c.consumer.capacity
    → n * c.token_size ≤ src.size
    → src.size < 2 ^ 64
    → n < 2 ^ 63
    → c.consumer.head + n ≤ c.consumer.tail + c.consumer.capacity
    → (out : Spsc × Slot) → put_rounds n 0 (load c p) src ≡ ok out
    → push c p src n ≡ ok (true, released out.0 c, out.0.producer, out.1)
unfolding push get_depth load
push_ok {c} p src n v e h w small room out f = ground (arith, v, e, f)

-- A push to a valid locking MPSC channel, of fewer than 2 ^ 63 tokens that a source of fewer than
-- 2 ^ 64 bytes holds, by any producer of the same capacity and without a wrap of the head,
-- appends all of them in order where there is room for all, and else does nothing to the channel
-- and the source; the lock is free afterwards.
pub push_batch :
    {c : Mpsc} (p : CircularBuffer) (src : Slot) (n : ℕ)
    → IsValid c
    → p.capacity ≡ c.consumer.capacity
    → n * c.token_size ≤ src.size
    → src.size < 2 ^ 64
    → n < 2 ^ 63
    → c.consumer.head + n < 2 ^ 64
    → ((c.consumer.head + n ≤ c.consumer.tail + c.consumer.capacity)
        × ((out : Mpsc × CircularBuffer × Slot) × (push c p src n ≡ ok (true, out.0, out.1, out.2))
            × IsValid out.0
            × (contents out.0 ≡ contents c ++ source_tokens src.byte c.token_size 0 n)
            × (out.1.capacity ≡ p.capacity)
            × (out.2.byte ≡ src.byte)))
      ⊎ ((c.consumer.tail + c.consumer.capacity < c.consumer.head + n)
          × ((p' : CircularBuffer) × (push c p src n ≡ ok (false, c, p', src))))
unfolding push get_depth load store
push_batch {c} p src n v e h w small word =
    elim (dec_le (c.consumer.head + n) (c.consumer.tail + c.consumer.capacity)) [
      | yes room ↦
          let s : Spsc = record {
            token_size = c.token_size;
            token_buffer = c.token_buffer;
            producer = record p { head = c.consumer.head; tail = c.consumer.tail };
            consumer = c.consumer;
          } in
          let storage : HasStorage s = ground (arith, v, e) in
          let space : HasRoom n s.producer = ground (arith, v, e) in
          let (out, f, q, _) = rounds_lem n 0 s src storage space w (omega arith) in
          inl (
            room,
            (
              (released out.0 c, out.0.producer, out.1),
              push_ok p src n v e h w small room out f,
              ground (arith, v, e, q),
              contents-released c out.0 (q.capacity ∙ e) q.token_size
                  ∙ (q.tokens
                      ∙ ap (λ l. l ++ source_tokens src.byte c.token_size 0 n) (held-load c p e)),
              q.capacity,
              q.source_byte,
            ),
          )
      | no full ↦ inr (
        omega arith,
        (record p { head = c.consumer.head; tail = c.consumer.tail }, ground (arith, v, e)),
      )
    ]
