-- ===== src/Channel/FixedSpsc/Pop.antt =====
-- What `peek` and `pop` do to a valid channel, on every branch.
use native.Mathlib.Nat.{mod-add-mod, mod-lt}
use hi_cr.Prelude.{
  ℕ, ◌+◌, ◌-◌, ◌*◌, ◌%◌, ◌^◌, ◌≡◌, ◌≤◌, ◌<◌, arith, ok, err, logic, runtime, ◌⊎◌, inl, inr, dec_le,
  dec_lt, add_size, drop, get_elem?, some, sym, refl, ◌∙◌, ap,
}
use hi_cr.Memory.{read}
use hi_cr.Channel.CircularBuffer.{get_depth, advance_tail, get_tail_position}
use hi_cr.Channel.Window.{drop-window, get_elem?-window}
use hi_cr.Channel.FixedSpsc.{Spsc, peek, pop}
use hi_cr.Channel.FixedSpsc.Inv.{IsValid, contents}

-- The channel without its oldest `n` tokens.
abbrev pub popped : ℕ → Spsc → Spsc
popped n c = record c {
  consumer = record c.consumer { tail = c.consumer.tail + n };
  producer = record c.producer { tail = c.consumer.tail + n };
}

-- Popping `n` tokens of a valid channel removes the oldest `n` and keeps it valid where it holds
-- as many; it is a runtime error where it does not, and a logic error beyond the capacity.
pub pop_lem :
    {c : Spsc} (n : ℕ)
    → IsValid c
    → ((n ≤ c.consumer.head - c.consumer.tail)
        × (pop c n ≡ ok (popped n c))
        × IsValid (popped n c)
        × (contents (popped n c) ≡ drop n (contents c)))
      ⊎ ((c.consumer.head - c.consumer.tail < n)
          × (n ≤ c.consumer.capacity)
          × (pop c n ≡ err runtime))
      ⊎ ((c.consumer.capacity < n) × (pop c n ≡ err logic))
unfolding pop advance_tail
pop_lem {c} n v = elim (dec_le n (c.consumer.head - c.consumer.tail)) [
  | yes h ↦ inl (
    h,
    ground arith,
    ground arith,
    sym (
        drop-window c.token_buffer.byte c.token_size c.consumer.capacity c.consumer.tail n
          (c.consumer.head - c.consumer.tail) (c.consumer.tail + n)
          (c.consumer.head - (c.consumer.tail + n)) (omega arith) refl),
  )
  | no h ↦ elim (dec_le n c.consumer.capacity) [
    | yes h' ↦ inr (inl (omega arith, h', ground arith))
    | no h' ↦ inr (inr (omega arith, ground arith))
  ]
]

-- Adding within a buffer of at most half the address space does not wrap before the modulus.
pub peek_index :
    (tail cap i : ℕ)
    → 0 < cap
    → cap ≤ 2 ^ 63
    → i < cap
    → add_size (tail % cap) i % cap ≡ (tail + i) % cap
peek_index tail cap i pos half h = ap (λ k. k % cap) small ∙ mod-add-mod tail cap i
  where
    small : add_size (tail % cap) i ≡ tail % cap + i
    small = omega (arith, mod-lt tail pos)

-- Peeking at a token that a valid channel holds gives a position inside the buffer, where that
-- token lies; else it is a runtime error, and a logic error from the capacity on.
pub peek_lem :
    {c : Spsc} (i : ℕ)
    → IsValid c
    → ((i < c.consumer.head - c.consumer.tail)
        × ((k : ℕ) × (peek c i ≡ ok k)
            × (k < c.consumer.capacity)
            × (get_elem? (contents c) i
                ≡ some (read c.token_buffer.byte (c.token_size * k) c.token_size))))
      ⊎ ((c.consumer.head - c.consumer.tail ≤ i)
          × (i < c.consumer.capacity)
          × (peek c i ≡ err runtime))
      ⊎ ((c.consumer.capacity ≤ i) × (peek c i ≡ err logic))
unfolding peek get_depth get_tail_position
peek_lem {c} i v = elim (dec_lt i (c.consumer.head - c.consumer.tail)) [
  | yes h ↦ inl (
    h,
    (
      (c.consumer.tail + i) % c.consumer.capacity,
      ground (arith, peek_index c.consumer.tail c.consumer.capacity i),
      mod-lt (c.consumer.tail + i) v.buffer.nonempty,
      get_elem?-window c.token_buffer.byte c.token_size c.consumer.capacity c.consumer.tail
          (c.consumer.head - c.consumer.tail) i h,
    ),
  )
  | no h ↦ elim (dec_lt i c.consumer.capacity) [
    | yes h' ↦ inr (inl (omega arith, h', ground arith))
    | no h' ↦ inr (inr (omega arith, ground arith))
  ]
]
