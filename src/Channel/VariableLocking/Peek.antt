-- ===== src/Channel/VariableLocking/Peek.antt =====
-- What `peek` finds in a valid channel, on every branch.
use native.Mathlib.Nat.{mod-lt, mod-mod}
use hi_cr.Prelude.{
  ℕ, ◌+◌, ◌-◌, ◌%◌, ◌≡◌, ◌≤◌, ◌<◌, ◌⊎◌, inl, inr, refl, arith, ok, err, runtime, fatal, sym, ap,
  ◌∙◌, get_elem?, some, drop, true,
}
use hi_cr.Channel.CircularBuffer.{get_depth, get_tail_position}
use hi_cr.Channel.FixedSpsc.Pop.{peek_index}
use hi_cr.Channel.Region.{total-append, messages-first}
use hi_cr.Channel.VariableLocking.{Mpsc, base_peek, peek, pop}
use hi_cr.Channel.VariableLocking.Ring.{ring, ring-position}
use hi_cr.Channel.VariableLocking.Pop.{pop_one}
use hi_cr.Channel.VariableLocking.Inv.{IsValid, depth, contents}

tail_index :
    (c : Mpsc) → (c.counts.tail + 0) % c.counts.capacity ≡ c.counts.tail % c.counts.capacity
tail_index c = ap (λ k. k % c.counts.capacity) (omega arith)

pub peek_ok :
    {c : Mpsc}
    → IsValid c
    → 0 < depth c
    → peek c 0
      ≡ ok (
        c.payloads.tail % c.payloads.capacity,
        c.sizes.element (c.counts.tail % c.counts.capacity),
      )
unfolding peek base_peek get_depth get_tail_position
peek_ok {c} v h = rw (← tail_index c) (
    ground (
      arith,
      v.counts,
      v.half,
      peek_index c.counts.tail c.counts.capacity 0,
      mod-mod c.payloads.tail c.payloads.capacity,
    ))

pub first_fits :
    {c : Mpsc}
    → IsValid c
    → 0 < depth c
    → c.sizes.element (c.counts.tail % c.counts.capacity) ≤ c.payloads.capacity
first_fits {c} v h = omega (
  arith,
  total-append c.sizes.element c.counts.capacity c.counts.tail 1 (depth c - 1) (depth c)
      (c.counts.tail + 1) (omega arith) refl,
  v.exact,
  v.payloads,
)

pub oldest_at_position :
    (c : Mpsc)
    → 0 < depth c
    → get_elem? (contents c) 0
      ≡ some (
          ring c.payload.byte c.payloads.capacity
            (c.payloads.tail % c.payloads.capacity)
            (c.sizes.element (c.counts.tail % c.counts.capacity)))
oldest_at_position c h =
    messages-first (ring c.payload.byte c.payloads.capacity) c.sizes.element c.counts.capacity
      c.counts.tail c.payloads.tail (depth c) h
    ∙ ap some (
        ring-position c.payload.byte c.payloads.capacity c.payloads.tail
          (c.payloads.tail % c.payloads.capacity)
          (c.sizes.element (c.counts.tail % c.counts.capacity))
          (sym (mod-mod c.payloads.tail c.payloads.capacity)))

found :
    {c : Mpsc}
    → IsValid c
    → 0 < depth c
    → (r : ℕ × ℕ) × (peek c 0 ≡ ok r)
      × (r.0 < c.payloads.capacity)
      × (r.1 ≤ c.payloads.capacity)
      × (get_elem? (contents c) 0 ≡ some (ring c.payload.byte c.payloads.capacity r.0 r.1))
found {c} v h = (
  (c.payloads.tail % c.payloads.capacity, c.sizes.element (c.counts.tail % c.counts.capacity)),
  peek_ok v h,
  mod-lt c.payloads.tail v.payloads.nonempty,
  first_fits v h,
  oldest_at_position c h,
)

-- On a valid channel that holds a message, a peek gives a position inside the payload buffer and a
-- size of at most its capacity at which the oldest message lies, running on at the start of the
-- buffer where it passes its end, and a pop of one removes that message and its bytes, keeps the
-- channel valid and gives the lock back. On an empty channel both are a runtime error, after which
-- the lock of the pop stays taken. A peek at any other position than 0 is a fatal error.
pub oldest_message :
    {c : Mpsc}
    → IsValid c
    → (((0 < depth c)
          × ((r : ℕ × ℕ) × (peek c 0 ≡ ok r)
              × (r.0 < c.payloads.capacity)
              × (r.1 ≤ c.payloads.capacity)
              × (get_elem? (contents c) 0 ≡ some (ring c.payload.byte c.payloads.capacity r.0 r.1)))
          × ((c' : Mpsc) × (pop c 1 ≡ (c', ok true))
              × IsValid c'
              × (contents c' ≡ drop 1 (contents c))))
        ⊎ ((depth c ≡ 0)
            × (peek c 0 ≡ err runtime)
            × (pop c 1 ≡ (record c { locked = true }, err runtime))))
      × ((i : ℕ) → 0 < i → peek c i ≡ err fatal)
unfolding peek get_depth
oldest_message {c} v = (
  elim (pop_one v) [
    | inl (h, p) ↦ inl (h, found v h, p)
    | inr (none, p) ↦ inr (none, ground (arith, v), p)
  ],
  λ i h. ground arith,
)
