-- ===== src/Channel/VariableSpsc/Pop.antt =====
-- What `peek` and `pop` do to a valid channel, on every branch.
use native.Mathlib.Nat.{mod-lt, mod-mod}
use hi_cr.Prelude.{
  ℕ, zero, suc, ◌+◌, ◌-◌, ◌%◌, ◌^◌, ◌≡◌, ◌≤◌, ◌<◌, ◌⊎◌, inl, inr, refl, arith, ok, err, logic,
  runtime, dec_le, dec_lt, drop, sym, ap, add_size, get_elem?, some,
}
use hi_cr.Memory.{read}
use hi_cr.Channel.CircularBuffer.{CircularBuffer, get_depth, get_tail_position, advance_tail}
use hi_cr.Channel.FixedSpsc.Pop.{peek_index}
use hi_cr.Channel.VariableSpsc.{Channel, base_peek, peek, sum_sizes, get_old_payload_bytes, pop}
use hi_cr.Channel.Region.{total-append, messages-first, drop-messages}
use hi_cr.Channel.VariableSpsc.Inv.{IsValid, depth, bytes_of, contents, whole}

base_peek_lem :
    {c : Channel} (i : ℕ)
    → IsValid c
    → i < depth c
    → base_peek c.consumer_counts i ≡ ok ((c.consumer_counts.tail + i) % c.consumer_counts.capacity)
unfolding base_peek get_depth get_tail_position
base_peek_lem {c} i v h =
    ground (arith, v.counts, v.half, peek_index c.consumer_counts.tail c.consumer_counts.capacity i)

-- The first `n` messages take no more bytes than all.
bytes_le : (c : Channel) (n : ℕ) → n ≤ depth c → bytes_of c n ≤ bytes_of c (depth c)
bytes_le c n h = omega (
  arith,
  total-append c.sizes.element c.consumer_counts.capacity c.consumer_counts.tail n (depth c - n)
      (depth c) (c.consumer_counts.tail + n) (omega arith) refl,
)

bytes_suc :
    (c : Channel) (i : ℕ)
    → bytes_of c (suc i)
      ≡ bytes_of c i + c.sizes.element ((c.consumer_counts.tail + i) % c.consumer_counts.capacity)
bytes_suc c i = omega (
  arith,
  total-append c.sizes.element c.consumer_counts.capacity c.consumer_counts.tail i 1 (suc i)
      (c.consumer_counts.tail + i) (omega arith) refl,
)

-- The bytes of the messages at hand can be counted in 64 bits.
bytes_word : {c : Channel} (n : ℕ) → IsValid c → n ≤ depth c → bytes_of c n < 2 ^ 64
bytes_word {c} n v h = omega (arith, bytes_le c n h, v.exact, v.payloads, v.payload_half)

sum_sizes_lem :
    {c : Channel} (n i bytes : ℕ)
    → IsValid c
    → i + n ≤ depth c
    → bytes ≡ bytes_of c i
    → sum_sizes c n i bytes ≡ ok (bytes_of c (i + n))
unfolding sum_sizes
sum_sizes_lem {c} zero i bytes v h e = let z : i + 0 ≡ i = omega arith in rw (z, e) refl
sum_sizes_lem {c} (suc n) i bytes v h e =
    let next : add_size bytes
          (c.sizes.element ((c.consumer_counts.tail + i) % c.consumer_counts.capacity))
        ≡ bytes_of c (suc i) =
      omega (arith, e, bytes_suc c i, bytes_word (suc i) v (omega arith)) in
    let shift : i + suc n ≡ suc i + n = omega arith in
    rw (base_peek_lem i v (omega arith), shift) (sum_sizes_lem n (suc i) _ v (omega arith) next)

bytes_lem :
    {c : Channel} (n : ℕ) → IsValid c → n ≤ depth c → get_old_payload_bytes c n ≡ ok (bytes_of c n)
unfolding get_old_payload_bytes
bytes_lem {c} n v h =
    let z : 0 + n ≡ n = omega arith in rw (sum_sizes_lem n 0 0 v (omega arith) refl, z) refl

-- The channel without its oldest `n` messages.
abbrev pub popped : ℕ → Channel → Channel
popped n c = record c {
  consumer_counts = record c.consumer_counts { tail = c.consumer_counts.tail + n };
  consumer_payloads = record c.consumer_payloads { tail = c.consumer_payloads.tail + bytes_of c n };
  producer_counts = record c.producer_counts { tail = c.consumer_counts.tail + n };
  producer_payloads = record c.producer_payloads { tail = c.consumer_payloads.tail + bytes_of c n };
}

pub popped-IsValid : {c : Channel} (n : ℕ) → IsValid c → n ≤ depth c → IsValid (popped n c)
popped-IsValid {c} n v h =
    let parts =
      total-append c.sizes.element c.consumer_counts.capacity c.consumer_counts.tail n (depth c - n)
        (depth c) (c.consumer_counts.tail + n) (omega arith) refl in
    let left : c.consumer_counts.head - (c.consumer_counts.tail + n) ≡ depth c - n = omega arith in
    record {
      counts = ground (arith, v.counts);
      payloads = ground (arith, v.payloads, v.exact, parts);
      half = v.half;
      payload_half = v.payload_half;
      twice = v.twice;
      word = v.word;
      sizes = v.sizes;
      producer_counts =
          ap (λ (q : CircularBuffer). record q { tail = c.consumer_counts.tail + n })
            v.producer_counts;
      producer_payloads =
          ap (λ (q : CircularBuffer). record q { tail = c.consumer_payloads.tail + bytes_of c n })
            v.producer_payloads;
      exact = rw left (omega (arith, v.exact, parts));
    }

pub pop_ok : {c : Channel} (n : ℕ) → IsValid c → n ≤ depth c → pop c n ≡ ok (popped n c)
unfolding pop get_depth advance_tail
pop_ok {c} n v h =
    ground (arith, v.counts, v.payloads, v.exact, v.half, bytes_lem n v h, bytes_le c n h)

pub contents-popped :
    (c : Channel) (n : ℕ) → n ≤ depth c → contents (popped n c) ≡ drop n (contents c)
contents-popped c n h = sym (
    drop-messages (whole c.payload c.consumer_payloads.capacity) c.sizes.element
      c.consumer_counts.capacity c.consumer_counts.tail c.consumer_payloads.tail n
      (c.consumer_counts.head - (c.consumer_counts.tail + n)) (depth c) (c.consumer_counts.tail + n)
      (c.consumer_payloads.tail + bytes_of c n) (omega arith) refl refl)

-- Popping `n` messages of a valid channel removes the oldest `n` and their bytes and keeps it valid
-- where it holds as many; it is a runtime error where it does not, and a logic error beyond the
-- capacity.
pub pop_messages :
    {c : Channel} (n : ℕ)
    → IsValid c
    → ((n ≤ depth c)
        × ((c' : Channel) × (pop c n ≡ ok c') × IsValid c' × (contents c' ≡ drop n (contents c))))
      ⊎ ((depth c < n) × (n ≤ c.consumer_counts.capacity) × (pop c n ≡ err runtime))
      ⊎ ((c.consumer_counts.capacity < n) × (pop c n ≡ err logic))
unfolding pop get_depth
pop_messages {c} n v = elim (dec_le n (depth c)) [
  | yes h ↦ inl (h, (popped n c, pop_ok n v h, popped-IsValid n v h, contents-popped c n h))
  | no h ↦ elim (dec_le n c.consumer_counts.capacity) [
    | yes h' ↦ inr (inl (omega arith, h', ground (arith, v.counts)))
    | no h' ↦ inr (inr (omega arith, ground arith))
  ]
]

tail_index :
    (c : Channel)
    → (c.consumer_counts.tail + 0) % c.consumer_counts.capacity
      ≡ c.consumer_counts.tail % c.consumer_counts.capacity
tail_index c = ap (λ k. k % c.consumer_counts.capacity) (omega arith)

peek_ok :
    {c : Channel}
    → IsValid c
    → 0 < depth c
    → peek c 0
      ≡ ok (
        c.consumer_payloads.tail % c.consumer_payloads.capacity,
        c.sizes.element (c.consumer_counts.tail % c.consumer_counts.capacity),
      )
unfolding peek get_depth get_tail_position
peek_ok {c} v h = rw (← tail_index c) (
    ground (
      arith,
      v.counts,
      base_peek_lem 0 v h,
      mod-mod c.consumer_payloads.tail c.consumer_payloads.capacity,
    ))

first_fits :
    {c : Channel}
    → IsValid c
    → 0 < depth c
    → c.consumer_payloads.tail % c.consumer_payloads.capacity
        + c.sizes.element (c.consumer_counts.tail % c.consumer_counts.capacity)
      ≤ c.payload.size
first_fits {c} v h =
    let small : c.sizes.element (c.consumer_counts.tail % c.consumer_counts.capacity)
        ≤ c.consumer_payloads.capacity =
      rw (← tail_index c)
        (omega (arith, bytes_suc c 0, bytes_le c 1 (omega arith), v.exact, v.payloads)) in
    omega (arith, small, mod-lt c.consumer_payloads.tail v.payloads.nonempty, v.twice)

-- Peeking at a valid channel that holds a message gives a position inside the payload buffer and a
-- size at which the oldest message lies in one piece; on an empty channel it is a runtime error.
pub peek_message :
    {c : Channel}
    → IsValid c
    → ((0 < depth c)
        × ((r : ℕ × ℕ) × (peek c 0 ≡ ok r)
            × (r.0 < c.consumer_payloads.capacity)
            × (r.0 + r.1 ≤ c.payload.size)
            × (get_elem? (contents c) 0 ≡ some (read c.payload.byte r.0 r.1))))
      ⊎ ((depth c ≡ 0) × (peek c 0 ≡ err runtime))
unfolding peek get_depth get_tail_position
peek_message {c} v = elim (dec_lt 0 (depth c)) [
  | yes h ↦ inl (
    h,
    (
      (
        c.consumer_payloads.tail % c.consumer_payloads.capacity,
        c.sizes.element (c.consumer_counts.tail % c.consumer_counts.capacity),
      ),
      peek_ok v h,
      mod-lt c.consumer_payloads.tail v.payloads.nonempty,
      first_fits v h,
      messages-first (whole c.payload c.consumer_payloads.capacity) c.sizes.element
          c.consumer_counts.capacity c.consumer_counts.tail c.consumer_payloads.tail (depth c) h,
    ),
  )
  | no h ↦ inr (omega arith, ground (arith, v.counts))
]
