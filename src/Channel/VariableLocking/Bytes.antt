-- ===== src/Channel/VariableLocking/Bytes.antt =====
-- The bytes of the oldest and of the newest messages.
use hi_cr.Prelude.{
  ℕ, zero, suc, ◌+◌, ◌-◌, ◌%◌, ◌^◌, ◌≡◌, ◌≤◌, ◌<◌, refl, arith, ok, add_size, sub_size, ap,
}
use hi_cr.Channel.CircularBuffer.{get_depth, get_tail_position}
use hi_cr.Channel.FixedSpsc.Pop.{peek_index}
use hi_cr.Channel.Region.{total, total-append}
use hi_cr.Channel.VariableLocking.{
  Mpsc, base_peek, sum_old, sum_new, get_old_payload_bytes, get_new_payload_bytes,
}
use hi_cr.Channel.VariableLocking.Inv.{IsValid, depth, bytes_of}

base_peek_lem :
    {c : Mpsc} (i : ℕ)
    → IsValid c
    → i < depth c
    → base_peek c i ≡ ok ((c.counts.tail + i) % c.counts.capacity)
unfolding base_peek get_depth get_tail_position
base_peek_lem {c} i v h =
    ground (arith, v.counts, v.half, peek_index c.counts.tail c.counts.capacity i)

bytes_parts :
    (c : Mpsc) (a b n : ℕ)
    → n ≡ a + b
    → bytes_of c n ≡ bytes_of c a + total c.sizes.element c.counts.capacity (c.counts.tail + a) b
bytes_parts c a b n e =
    total-append c.sizes.element c.counts.capacity c.counts.tail a b n (c.counts.tail + a) e refl

-- The bytes of the messages at hand can be counted in 64 bits.
bytes_word : {c : Mpsc} (n : ℕ) → IsValid c → n ≤ depth c → bytes_of c n < 2 ^ 63
bytes_word {c} n v h = omega (
  arith,
  bytes_parts c n (depth c - n) (depth c) (omega arith),
  v.exact,
  v.payloads,
  v.payload_half,
)

sum_old_lem :
    {c : Mpsc} (n i bytes : ℕ)
    → IsValid c
    → i + n ≤ depth c
    → bytes ≡ bytes_of c i
    → sum_old c n i bytes ≡ ok (bytes_of c (i + n))
unfolding sum_old
sum_old_lem {c} zero i bytes v h e = let z : i + 0 ≡ i = omega arith in rw (z, e) refl
sum_old_lem {c} (suc n) i bytes v h e =
    let next : add_size bytes (c.sizes.element ((c.counts.tail + i) % c.counts.capacity))
        ≡ bytes_of c (suc i) =
      omega
        (arith, e, bytes_parts c i 1 (suc i) (omega arith), bytes_word (suc i) v (omega arith)) in
    let shift : i + suc n ≡ suc i + n = omega arith in
    rw (base_peek_lem i v (omega arith), shift) (sum_old_lem n (suc i) _ v (omega arith) next)

-- The position of the `i`th message from the newest.
newest_index :
    (h t i : ℕ) → t ≤ h → i < h - t → h < 2 ^ 64 → sub_size (sub_size (h - t) 1) i ≡ h - t - 1 - i
newest_index h t i le lt w = omega arith

-- The bytes of the messages from the `i`th on.
abbrev rest_of : Mpsc → ℕ → ℕ
rest_of c i = total c.sizes.element c.counts.capacity (c.counts.tail + i) (depth c - i)

rest_step :
    (c : Mpsc) (i j : ℕ)
    → i < depth c
    → j ≡ i + 1
    → rest_of c i ≡ c.sizes.element ((c.counts.tail + i) % c.counts.capacity) + rest_of c j
rest_step c i j h e = omega (
  arith,
  total-append c.sizes.element c.counts.capacity (c.counts.tail + i) 1 (depth c - j) (depth c - i)
      (c.counts.tail + j) (omega arith) (omega arith),
)

rest_nil : (c : Mpsc) (i : ℕ) → depth c ≤ i → 0 ≡ rest_of c i
rest_nil c i h =
    let none : 0 ≡ depth c - i = omega arith in
    ap (total c.sizes.element c.counts.capacity (c.counts.tail + i)) none

get_depth_lem : {c : Mpsc} → IsValid c → get_depth c.counts ≡ ok (depth c)
unfolding get_depth
get_depth_lem {c} v = ground (arith, v.counts)

sum_new_lem :
    {c : Mpsc} (n i k bytes : ℕ)
    → IsValid c
    → k + n + i ≡ depth c
    → bytes ≡ rest_of c (k + n)
    → sum_new c n i bytes ≡ ok (rest_of c k)
unfolding sum_new
sum_new_lem {c} zero i k bytes v h e = let z : k + 0 ≡ k = omega arith in rw (e, z) refl
sum_new_lem {c} (suc n) i k bytes v h e =
    let at : sub_size (sub_size (depth c) 1) i ≡ k + n =
      omega (arith, newest_index c.counts.head c.counts.tail i, v.counts) in
    let next : add_size bytes (c.sizes.element ((c.counts.tail + (k + n)) % c.counts.capacity))
        ≡ rest_of c (k + n) =
      omega (
        arith,
        e,
        rest_step c (k + n) (k + suc n) (omega (arith, h)) (omega arith),
        bytes_parts c (k + n) (depth c - (k + n)) (depth c) (omega (arith, h)),
        bytes_word (depth c) v (omega arith),
      ) in
    rw (get_depth_lem v, at, base_peek_lem (k + n) v (omega arith))
      (sum_new_lem n (suc i) k _ v (omega arith) next)

-- On a valid channel, for every n up to the depth, the bytes of the oldest n messages and the bytes
-- of the newest depth - n messages are counted without an error and add up to the payload depth.
pub old_new_bytes :
    {c : Mpsc} (n : ℕ)
    → IsValid c
    → n ≤ depth c
    → (old : ℕ) × (new : ℕ) × (get_old_payload_bytes c n ≡ ok old)
      × (get_new_payload_bytes c (depth c - n) ≡ ok new)
      × (old + new ≡ c.payloads.head - c.payloads.tail)
unfolding get_old_payload_bytes get_new_payload_bytes
old_new_bytes {c} n v h =
    let start : 0 + n ≡ n = omega arith in
    (
      bytes_of c n,
      rest_of c n,
      rw (sum_old_lem n 0 0 v (omega arith) refl, start) refl,
      sum_new_lem (depth c - n) 0 n 0 v (omega arith)
          (rest_nil c (n + (depth c - n)) (omega arith)),
      omega (arith, v.exact, bytes_parts c n (depth c - n) (depth c) (omega arith)),
    )
