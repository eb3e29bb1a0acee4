-- ===== src/Channel/VariableLocking/Ring.antt =====
-- Bytes in a ring: a message that runs past the end of the payload buffer goes on at its start.
use native.Mathlib.Nat.{mod-lt, mod-add-mod, mod-eq_of_lt, mod-eq-sub-mod, suc-mod}
use hi_cr.Prelude.{
  ℕ, zero, suc, ◌+◌, ◌-◌, ◌%◌, ◌≡◌, ◌≢◌, ◌≤◌, ◌<◌, List, [], ◌∷◌, refl, ap₂, arith, ◌⊎◌, inl, inr,
  dec_le, dec_lt, ltb, if◌then◌else◌, sym, ◌∙◌, ap,
}
use hi_cr.Memory.{read, copy}
use hi_cr.Channel.Window.{mod-ne}

-- The bytes of the ring from the index `b` on.
abbrev pub ring : (ℕ → ℕ) → ℕ → ℕ → ℕ → List ℕ
ring m p b zero = []
ring m p b (suc z) = m (b % p) ∷ ring m p (suc b) z

pub ring-eq :
    (m m' : ℕ → ℕ) (p b z : ℕ)
    → ((a : ℕ) → b ≤ a → a < b + z → m' (a % p) ≡ m (a % p))
    → ring m' p b z ≡ ring m p b z
ring-eq m m' p b zero h = refl
ring-eq m m' p b (suc z) h =
    ap₂ ◌∷◌ (h b (omega arith) (omega arith))
      (ring-eq m m' p (suc b) z (λ a q r. h a (omega arith) (omega arith)))

-- The position `i` further on, before or after the end.
shifted :
    (p h i : ℕ)
    → i < p
    → ((h % p + i < p) × ((h + i) % p ≡ h % p + i))
      ⊎ ((p ≤ h % p + i) × ((h + i) % p ≡ h % p + i - p))
shifted p h i lt =
    let base : (h % p + i) % p ≡ (h + i) % p = mod-add-mod h p i in
    let small : h % p < p = mod-lt h (omega arith) in
    elim (dec_lt (h % p + i) p) [
      | yes k ↦ inl (k, sym base ∙ mod-eq_of_lt k)
      | no k ↦
          inr (omega arith, sym base ∙ mod-eq-sub-mod (omega arith) ∙ mod-eq_of_lt (omega arith))
    ]

-- The position of an index before `h`, and within one round of the end of the message that goes to
-- `h`, is none of that message's.
outside :
    (p h z a : ℕ)
    → 0 < p
    → a < h
    → h + z ≤ a + p
    → ((a % p < h % p) × (h % p + z ≤ a % p + p)) ⊎ ((h % p ≤ a % p) × (h % p + z ≤ a % p))
outside p h z a pos lt gt =
    let small : a % p < p = mod-lt a pos in
    let small' : h % p < p = mod-lt h pos in
    elim (dec_lt (a % p) (h % p)) [
      | yes k ↦ elim (dec_le (h % p + z) (a % p + p)) [
        | yes k' ↦ inl (k, k')
        | no k' ↦
            let ne : a % p ≢ (h + (a % p + p - h % p)) % p =
              mod-ne p a (h + (a % p + p - h % p)) (omega arith) (omega arith) in
            absurd (omega (arith, ne, shifted p h (a % p + p - h % p) (omega arith)))
      ]
      | no k ↦ elim (dec_le (h % p + z) (a % p)) [
        | yes k' ↦ inr (omega arith, k')
        | no k' ↦
            let ne : a % p ≢ (h + (a % p - h % p)) % p =
              mod-ne p a (h + (a % p - h % p)) (omega arith) (omega arith) in
            absurd (omega (arith, ne, shifted p h (a % p - h % p) (omega arith)))
      ]
    ]

-- What `put_payload` makes of the bytes: the message `s` of `z` bytes goes to the index `h`.
abbrev pub put_bytes : (ℕ → ℕ) → ℕ → ℕ → (ℕ → ℕ) → ℕ → ℕ → ℕ
put_bytes m p h s z =
    if ltb p (z + h % p)
    then copy (copy m (h % p) s 0 (p - h % p)) 0 s (p - h % p) (z - (p - h % p))
    else copy m (h % p) s 0 z

-- The bytes before the message stay as they are.
pub put_bytes-kept :
    (m s : ℕ → ℕ) (p h z a : ℕ)
    → 0 < p
    → a < h
    → h + z ≤ a + p
    → put_bytes m p h s z (a % p) ≡ m (a % p)
unfolding copy
put_bytes-kept m s p h z a pos lt gt =
    let small : a % p < p = mod-lt a pos in
    let small' : h % p < p = mod-lt h pos in ground (arith, outside p h z a pos lt gt)

-- The bytes of the message lie at its positions.
pub put_bytes-new :
    (m s : ℕ → ℕ) (p h z i : ℕ) → i < z → z ≤ p → put_bytes m p h s z ((h + i) % p) ≡ s i
unfolding copy
put_bytes-new m s p h z i lt le =
    let small' : h % p < p = mod-lt h (omega arith) in ground (arith, shifted p h i (omega arith))

-- The part of the message from `i` on, read back.
ring-part :
    (m s : ℕ → ℕ) (p h z i n b : ℕ)
    → i + n ≤ z
    → z ≤ p
    → b ≡ h + i
    → ring (put_bytes m p h s z) p b n ≡ read s i n
unfolding read
ring-part m s p h z i zero b le le' e = refl
ring-part m s p h z i (suc n) b le le' e =
    ap₂ ◌∷◌ (ap (λ k. put_bytes m p h s z (k % p)) e ∙ put_bytes-new m s p h z i (omega arith) le')
      (ring-part m s p h z (suc i) n (suc b) (omega arith) le' (omega arith))

pub ring-put_bytes :
    (m s : ℕ → ℕ) (p h z : ℕ) → z ≤ p → ring (put_bytes m p h s z) p h z ≡ read s 0 z
ring-put_bytes m s p h z le = ring-part m s p h z 0 z h (omega arith) le (omega arith)

-- A message read from its position.
pub ring-position : (m : ℕ → ℕ) (p b b' z : ℕ) → b % p ≡ b' % p → ring m p b z ≡ ring m p b' z
ring-position m p b b' zero e = refl
ring-position m p b b' (suc z) e = ap₂ ◌∷◌ (ap m e) (ring-position m p (suc b) (suc b') z next)
  where
    next : suc b % p ≡ suc b' % p
    next = suc-mod b p ∙ ap (λ k. suc k % p) e ∙ sym (suc-mod b' p)

-- A message that does not pass the end of the buffer lies in one piece.
pub ring-read : (m : ℕ → ℕ) (p b z : ℕ) → b + z ≤ p → ring m p b z ≡ read m b z
unfolding read
ring-read m p b zero h = refl
ring-read m p b (suc z) h =
    ap₂ ◌∷◌ (ap m (mod-eq_of_lt (omega arith))) (ring-read m p (suc b) z (omega arith))
