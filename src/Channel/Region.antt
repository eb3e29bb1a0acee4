-- ===== src/Channel/Region.antt =====
-- Messages of any size in a circular payload buffer, one after the other.
use native.Mathlib.Nat.{div-add-mod}
use hi_cr.Prelude.{
  ℕ, zero, suc, ◌+◌, ◌*◌, ◌/◌, ◌%◌, ◌≡◌, ◌≤◌, ◌<◌, List, [], ◌∷◌, ◌++◌, refl, ap, ap₂, arith, ◌⊎◌,
  inl, inr, dec_le, drop, ◌∙◌, get_elem?, some,
}
use hi_cr.Channel.Window.{index_fits}

mul_le : (p a c : ℕ) → a ≤ c → p * a ≤ p * c
mul_le p a c h = grind arith

-- Two regions that lie within one round of each other are disjoint, though either may run past the
-- capacity.
pub wraps_apart :
    (p b k h n : ℕ) → b + k ≤ h → h + n ≤ b + p → (b % p + k ≤ h % p) ⊎ (h % p + n ≤ b % p)
wraps_apart p b k h n lo hi = elim (dec_le (h / p) (b / p)) [
  | yes le ↦ inl omega (arith, mul_le p (h / p) (b / p) le, div-add-mod b p, div-add-mod h p)
  | no gt ↦
      inr omega
        (arith, index_fits p (b / p) (h / p) (omega arith), div-add-mod b p, div-add-mod h p)
]

-- The sizes of the `n` messages from index `t` on, added up.
abbrev pub total : (ℕ → ℕ) → ℕ → ℕ → ℕ → ℕ
total size cap t zero = 0
total size cap t (suc n) = size (t % cap) + total size cap (suc t) n

-- The `n` messages from index `t` on, of which the first begins at the byte index `b`; `get` reads
-- bytes of the payload buffer from such an index on.
abbrev pub messages : (ℕ → ℕ → List ℕ) → (ℕ → ℕ) → ℕ → ℕ → ℕ → ℕ → List (List ℕ)
messages get size cap t b zero = []
messages get size cap t b (suc n) =
    get b (size (t % cap)) ∷ messages get size cap (suc t) (b + size (t % cap)) n

-- Sizes that agree on the indices add up to as much.
pub total-eq :
    (s s' : ℕ → ℕ) (cap t n : ℕ)
    → ((k : ℕ) → t ≤ k → k < t + n → s' (k % cap) ≡ s (k % cap))
    → total s' cap t n ≡ total s cap t n
total-eq s s' cap t zero h = refl
total-eq s s' cap t (suc n) h =
    ap₂ ◌+◌ (h t (omega arith) (omega arith))
      (total-eq s s' cap (suc t) n (λ k p q. h k (omega arith) (omega arith)))

pub total-append :
    (s : ℕ → ℕ) (cap t a b n u : ℕ)
    → n ≡ a + b
    → u ≡ t + a
    → total s cap t n ≡ total s cap t a + total s cap u b
total-append s cap t zero b n u e e' =
    let f : n ≡ b = omega arith in let f' : u ≡ t = omega arith in rw (f, f') (omega arith)
total-append s cap t (suc a) b zero u e e' = absurd (omega arith)
total-append s cap t (suc a) b (suc n) u e e' =
    omega (arith, total-append s cap (suc t) a b n u (omega arith) (omega arith))

-- A memory and sizes that agree on every message hold the same messages.
pub messages-eq :
    (get get' : ℕ → ℕ → List ℕ) (s s' : ℕ → ℕ) (cap t b n : ℕ)
    → ((k : ℕ) → t ≤ k → k < t + n → s' (k % cap) ≡ s (k % cap))
    → ((a z : ℕ) → b ≤ a → a + z ≤ b + total s cap t n → get' a z ≡ get a z)
    → messages get' s' cap t b n ≡ messages get s cap t b n
messages-eq get get' s s' cap t b zero hs hm = refl
messages-eq get get' s s' cap t b (suc n) hs hm =
    ap₂ ◌∷◌
      (ap (get' b) (hs t (omega arith) (omega arith))
        ∙ hm b (s (t % cap)) (omega arith) (omega arith))
      (ap (λ z. messages get' s' cap (suc t) (b + z) n) (hs t (omega arith) (omega arith))
        ∙ messages-eq get get' s s' cap (suc t) (b + s (t % cap)) n
            (λ k p q. hs k (omega arith) (omega arith))
            (λ a z p q. hm a z (omega arith) (omega arith)))

pub messages-append :
    (get : ℕ → ℕ → List ℕ) (s : ℕ → ℕ) (cap t b i j n u v : ℕ)
    → n ≡ i + j
    → u ≡ t + i
    → v ≡ b + total s cap t i
    → messages get s cap t b n ≡ messages get s cap t b i ++ messages get s cap u v j
messages-append get s cap t b zero j n u v e e' f =
    let g : n ≡ j = omega arith in
    let g' : u ≡ t = omega arith in let g'' : v ≡ b = omega arith in rw (g, g', g'') refl
messages-append get s cap t b (suc i) j zero u v e e' f = absurd (omega arith)
messages-append get s cap t b (suc i) j (suc n) u v e e' f =
    ap (λ l. get b (s (t % cap)) ∷ l)
      (messages-append get s cap (suc t) (b + s (t % cap)) i j n u v (omega arith) (omega arith)
        (omega arith))

pub drop-messages :
    (get : ℕ → ℕ → List ℕ) (s : ℕ → ℕ) (cap t b i j n u v : ℕ)
    → n ≡ i + j
    → u ≡ t + i
    → v ≡ b + total s cap t i
    → drop i (messages get s cap t b n) ≡ messages get s cap u v j
drop-messages get s cap t b zero j n u v e e' f =
    let g : n ≡ j = omega arith in
    let g' : u ≡ t = omega arith in let g'' : v ≡ b = omega arith in rw (g, g', g'') refl
drop-messages get s cap t b (suc i) j zero u v e e' f = absurd (omega arith)
drop-messages get s cap t b (suc i) j (suc n) u v e e' f =
    drop-messages get s cap (suc t) (b + s (t % cap)) i j n u v (omega arith) (omega arith)
      (omega arith)

pub messages-first :
    (get : ℕ → ℕ → List ℕ) (s : ℕ → ℕ) (cap t b n : ℕ)
    → 0 < n
    → get_elem? (messages get s cap t b n) 0 ≡ some (get b (s (t % cap)))
messages-first get s cap t b zero h = absurd (omega arith)
messages-first get s cap t b (suc n) h = refl
