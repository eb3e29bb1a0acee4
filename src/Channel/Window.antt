-- ===== src/Channel/Window.antt =====
-- The tokens of a circular token buffer as a list, for every channel of fixed-size tokens.
use native.Mathlib.Nat.{div-add-mod}
use hi_cr.Prelude.{
  sym, drop, get_elem?, some, ◌/◌, ◌∙◌, dec_le, dec_lt, ℕ, zero, suc, ◌+◌, ◌*◌, ◌%◌, ◌≡◌, ◌≤◌, ◌<◌,
  ◌≢◌, List, [], ◌∷◌, ◌++◌, refl, ap, ap₂, arith, ◌⊎◌, inl, inr, length,
}
use hi_cr.Memory.{read}

-- The `n` tokens from the logical index `t` on; index `t` lies at position `t % capacity`.
abbrev pub window : (ℕ → ℕ) → ℕ → ℕ → ℕ → ℕ → List (List ℕ)
window m size cap t zero = []
window m size cap t (suc n) = read m (size * (t % cap)) size ∷ window m size cap (suc t) n

pub length-window : (m : ℕ → ℕ) (size cap t n : ℕ) → length (window m size cap t n) ≡ n
length-window m size cap t zero = refl
length-window m size cap t (suc n) = ap suc (length-window m size cap (suc t) n)

-- No multiple of `cap` lies strictly between two that follow each other.
mul-gap : (cap q r : ℕ) → cap * q < cap * r → cap * r < cap * q + cap → ⊥
mul-gap cap q r lt gt = elim (dec_le r q) [ yes le ↦ grind arith | no gt' ↦ grind arith ]

-- Two indices less than `cap` apart lie at different positions.
pub mod-ne : (cap t h : ℕ) → t < h → h < t + cap → t % cap ≢ h % cap
mod-ne cap t h lt gt e =
    mul-gap cap (t / cap) (h / cap) (omega (arith, div-add-mod t cap, div-add-mod h cap))
      (omega (arith, div-add-mod t cap, div-add-mod h cap))

pub index_fits : (size i cap : ℕ) → i < cap → size * i + size ≤ size * cap
index_fits size i cap h = grind arith

-- Different positions hold disjoint tokens.
pub apart : (size i j : ℕ) → i ≢ j → (size * i + size ≤ size * j) ⊎ (size * j + size ≤ size * i)
apart size i j ne = elim (dec_lt i j) [
  | yes lt ↦ inl (index_fits size i j lt)
  | no ge ↦ inr (index_fits size j i (omega arith))
]

-- A memory that agrees on the window holds the same window.
pub window-eq :
    (m m' : ℕ → ℕ) (size cap t n : ℕ)
    → ((k : ℕ)
        → t ≤ k
        → k < t + n
        → read m' (size * (k % cap)) size ≡ read m (size * (k % cap)) size)
    → window m' size cap t n ≡ window m size cap t n
window-eq m m' size cap t zero h = refl
window-eq m m' size cap t (suc n) h =
    ap₂ ◌∷◌ (h t (omega arith) (omega arith))
      (window-eq m m' size cap (suc t) n (λ k p q. h k (omega arith) (omega arith)))

-- One more token at the end.
pub window-suc :
    (m : ℕ → ℕ) (size cap t n : ℕ)
    → window m size cap t (suc n)
      ≡ window m size cap t n ++ (read m (size * ((t + n) % cap)) size ∷ [])
window-suc m size cap t zero = ap (λ k. read m (size * (k % cap)) size ∷ []) (omega arith)
window-suc m size cap t (suc n) =
    ap (λ l. read m (size * (t % cap)) size ∷ l)
      (window-suc m size cap (suc t) n
        ∙ ap (λ k. window m size cap (suc t) n ++ (read m (size * (k % cap)) size ∷ []))
            (omega arith))

-- A window in two parts.
pub window-append :
    (m : ℕ → ℕ) (size cap t a b n u : ℕ)
    → n ≡ a + b
    → u ≡ t + a
    → window m size cap t n ≡ window m size cap t a ++ window m size cap u b
window-append m size cap t zero b n u e e' =
    ap₂ (λ k x. window m size cap k x) (omega arith) (omega arith)
window-append m size cap t (suc a) b zero u e e' = absurd (omega arith)
window-append m size cap t (suc a) b (suc n) u e e' =
    ap (λ l. read m (size * (t % cap)) size ∷ l)
      (window-append m size cap (suc t) a b n u (omega arith) (omega arith))

pub drop-window :
    (m : ℕ → ℕ) (size cap t k n u r : ℕ)
    → n ≡ k + r
    → u ≡ t + k
    → drop k (window m size cap t n) ≡ window m size cap u r
drop-window m size cap t zero n u r e e' =
    ap₂ (λ x y. window m size cap x y) (omega arith) (omega arith)
drop-window m size cap t (suc k) zero u r e e' = absurd (omega arith)
drop-window m size cap t (suc k) (suc n) u r e e' =
    drop-window m size cap (suc t) k n u r (omega arith) (omega arith)

pub get_elem?-window :
    (m : ℕ → ℕ) (size cap t n i : ℕ)
    → i < n
    → get_elem? (window m size cap t n) i ≡ some (read m (size * ((t + i) % cap)) size)
get_elem?-window m size cap t zero i h = absurd (omega arith)
get_elem?-window m size cap t (suc n) zero h =
    ap (λ k. some (read m (size * (k % cap)) size)) (omega arith)
get_elem?-window m size cap t (suc n) (suc i) h =
    get_elem?-window m size cap (suc t) n i (omega arith)
    ∙ ap (λ k. some (read m (size * (k % cap)) size)) (omega arith)

-- One more token at the end, given as the token at the index that follows.
pub window-snoc :
    (m : ℕ → ℕ) (size cap t n n' h : ℕ) (x : List ℕ)
    → n' ≡ suc n
    → h ≡ t + n
    → read m (size * (h % cap)) size ≡ x
    → window m size cap t n' ≡ window m size cap t n ++ (x ∷ [])
window-snoc m size cap t n n' h x e e' f =
    ap (window m size cap t) e
    ∙ window-suc m size cap t n
    ∙ ap (λ y. window m size cap t n ++ (y ∷ []))
        (ap (λ k. read m (size * (k % cap)) size) (sym e') ∙ f)

-- The oldest token and the rest.
pub window-first :
    (m : ℕ → ℕ) (size cap t u n n' : ℕ) (x : List ℕ)
    → n ≡ suc n'
    → u ≡ t + 1
    → x ≡ read m (size * (t % cap)) size
    → window m size cap t n ≡ x ∷ window m size cap u n'
window-first m size cap t u n n' x e e' f =
    ap (window m size cap t) e ∙ ap₂ ◌∷◌ (sym f) (ap (λ k. window m size cap k n') (omega arith))
