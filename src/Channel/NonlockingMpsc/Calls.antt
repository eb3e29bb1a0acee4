-- ===== src/Channel/NonlockingMpsc/Calls.antt =====
-- What `pop` takes from the channels.
use hi_cr.Prelude.{
  ℕ, zero, suc, ◌-◌, ◌≡◌, ◌≤◌, ◌<◌, ◌==◌, Bool, true, false, List, ◌∷◌, drop, ok, err, runtime,
  arith, ap, subst, ◌∙◌, sym, if◌then◌else◌, dec_lt, sub_size, ok_injective, inl, inr, ◌*◌,
  get_elem?, some,
}
use hi_cr.Memory.{read}
use hi_cr.Channel.FixedSpsc.{Spsc}
use hi_cr.Channel.FixedSpsc
use hi_cr.Channel.FixedSpsc.Inv as Channel
use hi_cr.Channel.FixedSpsc.Pop.{popped, pop_lem, peek_lem}
use hi_cr.Channel.NonlockingMpsc.{Mpsc, update_depth, replace, total_depth, pop_rounds, peek, pop}
use hi_cr.Channel.NonlockingMpsc.Counts.{sum}
use hi_cr.Channel.NonlockingMpsc.Sync.{IsValid, depth, Updated, update_depth_lem}

-- A pop of one token from a channel that holds some, and from an empty one.
pop-some :
    (s : Spsc)
    → Channel.IsValid s
    → 1 ≤ s.consumer.head - s.consumer.tail
    → (FixedSpsc.pop s 1 ≡ ok (popped 1 s))
      × Channel.IsValid (popped 1 s)
      × (Channel.contents (popped 1 s) ≡ drop 1 (Channel.contents s))
pop-some s v h = elim (pop_lem {c = s} 1 v) [
  | inl (_, e, v', f) ↦ (e, v', f)
  | inr (inl (lt, _, _)) ↦ absurd (omega arith)
  | inr (inr (lt, _)) ↦ absurd (omega (arith, v.buffer.nonempty))
]

pop-none :
    (s : Spsc)
    → Channel.IsValid s
    → s.consumer.head - s.consumer.tail ≡ 0
    → FixedSpsc.pop s 1 ≡ err runtime
pop-none s v h = elim (pop_lem {c = s} 1 v) [
  | inl (le, _, _, _) ↦ absurd (omega arith)
  | inr (inl (_, _, e)) ↦ e
  | inr (inr (lt, _)) ↦ absurd (omega (arith, v.buffer.nonempty))
]

pub replace-all :
    {A : Type 0} (P : A → Type 0) (f : ℕ → A) (i : ℕ) (a : A) (k : ℕ)
    → P a
    → P (f k)
    → P (replace f i a k)
replace-all P f i a k p q = choose (k == i)
  where
    choose : (b : Bool) → P (if b then a else f k)
    choose true = p
    choose false = q

pub sum-le : (f g : ℕ → ℕ) (n : ℕ) → ((i : ℕ) → f i ≤ g i) → sum f n ≤ sum g n
sum-le f g zero h = omega arith
sum-le f g (suc n) h = omega (arith, sum-le f g n h, h n)

pub replace-same : {A : Type 0} (f : ℕ → A) (i : ℕ) (a : A) → replace f i a i ≡ a
replace-same f i a = ground arith

-- The channel without the oldest token of the part `x`, which stood first in the queue.
abbrev pub taken : Mpsc → ℕ → List ℕ → Mpsc
taken c x rest = record c {
  channels = replace c.channels x (popped 1 (c.channels x));
  depths = replace c.depths x (c.depths x - 1);
  pushes = rest;
}

module _ {c c' : Mpsc} (x : ℕ) (rest : List ℕ) (u : Updated c c') (e : c'.pushes ≡ x ∷ rest) where
  x_below : x < c'.producers
  x_below = elim (dec_lt x c'.producers) [
    | yes p ↦ p
    | no p ↦ absurd (ground (arith, u.valid.known x (omega arith), e))
  ]

  x_holds : 1 ≤ c'.depths x
  x_holds = ground (arith, u.valid.counted x x_below, e)

  x_depth : 1 ≤ depth c' x
  x_depth = omega (arith, x_holds, u.exact x x_below)

  -- The snapshot is decremented without wrap-around.
  x_less : sub_size (c'.depths x) 1 ≡ c'.depths x - 1
  x_less = omega (arith, x_holds, u.exact x x_below, (u.valid.channels x x_below).buffer.word)

  taken-IsValid : IsValid (taken c' x rest)
  taken-IsValid =
      let v = u.valid in
      let here = pop-some (c'.channels x) (v.channels x x_below) x_depth in
      record {
        channels = λ i lt.
            replace-all Channel.IsValid c'.channels x (popped 1 (c'.channels x)) i here.1
              (v.channels i lt);
        counted = λ i lt. ground (arith, v.counted i lt, e);
        behind = λ i lt. ground (arith, v.behind i lt, x_holds);
        known = λ i le. ground (arith, v.known i le, e);
        word = omega (
          arith,
          v.word,
          sum-le (depth (taken c' x rest)) (depth c') c'.producers (λ i. ground arith),
        );
      }

-- One pop of a channel whose queue, once it is up to date, begins with the part `x`, takes the
-- oldest token of that part and the first index of the queue, changes no other part, and keeps the
-- channel valid.
pub pop_next :
    (garbage : ℕ) {c c' : Mpsc} (x : ℕ) (rest : List ℕ)
    → IsValid c
    → update_depth c ≡ ok c'
    → c'.pushes ≡ x ∷ rest
    → (pop garbage c 1 ≡ ok (taken c' x rest))
      × IsValid (taken c' x rest)
      × (Channel.contents ((taken c' x rest).channels x) ≡ drop 1 (Channel.contents (c.channels x)))
unfolding pop pop_rounds total_depth
pop_next garbage {c} {c'} x rest v up e =
    let (c'', up', u') = update_depth_lem v in
    let u : Updated c c' = subst (Updated c) (ok_injective c'' c' (sym up' ∙ up)) u' in
    let here =
      pop-some (c'.channels x) (u.valid.channels x (x_below x rest u e)) (x_depth x rest u e) in
    (
      ground (arith, up, e, u.total, x_below x rest u e, here.0, x_less x rest u e),
      taken-IsValid x rest u e,
      ap Channel.contents (replace-same c'.channels x (popped 1 (c'.channels x)))
          ∙ (here.2 ∙ ap (λ (f : ℕ → Spsc). drop 1 (Channel.contents (f x))) u.channels),
    )

-- A pop of two tokens of a channel whose queue, once it is up to date, begins with a part that holds
-- a single token is a runtime error, though the channel holds two tokens.
pub pop_two :
    (garbage : ℕ) {c c' : Mpsc} (x y : ℕ) (rest : List ℕ)
    → IsValid c
    → update_depth c ≡ ok c'
    → c'.pushes ≡ x ∷ y ∷ rest
    → c'.depths x ≡ 1
    → (pop garbage c 2 ≡ err runtime) × (2 ≤ total_depth c')
unfolding pop pop_rounds total_depth
pop_two garbage {c} {c'} x y rest v up e one =
    let (c'', up', u') = update_depth_lem v in
    let u : Updated c c' = subst (Updated c) (ok_injective c'' c' (sym up' ∙ up)) u' in
    let below = x_below x (y ∷ rest) u e in
    let here = pop-some (c'.channels x) (u.valid.channels x below) (x_depth x (y ∷ rest) u e) in
    let after : FixedSpsc.pop (replace c'.channels x (popped 1 (c'.channels x)) x) 1 ≡ err runtime =
      rw (replace-same c'.channels x (popped 1 (c'.channels x)))
        (pop-none (popped 1 (c'.channels x)) here.1 (omega (arith, u.exact x below, one))) in
    (ground (arith, up, e, u.total, below, here.0, after), ground (arith, u.total, e))

peek-some :
    (s : Spsc)
    → Channel.IsValid s
    → 1 ≤ s.consumer.head - s.consumer.tail
    → (k : ℕ) × (FixedSpsc.peek s 0 ≡ ok k)
      × (k < s.consumer.capacity)
      × (get_elem? (Channel.contents s) 0
          ≡ some (read s.token_buffer.byte (s.token_size * k) s.token_size))
peek-some s v h = elim (peek_lem {c = s} 0 v) [
  | inl (_, r) ↦ r
  | inr (inl (le, _, _)) ↦ absurd (omega arith)
  | inr (inr (le, _)) ↦ absurd (omega (arith, v.buffer.nonempty))
]

-- A peek at a channel whose queue, once it is up to date, begins with the part `x` gives that part
-- and a position inside its buffer, where its oldest token lies.
pub peek_next :
    (garbage : ℕ) {c c' : Mpsc} (x : ℕ) (rest : List ℕ)
    → IsValid c
    → update_depth c ≡ ok c'
    → c'.pushes ≡ x ∷ rest
    → (k : ℕ) × (peek garbage c 0 ≡ ok ((x, k), c'))
      × (k < (c'.channels x).consumer.capacity)
      × (get_elem? (Channel.contents (c'.channels x)) 0
          ≡ some (
              read
                (c'.channels x).token_buffer.byte
                ((c'.channels x).token_size * k)
                (c'.channels x).token_size))
unfolding peek
peek_next garbage {c} {c'} x rest v up e =
    let (c'', up', u') = update_depth_lem v in
    let u : Updated c c' = subst (Updated c) (ok_injective c'' c' (sym up' ∙ up)) u' in
    let below = x_below x rest u e in
    let (k, f, lt, g) = peek-some (c'.channels x) (u.valid.channels x below) (x_depth x rest u e) in
    (k, ground (arith, up, e, below, f), lt, g)
