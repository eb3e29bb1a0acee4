-- ===== src/Channel/FixedSpsc/Refine.antt =====
-- A channel driven one token at a time is a bounded queue of tokens.
use hi_cr.Channel.FixedSpsc.Push.{Pushed, push_lem, push_full}
use hi_cr.Channel.FixedSpsc.Pop.{popped, pop_lem, peek_lem}
use hi_cr.Channel.Window.{length-window}
use hi_cr.Prelude.{
  get_elem?, ap, ◌∙◌, dec_lt, inl, inr, ◌⊎◌, ◌>>=◌, ℕ, ◌+◌, ◌-◌, ◌*◌, ◌^◌, ◌≡◌, ◌≤◌, ◌<◌, List, [],
  ◌∷◌, ◌++◌, some, ltb, if◌then◌else◌, Result, ok, err, Error, runtime, length, drop, arith, refl,
}
use hi_cr.Memory.{Slot, read}
use hi_cr.Channel.FixedSpsc.{Spsc, push, peek, pop}
use hi_cr.Channel.FixedSpsc.Inv.{IsValid, contents}

-- What a client asks of the channel, and what it sees of each call.
pub data Op : Type 0 where
  send : Slot → Op
  receive : Op

pub data Reply : Type 0 where
  sent : Reply
  received : List ℕ → Reply
  refused : Error → Reply

-- The bounded queue.
unfoldable pub queue_run : ℕ → ℕ → List (List ℕ) → List Op → List Reply
queue_run size cap q [] = []
queue_run size cap q (send s ∷ ops) =
    if ltb (length q) cap
    then sent ∷ queue_run size cap (q ++ (read s.byte 0 size ∷ [])) ops
    else refused runtime ∷ queue_run size cap q ops
queue_run size cap [] (receive ∷ ops) = refused runtime ∷ queue_run size cap [] ops
queue_run size cap (x ∷ q) (receive ∷ ops) = received x ∷ queue_run size cap q ops

-- The client of the two ends: it sends one token of a slot, and receives by a peek at the oldest
-- token, a read of it and a pop.
receive_token : Spsc → Result (List ℕ × Spsc)
receive_token c = do
  k ← peek c 0
  c' ← pop c 1
  ok (read c.token_buffer.byte (c.token_size * k) c.token_size, c')

unfoldable pub run : Spsc → List Op → List Reply
unfolding receive_token
run c [] = []
run c (send s ∷ ops) = elim (push c s 1) [
  | ok (c', s') ↦ sent ∷ run c' ops
  | err e ↦ refused e ∷ run c ops
]
run c (receive ∷ ops) = elim (receive_token c) [
  | ok (x, c') ↦ received x ∷ run c' ops
  | err e ↦ refused e ∷ run c ops
]

-- Every slot that is sent holds a token.
abbrev pub Fits : ℕ → List Op → Type 0
Fits size [] = Unit {0}
Fits size (send s ∷ ops) = (size ≤ s.size) × (s.size < 2 ^ 64) × Fits size ops
Fits size (receive ∷ ops) = Fits size ops

-- One token is sent where there is room, and refused where there is none.
pub push_one :
    {c : Spsc} (s : Slot)
    → IsValid c
    → c.token_size ≤ s.size
    → s.size < 2 ^ 64
    → c.consumer.head + 1 < 2 ^ 64
    → ((c.consumer.head - c.consumer.tail < c.consumer.capacity)
        × ((out : Spsc × Slot) × (push c s 1 ≡ ok out) × Pushed c s 0 out))
      ⊎ ((c.consumer.head - c.consumer.tail ≡ c.consumer.capacity) × (push c s 1 ≡ err runtime))
push_one {c} s v fit word word' =
    elim (dec_lt (c.consumer.head - c.consumer.tail) c.consumer.capacity) [
      | yes h ↦ inl (h, push_lem s 0 v word (omega arith) word' (omega arith))
      | no h ↦ inr (omega arith, push_full s 1 v (omega arith) word (omega arith) (omega arith))
    ]

-- The two outcomes of a receive.
receive_empty :
    {c : Spsc} → IsValid c → c.consumer.head ≡ c.consumer.tail → receive_token c ≡ err runtime
unfolding receive_token
receive_empty {c} v e = elim (peek_lem {c = c} 0 v) [
  | inl (h, _) ↦ absurd (omega arith)
  | inr (inl (_, _, p)) ↦ rw p
  | inr (inr (h, _)) ↦ absurd (omega (arith, v.buffer.nonempty))
]

head_of_drop : (l : List (List ℕ)) (x : List ℕ) → get_elem? l 0 ≡ some x → l ≡ x ∷ drop 1 l
head_of_drop [] x e = cc
head_of_drop (y ∷ l) x e = cc

receive_first :
    {c : Spsc}
    → IsValid c
    → c.consumer.tail < c.consumer.head
    → (x : List ℕ) × (receive_token c ≡ ok (x, popped 1 c))
      × IsValid (popped 1 c)
      × (contents c ≡ x ∷ contents (popped 1 c))
unfolding receive_token
receive_first {c} v h = elim (pop_lem {c = c} 1 v) [
  | inl (_, p, v', q) ↦ elim (peek_lem {c = c} 0 v) [
    | inl (_, (k, p', _, g)) ↦ (
      read c.token_buffer.byte (c.token_size * k) c.token_size,
      rw (p', p),
      v',
      rw q (head_of_drop (contents c) _ g),
    )
    | inr (inl (h', _, _)) ↦ absurd (omega arith)
    | inr (inr (h', _)) ↦ absurd (omega (arith, v.buffer.nonempty))
  ]
  | inr (inl (h', _, _)) ↦ absurd (omega arith)
  | inr (inr (h', _)) ↦ absurd (omega (arith, v.buffer.nonempty))
]

length-eq-zero : (l : List (List ℕ)) → length l ≡ 0 → l ≡ []
length-eq-zero [] e = refl
length-eq-zero (x ∷ l) e = absurd (omega arith)

contents_count : (c : Spsc) → length (contents c) ≡ c.consumer.head - c.consumer.tail
contents_count c =
    length-window c.token_buffer.byte c.token_size c.consumer.capacity c.consumer.tail
      (c.consumer.head - c.consumer.tail)

-- No sequence of one-token sends and receives tells a valid fixed-size SPSC channel from the
-- bounded queue of its tokens, refusals included, as long as each slot that is sent holds a
-- token, has fewer than 2 ^ 64 bytes, and the head counter does not wrap.
pub run_refines :
    (ops : List Op) {c : Spsc}
    → IsValid c
    → Fits c.token_size ops
    → c.consumer.head + length ops < 2 ^ 64
    → run c ops ≡ queue_run c.token_size c.consumer.capacity (contents c) ops
unfolding run queue_run
run_refines [] v f w = refl
run_refines (send s ∷ ops) {c} v f w = elim (push_one {c = c} s v f.0 f.1 (omega arith)) [
  | inl (h, (out, e, p)) ↦
      let ih =
        run_refines ops {c = out.0} p.valid (rw p.token_size f.2) (rw p.head (omega arith)) in
      rw (e, run) (ground (arith, ih, contents_count c, p.tokens, p.token_size, p.capacity))
  | inr (h, e) ↦ rw (e, run) (ground (arith, contents_count c, run_refines ops v f.2 (omega arith)))
]
run_refines (receive ∷ ops) {c} v f w = elim (dec_lt c.consumer.tail c.consumer.head) [
  | yes h ↦
      let (x, e, v', q) = receive_first {c = c} v h in
      let ih = run_refines ops {c = popped 1 c} v' f (omega arith) in
      rw (e, run) (rw q (ap (λ l. received x ∷ l) ih))
  | no h ↦
      let e : c.consumer.head ≡ c.consumer.tail = omega (arith, v.buffer.ordered) in
      let none_left : contents c ≡ [] =
        length-eq-zero (contents c) (omega (arith, contents_count c)) in
      rw (receive_empty {c = c} v e, run, none_left)
        (ap (λ l. refused runtime ∷ l)
          (run_refines ops v f (omega arith)
            ∙ ap (λ q. queue_run c.token_size c.consumer.capacity q ops) none_left))
]
