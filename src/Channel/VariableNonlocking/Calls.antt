-- ===== src/Channel/VariableNonlocking/Calls.antt =====
-- What `peek` and `pop` take from the channels.
use hi_cr.Prelude.{
  ℕ, ◌+◌, ◌-◌, ◌≡◌, ◌≤◌, ◌<◌, List, ◌∷◌, drop, ok, err, runtime, arith, ap, subst, ◌∙◌, sym, dec_lt,
  sub_size, ok_injective, inl, inr, get_elem?, some, length,
}
use hi_cr.Memory.{read}
use hi_cr.Channel.VariableSpsc.{Channel}
use hi_cr.Channel.VariableSpsc as Spsc
use hi_cr.Channel.VariableSpsc.Inv as Part
use hi_cr.Channel.VariableSpsc.Pop.{
  popped, pop_ok, popped-IsValid, contents-popped, pop_messages, peek_message,
}
use hi_cr.Channel.NonlockingMpsc.{replace}
use hi_cr.Channel.NonlockingMpsc.Calls.{sum-le, replace-all, replace-same}
use hi_cr.Channel.VariableNonlocking.{Mpsc, update_depth, total_depth, pop_rounds, peek, pop}
use hi_cr.Channel.VariableNonlocking.Sync.{IsValid, depth, Updated, update_lem}

peek-some :
    (s : Channel)
    → Part.IsValid s
    → 1 ≤ Part.depth s
    → (r : ℕ × ℕ) × (Spsc.peek s 0 ≡ ok r)
      × (r.0 + r.1 ≤ s.payload.size)
      × (get_elem? (Part.contents s) 0 ≡ some (read s.payload.byte r.0 r.1))
peek-some s v h = elim (peek_message {c = s} v) [
  | inl (_, (r, e, _, within, f)) ↦ (r, e, within, f)
  | inr (none, _) ↦ absurd (omega arith)
]

pop-none : (s : Channel) → Part.IsValid s → Part.depth s ≡ 0 → Spsc.pop s 1 ≡ err runtime
pop-none s v h = elim (pop_messages {c = s} 1 v) [
  | inl (le, _) ↦ absurd (omega arith)
  | inr (inl (_, _, e)) ↦ e
  | inr (inr (lt, _)) ↦ absurd (omega (arith, v.counts.nonempty))
]

-- The channel without the oldest message of the part `x`, which stood first in the queue.
abbrev pub taken : Mpsc → ℕ → List ℕ → Mpsc
taken c x rest = record c {
  channels = replace c.channels x (popped 1 (c.channels x));
  depths = replace c.depths x (c.depths x - 1);
  pushes = rest;
}

module _ {c c' : Mpsc} (x : ℕ) (rest : List ℕ) (u : Updated c c') (e : c'.pushes ≡ x ∷ rest) where
  x_below : x < c'.producers
  x_below = elim (dec_lt x c'.producers) [
    | yes p ↦ p
    | no p ↦ absurd (ground (arith, u.valid.tracks.known x (omega arith), e))
  ]

  x_holds : 1 ≤ c'.depths x
  x_holds = ground (arith, u.valid.tracks.counted x x_below, e)

  x_depth : 1 ≤ depth c' x
  x_depth = omega (arith, x_holds, u.exact x x_below)

  -- The snapshot is decremented without wrap-around.
  x_less : sub_size (c'.depths x) 1 ≡ c'.depths x - 1
  x_less = omega (arith, x_holds, u.exact x x_below, (u.valid.channels x x_below).counts.word)

  taken-IsValid : IsValid (taken c' x rest)
  taken-IsValid =
      let v = u.valid in
      record {
        channels = λ i lt.
            replace-all Part.IsValid c'.channels x (popped 1 (c'.channels x)) i
              (popped-IsValid 1 (v.channels x x_below) x_depth) (v.channels i lt);
        tracks = record {
          counted = λ i lt. ground (arith, v.tracks.counted i lt, e);
          known = λ i le. ground (arith, v.tracks.known i le, e);
        };
        behind = λ i lt. ground (arith, v.behind i lt, x_holds);
        word = omega (
          arith,
          v.word,
          sum-le (depth (taken c' x rest)) (depth c') c'.producers (λ i. ground arith),
        );
      }

-- On a valid channel whose queue, once it is up to date, begins with the part x: a peek gives that
-- part and a position and a size inside its payload buffer, where its oldest message lies in one
-- piece; one pop takes that message and the first index of the queue, changes no other part, and
-- keeps the channel valid.
pub next_message :
    (garbage : ℕ) {c c' : Mpsc} (x : ℕ) (rest : List ℕ)
    → IsValid c
    → update_depth c ≡ ok c'
    → c'.pushes ≡ x ∷ rest
    → ((r : ℕ × ℕ) × (peek garbage c 0 ≡ ok ((x, r.0, r.1), c'))
        × (r.0 + r.1 ≤ (c'.channels x).payload.size)
        × (get_elem? (Part.contents (c'.channels x)) 0
            ≡ some (read (c'.channels x).payload.byte r.0 r.1)))
      × (pop garbage c 1 ≡ ok (taken c' x rest))
      × IsValid (taken c' x rest)
      × (Part.contents ((taken c' x rest).channels x) ≡ drop 1 (Part.contents (c.channels x)))
unfolding peek pop pop_rounds
next_message garbage {c} {c'} x rest v up e =
    let (c'', up', u') = update_lem v in
    let u : Updated c c' = subst (Updated c) (ok_injective c'' c' (sym up' ∙ up)) u' in
    let below = x_below x rest u e in
    let held = x_depth x rest u e in
    let valid = u.valid.channels x below in
    let (r, f, within, g) = peek-some (c'.channels x) valid held in
    (
      (r, ground (arith, up, e, below, f), within, g),
      ground (arith, up, e, u.total, below, pop_ok 1 valid held, x_less x rest u e),
      taken-IsValid x rest u e,
      ap Part.contents (replace-same c'.channels x (popped 1 (c'.channels x)))
          ∙ (contents-popped (c'.channels x) 1 held
              ∙ ap (λ (f : ℕ → Channel). drop 1 (Part.contents (f x))) u.channels),
    )

-- A pop of two messages of a valid channel whose queue, once it is up to date, begins with a part
-- that holds a single message is a runtime error, though the channel holds two messages.
pub two_messages :
    (garbage : ℕ) {c c' : Mpsc} (x y : ℕ) (rest : List ℕ)
    → IsValid c
    → update_depth c ≡ ok c'
    → c'.pushes ≡ x ∷ y ∷ rest
    → c'.depths x ≡ 1
    → (pop garbage c 2 ≡ err runtime)
      × (total_depth c' ≡ ok (length c'.pushes))
      × (2 ≤ length c'.pushes)
unfolding pop pop_rounds
two_messages garbage {c} {c'} x y rest v up e one =
    let (c'', up', u') = update_lem v in
    let u : Updated c c' = subst (Updated c) (ok_injective c'' c' (sym up' ∙ up)) u' in
    let below = x_below x (y ∷ rest) u e in
    let held = x_depth x (y ∷ rest) u e in
    let valid = u.valid.channels x below in
    let after : Spsc.pop (replace c'.channels x (popped 1 (c'.channels x)) x) 1 ≡ err runtime =
      rw (replace-same c'.channels x (popped 1 (c'.channels x))) (
        pop-none (popped 1 (c'.channels x)) (popped-IsValid 1 valid held)
          (omega (arith, u.exact x below, one))) in
    (ground (arith, up, e, u.total, below, pop_ok 1 valid held, after), u.total, ground (arith, e))
