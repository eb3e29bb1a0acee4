-- ===== src/Channel/NonlockingMpsc/Send.antt =====
-- A token that comes to an idle consumer.
use hi_cr.Prelude.{ℕ, ◌-◌, ◌≡◌, ◌≤◌, ◌<◌, List, [], ◌∷◌, ok, refl, arith, ap, ap₂, ◌∙◌, dec_lt}
use hi_cr.Channel.FixedSpsc.{Spsc}
use hi_cr.Channel.FixedSpsc.Inv as Channel
use hi_cr.Channel.NonlockingMpsc.{Mpsc, update_depth, replace}
use hi_cr.Channel.NonlockingMpsc.Counts.{one_if, count, sum-eq, sum-one_if}
use hi_cr.Channel.NonlockingMpsc.Sync.{IsValid, depth, Updated, update_depth_lem}
use hi_cr.Channel.NonlockingMpsc.Calls.{replace-all, taken}

-- No token is in any part, and none is recorded.
pub record IsIdle (c : Mpsc) : Type 0 where
  pub valid : IsValid c
  pub queue : c.pushes ≡ []
  pub empty : (j : ℕ) → j < c.producers → depth c j ≡ 0

-- The channel with another state of one part.
abbrev pub sent : Mpsc → ℕ → Spsc → Mpsc
sent c i s = record c { channels = replace c.channels i s }

pub none_counted : (l : List ℕ) → ((j : ℕ) → count j l ≡ 0) → l ≡ []
none_counted [] h = refl
none_counted (x ∷ l) h = absurd (ground (arith, h x))

-- A queue in which one index stands once and no other stands.
one_counted : (i : ℕ) (l : List ℕ) → ((j : ℕ) → count j l ≡ one_if j i) → l ≡ i ∷ []
one_counted i [] h = absurd (ground (arith, h i))
one_counted i (x ∷ l) h =
    let same : x ≡ i = ground (arith, h x) in
    ap₂ ◌∷◌ same (none_counted l (λ j. ground (arith, h j, same)))

sent-depth :
    {c : Mpsc} (s : Spsc) (i j : ℕ)
    → IsIdle c
    → s.consumer.head - s.consumer.tail ≡ 1
    → j < c.producers
    → depth (sent c i s) j ≡ one_if j i
sent-depth {c} s i j v h lt = ground (arith, v.empty j lt)

pub sent-IsValid :
    {c : Mpsc} (s : Spsc) (i : ℕ)
    → IsIdle c
    → i < c.producers
    → Channel.IsValid s
    → s.consumer.head - s.consumer.tail ≡ 1
    → IsValid (sent c i s)
sent-IsValid {c} s i v lt w h = record {
  channels = λ j l. replace-all Channel.IsValid c.channels i s j w (v.valid.channels j l);
  counted = v.valid.counted;
  behind = λ j l. omega (arith, v.valid.counted j l, ap (count j) v.queue);
  known = v.valid.known;
  word = ground (
    arith,
    sum-eq (depth (sent c i s)) (λ j. one_if j i) c.producers (λ j l. sent-depth s i j v h l),
    sum-one_if i c.producers,
    lt,
  );
}

depth_after :
    {c c' : Mpsc} (s : Spsc) (i j : ℕ)
    → IsIdle c
    → s.consumer.head - s.consumer.tail ≡ 1
    → Updated (sent c i s) c'
    → j < c.producers
    → depth c' j ≡ one_if j i
depth_after {c} {c'} s i j v h u l =
    ap (λ (f : ℕ → Spsc). (f j).consumer.head - (f j).consumer.tail) u.channels
    ∙ sent-depth s i j v h l

counted_lem :
    {c c' : Mpsc} (s : Spsc) (i j : ℕ)
    → IsIdle c
    → i < c.producers
    → s.consumer.head - s.consumer.tail ≡ 1
    → Updated (sent c i s) c'
    → count j c'.pushes ≡ one_if j i
counted_lem {c} {c'} s i j v lt h u = elim (dec_lt j c.producers) [
  | yes l ↦
      let l' : j < c'.producers = omega (arith, u.producers) in
      u.valid.counted j l' ∙ (u.exact j l' ∙ depth_after s i j v h u l)
  | no l ↦
      let l' : c'.producers ≤ j = omega (arith, u.producers) in u.valid.known j l' ∙ ground arith
]

-- An update then finds the token.
pub sent_lem :
    {c : Mpsc} (s : Spsc) (i : ℕ)
    → IsIdle c
    → i < c.producers
    → Channel.IsValid s
    → s.consumer.head - s.consumer.tail ≡ 1
    → (c' : Mpsc) × (update_depth (sent c i s) ≡ ok c')
      × (c'.pushes ≡ i ∷ [])
      × Updated (sent c i s) c'
sent_lem {c} s i v lt w h =
    let (c', e, u) = update_depth_lem (sent-IsValid s i v lt w h) in
    (c', e, one_counted i c'.pushes (λ j. counted_lem s i j v lt h u), u)

-- The consumer is idle again once it has taken the token.
pub taken-IsIdle :
    {c c' : Mpsc} (s : Spsc) (i : ℕ)
    → IsIdle c
    → i < c.producers
    → s.consumer.head - s.consumer.tail ≡ 1
    → Updated (sent c i s) c'
    → IsValid (taken c' i [])
    → IsIdle (taken c' i [])
taken-IsIdle {c} {c'} s i v lt h u w = record {
  valid = w;
  queue = refl;
  empty = λ j l.
      ground
        (arith, depth_after s i j v h u (omega (arith, u.producers)), depth_after s i i v h u lt);
}
