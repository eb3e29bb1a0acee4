-- ===== src/Channel/NonlockingMpsc/Create.antt =====
-- The consumer that its constructor makes over new SPSC channels.
use hi_cr.Prelude.{
  ℕ, zero, suc, ◌-◌, ◌*◌, ◌^◌, ◌≡◌, ◌≤◌, ◌<◌, [], Option, ok, length, refl, arith, ◌∙◌, ap, sym,
  subst,
}
use hi_cr.Memory.{Slot}
use hi_cr.Channel.Base.{CoordinationBuffer}
use hi_cr.Channel.Window.{length-window}
use hi_cr.Channel.FixedSpsc.{Spsc}
use hi_cr.Channel.FixedSpsc.Inv as Channel
use hi_cr.Channel.FixedSpsc.Create.{create, create-IsValid}
use hi_cr.Channel.NonlockingMpsc.{Mpsc, create_rounds}
use hi_cr.Channel.NonlockingMpsc.Counts.{sum-eq, sum-zero}
use hi_cr.Channel.NonlockingMpsc.Sync.{depth}
use hi_cr.Channel.NonlockingMpsc.Send.{IsIdle}

-- What the rounds leave, field by field.
rounds-fields :
    (channels : ℕ → Spsc) (n : ℕ)
    → ((create_rounds channels n).producers ≡ n)
      × ((create_rounds channels n).channels ≡ channels)
      × ((create_rounds channels n).pushes ≡ [])
      × ((i : ℕ) → (create_rounds channels n).depths i ≡ 0)
unfolding create_rounds
rounds-fields channels zero = (refl, refl, refl, λ i. refl)
rounds-fields channels (suc n) =
    let (_, c, p, d) = rounds-fields channels n in (refl, c, p, λ i. ground (arith, d i))

empty_depth : (s : Spsc) → Channel.contents s ≡ [] → s.consumer.head - s.consumer.tail ≡ 0
empty_depth s e =
    sym (
      length-window s.token_buffer.byte s.token_size s.consumer.capacity s.consumer.tail
        (s.consumer.head - s.consumer.tail))
    ∙ ap length e

IsIdle-over :
    (c : Mpsc)
    → c.pushes ≡ []
    → ((i : ℕ) → c.depths i ≡ 0)
    → ((i : ℕ) → i < c.producers → Channel.IsValid (c.channels i))
    → ((i : ℕ) → i < c.producers → depth c i ≡ 0)
    → IsIdle c
IsIdle-over c q d v e = record {
  valid = record {
    channels = v;
    counted = λ i lt. ground (arith, q, d i);
    behind = λ i lt. omega (arith, d i);
    known = λ i le. ground (arith, q);
    word = omega (arith, sum-eq (depth c) (λ i. 0) c.producers e, sum-zero c.producers);
  };
  queue = q;
  empty = e;
}

-- A consumer whose n channels their own constructors have accepted, with bytes that can be counted
-- in 64 bits and a capacity of at most 2 ^ 63, is constructed valid and idle: no token is in any
-- part, and none is recorded; any of its parts is one of these channels, valid and empty.
pub create-IsIdle :
    (tokens : ℕ → Option Slot) (producer consumer : ℕ → CoordinationBuffer) (channels : ℕ → Spsc)
    (n j token_size capacity : ℕ)
    → ((i : ℕ)
        → i < n
        → create (tokens i) (producer i) (consumer i) token_size capacity ≡ ok (channels i))
    → ((i : ℕ) → i < n → (channels i).token_buffer.size < 2 ^ 64)
    → token_size * capacity < 2 ^ 64
    → capacity ≤ 2 ^ 63
    → j < n
    → IsIdle (create_rounds channels n)
      × ((create_rounds channels n).producers ≡ n)
      × ((create_rounds channels n).channels j ≡ channels j)
      × Channel.IsValid (channels j)
      × (Channel.contents (channels j) ≡ [])
      × ((channels j).token_size ≡ token_size)
create-IsIdle tokens producer consumer channels n j token_size capacity made small bytes half lt =
    let (count, same, queue, depths) = rounds-fields channels n in
    let part : (i : ℕ) → i < n → _ = λ i l.
      create-IsValid (tokens i) (producer i) (consumer i) token_size capacity {c = channels i}
        (made i l) bytes half (small i l) in
    let here = part j lt in
    (
      IsIdle-over (create_rounds channels n) queue depths
          (λ i l.
            subst (λ (f : ℕ → Spsc). Channel.IsValid (f i)) (sym same)
              (part i (omega (arith, count))).0)
          (λ i l.
            ap (λ (f : ℕ → Spsc). (f i).consumer.head - (f i).consumer.tail) same
            ∙ empty_depth (channels i) (part i (omega (arith, count))).1),
      count,
      ap (λ (f : ℕ → Spsc). f j) same,
      here.0,
      here.1,
      here.3,
    )
