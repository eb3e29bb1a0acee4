-- ===== src/Channel/FixedSpsc/Threads/Progress.antt =====
-- A call that has passed its checks is never refused later, and ends in at most three steps.
use hi_cr.Prelude.{◌⊎◌, inl, inr, subst, ℕ, ◌+◌, ◌-◌, ◌^◌, ◌≡◌, ◌<◌, arith, refl, length}
use hi_cr.Channel.CircularBuffer.{advance_head, advance_tail}
use hi_cr.Channel.FixedSpsc.{Spsc}
use hi_cr.Channel.FixedSpsc.Tokens.{put_token_lem}
use hi_cr.Channel.FixedSpsc.Threads.{
  System, ProducerPc, ConsumerPc, checked, copied, advanced, peeked, holding, released, Step,
  copy_token, advance, tell_consumer, read_token, release, tell_producer, initial, Reach,
}
use hi_cr.Channel.FixedSpsc.Threads.Inv.{ProducerAt, ConsumerAt, Inv}
use hi_cr.Channel.FixedSpsc.Threads.Safety.{Reach-Inv, Fresh, Fresh-Inv}

-- The steps that a call has left.
abbrev pub producer_rank : ProducerPc → ℕ
producer_rank ProducerPc.outside = 0
producer_rank advanced = 1
producer_rank (copied _) = 2
producer_rank (checked _) = 3

abbrev pub consumer_rank : ConsumerPc → ℕ
consumer_rank ConsumerPc.outside = 0
consumer_rank released = 1
consumer_rank (holding _) = 2
consumer_rank (peeked _) = 3

-- A step after which the producer, or the consumer, has fewer steps left.
abbrev pub ProducerMoves : System → Type 0
ProducerMoves s =
    (t : System) × Step s t × (producer_rank t.producer_pc < producer_rank s.producer_pc)

abbrev pub ConsumerMoves : System → Type 0
ConsumerMoves s =
    (t : System) × Step s t × (consumer_rank t.consumer_pc < consumer_rank s.consumer_pc)

producer_moves :
    {s : System} (pc : ProducerPc)
    → s.producer_pc ≡ pc
    → Inv s
    → s.channel.producer.head + 1 < 2 ^ 64
    → (s.producer_pc ≡ ProducerPc.outside) ⊎ ProducerMoves s
unfolding advance_head
producer_moves ProducerPc.outside e v w = inl e
producer_moves {s} (checked src) e v w =
    let at = subst (ProducerAt s.channel) e v.producer_at in
    let (out, f, p) = put_token_lem s.channel src 0 v.storage at.3 (omega arith) in
    inr (_, copy_token src out e f, rw e (omega arith))
producer_moves {s} (copied src) e v w =
    let at = subst (ProducerAt s.channel) e v.producer_at in
    inr (
      _,
      advance src (record s.channel.producer { head = s.channel.producer.head + 1 }) e
          (ground (arith, at, v.tails, v.ordered, v.heads)),
      rw e (omega arith),
    )
producer_moves advanced e v w = inr (_, tell_consumer e, rw e (omega arith))

consumer_moves :
    {s : System} (pc : ConsumerPc)
    → s.consumer_pc ≡ pc
    → Inv s
    → s.channel.producer.head + 1 < 2 ^ 64
    → (s.consumer_pc ≡ ConsumerPc.outside) ⊎ ConsumerMoves s
unfolding advance_tail
consumer_moves ConsumerPc.outside e v w = inl e
consumer_moves (peeked k) e v w = inr (_, read_token k e, rw e (omega arith))
consumer_moves {s} (holding x) e v w =
    let at = subst (ConsumerAt s.channel) e v.consumer_at in
    inr (
      _,
      release x (s.channel.consumer.head - s.channel.consumer.tail)
          (record s.channel.consumer { tail = s.channel.consumer.tail + 1 }) e (ground (arith, at))
          (omega (arith, at)) (ground (arith, at, v.heads)),
      rw e (omega arith),
    )
consumer_moves released e v w = inr (_, tell_producer e, rw e (omega arith))

-- In every state that the threads can reach from a fresh channel with fewer than 2 ^ 64 - 1 tokens
-- sent, each side is outside its calls or has a step that brings its call nearer to the end.
pub calls_finish :
    {c : Spsc} {s : System}
    → Fresh c
    → Reach (initial c) s
    → length s.sent + 1 < 2 ^ 64
    → ((s.producer_pc ≡ ProducerPc.outside) ⊎ ProducerMoves s)
      × ((s.consumer_pc ≡ ConsumerPc.outside) ⊎ ConsumerMoves s)
calls_finish {s} f r b =
    let v = Reach-Inv r (Fresh-Inv f) (omega arith) in
    (
      producer_moves s.producer_pc refl v (omega (arith, v.counted)),
      consumer_moves s.consumer_pc refl v (omega (arith, v.counted)),
    )
