-- ===== src/Channel/FixedSpsc/Threads/Copy.antt =====
-- The copy of a token by the producer, while the consumer stands anywhere.
use hi_cr.Prelude.{
  ok_injective, subst, ℕ, ◌+◌, ◌-◌, ◌*◌, ◌%◌, ◌^◌, ◌≡◌, ◌≤◌, ◌<◌, ◌++◌, ok, arith, ap, sym, ◌∙◌,
}
use hi_cr.Memory.{Slot, read}
use hi_cr.Channel.Window.{window-eq, mod-ne}
use hi_cr.Channel.FixedSpsc.{Spsc, put_token}
use hi_cr.Channel.FixedSpsc.Tokens.{HasStorage, Placed, put_token_lem, Placed-token, kept_token}
use hi_cr.Channel.FixedSpsc.Threads.{System, ConsumerPc, checked, copied, peeked, holding, released}
use hi_cr.Channel.FixedSpsc.Threads.Inv.{ProducerAt, ConsumerAt, in_flight, Inv}

-- The copy of a token leaves the tokens in flight alone.
copy_kept :
    {c : Spsc} {src : Slot} {out : Spsc × Slot} (k : ℕ)
    → Placed c src 0 out
    → k < c.producer.head
    → c.producer.head < k + c.producer.capacity
    → read out.0.token_buffer.byte (c.token_size * (k % c.producer.capacity)) c.token_size
      ≡ read c.token_buffer.byte (c.token_size * (k % c.producer.capacity)) c.token_size
copy_kept {c} k p lt gt =
    kept_token (k % c.producer.capacity) p (mod-ne c.producer.capacity k c.producer.head lt gt)

put_token-Placed :
    {c : Spsc} {src : Slot} {out : Spsc × Slot}
    → HasStorage c
    → src.size < 2 ^ 64
    → c.token_size ≤ src.size
    → put_token 0 c src ≡ ok out
    → Placed c src 0 out
put_token-Placed {c} {src} {out} h w fit f =
    let (out', e, p) = put_token_lem c src 0 h w (omega arith) in
    subst (Placed c src 0) (ok_injective out' out (sym e ∙ f)) p

copy_consumer :
    {c : Spsc} {src : Slot} {out : Spsc × Slot} (pc : ConsumerPc)
    → Placed c src 0 out
    → c.consumer.head ≡ c.producer.head
    → c.producer.head + 1 ≤ c.producer.tail + c.producer.capacity
    → ConsumerAt c pc
    → ConsumerAt out.0 pc
copy_consumer ConsumerPc.outside p e r at = rw (p.producer, p.consumer) at
copy_consumer (peeked k) p e r at = rw (p.producer, p.consumer) at
copy_consumer {c} (holding x) p e r at =
    rw (p.producer, p.consumer, p.token_size)
      (at.0, at.1, at.2 ∙ sym (copy_kept c.consumer.tail p (omega arith) (omega arith)))
copy_consumer released p e r at = rw (p.producer, p.consumer) at

copy_in_flight :
    {c : Spsc} {src : Slot} {out : Spsc × Slot}
    → Placed c src 0 out
    → c.producer.head + 1 ≤ c.producer.tail + c.producer.capacity
    → c.producer.tail ≤ c.consumer.tail
    → in_flight out.0 ≡ in_flight c
copy_in_flight {c} {src} {out} p r t =
    rw (p.producer, p.consumer, p.token_size)
      (window-eq c.token_buffer.byte out.0.token_buffer.byte c.token_size c.producer.capacity
        c.consumer.tail (c.producer.head - c.consumer.tail)
        (λ k lo hi. copy_kept k p (omega arith) (omega arith)))

pub copy_token-Inv :
    {s : System} (src : Slot) (out : Spsc × Slot)
    → s.producer_pc ≡ checked src
    → put_token 0 s.channel src ≡ ok out
    → Inv s
    → Inv (record s { channel = out.0; producer_pc = copied src })
copy_token-Inv {s} src out e f v =
    let at = subst (ProducerAt s.channel) e v.producer_at in
    let p = put_token-Placed v.storage at.3 at.2 f in
    record {
      storage = record {
        token = rw p.token_size v.storage.token;
        nonempty = rw p.producer v.storage.nonempty;
        storage = rw (p.token_size, p.producer, p.size) v.storage.storage;
        word = rw p.size v.storage.word;
      };
      capacities = rw (p.producer, p.consumer) v.capacities;
      half = rw p.producer v.half;
      tails = rw (p.producer, p.consumer) v.tails;
      ordered = rw p.consumer v.ordered;
      heads = rw (p.producer, p.consumer) v.heads;
      within = rw p.producer v.within;
      producer_at =
          rw (p.producer, p.consumer, p.token_size)
            (
              at.0,
              at.1,
              Placed-token p ∙ ap (λ o. read src.byte o s.channel.token_size) (omega arith),
            );
      consumer_at = copy_consumer s.consumer_pc p at.0 at.1 v.consumer_at;
      counted = rw p.producer v.counted;
      history = v.history ∙ ap (λ l. s.received ++ l) (sym (copy_in_flight p at.1 v.tails));
    }
