-- ===== src/Channel/FixedSpsc/Threads/Safety.antt =====
-- No token is lost, repeated, reordered or overwritten, whatever the interleaving.
use hi_cr.Prelude.{
  append_assoc, subst, ℕ, ◌+◌, ◌-◌, ◌^◌, ◌≡◌, ◌≤◌, ◌<◌, List, [], ◌∷◌, ◌++◌, ok, arith, refl,
  length, length-append,
}
use hi_cr.Memory.{Slot, read}
use hi_cr.Channel.CircularBuffer.{CircularBuffer, advance_head, advance_tail}
use hi_cr.Channel.Window.{window, length-window, window-snoc, window-first}
use hi_cr.Channel.FixedSpsc.{Spsc}
use hi_cr.Channel.FixedSpsc.Tokens.{HasStorage}
use hi_cr.Channel.FixedSpsc.Threads.{
  System, copied, advanced, holding, released, Step, check, copy_token, advance, tell_consumer,
  peek_first, read_token, release, tell_producer, initial, Reach, start, next,
}
use hi_cr.Channel.FixedSpsc.Threads.Copy.{copy_token-Inv}
use hi_cr.Channel.FixedSpsc.Threads.Inv.{
  ProducerAt, ConsumerAt, in_flight, Inv, check-Inv, tell_consumer-Inv, peek_first-Inv,
  read_token-Inv, tell_producer-Inv,
}

-- A successful advance by one moves one counter.
advance_head_one :
    (b p : CircularBuffer)
    → advance_head b 1 ≡ ok p
    → b.head + 1 < 2 ^ 64
    → (p.head ≡ b.head + 1) × (p.tail ≡ b.tail) × (p.capacity ≡ b.capacity)
unfolding advance_head
advance_head_one b p f w = ground arith

advance_tail_one :
    (b q : CircularBuffer)
    → advance_tail b 1 ≡ ok q
    → b.tail + 1 < 2 ^ 64
    → (q.tail ≡ b.tail + 1) × (q.head ≡ b.head) × (q.capacity ≡ b.capacity)
unfolding advance_tail
advance_tail_one b q f w = ground arith

advance-Inv :
    {s : System} (src : Slot) (p : CircularBuffer)
    → s.producer_pc ≡ copied src
    → advance_head s.channel.producer 1 ≡ ok p
    → length (s.sent ++ (read src.byte 0 s.channel.token_size ∷ [])) < 2 ^ 64
    → Inv s
    → Inv (record s {
      channel = record s.channel { producer = p };
      producer_pc = advanced;
      sent = s.sent ++ (read src.byte 0 s.channel.token_size ∷ []);
    })
advance-Inv {s} src p e f b v =
    let c = s.channel in
    let tok : List ℕ = read src.byte 0 c.token_size in
    let count = length-append s.sent (tok ∷ []) in
    let at = subst (ProducerAt c) e v.producer_at in
    let moved = advance_head_one c.producer p f (omega (arith, count, v.counted)) in
    let tokens =
      window-snoc c.token_buffer.byte c.token_size c.producer.capacity c.consumer.tail
        (c.producer.head - c.consumer.tail) (c.producer.head + 1 - c.consumer.tail) c.producer.head
        tok (omega (arith, v.ordered, v.heads)) (omega (arith, v.ordered, v.heads)) at.2 in
    ground (arith, moved, at, count, tokens, append_assoc s.received (in_flight c) (tok ∷ []))

release-Inv :
    {s : System} (x : List ℕ) (q : CircularBuffer)
    → s.consumer_pc ≡ holding x
    → advance_tail s.channel.consumer 1 ≡ ok q
    → length s.sent < 2 ^ 64
    → Inv s
    → Inv (record s {
      channel = record s.channel { consumer = q };
      consumer_pc = released;
      received = s.received ++ (x ∷ []);
    })
release-Inv {s} x q e f b v =
    let c = s.channel in
    let at = subst (ConsumerAt c) e v.consumer_at in
    let moved = advance_tail_one c.consumer q f (omega (arith, v.counted, v.ordered, v.heads)) in
    let tokens =
      window-first c.token_buffer.byte c.token_size c.producer.capacity c.consumer.tail
        (c.consumer.tail + 1) (c.producer.head - c.consumer.tail)
        (c.producer.head - (c.consumer.tail + 1)) x (omega (arith, at.1, v.heads)) refl at.2 in
    ground (
      arith,
      moved,
      at,
      tokens,
      append_assoc s.received (x ∷ []) (
          window c.token_buffer.byte c.token_size c.producer.capacity (c.consumer.tail + 1)
            (c.producer.head - (c.consumer.tail + 1))),
    )

-- Every step keeps the invariant, as long as the number of tokens sent fits a counter.
pub Step-Inv : {s t : System} → Step s t → Inv s → length t.sent < 2 ^ 64 → Inv t
Step-Inv (check src d e f w g h) v b = check-Inv src d e f w g h v
Step-Inv (copy_token src out e f) v b = copy_token-Inv src out e f v
Step-Inv (advance src p e f) v b = advance-Inv src p e f b v
Step-Inv (tell_consumer e) v b = tell_consumer-Inv e v
Step-Inv (peek_first k e f) v b = peek_first-Inv k e f v
Step-Inv (read_token k e) v b = read_token-Inv k e v
Step-Inv (release x d q e f g h) v b = release-Inv x q e h b v
Step-Inv (tell_producer e) v b = tell_producer-Inv e v

length-sent-le : {s t : System} → Step s t → length s.sent ≤ length t.sent
length-sent-le {s} (advance src p e f) =
    omega (arith, length-append s.sent (read src.byte 0 s.channel.token_size ∷ []))
length-sent-le (check src d e f w g h) = omega arith
length-sent-le (copy_token src out e f) = omega arith
length-sent-le (tell_consumer e) = omega arith
length-sent-le (peek_first k e f) = omega arith
length-sent-le (read_token k e) = omega arith
length-sent-le (release x d q e f g h) = omega arith
length-sent-le (tell_producer e) = omega arith

pub Reach-Inv : {s t : System} → Reach s t → Inv s → length t.sent < 2 ^ 64 → Inv t
Reach-Inv start v b = v
Reach-Inv (next r st) v b = Step-Inv st (Reach-Inv r v (omega (arith, length-sent-le st))) b

-- A fresh channel, as the constructors leave it.
pub record Fresh (c : Spsc) : Type 0 where
  pub storage : HasStorage c
  pub capacities : c.consumer.capacity ≡ c.producer.capacity
  pub half : c.producer.capacity ≤ 2 ^ 63
  pub producer_head : c.producer.head ≡ 0
  pub producer_tail : c.producer.tail ≡ 0
  pub consumer_head : c.consumer.head ≡ 0
  pub consumer_tail : c.consumer.tail ≡ 0

pub Fresh-Inv : {c : Spsc} → Fresh c → Inv (initial c)
Fresh-Inv f = ground arith

-- One thread pushes one token at a time and the other peeks at the oldest token and pops one at a
-- time. From a fresh channel, under every interleaving of their accesses and as long as fewer than
-- 2 ^ 64 tokens are sent, the tokens sent are those received, in order, followed by those in flight,
-- which are at most as many as the capacity.
pub delivered_in_order :
    {c : Spsc} {s : System}
    → Fresh c
    → Reach (initial c) s
    → length s.sent < 2 ^ 64
    → (s.sent ≡ s.received ++ in_flight s.channel)
      × (length (in_flight s.channel) ≤ s.channel.producer.capacity)
delivered_in_order {s} f r b =
    let v = Reach-Inv r (Fresh-Inv f) b in
    (
      v.history,
      omega (
        arith,
        length-window s.channel.token_buffer.byte s.channel.token_size s.channel.producer.capacity
            s.channel.consumer.tail (s.channel.producer.head - s.channel.consumer.tail),
        v.within,
        v.tails,
      ),
    )
