-- ===== src/Channel/FixedSpsc/Push.antt =====
-- What `push` does to a valid channel, on every branch.
use hi_cr.Prelude.{
  ℕ, zero, suc, ◌+◌, ◌-◌, ◌*◌, ◌%◌, ◌^◌, ◌≡◌, ◌≤◌, ◌<◌, ◌≢◌, ◌∷◌, ◌++◌, ap, ap₂, arith, ok, err,
  logic, runtime, add_size, mul_size, ◌∙◌, subst, sym, leb, true, false,
}
use hi_cr.Memory.{Slot, read}
use hi_cr.Memory.Laws.{copy-copy}
use hi_cr.Channel.CircularBuffer.{get_depth, advance_head}
use hi_cr.Channel.CircularBuffer.Inv as Ring
use hi_cr.Channel.Window.{window, window-append, window-eq, mod-ne}
use hi_cr.Channel.FixedSpsc.{Spsc, put_tokens, publish, push}
use hi_cr.Channel.FixedSpsc.Inv.{IsValid, contents}
use hi_cr.Channel.FixedSpsc.Tokens.{
  pos, Placed, IsValid-HasStorage, put_token_lem, Placed-token, kept_token,
}

-- A second copy to the same place hides the first.
Placed-trans :
    {c : Spsc} {src : Slot} {i j : ℕ} {mid out : Spsc × Slot}
    → Placed c src i mid
    → Placed mid.0 mid.1 j out
    → Placed c src j out
Placed-trans {c} {src} {i} {j} p q = record {
  token_size = q.token_size ∙ p.token_size;
  producer = q.producer ∙ p.producer;
  consumer = q.consumer ∙ p.consumer;
  size = q.size ∙ p.size;
  source_size = q.source_size ∙ p.source_size;
  source_byte = q.source_byte ∙ p.source_byte;
  byte = cc (
      copy-copy c.token_buffer.byte src.byte (c.token_size * pos c) (i * c.token_size)
        (j * c.token_size) c.token_size);
}

-- A channel that differs in the bytes of its token buffer alone is as valid.
Placed-IsValid :
    {c : Spsc} {src : Slot} {i : ℕ} {out : Spsc × Slot}
    → Placed c src i out
    → IsValid c
    → IsValid out.0
Placed-IsValid p v = record {
  token = subst (λ t. 0 < t) (sym p.token_size) v.token;
  storage = rw (p.token_size, p.consumer, p.size) v.storage;
  word = rw p.size v.word;
  half = rw p.consumer v.half;
  buffer = subst Ring.IsValid (sym p.consumer) v.buffer;
  capacities = cc;
  heads = cc;
  tails = cc;
}

-- The loop writes every token to the same place, since the head moves only after it: what stays
-- is the last one.
put_tokens_lem :
    (r i j : ℕ) (c : Spsc) (src : Slot)
    → IsValid c
    → src.size < 2 ^ 64
    → j ≡ i + r
    → suc j * c.token_size ≤ src.size
    → (out : Spsc × Slot) × (put_tokens (suc r) i c src ≡ ok out) × Placed c src j out
unfolding put_tokens
put_tokens_lem zero i j c src v w e h =
    let i' : i ≡ j = omega arith in
    let (out, e, p) = put_token_lem c src i (IsValid-HasStorage v) w (rw i' (omega arith)) in
    (out, rw e, subst (λ k. Placed c src k out) i' p)
put_tokens_lem (suc r) i j c src v w e h =
    let (mid, f, p) = put_token_lem c src i (IsValid-HasStorage v) w (grind arith) in
    let (out, f', q) =
      put_tokens_lem r (suc i) j mid.0 mid.1 (Placed-IsValid p v) (rw p.source_size w) (omega arith)
        (rw (p.token_size, p.source_size) h) in
    (out, rw f f', Placed-trans p q)

abbrev published : ℕ → Spsc → Spsc
published n c = record c {
  producer = record c.producer { head = c.producer.head + n };
  consumer = record c.consumer { head = c.producer.head + n };
}

publish_lem :
    {c : Spsc} (n : ℕ)
    → IsValid c
    → c.consumer.head + n < 2 ^ 64
    → c.consumer.head + n ≤ c.consumer.tail + c.consumer.capacity
    → (publish n c ≡ ok (published n c)) × IsValid (published n c)
unfolding publish advance_head
publish_lem n v w h = (ground arith, ground arith)

module _ {c : Spsc} {src : Slot} {i : ℕ} {out : Spsc × Slot} (v : IsValid c)
    (p : Placed c src i out) where
  new_token :
      read out.0.token_buffer.byte
        (c.token_size * (c.consumer.head % c.consumer.capacity))
        c.token_size
      ≡ read src.byte (i * c.token_size) c.token_size
  new_token = rw (← v.heads, ← v.capacities) (Placed-token p)

  -- Tokens less than a round away from the head are kept.
  old_window :
      (t n : ℕ)
      → ((k : ℕ)
          → t ≤ k
          → k < t + n
          → k % c.consumer.capacity ≢ c.consumer.head % c.consumer.capacity)
      → window out.0.token_buffer.byte c.token_size c.consumer.capacity t n
        ≡ window c.token_buffer.byte c.token_size c.consumer.capacity t n
  old_window t n far =
      window-eq c.token_buffer.byte out.0.token_buffer.byte c.token_size c.consumer.capacity t n
        (λ k lo hi.
          kept_token (k % c.consumer.capacity) p (rw (v.heads, v.capacities) (far k lo hi)))

  -- The old tokens, the new one, and `r` slots that the loop has not written.
  placed_window :
      (r n : ℕ)
      → n ≡ c.consumer.head - c.consumer.tail + suc r
      → c.consumer.head + suc r ≤ c.consumer.tail + c.consumer.capacity
      → window out.0.token_buffer.byte c.token_size c.consumer.capacity c.consumer.tail n
        ≡ contents c
          ++ (read src.byte (i * c.token_size) c.token_size
              ∷ window c.token_buffer.byte c.token_size c.consumer.capacity (suc c.consumer.head) r)
  placed_window r n e h =
      window-append out.0.token_buffer.byte c.token_size c.consumer.capacity c.consumer.tail
        (c.consumer.head - c.consumer.tail) (suc r) n c.consumer.head e (omega arith)
      ∙ ap₂ ◌++◌
          (old_window c.consumer.tail (c.consumer.head - c.consumer.tail)
            (λ k lo hi. mod-ne c.consumer.capacity k c.consumer.head (omega arith) (omega arith)))
          (ap₂ ◌∷◌ new_token (
            old_window (suc c.consumer.head) r (λ k lo hi e'.
              mod-ne c.consumer.capacity c.consumer.head k (omega arith) (omega arith) (sym e'))))

  contents-published :
      (r : ℕ)
      → c.consumer.head + suc r ≤ c.consumer.tail + c.consumer.capacity
      → contents (published (suc r) out.0)
        ≡ contents c
          ++ (read src.byte (i * c.token_size) c.token_size
              ∷ window c.token_buffer.byte c.token_size c.consumer.capacity (suc c.consumer.head) r)
  contents-published r room = cc (
      placed_window r (c.producer.head + suc r - c.consumer.tail)
        (omega (arith, v.heads, v.buffer.ordered)) room)

producer-IsValid : {c : Spsc} → IsValid c → Ring.IsValid c.producer
producer-IsValid v = ground arith

-- The depth that the producer sees.
producer_depth :
    {c : Spsc} → IsValid c → get_depth c.producer ≡ ok (c.consumer.head - c.consumer.tail)
producer_depth v = rw (Ring.get_depth_lem (producer-IsValid v), v.heads, v.tails)

-- What a successful push of `r + 1` tokens leaves: the consumer reads the old tokens, the last
-- token of the source, and what the next `r` slots held before.
pub record Pushed (c : Spsc) (src : Slot) (r : ℕ) (out : Spsc × Slot) : Type 0 where
  pub valid : IsValid out.0
  pub tokens :
      contents out.0
      ≡ contents c
        ++ (read src.byte (r * c.token_size) c.token_size
            ∷ window c.token_buffer.byte c.token_size c.consumer.capacity (suc c.consumer.head) r)
  pub token_size : out.0.token_size ≡ c.token_size
  pub capacity : out.0.consumer.capacity ≡ c.consumer.capacity
  pub head : out.0.consumer.head ≡ c.consumer.head + suc r
  pub tail : out.0.consumer.tail ≡ c.consumer.tail
  pub source_size : out.1.size ≡ src.size
  pub source_byte : out.1.byte ≡ src.byte

-- Pushing r + 1 tokens of a source that holds them and has fewer than 2 ^ 64 bytes, with room for
-- them in a valid channel and no wrap of the head, succeeds: the channel stays valid and the
-- source keeps its bytes. The consumer then reads the old tokens, the last token of the source,
-- and what the next r slots held before.
pub push_lem :
    {c : Spsc} (src : Slot) (r : ℕ)
    → IsValid c
    → src.size < 2 ^ 64
    → suc r * c.token_size ≤ src.size
    → c.consumer.head + suc r < 2 ^ 64
    → c.consumer.head + suc r ≤ c.consumer.tail + c.consumer.capacity
    → (out : Spsc × Slot) × (push c src (suc r) ≡ ok out) × Pushed c src r out
unfolding push
push_lem {c} src r v w h word room =
    let (mid, e, p) = put_tokens_lem r 0 r c src v w (omega arith) h in
    let v' : IsValid mid.0 = Placed-IsValid p v in
    let (e', v'') = publish_lem {c = mid.0} (suc r) v' (rw p.consumer word) (rw p.consumer room) in
    (
      (published (suc r) mid.0, mid.1),
      rw (size_ok, producer_depth v, room_ok, e, e'),
      record {
        valid = v'';
        tokens = contents-published v p r room;
        token_size = p.token_size;
        capacity = ap (λ q. q.capacity) p.consumer;
        head = cc;
        tail = cc;
        source_size = p.source_size;
        source_byte = p.source_byte;
      },
    )
  where
    size_ok : leb (mul_size c.token_size (suc r)) src.size ≡ true
    size_ok = ground arith

    room_ok : leb (add_size (c.consumer.head - c.consumer.tail) (suc r)) c.producer.capacity ≡ true
    room_ok = ground arith

-- A source that is too small is refused before anything else.
pub push_small :
    (c : Spsc) (src : Slot) (n : ℕ)
    → c.token_size * n < 2 ^ 64
    → src.size < c.token_size * n
    → push c src n ≡ err logic
unfolding push
push_small c src n w h = ground arith

-- A push that would exceed the capacity of a valid channel is refused with a runtime error, for a
-- source that holds the tokens, has fewer than 2 ^ 64 bytes, and fewer than 2 ^ 63 tokens.
pub push_full :
    {c : Spsc} (src : Slot) (n : ℕ)
    → IsValid c
    → n * c.token_size ≤ src.size
    → src.size < 2 ^ 64
    → n < 2 ^ 63
    → c.consumer.tail + c.consumer.capacity < c.consumer.head + n
    → push c src n ≡ err runtime
unfolding push
push_full {c} src n v h w small full = rw (size_ok, producer_depth v, room_ok)
  where
    size_ok : leb (mul_size c.token_size n) src.size ≡ true
    size_ok = ground arith

    room_ok : leb (add_size (c.consumer.head - c.consumer.tail) n) c.producer.capacity ≡ false
    room_ok = ground arith
