-- ===== src/Channel/LockingMpsc/Batch.antt =====
-- What the loop of a push does to the channel.
use hi_cr.Prelude.{
  ℕ, zero, suc, ◌+◌, ◌-◌, ◌*◌, ◌%◌, ◌^◌, ◌≡◌, ◌≤◌, ◌<◌, List, [], ◌∷◌, ◌++◌, refl, ap, arith, ok,
  ◌∙◌, sym, subst, append_assoc, append-nil,
}
use hi_cr.Memory.{Slot, read}
use hi_cr.Channel.CircularBuffer.{CircularBuffer, advance_head}
use hi_cr.Channel.Window.{window, window-snoc, window-eq, mod-ne}
use hi_cr.Channel.FixedSpsc.{Spsc}
use hi_cr.Channel.FixedSpsc.Tokens.{HasStorage, put_token_lem, Placed-token, kept_token}
use hi_cr.Channel.LockingMpsc.{put_round, put_rounds}

-- The tokens of a source from index `i` on.
abbrev pub source_tokens : (ℕ → ℕ) → ℕ → ℕ → ℕ → List (List ℕ)
source_tokens m size i zero = []
source_tokens m size i (suc n) = read m (i * size) size ∷ source_tokens m size (suc i) n

-- The tokens that the producer takes the channel to hold.
abbrev pub held : Spsc → List (List ℕ)
held s =
    window s.token_buffer.byte s.token_size s.producer.capacity s.producer.tail
      (s.producer.head - s.producer.tail)

pub record Filled (s : Spsc) (src : Slot) (i n : ℕ) (out : Spsc × Slot) : Type 0 where
  pub token_size : out.0.token_size ≡ s.token_size
  pub size : out.0.token_buffer.size ≡ s.token_buffer.size
  pub capacity : out.0.producer.capacity ≡ s.producer.capacity
  pub tail : out.0.producer.tail ≡ s.producer.tail
  pub head : out.0.producer.head ≡ s.producer.head + n
  pub source_size : out.1.size ≡ src.size
  pub source_byte : out.1.byte ≡ src.byte
  pub tokens : held out.0 ≡ held s ++ source_tokens src.byte s.token_size i n

-- The counters allow for `n` more tokens.
pub record HasRoom (n : ℕ) (p : CircularBuffer) : Type 0 where
  pub ordered : p.tail ≤ p.head
  pub room : p.head + n ≤ p.tail + p.capacity
  pub word : p.head + n < 2 ^ 64
  pub size : p.capacity ≤ 2 ^ 63

-- The state after one round.
abbrev advanced : Spsc → Spsc
advanced s = record s { producer = record s.producer { head = s.producer.head + 1 } }

advance_one :
    (n : ℕ) (p : CircularBuffer)
    → HasRoom (suc n) p
    → advance_head p 1 ≡ ok (record p { head = p.head + 1 })
unfolding advance_head
advance_one n p r = ground (arith, r)

held_lem :
    (t : Spsc) (size : ℕ) (q : CircularBuffer)
    → t.token_size ≡ size
    → t.producer ≡ q
    → held t ≡ window t.token_buffer.byte size q.capacity q.tail (q.head - q.tail)
held_lem t size q e f = rw (e, f) refl

round_lem :
    (s : Spsc) (src : Slot) (i n : ℕ)
    → HasStorage s
    → HasRoom (suc n) s.producer
    → src.size < 2 ^ 64
    → i * s.token_size + s.token_size ≤ src.size
    → (out : Spsc × Slot) × (put_round i s src ≡ ok out)
      × Filled s src i 1 out
      × HasStorage out.0
      × HasRoom n out.0.producer
unfolding put_round
round_lem s src i n v r w h =
    let (out, e, p) = put_token_lem s src i v w h in
    let r' : HasRoom (suc n) out.0.producer = subst (HasRoom (suc n)) (sym p.producer) r in
    let tokens =
      window-snoc out.0.token_buffer.byte s.token_size s.producer.capacity s.producer.tail
        (s.producer.head - s.producer.tail) (s.producer.head + 1 - s.producer.tail) s.producer.head
        (read src.byte (i * s.token_size) s.token_size) (omega (arith, r)) (omega (arith, r))
        (Placed-token p)
      ∙ ap (λ l. l ++ (read src.byte (i * s.token_size) s.token_size ∷ []))
          (window-eq s.token_buffer.byte out.0.token_buffer.byte s.token_size s.producer.capacity
            s.producer.tail (s.producer.head - s.producer.tail)
            (λ k lo hi. kept_token (k % s.producer.capacity) p (
              mod-ne s.producer.capacity k s.producer.head (omega (arith, r))
                (omega (arith, r))))) in
    (
      (advanced out.0, out.1),
      rw (e, advance_one n out.0.producer r') refl,
      record {
        token_size = p.token_size;
        size = p.size;
        capacity = cc;
        tail = cc;
        head = cc;
        source_size = p.source_size;
        source_byte = p.source_byte;
        tokens =
            held_lem (advanced out.0) s.token_size
              (record s.producer { head = s.producer.head + 1 }) p.token_size
              (ap (λ (q : CircularBuffer). record q { head = q.head + 1 }) p.producer)
            ∙ tokens;
      },
      ground (arith, v, p.producer, p.token_size, p.size),
      ground (arith, r', p.producer),
    )

Filled-trans :
    (s : Spsc) (src : Slot) (i n : ℕ) (mid out : Spsc × Slot)
    → Filled s src i 1 mid
    → Filled mid.0 mid.1 (suc i) n out
    → Filled s src i (suc n) out
Filled-trans s src i n mid out p q = record {
  token_size = q.token_size ∙ p.token_size;
  size = q.size ∙ p.size;
  capacity = q.capacity ∙ p.capacity;
  tail = q.tail ∙ p.tail;
  head = omega (arith, p.head, q.head);
  source_size = q.source_size ∙ p.source_size;
  source_byte = q.source_byte ∙ p.source_byte;
  tokens =
      rw (q.tokens, p.tokens, p.token_size, p.source_byte)
        (append_assoc (held s) (read src.byte (i * s.token_size) s.token_size ∷ [])
          (source_tokens src.byte s.token_size (suc i) n));
}

pub rounds_lem :
    (n i : ℕ) (s : Spsc) (src : Slot)
    → HasStorage s
    → HasRoom n s.producer
    → src.size < 2 ^ 64
    → (i + n) * s.token_size ≤ src.size
    → (out : Spsc × Slot) × (put_rounds n i s src ≡ ok out)
      × Filled s src i n out
      × HasStorage out.0
unfolding put_rounds
rounds_lem zero i s src v r w h = (
  (s, src),
  refl,
  record {
    token_size = refl;
    size = refl;
    capacity = refl;
    tail = refl;
    head = omega arith;
    source_size = refl;
    source_byte = refl;
    tokens = sym (append-nil (held s));
  },
  v,
)
rounds_lem (suc n) i s src v r w h =
    let (mid, e, p, v', r') = round_lem s src i n v r w (grind arith) in
    let (out, e', p', v'') = rounds_lem n (suc i) mid.0 mid.1 v' r' (rw p.source_size w) (
      rw (p.token_size, p.source_size)
        (subst (λ k. k * s.token_size ≤ src.size) {x = i + suc n} {y = suc i + n} (omega arith)
          h)) in
    (out, rw e e', Filled-trans s src i n mid out p p', v'')
