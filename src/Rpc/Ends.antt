-- ===== src/Rpc/Ends.antt =====
-- The two ends of every request channel find the same buffers.
use hi_cr.Prelude.{
  ℕ, zero, suc, ◌^◌, ◌≡◌, ◌≢◌, ◌≤◌, ◌<◌, ok, some, List, [], refl, ap, arith, ◌∙◌, sym, ℕ_discrete,
}
use hi_cr.Registry.{Registry, GlobalSlot, get_global_memory_slot, find, insert}
use hi_cr.Registry.Lookup.{get-core, find-insert, find-insert_other}
use hi_cr.Rpc.Buffers.{
  slot_key, exchange_buffers, token_tag, producer_tag, consumer_tag, ChannelBuffers,
  consumer_buffers, producer_buffers, producer_channels,
}
use hi_cr.Rpc.Wiring.{all_found, all_apart}

tags_apart :
    (base : ℕ)
    → (token_tag base ≢ producer_tag base)
      × (token_tag base ≢ consumer_tag base)
      × (producer_tag base ≢ consumer_tag base)
unfolding token_tag producer_tag consumer_tag
tags_apart base = (omega arith, omega arith, omega arith)

abbrev named : ℕ → ℕ → ℕ → ℕ → ℕ → GlobalSlot
named tag count id i source = record { tag = tag; key = slot_key count id i; source = source }

module _ (base count : ℕ) (tokens producers consumers : ℕ → ℕ → ℕ) (r : Registry) where
  abbrev exchanged : Registry
  exchanged = exchange_buffers base count tokens producers consumers r

  module _ (id i : ℕ) (small : count ≤ 2 ^ 32) (h : id < count) (l : i < count) where
    token_found :
        get_global_memory_slot exchanged (token_tag base) (slot_key count id i)
        ≡ ok (named (token_tag base) count id i (tokens id i))
    unfolding exchange_buffers
    token_found = get-core _ _ _ _ (
        all_apart (consumer_tag base) (token_tag base) _ count consumers count _
          (λ e. (tags_apart base).1 (sym e))
        ∙ (all_apart (producer_tag base) (token_tag base) _ count producers count _
              (λ e. (tags_apart base).0 (sym e))
            ∙ all_found (token_tag base) count tokens id i count _ small (omega arith) h l))

    producer_found :
        get_global_memory_slot exchanged (producer_tag base) (slot_key count id i)
        ≡ ok (named (producer_tag base) count id i (producers id i))
    unfolding exchange_buffers
    producer_found = get-core _ _ _ _ (
        all_apart (consumer_tag base) (producer_tag base) _ count consumers count _
          (λ e. (tags_apart base).2 (sym e))
        ∙ all_found (producer_tag base) count producers id i count _ small (omega arith) h l)

    consumer_found :
        get_global_memory_slot exchanged (consumer_tag base) (slot_key count id i)
        ≡ ok (named (consumer_tag base) count id i (consumers id i))
    unfolding exchange_buffers
    consumer_found =
        get-core _ _ _ _
          (all_found (consumer_tag base) count consumers id i count _ small (omega arith) h l)

-- The buffers of the channel from `p` to `c`.
abbrev pub channel_buffers :
    ℕ → ℕ → (ℕ → ℕ → ℕ) → (ℕ → ℕ → ℕ) → (ℕ → ℕ → ℕ) → ℕ → ℕ → ChannelBuffers
channel_buffers base count tokens producers consumers c p = record {
  token_buffer = named (token_tag base) count c p (tokens c p);
  producer_buffer = named (producer_tag base) count p c (producers p c);
  consumer_buffer = named (consumer_tag base) count c p (consumers c p);
}

module _ (base count : ℕ) (tokens producers consumers : ℕ → ℕ → ℕ) (r : Registry)
    (small : count ≤ 2 ^ 32) where
  pub consumer_end :
      (c p : ℕ)
      → c < count
      → p < count
      → consumer_buffers (exchange_buffers base count tokens producers consumers r) base count c p
        ≡ ok (channel_buffers base count tokens producers consumers c p)
  unfolding consumer_buffers
  consumer_end c p h l =
      let t = token_found base count tokens producers consumers r c p small h l in
      let q = producer_found base count tokens producers consumers r p c small l h in
      let k = consumer_found base count tokens producers consumers r c p small h l in
      rw (t, q, k) refl

  producer_end :
      (c p : ℕ)
      → c < count
      → p < count
      → producer_buffers (exchange_buffers base count tokens producers consumers r) base count p c
        ≡ ok (channel_buffers base count tokens producers consumers c p)
  unfolding producer_buffers
  producer_end c p h l =
      let t = token_found base count tokens producers consumers r c p small h l in
      let q = producer_found base count tokens producers consumers r p c small l h in
      let k = consumer_found base count tokens producers consumers r c p small h l in
      rw (t, q, k) refl

  -- All channels of an instance are made; that of the last position with an id is found under it.
  pub channels_made :
      (p : ℕ) (ids : ℕ → ℕ) (n : ℕ)
      → p < count
      → n ≤ count
      → (m : List (ℕ × ChannelBuffers)) × (producer_channels
            (exchange_buffers base count tokens producers consumers r)
            base
            count
            p
            ids
            n
          ≡ ok m)
        × ((c : ℕ)
            → c < n
            → ((k : ℕ) → k < n → ids k ≡ ids c → k ≡ c)
            → find (ids c) m ≡ some (channel_buffers base count tokens producers consumers c p))
  unfolding producer_channels
  channels_made p ids zero l le = ([], refl, λ c h alone. absurd (omega arith))
  channels_made p ids (suc n) l le =
      let (m, e, f) = channels_made p ids n l (omega arith) in
      let last = channel_buffers base count tokens producers consumers n p in
      (
        insert (ids n) last m,
        rw (e, producer_end n p (omega arith) l) refl,
        λ c h alone. elim (ℕ_discrete c n) [
          | yes same ↦ rw same (find-insert (ids n) last m)
          | no other ↦
              find-insert_other (ids n) (ids c) last m
                (λ eq. other (sym (alone n (omega arith) eq)))
              ∙ f c (omega arith) (λ k below. alone k (omega arith))
        ],
      )

-- After count instances with the ids below count, at most 2 ^ 32, have exchanged their buffers, the
-- consumer c for its channel from p and the producer p for its channel to c find the same three
-- slots: the token and the consumer coordination buffer that c allocated for p, and the producer
-- coordination buffer that p allocated for c. The list of instances of p has at each position below
-- count the instance whose id is that position; the channel is the one that p keeps for the id c.
pub ends_agree :
    (base count : ℕ) (tokens producers consumers : ℕ → ℕ → ℕ) (r : Registry) (ids : ℕ → ℕ) (c p : ℕ)
    → count ≤ 2 ^ 32
    → ((k : ℕ) → k < count → ids k ≡ k)
    → c < count
    → p < count
    → (b : ChannelBuffers) × (m : List (ℕ × ChannelBuffers)) × (consumer_buffers
          (exchange_buffers base count tokens producers consumers r)
          base
          count
          c
          p
        ≡ ok b)
      × (producer_channels
            (exchange_buffers base count tokens producers consumers r)
            base
            count
            p
            ids
            count
          ≡ ok m)
      × (find c m ≡ some b)
      × (b.token_buffer.source ≡ tokens c p)
      × (b.producer_buffer.source ≡ producers p c)
      × (b.consumer_buffer.source ≡ consumers c p)
ends_agree base count tokens producers consumers r ids c p small order h l =
    let (m, e, f) =
      channels_made base count tokens producers consumers r small p ids count l (omega arith) in
    let b = channel_buffers base count tokens producers consumers c p in
    let kept : find (ids c) m ≡ some b =
      f c h (λ k below same. sym (order k below) ∙ (same ∙ order c h)) in
    (
      b,
      m,
      consumer_end base count tokens producers consumers r small c p h l,
      e,
      ap (λ k. find k m) (sym (order c h)) ∙ kept,
      refl,
      refl,
      refl,
    )
