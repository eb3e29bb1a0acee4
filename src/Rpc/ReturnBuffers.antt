-- ===== src/Rpc/ReturnBuffers.antt =====
-- The buffers of the return value channels in `initializeReturnValueChannels` of
-- include/hicr/frontends/RPCEngine/RPCEngine.hpp: each instance exchanges four local slots under its
-- own id, and every instance looks for those of a consumer. The instances have the ids from 0 on.
use hi_cr.Prelude.{
  ℕ, zero, suc, ◌≡◌, ◌≢◌, ◌<◌, [], ◌∷◌, add_size, Result, ok, ◌>>=◌, some, refl, arith, ◌∙◌, sym,
  ℕ_discrete,
}
use hi_cr.Registry.{
  Registry, GlobalSlot, get_global_slot, exchange_global_memory_slots, fence,
  get_global_memory_slot,
}
use hi_cr.Registry.Lookup.{get-core}
use hi_cr.Registry.Exchange.{get-last, get-before_last, get-other_tag}
use hi_cr.Rpc.Wiring.{fence-core}

-- The exchange of one kind of buffer by the first `n` instances, whose fence ends it.
unfoldable pub exchange_own : ℕ → (ℕ → ℕ) → ℕ → Registry → Registry
exchange_own tag slots zero r = r
exchange_own tag slots (suc n) r =
    fence tag (exchange_global_memory_slots tag ((n, slots n) ∷ []) (exchange_own tag slots n r))

-- The slots of the instances: the sizes, the payload, and the two coordination buffers.
pub record Allocated : Type 0 where
  pub sizes : ℕ → ℕ
  pub payload : ℕ → ℕ
  pub coordination_sizes : ℕ → ℕ
  pub coordination_payloads : ℕ → ℕ

unfoldable pub exchange_return_buffers : ℕ → ℕ → Allocated → Registry → Registry
exchange_return_buffers base count a r =
    exchange_own (add_size base 3) a.coordination_payloads count (
      exchange_own (add_size base 2) a.coordination_sizes count (
        exchange_own (add_size base 1) a.payload count
          (exchange_own (add_size base 0) a.sizes count r)))

pub record ReturnBuffers : Type 0 where
  pub payload : GlobalSlot
  pub sizes : GlobalSlot
  pub coordination_payloads : GlobalSlot
  pub coordination_sizes : GlobalSlot

-- What an instance finds for the channel to the instance `id`, also that instance itself.
unfoldable pub return_buffers : Registry → ℕ → ℕ → Result ReturnBuffers
return_buffers r base id = do
  payload ← get_global_memory_slot r (add_size base 1) id
  sizes ← get_global_memory_slot r (add_size base 0) id
  payloads ← get_global_memory_slot r (add_size base 3) id
  counts ← get_global_memory_slot r (add_size base 2) id
  ok (record {
    payload = payload;
    sizes = sizes;
    coordination_payloads = payloads;
    coordination_sizes = counts;
  })

own_apart :
    (tag other key : ℕ) (slots : ℕ → ℕ) (n : ℕ) (r : Registry)
    → tag ≢ other
    → get_global_slot other key (exchange_own tag slots n r).core ≡ get_global_slot other key r.core
unfolding exchange_own
own_apart tag other key slots zero r ne = refl
own_apart tag other key slots (suc n) r ne =
    fence-core tag other key _
    ∙ (get-other_tag other tag key ((n, slots n) ∷ []) (exchange_own tag slots n r) ne
        ∙ own_apart tag other key slots n r ne)

own_later :
    (tag id m : ℕ) (slots : ℕ → ℕ) (r : Registry)
    → m ≢ id
    → get_global_slot tag id (exchange_global_memory_slots tag ((m, slots m) ∷ []) r).core
      ≡ get_global_slot tag id r.core
unfolding exchange_global_memory_slots
own_later tag id m slots r ne = get-before_last tag id [] (m, slots m) r ne

own_found :
    (tag : ℕ) (slots : ℕ → ℕ) (id n : ℕ) (r : Registry)
    → id < n
    → get_global_slot tag id (exchange_own tag slots n r).core
      ≡ some (record { tag = tag; key = id; source = slots id })
unfolding exchange_own
own_found tag slots id zero r h = absurd (omega arith)
own_found tag slots id (suc n) r h = fence-core tag tag id _ ∙ elim (ℕ_discrete id n) [
  | yes same ↦ rw same (get-last tag [] (n, slots n) (exchange_own tag slots n r))
  | no other ↦
      own_later tag id n slots (exchange_own tag slots n r) (λ e. other (sym e))
      ∙ own_found tag slots id n r (omega arith)
]

abbrev named : ℕ → ℕ → ℕ → GlobalSlot
named tag id source = record { tag = tag; key = id; source = source }

module _ (base count : ℕ) (a : Allocated) (r : Registry) where
  abbrev after_sizes : Registry
  after_sizes = exchange_own (add_size base 0) a.sizes count r

  abbrev after_payload : Registry
  after_payload = exchange_own (add_size base 1) a.payload count after_sizes

  abbrev after_counts : Registry
  after_counts = exchange_own (add_size base 2) a.coordination_sizes count after_payload

  -- Lookups under other tags than those of the last exchanges.
  keeps_counts :
      (tag key : ℕ)
      → add_size base 3 ≢ tag
      → get_global_slot tag key (exchange_return_buffers base count a r).core
        ≡ get_global_slot tag key after_counts.core
  unfolding exchange_return_buffers
  keeps_counts tag key ne =
      own_apart (add_size base 3) tag key a.coordination_payloads count after_counts ne

  keeps_payload :
      (tag key : ℕ)
      → add_size base 3 ≢ tag
      → add_size base 2 ≢ tag
      → get_global_slot tag key (exchange_return_buffers base count a r).core
        ≡ get_global_slot tag key after_payload.core
  keeps_payload tag key ne ne' =
      keeps_counts tag key ne
      ∙ own_apart (add_size base 2) tag key a.coordination_sizes count after_payload ne'

  keeps_sizes :
      (tag key : ℕ)
      → add_size base 3 ≢ tag
      → add_size base 2 ≢ tag
      → add_size base 1 ≢ tag
      → get_global_slot tag key (exchange_return_buffers base count a r).core
        ≡ get_global_slot tag key after_sizes.core
  keeps_sizes tag key ne ne' ne'' =
      keeps_payload tag key ne ne'
      ∙ own_apart (add_size base 1) tag key a.payload count after_sizes ne''

  keeps_others :
      (tag key : ℕ)
      → ((k : ℕ) → k < 4 → add_size base k ≢ tag)
      → get_global_slot tag key (exchange_return_buffers base count a r).core
        ≡ get_global_slot tag key r.core
  keeps_others tag key ne =
      keeps_sizes tag key (ne 3 (omega arith)) (ne 2 (omega arith)) (ne 1 (omega arith))
      ∙ own_apart (add_size base 0) tag key a.sizes count r (ne 0 (omega arith))

  last_found :
      (id : ℕ)
      → id < count
      → get_global_slot (add_size base 3) id (exchange_return_buffers base count a r).core
        ≡ some (named (add_size base 3) id (a.coordination_payloads id))
  unfolding exchange_return_buffers
  last_found id h = own_found (add_size base 3) a.coordination_payloads id count after_counts h

-- After count instances with the ids below count have exchanged the buffers of their return value
-- channels, in a registry that may hold any slots before, a lookup for an instance id below count
-- finds the four slots that this instance allocated, each under its own tag; and a lookup under a
-- tag that is none of these four, such as those of the request channels, finds what it found before.
pub return_buffers_found :
    (base count : ℕ) (a : Allocated) (r : Registry) (id tag key : ℕ)
    → id < count
    → ((k : ℕ) → k < 4 → add_size base k ≢ tag)
    → (return_buffers (exchange_return_buffers base count a r) base id
        ≡ ok (record {
          payload = named (add_size base 1) id (a.payload id);
          sizes = named (add_size base 0) id (a.sizes id);
          coordination_payloads = named (add_size base 3) id (a.coordination_payloads id);
          coordination_sizes = named (add_size base 2) id (a.coordination_sizes id);
        }))
      × (get_global_slot tag key (exchange_return_buffers base count a r).core
          ≡ get_global_slot tag key r.core)
unfolding return_buffers
return_buffers_found base count a r id tag key h ne =
    let done = exchange_return_buffers base count a r in
    let sizes = get-core done (add_size base 0) id _ (
      keeps_sizes base count a r (add_size base 0) id (omega arith) (omega arith) (omega arith)
      ∙ own_found (add_size base 0) a.sizes id count r h) in
    let payload = get-core done (add_size base 1) id _ (
      keeps_payload base count a r (add_size base 1) id (omega arith) (omega arith)
      ∙ own_found (add_size base 1) a.payload id count (after_sizes base count a r) h) in
    let counts = get-core done (add_size base 2) id _ (
      keeps_counts base count a r (add_size base 2) id (omega arith)
      ∙ own_found (add_size base 2) a.coordination_sizes id count (after_payload base count a r)
          h) in
    let payloads = get-core done (add_size base 3) id _ (last_found base count a r id h) in
    (rw (payload, sizes, payloads, counts) refl, keeps_others base count a r tag key ne)
