-- ===== src/Rpc/Wiring.antt =====
-- The two ends of every request channel find the same buffers.
use hi_cr.Prelude.{
  ℕ, zero, suc, ◌+◌, ◌*◌, ◌^◌, ◌≡◌, ◌≢◌, ◌≤◌, ◌<◌, some, refl, arith, ◌∙◌, sym, ◌⊎◌, ℕ_discrete,
  inl, inr,
}
use hi_cr.Registry.{Registry, get_global_slot, exchange_global_memory_slots, fence}
use hi_cr.Registry.Exchange.{get-last, get-before_last, get-other_tag}
use hi_cr.Channel.Window.{index_fits}
use hi_cr.Rpc.Buffers.{slot_key, slot_pairs, exchange_all}

square_le : (count : ℕ) → count ≤ 2 ^ 32 → count * count ≤ 2 ^ 64
square_le count h = let row : count * count ≤ 2 ^ 32 * count = grind arith in omega (arith, row)

compare_cases : (a b : ℕ) → (a < b) ⊎ (a ≡ b) ⊎ (b < a)
compare_cases a b = ground arith

-- Different pairs of instances have different keys.
pub slot_key_injective :
    (count id i id' i' : ℕ)
    → count ≤ 2 ^ 32
    → id < count
    → id' < count
    → i < count
    → i' < count
    → slot_key count id i ≡ slot_key count id' i'
    → (id ≡ id') × (i ≡ i')
unfolding slot_key
slot_key_injective count id i id' i' small h h' l l' e =
    let wide : count * count ≤ 2 ^ 64 = square_le count small in
    let fits : count * id + count ≤ count * count = index_fits count id count h in
    let fits' : count * id' + count ≤ count * count = index_fits count id' count h' in
    let sums : id * count + i ≡ id' * count + i' = grind arith in
    elim (compare_cases id id') [
      | inl lt ↦ absurd (grind (arith, index_fits count id id' lt))
      | inr (inl same) ↦ (same, grind arith)
      | inr (inr gt) ↦ absurd (grind (arith, index_fits count id' id gt))
    ]

-- The slot of a round is found after the exchange of one instance.
pairs_found :
    (tag count id : ℕ) (slots : ℕ → ℕ) (i n : ℕ) (r : Registry)
    → count ≤ 2 ^ 32
    → id < count
    → n ≤ count
    → i < n
    → get_global_slot tag
        (slot_key count id i)
        (exchange_global_memory_slots tag (slot_pairs count id slots n) r).core
      ≡ some (record { tag = tag; key = slot_key count id i; source = slots i })
unfolding slot_pairs
pairs_found tag count id slots i zero r small h le lt = absurd (omega arith)
pairs_found tag count id slots i (suc n) r small h le lt = elim (ℕ_discrete i n) [
  | yes same ↦ rw same (get-last tag (slot_pairs count id slots n) (slot_key count id n, slots n) r)
  | no other ↦
      get-before_last tag (slot_key count id i) (slot_pairs count id slots n)
        (slot_key count id n, slots n) r
        (λ e.
          other
            (sym (slot_key_injective count id n id i small h h (omega arith) (omega arith) e).1))
      ∙ pairs_found tag count id slots i n r small h (omega arith) (omega arith)
]

-- The exchange of one instance changes no lookup of another's key.
pairs_apart :
    (tag count id id' : ℕ) (slots : ℕ → ℕ) (i n : ℕ) (r : Registry)
    → count ≤ 2 ^ 32
    → id < count
    → id' < count
    → i < count
    → n ≤ count
    → id' ≢ id
    → get_global_slot tag
        (slot_key count id i)
        (exchange_global_memory_slots tag (slot_pairs count id' slots n) r).core
      ≡ get_global_slot tag (slot_key count id i) r.core
unfolding slot_pairs exchange_global_memory_slots
pairs_apart tag count id id' slots i zero r small h h' l le ne = refl
pairs_apart tag count id id' slots i (suc n) r small h h' l le ne =
    get-before_last tag (slot_key count id i) (slot_pairs count id' slots n)
      (slot_key count id' n, slots n) r
      (λ e. ne (slot_key_injective count id' n id i small h' h (omega arith) l e).0)
    ∙ pairs_apart tag count id id' slots i n r small h h' l (omega arith) ne

-- A fence keeps the store.
pub fence-core :
    (tag other key : ℕ) (r : Registry)
    → get_global_slot other key (fence tag r).core ≡ get_global_slot other key r.core
unfolding fence
fence-core tag other key r = refl

pub all_found :
    (tag count : ℕ) (slots : ℕ → ℕ → ℕ) (id i n : ℕ) (r : Registry)
    → count ≤ 2 ^ 32
    → n ≤ count
    → id < n
    → i < count
    → get_global_slot tag (slot_key count id i) (exchange_all tag count slots n r).core
      ≡ some (record { tag = tag; key = slot_key count id i; source = slots id i })
unfolding exchange_all
all_found tag count slots id i zero r small le h l = absurd (omega arith)
all_found tag count slots id i (suc n) r small le h l =
    fence-core tag tag (slot_key count id i) _ ∙ elim (ℕ_discrete id n) [
      | yes same ↦ rw same (
          pairs_found tag count n (slots n) i count (exchange_all tag count slots n r) small
            (omega arith) (omega arith) l)
      | no other ↦
          pairs_apart tag count id n (slots n) i count (exchange_all tag count slots n r) small
            (omega arith) (omega arith) l (omega arith) (λ e. other (sym e))
          ∙ all_found tag count slots id i n r small (omega arith) (omega arith) l
    ]

pub all_apart :
    (tag other key count : ℕ) (slots : ℕ → ℕ → ℕ) (n : ℕ) (r : Registry)
    → tag ≢ other
    → get_global_slot other key (exchange_all tag count slots n r).core
      ≡ get_global_slot other key r.core
unfolding exchange_all
all_apart tag other key count slots zero r ne = refl
all_apart tag other key count slots (suc n) r ne =
    fence-core tag other key _
    ∙ (get-other_tag other tag key (slot_pairs count n (slots n) count)
          (exchange_all tag count slots n r) ne
        ∙ all_apart tag other key count slots n r ne)
