-- ===== src/Mpi/Exchange.antt =====
-- What every process has after an exchange.
use hi_cr.Prelude.{
  ℕ, suc, ◌+◌, ◌-◌, ◌^◌, ◌<◌, ◌≤◌, ◌==◌, ltb, sym, if◌then◌else◌, Bool, true, false, List, [], ◌∷◌,
  ◌++◌, map, length, get_elem?, replicate, some, none, ◌≡◌, refl, ap, ap₂, subst, ◌∙◌, arith,
  Result, ok, append-nil, some_injective, ℕ_discrete,
}
use hi_cr.Memory.{Slot}
use hi_cr.Registry.{insert}
use hi_cr.Mpi.{
  Collectives, GlobalSlot, local_sizes, local_keys, process_ids, source_slots, make_slots, exchange,
  window_copy, window_size,
}
use hi_cr.Mpi.Gather.{sum, concat, IsDocumented, gathered}

-- A slot of its own over a copy of the bytes.
abbrev pub copied : Slot → Slot
copied s = record {
  size = s.size;
  byte = λ a. if ltb a s.size then s.byte a else 0;
  messages_recv = 0;
  messages_sent = 0;
}

-- The sizes that an `int` holds.
pub data Small : List (ℕ × Slot) → Type 0 where
  none_large : Small []
  first_small :
      {p : ℕ × Slot} {ps : List (ℕ × Slot)} → p.1.size < 2 ^ 31 → Small ps → Small (p ∷ ps)

window_small : (p : ℕ × Slot) → p.1.size < 2 ^ 31 → window_copy p.1.size p ≡ copied p.1
window_small p h =
    let same : window_size p.1.size ≡ p.1.size = omega arith in
    ap
      (λ n. record {
        size = p.1.size;
        byte = λ a. if ltb a n then p.1.byte a else 0;
        messages_recv = 0;
        messages_sent = 0;
      })
      same

made_small : (p : ℕ × Slot) → p.1.size < 2 ^ 31 → ltb (window_size p.1.size) (2 ^ 31) ≡ true
made_small p h = ground arith

-- The slot that process `me` has for one that process `r` passed.
abbrev pub slot_of : ℕ → ℕ → ℕ → ℕ × Slot → GlobalSlot
slot_of tag me r p = record {
  rank = r;
  tag = tag;
  key = p.0;
  source = if r == me then some (copied p.1) else none;
}

abbrev pub registered_block :
    ℕ → ℕ → ℕ → List (ℕ × Slot) → List (ℕ × GlobalSlot) → List (ℕ × GlobalSlot)
registered_block tag me r [] slots = slots
registered_block tag me r (p ∷ ps) slots =
    registered_block tag me r ps (insert p.0 (slot_of tag me r p) slots)

-- All slots, process by process from `r` on.
abbrev pub registered :
    ℕ → ℕ → ℕ → List (List (ℕ × Slot)) → List (ℕ × GlobalSlot) → List (ℕ × GlobalSlot)
registered tag me r [] slots = slots
registered tag me r (own ∷ others) slots =
    registered tag me (suc r) others (registered_block tag me r own slots)

module _ (tag me : ℕ) (windows : ℕ → Bool) (made : (i : ℕ) → windows i ≡ true) where
  -- What is made of the slots from number `i` on.
  abbrev after :
      ℕ
      → List ℕ
      → List ℕ
      → List ℕ
      → List (ℕ × Slot)
      → List (ℕ × GlobalSlot)
      → List (ℕ × GlobalSlot) × Result (Unit {0})
  after i ids keys sizes own slots =
      make_slots tag windows i ids keys sizes (source_slots me ids own) slots

  step_other :
      (r i : ℕ) (p : ℕ × Slot) (ids keys sizes : List ℕ) (own : List (ℕ × Slot))
      (slots : List (ℕ × GlobalSlot))
      → (r == me) ≡ false
      → after i (r ∷ ids) (p.0 ∷ keys) (p.1.size ∷ sizes) own slots
        ≡ after (suc i) ids keys sizes own (insert p.0 (slot_of tag me r p) slots)
  unfolding make_slots source_slots
  step_other r i p ids keys sizes own slots other = rw (made i, other) refl

  step_own :
      (r i : ℕ) (p : ℕ × Slot) (ids keys sizes : List ℕ) (own : List (ℕ × Slot))
      (slots : List (ℕ × GlobalSlot))
      → (r == me) ≡ true
      → p.1.size < 2 ^ 31
      → after i (r ∷ ids) (p.0 ∷ keys) (p.1.size ∷ sizes) (p ∷ own) slots
        ≡ after (suc i) ids keys sizes own (insert p.0 (slot_of tag me r p) slots)
  unfolding make_slots source_slots
  step_own r i p ids keys sizes own slots same small =
      rw (made i, same, made_small p small, window_small p small) refl

  block_other :
      (r i : ℕ) (ps : List (ℕ × Slot)) (ids keys sizes : List ℕ) (own : List (ℕ × Slot))
      (slots : List (ℕ × GlobalSlot))
      → (r == me) ≡ false
      → after i
          (replicate (length ps) r ++ ids)
          (local_keys ps ++ keys)
          (local_sizes ps ++ sizes)
          own
          slots
        ≡ after (i + length ps) ids keys sizes own (registered_block tag me r ps slots)
  block_other r i [] ids keys sizes own slots other =
      ap (λ k. after k ids keys sizes own slots) (omega arith)
  block_other r i (p ∷ ps) ids keys sizes own slots other =
      step_other r i p _ _ _ own slots other
      ∙ (block_other r (suc i) ps ids keys sizes own (insert p.0 (slot_of tag me r p) slots) other
          ∙ ap (λ k. after k ids keys sizes own (registered_block tag me r (p ∷ ps) slots))
              (omega arith))

  block_own :
      (r i : ℕ) (ps rest : List (ℕ × Slot)) (ids keys sizes : List ℕ)
      (slots : List (ℕ × GlobalSlot))
      → (r == me) ≡ true
      → Small ps
      → after i
          (replicate (length ps) r ++ ids)
          (local_keys ps ++ keys)
          (local_sizes ps ++ sizes)
          (ps ++ rest)
          slots
        ≡ after (i + length ps) ids keys sizes rest (registered_block tag me r ps slots)
  block_own r i [] rest ids keys sizes slots same none_large =
      ap (λ k. after k ids keys sizes rest slots) (omega arith)
  block_own r i (p ∷ ps) rest ids keys sizes slots same (first_small small others) =
      step_own r i p _ _ _ (ps ++ rest) slots same small
      ∙ (block_own r (suc i) ps rest ids keys sizes (insert p.0 (slot_of tag me r p) slots) same
            others
          ∙ ap (λ k. after k ids keys sizes rest (registered_block tag me r (p ∷ ps) slots))
              (omega arith))

  -- Process by process, where the slots that `me` passes come when it is its turn.
  all_blocks :
      (r i : ℕ) (passed : List (List (ℕ × Slot))) (own : List (ℕ × Slot))
      (slots : List (ℕ × GlobalSlot))
      → (r ≤ me → get_elem? passed (me - r) ≡ some own)
      → (r ≤ me → Small own)
      → after i
          (concat (process_ids r passed))
          (concat (map local_keys passed))
          (concat (map local_sizes passed))
          own
          slots
        ≡ (registered tag me r passed slots, ok tt)
  unfolding make_slots
  all_blocks r i [] own slots turn small = refl
  all_blocks r i (ps ∷ others) own slots turn small = elim (ℕ_discrete r me) [
    | yes same ↦
        let now : 0 ≡ me - r = omega (arith, same) in
        let e : ps ≡ own =
          some_injective (ap (get_elem? (ps ∷ others)) now ∙ turn (omega (arith, same))) in
        subst
          (λ o.
            after i (concat (process_ids r (ps ∷ others))) (concat (map local_keys (ps ∷ others)))
              (concat (map local_sizes (ps ∷ others))) o slots
            ≡ (registered tag me r (ps ∷ others) slots, ok tt))
          (append-nil ps ∙ e)
          (block_own r i ps [] _ _ _ slots (ground (arith, same))
              (subst Small (sym e) (small (omega (arith, same))))
            ∙ all_blocks (suc r) (i + length ps) others [] (registered_block tag me r ps slots)
                (λ le. absurd (omega (arith, same))) (λ le. absurd (omega (arith, same))))
    | no other ↦
        block_other r i ps _ _ _ own slots (ground arith)
        ∙ all_blocks (suc r) (i + length ps) others own (registered_block tag me r ps slots)
            (λ le.
              ap (get_elem? (ps ∷ others)) (let e : suc (me - suc r) ≡ me - r = omega arith in e)
              ∙ turn (omega arith))
            (λ le. small (omega arith))
  ]

replicate-length : (r : ℕ) (ps : List (ℕ × Slot)) → length (replicate (length ps) r) ≡ length ps
replicate-length r [] = refl
replicate-length r (p ∷ ps) = ap suc (replicate-length r ps)

map-length : {A B : Type 0} (f : A → B) (ps : List A) → length (map f ps) ≡ length ps
map-length f [] = refl
map-length f (p ∷ ps) = ap suc (map-length f ps)

lengths-process_ids :
    (r : ℕ) (passed : List (List (ℕ × Slot)))
    → map length (process_ids r passed) ≡ map length passed
lengths-process_ids r [] = refl
lengths-process_ids r (ps ∷ others) =
    ap₂ (λ n l. n ∷ l) (replicate-length r ps) (lengths-process_ids (suc r) others)

lengths-map :
    (f : List (ℕ × Slot) → List ℕ) (passed : List (List (ℕ × Slot)))
    → ((ps : List (ℕ × Slot)) → length (f ps) ≡ length ps)
    → map length (map f passed) ≡ map length passed
lengths-map f [] same = refl
lengths-map f (ps ∷ others) same = ap₂ (λ n l. n ∷ l) (same ps) (lengths-map f others same)

-- After an exchange each process has registered the slots that all of them passed, process by
-- process and each in its order: with the rank of the process that passed it and its key, and, at
-- that process alone, with a slot that holds a copy of its bytes. The windows are made, there are
-- fewer than 2 ^ 31 slots, and those of this process have fewer than 2 ^ 31 bytes each. The
-- collective calls do what is documented of them.
pub exchange_lem :
    (c : Collectives) (tag me : ℕ) (windows : ℕ → Bool) (passed : List (List (ℕ × Slot)))
    (own : List (ℕ × Slot)) (slots : List (ℕ × GlobalSlot))
    → IsDocumented c
    → ((i : ℕ) → windows i ≡ true)
    → get_elem? passed me ≡ some own
    → sum (map length passed) < 2 ^ 31
    → Small own
    → exchange c tag windows me passed own slots ≡ (registered tag me 0 passed slots, ok tt)
unfolding exchange
exchange_lem c tag me windows passed own slots d made here small sizes =
    rw
      (
        gathered (map local_sizes passed) (map length passed) d
            (lengths-map local_sizes passed (λ ps. map-length (λ (p : ℕ × Slot). p.1.size) ps))
            small,
        gathered (map local_keys passed) (map length passed) d
            (lengths-map local_keys passed (λ ps. map-length (λ (p : ℕ × Slot). p.0) ps)) small,
        gathered (process_ids 0 passed) (map length passed) d (lengths-process_ids 0 passed) small,
      )
      (all_blocks tag me windows made 0 0 passed own slots
        (λ le. (let e : me - 0 ≡ me = omega arith in ap (get_elem? passed) e ∙ here)) (λ le. sizes))
