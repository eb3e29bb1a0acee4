-- ===== src/Mpi/Tests.antt =====
-- Three processes, over collective calls that put the blocks one after the other.
use hi_cr.Prelude.{
  ℕ, ◌+◌, ◌≡◌, true, false, List, [], ◌∷◌, some, none, Option, ok, err, fatal, refl, arith, ◌⊎◌,
}
use hi_cr.Memory.{Slot}
use hi_cr.Registry.{insert, find, erase}
use hi_cr.Mpi.{
  Collectives, GlobalSlot, Held, exchange, destroy_collective, destroy_keys, destroy_key,
  deregister, make_slots, source_slots, slot_offsets, slot_count, key_set, insert_key, window_copy,
}
use hi_cr.Mpi.Gather.{IsDocumented, concat}
use hi_cr.Mpi.Exchange.{first_small, none_large, registered, exchange_lem}
use hi_cr.Mpi.Keys.{member}
use hi_cr.Mpi.Destroy.{Dropped, is_held, destroy_lem}

abbrev blocks : Collectives
blocks = record {
  all_gather = λ values. values;
  all_gather_v = λ values counts offsets total. concat values;
}

blocks-IsDocumented : IsDocumented blocks
blocks-IsDocumented = record {
  gather = λ values. refl;
  gather_v = λ values counts offsets total same at all. refl;
}

abbrev slot : ℕ → Slot
slot n = record { size = n; byte = λ a. a + n; messages_recv = 0; messages_sent = 0 }

-- The process 0 passes one slot, the process 1 none and the process 2 two.
abbrev passed : List (List (ℕ × Slot))
passed = ((7, slot 4) ∷ []) ∷ [] ∷ ((8, slot 2) ∷ (9, slot 3) ∷ []) ∷ []

exchange_lem_example :
    exchange blocks 5 (λ i. true) 2 passed ((8, slot 2) ∷ (9, slot 3) ∷ []) []
    ≡ (registered 5 2 0 passed [], ok tt)
exchange_lem_example =
    exchange_lem blocks 5 2 (λ i. true) passed ((8, slot 2) ∷ (9, slot 3) ∷ []) []
      blocks-IsDocumented (λ i. refl) refl (omega arith)
      (first_small (omega arith) (first_small (omega arith) none_large))

abbrev global : ℕ → ℕ → Option Slot → GlobalSlot
global rank key source = record { rank = rank; tag = 5; key = key; source = source }

exchanged_at_two : exchange blocks 5 (λ i. true) 2 passed ((8, slot 2) ∷ (9, slot 3) ∷ []) [] ≡ (
  (7, global 0 7 none)
      ∷ (8, global 2 8 (some (window_copy 2 (8, slot 2))))
      ∷ (9, global 2 9 (some (window_copy 3 (9, slot 3))))
      ∷ [],
  ok tt,
)
unfolding exchange make_slots source_slots slot_offsets slot_count insert
exchanged_at_two = refl

-- The slot 9 has been deregistered.
abbrev held : Held
held = record {
  slots = (7, global 0 7 none) ∷ (8, global 2 8 none) ∷ [];
  deregistered = (9, global 2 9 none) ∷ [];
}

abbrev asked : List (List ℕ)
asked = (9 ∷ []) ∷ [] ∷ (7 ∷ 9 ∷ []) ∷ []

destroy_lem_example :
    ((h' : Held) × (destroy_collective blocks (λ g. true) asked held ≡ (h', ok tt))
      × Dropped (λ j. member j (concat asked)) held h')
    ⊎ ((destroy_collective blocks (λ g. true) asked held).1 ≡ err fatal)
      × ((j : ℕ) × (member j (concat asked) ≡ true) × (is_held j held ≡ false))
destroy_lem_example =
    destroy_lem blocks (λ g. true) asked held blocks-IsDocumented (λ g. refl) (omega arith)

-- The key 9, which two processes ask for, is destroyed once.
destroyed_once :
    destroy_collective blocks (λ g. true) asked held
    ≡ (record { slots = (8, global 2 8 none) ∷ []; deregistered = [] }, ok tt)
unfolding destroy_collective destroy_keys destroy_key slot_count slot_offsets key_set insert_key
    find erase
destroyed_once = refl

destroyed_unknown : (destroy_collective blocks (λ g. true) ((6 ∷ []) ∷ []) held).1 ≡ err fatal
unfolding destroy_collective destroy_keys destroy_key slot_count slot_offsets key_set insert_key
    find
destroyed_unknown = refl

deregistered_slot : deregister (global 0 7 none) held ≡ record {
  slots = (8, global 2 8 none) ∷ [];
  deregistered = (9, global 2 9 none) ∷ (7, global 0 7 none) ∷ [];
}
unfolding deregister insert erase
deregistered_slot = refl
