-- ===== src/Registry/Tests.antt =====
-- One slot, exchanged and fenced.
use hi_cr.Prelude.{◌≡◌, [], ◌∷◌, ok, some, refl}
use hi_cr.Registry.{
  GlobalSlot, Registry, find, insert, erase, insert_slot, get_global_slot,
  exchange_global_memory_slots, register_all, register_global_memory_slot, fence,
  deregister_global_memory_slot,
}

abbrev blank : Registry
blank = record { core = []; registered = []; to_destroy = [] }

abbrev slot : GlobalSlot
slot = record { tag = 3; key = 5; source = 7 }

abbrev fenced : Registry
fenced = record {
  core = (3, (5, slot) ∷ []) ∷ [];
  registered = (3, (5, slot) ∷ []) ∷ [];
  to_destroy = [];
}

fence-exchange : fence 3 (exchange_global_memory_slots 3 ((5, 7) ∷ []) blank) ≡ fenced
unfolding fence exchange_global_memory_slots insert_slot insert find erase register_all
    register_global_memory_slot
fence-exchange = refl

abbrev without : Registry
without = record { core = fenced.core; registered = (3, []) ∷ []; to_destroy = [] }

deregister-fenced : deregister_global_memory_slot fenced slot ≡ ok without
unfolding deregister_global_memory_slot find insert erase
deregister-fenced = refl

held : get_global_slot 3 5 fenced.core ≡ some slot
unfolding get_global_slot find
held = refl
