-- ===== src/Registry.antt =====
-- The global memory slots of include/hicr/core/communicationManager.hpp over the store of
-- include/hicr/backends/pthreads/core.hpp that all threads share. A `std::map` is an association
-- list. The barrier of a fence is no step of the state.
pub mod Lookup
pub mod Exchange
mod Tests
use hi_cr.Prelude.{
  ℕ, Bool, true, false, ◌==◌, if◌then◌else◌, Option, none, some, List, [], ◌∷◌, ◌++◌, Result, ok,
  err, logic,
}

pub record GlobalSlot : Type 0 where
  pub tag : ℕ
  pub key : ℕ
  -- names the local memory slot behind it
  pub source : ℕ

-- `std::map` with its `find`, `operator[] =` and `erase`.
unfoldable pub find {ℓ} : {A : Type ℓ} → ℕ → List (ℕ × A) → Option A
find k [] = none
find k (e ∷ m) = if e.0 == k then some e.1 else find k m

unfoldable pub insert {ℓ} : {A : Type ℓ} → ℕ → A → List (ℕ × A) → List (ℕ × A)
insert k a [] = (k, a) ∷ []
insert k a (e ∷ m) = if e.0 == k then (k, a) ∷ m else e ∷ insert k a m

unfoldable pub erase {ℓ} : {A : Type ℓ} → ℕ → List (ℕ × A) → List (ℕ × A)
erase k [] = []
erase k (e ∷ m) = if e.0 == k then erase k m else e ∷ erase k m

abbrev pub TagMap : Type 0
TagMap = List (ℕ × List (ℕ × GlobalSlot))

or_empty {ℓ} : {A : Type ℓ} → Option (List A) → List A
or_empty none = []
or_empty (some l) = l

-- `map[tag][key] = slot`, which makes the entry of the tag if there is none.
unfoldable pub insert_slot : ℕ → ℕ → GlobalSlot → TagMap → TagMap
unfolding or_empty
insert_slot tag key slot m = insert tag (insert key slot (or_empty (find tag m))) m

pub record Registry : Type 0 where
  -- `Core::_globalMemorySlots`
  pub core : TagMap
  -- `CommunicationManager::_globalMemorySlotTagKeyMap`
  pub registered : TagMap
  -- `CommunicationManager::_globalMemorySlotsToDestroyPerTag`
  pub to_destroy : List (ℕ × List GlobalSlot)

unfoldable pub get_global_slot : ℕ → ℕ → TagMap → Option GlobalSlot
get_global_slot tag key m = elim (find tag m) [ none ↦ none | some slots ↦ find key slots ]

-- Pairs of a key and a local memory slot.
unfoldable pub exchange_global_memory_slots : ℕ → List (ℕ × ℕ) → Registry → Registry
exchange_global_memory_slots tag [] r = r
exchange_global_memory_slots tag (p ∷ ps) r =
    exchange_global_memory_slots tag ps (record r {
      core = insert_slot tag p.0 (record { tag = tag; key = p.0; source = p.1 }) r.core;
    })

unfoldable pub register_global_memory_slot : GlobalSlot → TagMap → TagMap
register_global_memory_slot slot m = insert_slot slot.tag slot.key slot m

-- The loop of the fence.
unfoldable pub register_all : List (ℕ × GlobalSlot) → TagMap → TagMap
register_all [] m = m
register_all (e ∷ slots) m = register_all slots (register_global_memory_slot e.1 m)

unfoldable pub fence : ℕ → Registry → Registry
unfolding or_empty
fence tag r = record r {
  registered = register_all (or_empty (find tag r.core)) r.registered;
  to_destroy = erase tag r.to_destroy;
}

unfoldable pub get_global_memory_slot : Registry → ℕ → ℕ → Result GlobalSlot
get_global_memory_slot r tag key = elim (get_global_slot tag key r.core) [
  | some slot ↦ ok slot
  | none ↦ elim (find tag r.registered) [
    | none ↦ err logic
    | some slots ↦ elim (find key slots) [ none ↦ err logic | some slot ↦ ok slot ]
  ]
]

unfoldable pub deregister_global_memory_slot : Registry → GlobalSlot → Result Registry
deregister_global_memory_slot r slot = elim (find slot.tag r.registered) [
  | none ↦ err logic
  | some slots ↦ ok (record r { registered = insert slot.tag (erase slot.key slots) r.registered })
]

unfoldable pub destroy_global_memory_slot : Registry → GlobalSlot → Registry
unfolding or_empty
destroy_global_memory_slot r slot = record r {
  to_destroy = insert slot.tag (or_empty (find slot.tag r.to_destroy) ++ (slot ∷ [])) r.to_destroy;
}
