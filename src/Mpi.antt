-- ===== src/Mpi.antt =====
-- include/hicr/backends/mpi/communicationManager.hpp: the collective exchange of global memory slots
-- and their collective destruction. The collective calls of MPI and the success of its windows are
-- parameters. All processes call with their own arguments: the element r of a list is that of
-- process r. An `int` is a number modulo 2 ^ 32, below 2 ^ 31 where the theorems apply.
pub mod Keys
pub mod Gather
pub mod Exchange
pub mod Destroy
mod Tests
use hi_cr.Prelude.{
  ℕ, zero, suc, ◌+◌, ◌%◌, ◌^◌, ◌==◌, ltb, if◌then◌else◌, ◌&&◌, Bool, true, false, Option, none,
  some, List, [], ◌∷◌, ◌++◌, map, length, drop, replicate, Result, ok, err, runtime, fatal, Error,
}
use hi_cr.Memory.{Slot}
use hi_cr.Registry.{insert, find, erase}

-- `MPI_Allgather` of one number of each process, and `MPI_Allgatherv` with the counts, the offsets
-- and the length of the receive buffer. Each process receives the same.
pub record Collectives : Type 0 where
  pub all_gather : List ℕ → List ℕ
  pub all_gather_v : List (List ℕ) → List ℕ → List ℕ → ℕ → List ℕ

-- `mpi::GlobalMemorySlot`, whose source is null at the other processes.
pub record GlobalSlot : Type 0 where
  pub rank : ℕ
  pub tag : ℕ
  pub key : ℕ
  pub source : Option Slot

abbrev pub add_int : ℕ → ℕ → ℕ
add_int a b = (a + b) % 2 ^ 32

-- The loop over the counts, from the current offset on.
unfoldable pub slot_offsets : ℕ → List ℕ → List ℕ
slot_offsets current [] = []
slot_offsets current (count ∷ counts) = current ∷ slot_offsets (add_int current count) counts

unfoldable pub slot_count : ℕ → List ℕ → ℕ
slot_count total [] = total
slot_count total (count ∷ counts) = slot_count (add_int total count) counts

-- What process `r` contributes to the three exchanges, from its pairs of a key and a slot.
abbrev pub local_sizes : List (ℕ × Slot) → List ℕ
local_sizes own = map (λ p. p.1.size) own

abbrev pub local_keys : List (ℕ × Slot) → List ℕ
local_keys own = map (λ p. p.0) own

abbrev pub process_ids : ℕ → List (List (ℕ × Slot)) → List (List ℕ)
process_ids r [] = []
process_ids r (own ∷ others) = replicate (length own) r ∷ process_ids (suc r) others

abbrev pub head? {ℓ} : {A : Type ℓ} → List A → Option A
head? [] = none
head? (x ∷ xs) = some x

-- The loop that finds the source slots; `own` are the pairs from `localPointerPos` on.
unfoldable pub source_slots : ℕ → List ℕ → List (ℕ × Slot) → List (Option (ℕ × Slot))
source_slots me [] own = []
source_slots me (id ∷ ids) own =
    (if id == me then head? own else none)
    ∷ source_slots me ids (if id == me then drop 1 own else own)

-- The size of a window, as the `int` that the size of the slot is cast to.
abbrev pub window_size : ℕ → ℕ
window_size size = size % 2 ^ 32

-- The slot over the window of a slot of this process. Its bytes are a copy as far as the window
-- goes; what is copied past its end is not the slot's, and stands as 0.
abbrev pub window_copy : ℕ → ℕ × Slot → Slot
window_copy size p = record {
  size = size;
  byte = λ a. if ltb a (window_size size) then p.1.byte a else 0;
  messages_recv = 0;
  messages_sent = 0;
}

abbrev pub window_slot : ℕ → Option (ℕ × Slot) → Option Slot
window_slot size none = none
window_slot size (some p) = some (window_copy size p)

-- A window of this process is not made if the `int` is negative.
abbrev pub window_made : Bool → ℕ → Option (ℕ × Slot) → Bool
window_made made size none = made
window_made made size (some p) = made && ltb (window_size size) (2 ^ 31)

-- The slots that are registered, by key; and whether all windows were made. `windows i` says
-- whether MPI makes the three windows of slot `i` where their sizes are allowed.
unfoldable pub make_slots :
    ℕ
    → (ℕ → Bool)
    → ℕ
    → List ℕ
    → List ℕ
    → List ℕ
    → List (Option (ℕ × Slot))
    → List (ℕ × GlobalSlot)
    → List (ℕ × GlobalSlot) × Result (Unit {0})
make_slots tag windows i (id ∷ ids) (key ∷ keys) (size ∷ sizes) (source ∷ sources) slots =
    let rest = make_slots tag windows (suc i) ids keys sizes sources (
      insert key (record { rank = id; tag = tag; key = key; source = window_slot size source })
        slots) in
    if window_made (windows i) size source then rest else (slots, err runtime)
make_slots tag windows i ids keys sizes sources slots = (slots, ok tt)

-- `exchangeGlobalMemorySlotsImpl` of the process `me`, over what all processes pass.
unfoldable pub exchange :
    Collectives
    → ℕ
    → (ℕ → Bool)
    → ℕ
    → List (List (ℕ × Slot))
    → List (ℕ × Slot)
    → List (ℕ × GlobalSlot)
    → List (ℕ × GlobalSlot) × Result (Unit {0})
exchange c tag windows me passed own slots =
    let counts = c.all_gather (map length passed) in
    let offsets = slot_offsets 0 counts in
    let total = slot_count 0 counts in
    let sizes = c.all_gather_v (map local_sizes passed) counts offsets total in
    let keys = c.all_gather_v (map local_keys passed) counts offsets total in
    let ids = c.all_gather_v (process_ids 0 passed) counts offsets total in
    make_slots tag windows 0 ids keys sizes (source_slots me ids own) slots

-- The slots of a tag at a process: those in the map, and those that were taken out of it by
-- `deregisterGlobalMemorySlot` and wait for their destruction.
pub record Held : Type 0 where
  pub slots : List (ℕ × GlobalSlot)
  pub deregistered : List (ℕ × GlobalSlot)

-- `deregisterGlobalMemorySlotImpl`, after the map has forgotten the slot.
unfoldable pub deregister : GlobalSlot → Held → Held
deregister g h = record {
  slots = erase g.key h.slots;
  deregistered = insert g.key g h.deregistered;
}

-- `std::set`
unfoldable pub insert_key : ℕ → List ℕ → List ℕ
insert_key k [] = k ∷ []
insert_key k (x ∷ xs) =
    if k == x then x ∷ xs else (if ltb k x then k ∷ x ∷ xs else x ∷ insert_key k xs)

unfoldable pub key_set : List ℕ → List ℕ
key_set [] = []
key_set (k ∷ ks) = insert_key k (key_set ks)

-- `destroyGlobalMemorySlotImpl`, where `freed` says whether the three windows of a slot are.
destroy_slot : (GlobalSlot → Bool) → GlobalSlot → Held → Held × Result (Unit {0})
destroy_slot freed g h = (h, if freed g then ok tt else err runtime)

-- One round of the loop over the keys.
unfoldable pub destroy_key : (GlobalSlot → Bool) → ℕ → Held → Held × Result (Unit {0})
unfolding destroy_slot
destroy_key freed k h = elim (find k h.slots) [
  | some g ↦ destroy_slot freed g (record h { slots = erase k h.slots })
  | none ↦ elim (find k h.deregistered) [
    | some g ↦ destroy_slot freed g (record h { deregistered = erase k h.deregistered })
    | none ↦ (h, err fatal)
  ]
]

unfoldable pub destroy_keys : (GlobalSlot → Bool) → List ℕ → Held → Held × Result (Unit {0})
destroy_keys freed [] h = (h, ok tt)
destroy_keys freed (k ∷ ks) h =
    let (h', outcome) = destroy_key freed k h in
    elim outcome [ err e ↦ (h', err e) | ok _ ↦ destroy_keys freed ks h' ]

-- `destroyGlobalMemorySlotsCollectiveImpl` of one process, over the keys that all of them want
-- destroyed.
unfoldable pub destroy_collective :
    Collectives → (GlobalSlot → Bool) → List (List ℕ) → Held → Held × Result (Unit {0})
destroy_collective c freed asked h =
    let counts = c.all_gather (map length asked) in
    let total = slot_count 0 counts in
    let keys = c.all_gather_v asked counts (slot_offsets 0 counts) total in
    if total == 0 then (h, ok tt) else destroy_keys freed (key_set keys) h
