-- ===== src/MemoryManager.antt =====
-- include/hicr/core/memoryManager.hpp over include/hicr/backends/hwloc/memoryManager.hpp: local
-- memory slots, allocated with or without binding to a NUMA domain and freed by the binding type
-- that the slot has. The two allocators (hwloc_alloc_membind with hwloc_free, and malloc with free)
-- are parameters over a heap of theirs; a null pointer is `none`.
pub mod Lifetime
mod Tests
use hi_cr.Prelude.{
  ℕ, ltb, ◌==◌, ◌&&◌, if◌then◌else◌, Bool, true, false, not, Option, none, some, Result, ok, err,
  require, ◌>>=◌, ◌>>◌, logic, runtime,
}

-- `binding_type`
pub data Binding : Type 0 where
  relaxed_binding strict_non_binding strict_binding : Binding

-- the numbers of the enumeration
abbrev pub rank : Binding → ℕ
rank relaxed_binding = 0
rank strict_non_binding = 1
rank strict_binding = 2

abbrev pub is : Binding → Binding → Bool
is a b = rank a == rank b

-- `hwloc::MemorySpace`, as far as an allocation reads it.
pub record Space : Type 0 where
  pub supported : Binding
  pub nodeset : ℕ

-- `hwloc::LocalMemorySlot`
pub record Slot (P : Type 0) : Type 0 where
  pub binding : Binding
  pub pointer : P
  pub size : ℕ

-- What is called of hwloc and of the C library.
pub record Allocators (H P : Type 0) : Type 0 where
  pub alloc_membind : H → ℕ → ℕ → H × Option P
  pub malloc : H → ℕ → H × Option P
  -- whether the status is 0
  pub hwloc_free : H → P → ℕ → H × Bool
  pub free : H → P → H
  pub set_bytes : H → P → ℕ → ℕ → H

unfoldable pub binding_to_use : Binding → Binding → Binding
binding_to_use requested supported =
    let use0 = strict_binding in
    let use1 = if is requested strict_binding then strict_binding else use0 in
    let use2 =
      if is requested relaxed_binding && is supported strict_binding
      then strict_binding
      else use1 in
    let use3 =
      if is requested relaxed_binding && is supported strict_non_binding
      then strict_non_binding
      else use2 in
    if is requested strict_non_binding then strict_non_binding else use3

module _ {H P : Type 0} (m : Allocators H P) where
  -- The pointer by the binding type, null where neither test passes.
  unfoldable pub obtain : Binding → ℕ → H → ℕ → H × Option P
  obtain relaxed_binding nodeset h size = (h, none)
  obtain strict_binding nodeset h size = m.alloc_membind h nodeset size
  obtain strict_non_binding nodeset h size = m.malloc h size

  -- What the pointer gives, which is null if there is no memory.
  label : Binding → ℕ → H × Option P → H × Result (Slot P)
  label binding size (h, none) = (h, err runtime)
  label binding size (h, some p) = (h, ok (record { binding = binding; pointer = p; size = size }))

  -- `allocateLocalMemorySlot`, of a space that hwloc knows (`none`: of another manager).
  unfoldable pub allocate : Binding → Option Space → ℕ → H → H × Result (Slot P)
  unfolding binding_to_use obtain label
  allocate requested none size h = (h, err logic)
  allocate requested (some space) size h =
      if ltb (rank space.supported) (rank requested)
      then (h, err logic)
      else label space.supported size
          (obtain (binding_to_use requested space.supported) space.nodeset h size)

  -- `registerLocalMemorySlot`
  unfoldable pub register : P → ℕ → Slot P
  register p size = record { binding = strict_non_binding; pointer = p; size = size }

  -- `freeLocalMemorySlot`, of a slot of hwloc (`none`: of another manager).
  unfoldable pub free_slot : Option (Slot P) → H → H × Result (Unit {0})
  free_slot none h = (h, err logic)
  free_slot (some slot) h =
      let (h', freed) =
        if is slot.binding strict_binding
        then m.hwloc_free h slot.pointer slot.size
        else (h, true) in
      if freed
      then (if is slot.binding strict_non_binding then m.free h' slot.pointer else h', ok tt)
      else (h', err runtime)

  -- `memset`, of a slot whose pointer may be null.
  unfoldable pub memset : Option P → ℕ → ℕ → H → H × Result (Unit {0})
  memset none value size h = (h, err runtime)
  memset (some p) value size h = (m.set_bytes h p value size, ok tt)
