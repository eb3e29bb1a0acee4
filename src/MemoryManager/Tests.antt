-- ===== src/MemoryManager/Tests.antt =====
-- A heap of two counters: the blocks that each allocator has given and not taken back.
use hi_cr.Prelude.{ℕ, suc, ◌≡◌, true, none, some, ok, err, logic, runtime, inr, refl, arith}
use hi_cr.MemoryManager.{
  relaxed_binding, strict_non_binding, strict_binding, Space, Slot, Allocators, allocate, register,
  free_slot, memset,
}
use hi_cr.MemoryManager.Lifetime.{TakesBack, free-allocate}

pub record Heap : Type 0 where
  pub bound : ℕ
  pub plain : ℕ

-- A pointer is its place among the blocks of its allocator.
abbrev counters : Allocators Heap ℕ
counters = record {
  alloc_membind = λ h nodeset size. (record h { bound = suc h.bound }, some h.bound);
  malloc = λ h size. (record h { plain = suc h.plain }, some h.plain);
  hwloc_free = λ h p size. (record h { bound = p }, true);
  free = λ h p. record h { plain = p };
  set_bytes = λ h p value size. h;
}

counters-TakesBack : TakesBack counters
counters-TakesBack = record {
  membind = λ h h' nodeset size p e. ground arith;
  heap = λ h h' size p e. ground arith;
}

abbrev start : Heap
start = record { bound = 2; plain = 1 }

abbrev near : Space
near = record { supported = strict_binding; nodeset = 0 }

abbrev slot : Slot ℕ
slot = record { binding = strict_binding; pointer = 2; size = 64 }

near_allocated :
    allocate counters relaxed_binding (some near) 64 start
    ≡ (record { bound = 3; plain = 1 }, ok slot)
unfolding allocate
near_allocated = refl

free-allocate_example :
    free_slot counters (some slot) (record { bound = 3; plain = 1 }) ≡ (start, ok tt)
free-allocate_example =
    free-allocate counters counters-TakesBack relaxed_binding near 64 start
      (record { bound = 3; plain = 1 }) slot (inr refl, λ e. cc) near_allocated

too_strict :
    allocate counters strict_binding
      (some (record { supported = strict_non_binding; nodeset = 0 }))
      64
      start
    ≡ (start, err logic)
unfolding allocate
too_strict = refl

registered_freed : (free_slot counters (some (register counters 0 64)) start).0.plain ≡ 0
unfolding free_slot register
registered_freed = refl

memset_null : memset counters none 0 64 start ≡ (start, err runtime)
unfolding memset
memset_null = refl

abbrev heap_slot : Slot ℕ
heap_slot = record { binding = strict_binding; pointer = 1; size = 64 }

abbrev loose_slot : Slot ℕ
loose_slot = record { binding = relaxed_binding; pointer = 2; size = 64 }
