-- ===== src/MemoryManager/Lifetime.antt =====
-- What freeing a slot undoes.
use hi_cr.Prelude.{
  ℕ, ltb, if◌then◌else◌, true, false, Option, none, some, Result, ok, err, runtime, ap, sym,
  ok_injective, Bool-cases, ◌≡◌, ◌≢◌, ◌⊎◌, inl, inr, refl,
}
use hi_cr.MemoryManager.{
  Binding, relaxed_binding, strict_non_binding, strict_binding, rank, Space, Slot, Allocators,
  binding_to_use, obtain, label, allocate, free_slot,
}

module _ {H P : Type 0} (m : Allocators H P) where
  -- Each allocator takes back what it gave: the heap is then as it was.
  pub record TakesBack : Type 0 where
    pub membind :
        (h h' : H) (nodeset size : ℕ) (p : P)
        → m.alloc_membind h nodeset size ≡ (h', some p)
        → m.hwloc_free h' p size ≡ (h, true)
    pub heap : (h h' : H) (size : ℕ) (p : P) → m.malloc h size ≡ (h', some p) → m.free h' p ≡ h

  label_ok :
      (b : Binding) (size : ℕ) (o : H × Option P) {h' : H} {slot : Slot P}
      → label m b size o ≡ (h', ok slot)
      → (p : P) × (o ≡ (h', some p)) × (slot ≡ record { binding = b; pointer = p; size = size })
  unfolding label
  label_ok b size (h, none) e = cc
  label_ok b size (h, some p) e = (
    p,
    ap (λ (x : H × Result (Slot P)). (x.0, some p)) e,
    sym (ok_injective _ _ (ap (λ (x : H × Result (Slot P)). x.1) e)),
  )

  -- What was asked of a space: what it supports, or what it likes best where it supports anything.
  abbrev pub Suits : Binding → Binding → Type 0
  Suits requested supported =
      (requested ≡ supported ⊎ requested ≡ relaxed_binding) × (supported ≢ relaxed_binding)

  chosen_self :
      (s : Binding)
      → (binding_to_use s s ≡ s ⊎ s ≡ relaxed_binding) × (ltb (rank s) (rank s) ≡ false)
  unfolding binding_to_use
  chosen_self relaxed_binding = (inr refl, refl)
  chosen_self strict_non_binding = (inl refl, refl)
  chosen_self strict_binding = (inl refl, refl)

  chosen_relaxed :
      (s : Binding)
      → (binding_to_use relaxed_binding s ≡ s ⊎ s ≡ relaxed_binding)
        × (ltb (rank s) (rank relaxed_binding) ≡ false)
  unfolding binding_to_use
  chosen_relaxed relaxed_binding = (inr refl, refl)
  chosen_relaxed strict_non_binding = (inl refl, refl)
  chosen_relaxed strict_binding = (inl refl, refl)

  chosen :
      (r s : Binding)
      → Suits r s
      → (binding_to_use r s ≡ s ⊎ s ≡ relaxed_binding) × (ltb (rank s) (rank r) ≡ false)
  chosen r s (inl e, ne) = rw e (chosen_self s)
  chosen r s (inr e, ne) = rw e (chosen_relaxed s)

  -- Where the allocator is chosen by the binding that the slot has, freeing undoes the allocation.
  by_label :
      TakesBack
      → (used : Binding) (nodeset size : ℕ) (h h' : H) (slot : Slot P) → used ≢ relaxed_binding
      → label m used size (obtain m used nodeset h size) ≡ (h', ok slot)
      → free_slot m (some slot) h' ≡ (h, ok tt)
  unfolding free_slot obtain
  by_label back relaxed_binding nodeset size h h' slot ne e = absurd (ne refl)
  by_label back strict_binding nodeset size h h' slot ne e =
      let (p, got, same) = label_ok strict_binding size _ e in
      rw (same, back.membind h h' nodeset size p got)
  by_label back strict_non_binding nodeset size h h' slot ne e =
      let (p, got, same) = label_ok strict_non_binding size _ e in
      rw (same, back.heap h h' size p got)

  -- A slot that was allocated by the binding type that its space supports, or by a relaxed request
  -- on a space with a definite type, is freed by the allocator that gave it: the heap is as it was.
  -- The allocators take back what they gave.
  pub free-allocate :
      TakesBack
      → (requested : Binding) (space : Space) (size : ℕ) (h h' : H) (slot : Slot P)
      → Suits requested space.supported
      → allocate m requested (some space) size h ≡ (h', ok slot)
      → free_slot m (some slot) h' ≡ (h, ok tt)
  unfolding allocate
  free-allocate back requested space size h h' slot suits e =
      let (same, allowed) = chosen requested space.supported suits in
      elim same [
        | inr loose ↦ absurd (suits.1 loose)
        | inl by_support ↦
            by_label back space.supported space.nodeset size h h' slot suits.1
              (rw (allowed, by_support) at e)
      ]

  -- The slot has the binding type that its space supports, not the one that was used. A slot of a
  -- space that supports strict binding, asked for without binding, is taken from malloc and given
  -- to hwloc_free; one of a space of relaxed binding is bound, and freeing it does nothing.
  pub free_by_other :
      (nodeset size : ℕ) (h heap bound : H) (p q : P)
      → m.malloc h size ≡ (heap, some p)
      → m.alloc_membind h nodeset size ≡ (bound, some q)
      → let strict : Space = record { supported = strict_binding; nodeset = nodeset } in
        let loose : Space = record { supported = relaxed_binding; nodeset = nodeset } in
        let from_heap : Slot P = record { binding = strict_binding; pointer = p; size = size } in
        let bound_slot : Slot P = record { binding = relaxed_binding; pointer = q; size = size } in
        (allocate m strict_non_binding (some strict) size h ≡ (heap, ok from_heap))
        × (free_slot m (some from_heap) heap ≡ (
          (m.hwloc_free heap p size).0,
          if (m.hwloc_free heap p size).1 then ok tt else err runtime,
        ))
        × (allocate m relaxed_binding (some loose) size h ≡ (bound, ok bound_slot))
        × (free_slot m (some bound_slot) bound ≡ (bound, ok tt))
  unfolding allocate binding_to_use free_slot obtain label
  free_by_other nodeset size h heap bound p q e e' = (
    ap (label m strict_binding size) e,
    elim (Bool-cases (m.hwloc_free heap p size).1) [
      | inl freed ↦ rw freed
      | inr failed ↦ rw failed
    ],
    ap (label m relaxed_binding size) e',
    refl,
  )
