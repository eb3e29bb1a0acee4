-- ===== src/Registry/Lookup.antt =====
-- Which slots a lookup finds.
use hi_cr.Prelude.{ℕ, ◌≡◌, ◌≢◌, some, List, [], ◌∷◌, ◌++◌, ok, refl, arith, ◌∙◌}
use hi_cr.Registry.{
  GlobalSlot, TagMap, Registry, or_empty, find, insert, insert_slot, get_global_slot,
  exchange_global_memory_slots, fence, get_global_memory_slot, deregister_global_memory_slot,
  destroy_global_memory_slot,
}

pub find-insert : {A : Type 0} (k : ℕ) (a : A) (m : List (ℕ × A)) → find k (insert k a m) ≡ some a
unfolding find insert
find-insert k a [] = ground arith
find-insert k a (e ∷ m) = ground (arith, find-insert k a m)

pub find-insert_other :
    {A : Type 0} (k j : ℕ) (a : A) (m : List (ℕ × A)) → k ≢ j → find j (insert k a m) ≡ find j m
unfolding find insert
find-insert_other k j a [] ne = ground arith
find-insert_other k j a (e ∷ m) ne = ground (arith, find-insert_other k j a m ne)

pub get-find :
    (tag key : ℕ) (m : TagMap) (slots : List (ℕ × GlobalSlot))
    → find tag m ≡ some slots
    → get_global_slot tag key m ≡ find key slots
unfolding get_global_slot
get-find tag key m slots e = ground (arith, e)

pub get-insert_slot :
    (tag key : ℕ) (s : GlobalSlot) (m : TagMap)
    → get_global_slot tag key (insert_slot tag key s m) ≡ some s
unfolding insert_slot
get-insert_slot tag key s m =
    get-find tag key _ _ (find-insert tag (insert key s (or_empty (find tag m))) m)
    ∙ find-insert key s (or_empty (find tag m))

-- The shared store decides.
pub get-core :
    (r : Registry) (tag key : ℕ) (s : GlobalSlot)
    → get_global_slot tag key r.core ≡ some s
    → get_global_memory_slot r tag key ≡ ok s
unfolding get_global_memory_slot
get-core r tag key s e = ground (arith, e)

-- The slots of one more pair are found.
pub exchange-append :
    (tag : ℕ) (ps : List (ℕ × ℕ)) (p : ℕ × ℕ) (r : Registry)
    → exchange_global_memory_slots tag (ps ++ (p ∷ [])) r
      ≡ exchange_global_memory_slots tag (p ∷ []) (exchange_global_memory_slots tag ps r)
unfolding exchange_global_memory_slots
exchange-append tag [] p r = refl
exchange-append tag (q ∷ ps) p r = exchange-append tag ps p _

pub exchange_keeps :
    (tag other : ℕ) (ps : List (ℕ × ℕ)) (r : Registry)
    → tag ≢ other
    → (find other (exchange_global_memory_slots tag ps r).core ≡ find other r.core)
      × ((exchange_global_memory_slots tag ps r).registered ≡ r.registered)
unfolding exchange_global_memory_slots insert_slot
exchange_keeps tag other [] r ne = (refl, refl)
exchange_keeps tag other (p ∷ ps) r ne =
    let (e, f) =
      exchange_keeps tag other ps
        (record r {
          core = insert_slot tag p.0 (record { tag = tag; key = p.0; source = p.1 }) r.core;
        })
        ne in
    (
      e
          ∙ find-insert_other tag other
              (insert p.0 (record { tag = tag; key = p.0; source = p.1 })
                (or_empty (find tag r.core)))
              r.core ne,
      f,
    )

-- A slot that the shared store holds is still found after it is deregistered.
deregistered_found :
    (r : Registry) {r' : Registry} (slot : GlobalSlot)
    → get_global_slot slot.tag slot.key r.core ≡ some slot
    → deregister_global_memory_slot r slot ≡ ok r'
    → get_global_memory_slot r' slot.tag slot.key ≡ ok slot
unfolding get_global_memory_slot deregister_global_memory_slot
deregistered_found r slot e f = ground (arith, e, f)

-- A slot that the shared store holds is still found after it is destroyed and its tag is fenced,
-- and is then registered no less than before.
destroyed_found :
    (r : Registry) (slot : GlobalSlot)
    → get_global_slot slot.tag slot.key r.core ≡ some slot
    → (get_global_memory_slot (fence slot.tag (destroy_global_memory_slot r slot)) slot.tag slot.key
        ≡ ok slot)
      × ((fence slot.tag (destroy_global_memory_slot r slot)).registered
          ≡ (fence slot.tag r).registered)
unfolding get_global_memory_slot destroy_global_memory_slot fence
destroyed_found r slot e = (ground (arith, e), refl)

-- A slot that the shared store holds is still found after it is deregistered, where that does not
-- throw, and after it is destroyed and its tag is fenced; the registered slots are then the same as
-- without the destruction.
pub removed_found :
    (r : Registry) {r' : Registry} (slot : GlobalSlot)
    → get_global_slot slot.tag slot.key r.core ≡ some slot
    → deregister_global_memory_slot r slot ≡ ok r'
    → (get_global_memory_slot r' slot.tag slot.key ≡ ok slot)
      × (get_global_memory_slot
            (fence slot.tag (destroy_global_memory_slot r slot))
            slot.tag
            slot.key
          ≡ ok slot)
      × ((fence slot.tag (destroy_global_memory_slot r slot)).registered
          ≡ (fence slot.tag r).registered)
removed_found r {r'} slot e f =
    let (g, h) = destroyed_found r slot e in (deregistered_found r {r' = r'} slot e f, g, h)
