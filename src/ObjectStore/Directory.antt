-- ===== src/ObjectStore/Directory.antt =====
-- What publication, destruction and reads leave in the directory and in the object.
use hi_cr.Prelude.{
  ℕ, ◌≡◌, ◌≢◌, ◌==◌, none, some, List, [], ◌∷◌, ok, err, logic, refl, true, Option-cases, inl, inr,
  ◌⊎◌, arith, ◌∙◌,
}
use hi_cr.Registry.{find, insert, erase}
use hi_cr.Registry.Lookup.{find-insert, find-insert_other}
use hi_cr.ObjectStore.{
  DataObject, Managers, Objects, compound_id, insert_new, publish, get, destroy, own_slot, fetch,
  free_fetched, destroy_global,
}

find-erase : {A : Type 0} (k : ℕ) (m : List (ℕ × A)) → find k (erase k m) ≡ none
unfolding find erase
find-erase k [] = refl
find-erase k (e ∷ m) = ground (arith, find-erase k m)

find-erase_other : {A : Type 0} (k j : ℕ) (m : List (ℕ × A)) → k ≢ j → find j (erase k m) ≡ find j m
unfolding find erase
find-erase_other k j [] ne = refl
find-erase_other k j (e ∷ m) ne = ground (arith, find-erase_other k j m ne)

-- The identifier of an object.
abbrev pub key : {L G : Type 0} → DataObject L G → ℕ
key o = compound_id o.instance_id o.id

module _ {S L G : Type 0} (m : Managers S L G) where
  -- The object with its global slot.
  abbrev pub published : DataObject L G → G → DataObject L G
  published o g = record o { global_slot = some g }

  publish_lem :
      (tag : ℕ) (s s' : S) (objects : Objects m) (o : DataObject L G) (g : G)
      → o.global_slot ≡ none
      → find (key o) objects ≡ none
      → m.promote s o.local_slot tag ≡ (s', ok g)
      → publish m tag s objects o
        ≡ (s', insert (key o) (published o g) objects, published o g, ok tt)
  unfolding publish insert_new
  publish_lem tag s s' objects o g e f p = ground (arith, e, p, f)

  destroy_lem :
      (own : ℕ) (s s' : S) (objects : Objects m) (o : DataObject L G) (g : G)
      → o.global_slot ≡ some g
      → o.instance_id ≡ own
      → m.destroy_promoted s g ≡ (s', ok tt)
      → destroy m own s objects o ≡ (s', erase (key o) objects, ok tt)
  unfolding destroy free_fetched destroy_global
  destroy_lem own s s' objects o g e f p =
      let same : (o.instance_id == own) ≡ true = ground arith in ground (arith, same, e, p)

  publish_again :
      (tag : ℕ) (s s' : S) (objects : Objects m) (o : DataObject L G) (g : G)
      → m.destroy_promoted s g ≡ (s', ok tt)
      → publish m tag s objects (published o g) ≡ (s', objects, published o g, err logic)
  unfolding publish
  publish_again tag s s' objects o g d = ground (arith, d)

  -- The owner of an unpublished object, whose identifier the directory does not have, publishes it,
  -- where promotion and destruction of the slot succeed: the directory then has the object with its
  -- global slot. Publishing it again destroys that slot and is a logic error, after which the object
  -- and the directory still refer to it; destroying it instead removes it from the directory. Any
  -- other identifier is found as before all the time.
  pub publish_then :
      (tag own j : ℕ) (s s' s'' : S) (objects : Objects m) (o : DataObject L G) (g : G)
      → o.global_slot ≡ none
      → o.instance_id ≡ own
      → find (key o) objects ≡ none
      → m.promote s o.local_slot tag ≡ (s', ok g)
      → m.destroy_promoted s' g ≡ (s'', ok tt)
      → key o ≢ j
      → (between after : Objects m) × (publish m tag s objects o
          ≡ (s', between, published o g, ok tt))
        × (find (key o) between ≡ some (published o g))
        × (find j between ≡ find j objects)
        × (publish m tag s' between (published o g) ≡ (s'', between, published o g, err logic))
        × (destroy m own s' between (published o g) ≡ (s'', after, ok tt))
        × (find (key o) after ≡ none)
        × (find j after ≡ find j objects)
  publish_then tag own j s s' s'' objects o g e f absent p d ne =
      let between = insert (key o) (published o g) objects in
      let kept = find-insert_other (key o) j (published o g) objects ne in
      (
        between,
        erase (key o) between,
        publish_lem tag s s' objects o g e absent p,
        find-insert (key o) (published o g) objects,
        kept,
        publish_again tag s' s'' between o g d,
        destroy_lem own s' s'' between (published o g) g refl f d,
        find-erase (key o) between,
        find-erase_other (key o) j between ne ∙ kept,
      )

  -- The first read of an object without a local slot, where the allocation succeeds: with a global
  -- slot, from which the copy succeeds, it gives the new slot, which the object keeps; without one
  -- it is a logic error. Either way the directory then has the object as it was before, without the
  -- local slot.
  pub get_first :
      (s s' s'' : S) (objects : Objects m) (o : DataObject L G) (l : L)
      → o.local_slot ≡ none
      → m.allocate s o.size ≡ (s', ok l)
      → ((g : G) → m.memcpy s' l g o.size ≡ (s'', ok tt))
      → (objects' : Objects m) × (find (key o) objects' ≡ some o)
        × (((g : G) × (o.global_slot ≡ some g)
              × (get m s objects o ≡ (s'', objects', record o { local_slot = some l }, ok l)))
            ⊎ ((o.global_slot ≡ none)
                × (get m s objects o
                    ≡ (s', objects', record o { local_slot = some l }, err logic))))
  unfolding get own_slot fetch
  get_first s s' s'' objects o l e a c = (
    insert (key o) o objects,
    find-insert (key o) o objects,
    elim (Option-cases o.global_slot) [
      | inl h ↦ inr (h, ground (arith, e, a, h))
      | inr (g, h) ↦ inl (g, h, ground (arith, e, a, h, c g))
    ],
  )
