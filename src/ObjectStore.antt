-- ===== src/ObjectStore.antt =====
-- include/hicr/frontends/objectStore: data objects that one instance publishes and others fetch.
-- Promotion and destruction of global slots, and the allocation of local ones, are the backend's,
-- given as parameters over a state of theirs. `L` and `G` name local and global
-- slots; a null pointer is `none`. A shared pointer in the directory is the object at that time.
pub mod Ids
pub mod Directory
pub mod Lpf
mod Tests
use hi_cr.Prelude.{
  ℕ, ◌+◌, ◌^◌, ◌%◌, ◌*◌, ◌==◌, not, if◌then◌else◌, Option, none, some, List, Result, ok, err, ◌>>=◌,
  ◌>>◌, logic,
}
use hi_cr.Memory.{read}
use hi_cr.Registry.{find, insert, erase}

-- `DataObject`
pub record DataObject (L G : Type 0) : Type 0 where
  pub instance_id : ℕ
  pub id : ℕ
  pub size : ℕ
  pub local_slot : Option L
  pub global_slot : Option G

-- `serializedMetadata_t`
pub record Handle : Type 0 where
  pub instance_id : ℕ
  pub id : ℕ
  pub size : ℕ
  pub serialized_global_slot : List ℕ

-- What the store calls of the memory manager and of the communication manager.
pub record Managers (S L G : Type 0) : Type 0 where
  pub slot_size : L → ℕ
  pub allocate : S → ℕ → S × Result L
  pub free : S → L → S × Result (Unit {0})
  pub promote : S → Option L → ℕ → S × Result G
  pub destroy_promoted : S → G → S × Result (Unit {0})
  pub memcpy : S → L → G → ℕ → S × Result (Unit {0})

-- `serializeGlobalMemorySlot` and `deserializeGlobalMemorySlot`, which only some backends have.
pub record Serializer (G : Type 0) : Type 0 where
  pub serialize_slot : Option G → Result (ℕ → ℕ)
  pub deserialize_slot : List ℕ → ℕ → Result (Option G)

-- The operands of the `|` have no bit in common.
unfoldable pub compound_id : ℕ → ℕ → ℕ
compound_id instance_id id = instance_id * 2 ^ 32 % 2 ^ 64 + id

module _ {S L G : Type 0} (m : Managers S L G) where
  -- The constructor of `DataObject`.
  unfoldable pub make_object : ℕ → ℕ → Option L → DataObject L G
  make_object instance_id id slot = record {
    instance_id = instance_id;
    id = id;
    size = elim slot [ none ↦ 0 | some l ↦ m.slot_size l ];
    local_slot = slot;
    global_slot = none;
  }

  -- `createObject` of a store of the instance, from a slot.
  unfoldable pub create_object : ℕ → L → ℕ → DataObject L G
  create_object instance_id slot id = make_object instance_id id (some slot)

  abbrev pub Objects : Type 0
  Objects = List (ℕ × DataObject L G)

  -- `std::map::insert`, which keeps an entry that is there.
  insert_new : ℕ → DataObject L G → Objects → Objects
  insert_new k o objects = elim (find k objects) [ none ↦ insert k o objects | some old ↦ objects ]

  -- What a call leaves: the backend, the directory and the object; and its result.
  abbrev pub Effect : Type 0 → Type 0
  Effect A = S × Objects × DataObject L G × Result A

  unfoldable pub publish : ℕ → S → Objects → DataObject L G → Effect (Unit {0})
  unfolding insert_new
  publish tag s objects o = elim o.global_slot [
    | some g ↦
        let (s', destroyed) = m.destroy_promoted s g in (s', objects, o, destroyed >> err logic)
    | none ↦
        let (s', promoted) = m.promote s o.local_slot tag in
        elim promoted [
          | err e ↦ (s', objects, o, err e)
          | ok g ↦
              let o' : DataObject L G = record o { global_slot = some g } in
              (s', insert_new (compound_id o.instance_id o.id) o' objects, o', ok tt)
        ]
  ]

  -- The local slot of the object, allocated where there is none.
  unfoldable pub own_slot : S → DataObject L G → S × Result L
  own_slot s o = elim o.local_slot [ some l ↦ (s, ok l) | none ↦ m.allocate s o.size ]

  -- The part of `get` once the object has a local slot.
  unfoldable pub fetch : S → Objects → DataObject L G → L → Effect L
  fetch s objects o l = elim o.global_slot [
    | none ↦ (s, objects, o, err logic)
    | some g ↦ let (s', copied) = m.memcpy s l g o.size in (s', objects, o, copied >> ok l)
  ]

  unfoldable pub get : S → Objects → DataObject L G → Effect L
  unfolding own_slot fetch
  get s objects o =
      let objects' = insert (compound_id o.instance_id o.id) o objects in
      let (s', owned) = own_slot s o in
      elim owned [
        | err e ↦ (s', objects', o, err e)
        | ok l ↦ fetch s' objects' (record o { local_slot = some l }) l
      ]

  -- The local slot of a fetched object is freed.
  unfoldable pub free_fetched : ℕ → S → DataObject L G → S × Result (Unit {0})
  free_fetched own_instance s o =
      if not (o.instance_id == own_instance)
      then elim o.local_slot [ none ↦ (s, ok tt) | some l ↦ m.free s l ]
      else (s, ok tt)

  unfoldable pub destroy_global : S → DataObject L G → S × Result (Unit {0})
  destroy_global s o = elim o.global_slot [ none ↦ (s, ok tt) | some g ↦ m.destroy_promoted s g ]

  unfoldable pub destroy : ℕ → S → Objects → DataObject L G → S × Objects × Result (Unit {0})
  unfolding free_fetched destroy_global
  destroy own_instance s objects o =
      let (s', freed) = free_fetched own_instance s o in
      elim freed [
        | err e ↦ (s', objects, err e)
        | ok _ ↦
            let (s'', destroyed) = destroy_global s' o in
            elim destroyed [
              | err e ↦ (s'', objects, err e)
              | ok _ ↦ (s'', erase (compound_id o.instance_id o.id) objects, ok tt)
            ]
      ]

  -- The handle takes 28 bytes and the size of a `size_t`.
  unfoldable pub serialize : Serializer G → DataObject L G → Result Handle
  serialize z o = do
    bytes ← z.serialize_slot o.global_slot
    ok (record {
      instance_id = o.instance_id;
      id = o.id;
      size = o.size;
      serialized_global_slot = read bytes 0 36;
    })

  unfoldable pub deserialize : Serializer G → ℕ → Handle → Result (DataObject L G)
  unfolding make_object
  deserialize z tag h = do
    global ← z.deserialize_slot h.serialized_global_slot tag
    ok (record (make_object h.instance_id h.id none) { size = h.size; global_slot = global })
