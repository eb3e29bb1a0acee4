-- ===== src/Topology/Serial/Roundtrip.antt =====
-- What was serialized is read back, as objects of the base classes.
use Prim.Native.String.{String}
use hi_cr.Prelude.{
  ◌<◌, ◌^◌, ◌≡◌, true, List, [], ◌∷◌, ◌++◌, map, length, refl, sym, ◌∙◌, ap, inl, inr, ok,
  append-nil, append_assoc, arith,
}
use hi_cr.Json.{Json, JsonLaws, check_entry, get_array, put_array}
use hi_cr.Json.Writes.{set-Wrote, put_array-Wrote}
use hi_cr.Topology.{ComputeResource, MemorySpace, Device, Topology, add_device}
use hi_cr.Topology.Serial.{
  serialize_resource, serialize_space, serialize_device, serialize, deserialize_resource,
  deserialize_space, read_each, deserialize_device, read_devices, read_list, read_metadata,
  deserialize, verify,
}
use hi_cr.Topology.Serial.Written.{
  ne_of, eq_true, KeepsType, All, IsSerializable, base_resource, base_space, base_device, Typed,
  HasType, HoldsList, get_type, serialize_resource-Typed, resource_back, serialize_space_lem,
  space_back, Typed-HasType, check_list_ok, read_each_back, All-map, length-map, HoldsList-keeps,
  serialize_device_lem,
}

module _ {J : Type 0} (j : Json J) (laws : JsonLaws j) where
  device_read :
      (v : J) (kind : String) (cs ms : List J) (rs : List (ComputeResource J))
      (ss : List (MemorySpace J))
      → Typed j laws v kind
      → HoldsList j laws v "Compute Resources" cs
      → HoldsList j laws v "Memory Spaces" ms
      → All j (HasType j laws) cs
      → All j (HasType j laws) ms
      → (read_each j (deserialize_resource j) cs ≡ ok rs) × (length rs ≡ length cs)
      → (read_each j (deserialize_space j) ms ≡ ok ss) × (length ss ≡ length ms)
      → deserialize_device j v
        ≡ ok (record {
          type_name = kind;
          compute_resources = rs;
          memory_spaces = ss;
          serialize_impl = λ output. output;
        })
  unfolding deserialize_device
  device_read v kind cs ms rs ss typed (c, a, e) (c', a', e') h h' (r, n) (r', n') = rw (
    get_type j laws v kind typed,
    check_list_ok j laws v "Compute Resources" cs c a e h,
    check_list_ok j laws v "Memory Spaces" ms c' a' e' h',
    e,
    e',
    r,
    r',
    eq_true n,
    eq_true n',
  )

  device_back :
      (d : Device J)
      → IsSerializable j d
      → deserialize_device j (serialize_device j d) ≡ ok (base_device j d)
  device_back d s =
      let (typed, resources, spaces) = serialize_device_lem j laws d s.own in
      device_read (serialize_device j d) d.type_name _ _ _ _ typed resources spaces
        (All-map j laws (λ r. KeepsType j r.serialize_impl) (HasType j laws) (serialize_resource j)
          (λ r h. Typed-HasType j laws _ _ (serialize_resource-Typed j laws r h))
          d.compute_resources s.resources)
        (All-map j laws (λ m. KeepsType j m.serialize_impl × (m.size < 2 ^ 64)) (HasType j laws)
          (serialize_space j) (λ m h. Typed-HasType j laws _ _ (serialize_space_lem j laws m h.0).0)
          d.memory_spaces s.spaces)
        (
          read_each_back j laws (λ r. KeepsType j r.serialize_impl) (serialize_resource j)
              (deserialize_resource j) (base_resource j) (resource_back j laws) d.compute_resources
              s.resources,
          length-map j laws (base_resource j) d.compute_resources
              ∙ sym (length-map j laws (serialize_resource j) d.compute_resources),
        )
        (
          read_each_back j laws (λ m. KeepsType j m.serialize_impl × (m.size < 2 ^ 64))
              (serialize_space j) (deserialize_space j) (base_space j)
              (λ m h. space_back j laws m h.0 h.1) d.memory_spaces s.spaces,
          length-map j laws (base_space j) d.memory_spaces
              ∙ sym (length-map j laws (serialize_space j) d.memory_spaces),
        )

  devices_back :
      (ds : List (Device J)) (t : Topology J)
      → All j (IsSerializable j) ds
      → read_devices j (map (serialize_device j) ds) t
        ≡ (record t { devices = t.devices ++ map (base_device j) ds }, ok tt)
  unfolding read_devices add_device
  devices_back [] t h =
      ap (λ (l : List (Device J)). (record t { devices = l }, ok tt)) (sym (append-nil t.devices))
  devices_back (d ∷ ds) t (s, h) =
      rw (device_back d s, read_devices)
        (devices_back ds (add_device (base_device j d) t) h
          ∙ ap (λ (l : List (Device J)). (record t { devices = l }, ok tt))
              (append_assoc t.devices (base_device j d ∷ []) (map (base_device j) ds)))

  read_list_ok :
      (v : J) (xs : List J) (t t' : Topology J)
      → j.is_object v ≡ true
      → HoldsList j laws v "Devices" xs
      → read_devices j xs t ≡ (t', ok tt)
      → read_list j v t ≡ (t', ok tt)
  unfolding read_list get_array check_entry
  read_list_ok v xs t t' o (c, a, l) r = ground (arith)

  deserialize_list :
      (v m : J) (xs : List J) (t t' : Topology J)
      → j.is_object v ≡ true
      → HoldsList j laws v "Devices" xs
      → (j.contains v "Metadata" ≡ true) × (j.entry v "Metadata" ≡ m)
      → read_devices j xs t ≡ (t', ok tt)
      → deserialize j v t ≡ (record t' { metadata = m }, ok tt)
  unfolding deserialize read_metadata
  deserialize_list v m xs t t' o held (c, e) r = rw (read_list_ok v xs t t' o held r, c, e)

  -- Deserializing what serialize gave for a topology, into any topology, adds its devices behind
  -- those that are there, each with its type, its compute resources and its memory spaces in
  -- order, but as objects of the base classes, without the fields of their own; the metadata are
  -- those that were serialized. A check by verify succeeds. The sizes have 64 bits, and the
  -- methods of the classes write objects and leave the type.
  pub deserialize-serialize_topology :
      (t target : Topology J)
      → All j (IsSerializable j) t.devices
      → (deserialize j (serialize j t) target ≡ (
        record { metadata = t.metadata; devices = target.devices ++ map (base_device j) t.devices },
        ok tt,
      ))
        × (verify j (serialize j t) ≡ ok tt)
  unfolding serialize verify
  deserialize-serialize_topology t target h =
      let (w, a, l) =
        put_array-Wrote j laws (map (serialize_device j) t.devices) j.null "Devices" (inl refl) in
      let listed = put_array j j.null "Devices" (map (serialize_device j) t.devices) in
      let w' = set-Wrote j laws listed "Metadata" t.metadata (inr w.object) in
      let (c, a', l') =
        HoldsList-keeps j laws "Devices" (map (serialize_device j) t.devices) w'
          (ne_of "Devices" "Metadata" refl) (w.has, a, l) in
      (
        deserialize_list (j.set listed "Metadata" t.metadata) t.metadata _ target _ w'.object
            (c, a', l') (w'.has, laws.entry-set listed "Metadata" t.metadata (inr w.object))
            (devices_back t.devices target h),
        check_list_ok j laws (j.set listed "Metadata" t.metadata) "Devices" _ c a' l' (
            All-map j laws (IsSerializable j) (HasType j laws) (serialize_device j)
              (λ d s. Typed-HasType j laws _ _ (serialize_device_lem j laws d s.own).0) t.devices
              h),
      )
