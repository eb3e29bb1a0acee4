-- ===== src/Topology/Subset.antt =====
-- Topology.isSubset against its meaning: an assignment of the devices needed to different devices
-- that have what they need.
use Prim.Native.String.{String}
use text.Mathlib.TextEquality.{eq_iff}
use hi_cr.Prelude.{
  ℕ, ◌≤◌, ◌<◌, Bool, true, false, if◌then◌else◌, List, [], ◌∷◌, ◌++◌, ◌≡◌, refl, sym, arith,
  append_assoc, append-nil, ◌∙◌,
}
use mathlib.Core.List.Perm
use hi_cr.Topology.{
  ComputeResource, MemorySpace, Device, Topology, all_taken, resource_fits, space_fits, device_fits,
  add_device, add_devices, take_first, merge, is_subset,
}
use hi_cr.Topology.Assign.{Assigned, all_taken-Assigned, all_taken-append, all_taken_self}

all_three :
    (a b c : Bool)
    → (if a then if b then c else false else false) ≡ true
    → (a ≡ true) × (b ≡ true) × (c ≡ true)
all_three a b c e = ground arith

module _ {J : Type 0} where
  -- What a device needs, and where it finds it.
  abbrev pub ResourceSuits : ComputeResource J → ComputeResource J → Type 0
  ResourceSuits need r = r.type_name ≡ need.type_name

  abbrev pub SpaceSuits : MemorySpace J → MemorySpace J → Type 0
  SpaceSuits need m = (m.type_name ≡ need.type_name) × (need.size ≤ m.size)

  abbrev pub DeviceSuits : Device J → Device J → Type 0
  DeviceSuits need d =
      (d.type_name ≡ need.type_name)
      × Assigned ResourceSuits need.compute_resources d.compute_resources
      × Assigned SpaceSuits need.memory_spaces d.memory_spaces

  resource_fits-Suits : (n r : ComputeResource J) → resource_fits n r ≡ true → ResourceSuits n r
  unfolding resource_fits
  resource_fits-Suits n r e = (eq_iff r.type_name n.type_name).0 e

  space_fits-Suits : (n m : MemorySpace J) → space_fits n m ≡ true → SpaceSuits n m
  unfolding space_fits
  space_fits-Suits n m e = ground (arith, eq_iff m.type_name n.type_name)

  device_fits-Suits : (n d : Device J) → device_fits n d ≡ true → DeviceSuits n d
  unfolding device_fits
  device_fits-Suits n d e =
      let (same, resources, spaces) = all_three _ _ _ e in
      (
        (eq_iff d.type_name n.type_name).0 same,
        all_taken-Assigned resource_fits ResourceSuits resource_fits-Suits n.compute_resources
            d.compute_resources resources,
        all_taken-Assigned space_fits SpaceSuits space_fits-Suits n.memory_spaces d.memory_spaces
            spaces,
      )

  -- If isSubset says that one topology is in another, then every device of it has a device of its
  -- own there, of the same type, in which every compute resource has one of its own of the same
  -- type, and every memory space has one of its own of the same type and at least its size.
  pub is_subset-Assigned :
      (t1 t2 : Topology J) → is_subset t1 t2 ≡ true → Assigned DeviceSuits t2.devices t1.devices
  unfolding is_subset
  is_subset-Assigned t1 t2 e =
      all_taken-Assigned device_fits DeviceSuits device_fits-Suits t2.devices t1.devices e

  resource_fits_self : (r : ComputeResource J) → resource_fits r r ≡ true
  unfolding resource_fits
  resource_fits_self r = (eq_iff r.type_name r.type_name).1 refl

  space_fits_self : (m : MemorySpace J) → space_fits m m ≡ true
  unfolding space_fits
  space_fits_self m = ground (arith, eq_iff m.type_name m.type_name)

  device_fits_self : (d : Device J) → device_fits d d ≡ true
  unfolding device_fits
  device_fits_self d = rw (
    (eq_iff d.type_name d.type_name).1 refl,
    all_taken_self resource_fits resource_fits_self d.compute_resources,
    all_taken_self space_fits space_fits_self d.memory_spaces,
  )

  devices-add_devices :
      (ds : List (Device J)) (t : Topology J) → (add_devices ds t).devices ≡ t.devices ++ ds
  unfolding add_devices add_device
  devices-add_devices [] t = sym (append-nil t.devices)
  devices-add_devices (d ∷ ds) t =
      devices-add_devices ds (add_device d t) ∙ append_assoc t.devices (d ∷ []) ds

  devices-merge : (t source : Topology J) → (merge t source).devices ≡ t.devices ++ source.devices
  unfolding merge
  devices-merge t source = devices-add_devices source.devices t

  -- A topology that another is merged into still has, after it, all that it had before, and it
  -- lists its own devices first and then those of the other; all it needs, it also has itself.
  pub is_subset-merge :
      (t source : Topology J)
      → (is_subset (merge t source) t ≡ true)
        × ((merge t source).devices ≡ t.devices ++ source.devices)
        × (is_subset t t ≡ true)
  unfolding is_subset
  is_subset-merge t source = (
    rw (devices-merge t source)
        (all_taken-append device_fits device_fits_self t.devices source.devices),
    devices-merge t source,
    all_taken_self device_fits device_fits_self t.devices,
  )

  abbrev pub two_sizes : String → ℕ → ℕ → (J → J) → List (MemorySpace J)
  two_sizes space first second extra =
      record { type_name = space; size = first; serialize_impl = extra }
      ∷ record { type_name = space; size = second; serialize_impl = extra }
      ∷ []

  -- A topology of one device with two memory spaces.
  abbrev pub two_spaces : String → String → ℕ → ℕ → (J → J) → J → Topology J
  two_spaces kind space first second extra metadata = record {
    metadata = metadata;
    devices =
        record {
          type_name = kind;
          compute_resources = [];
          memory_spaces = two_sizes space first second extra;
          serialize_impl = extra;
        }
        ∷ [];
  }

  -- The test depends on the order of the memory spaces: for sizes a < b, a device that lists b and
  -- then a is said not to have what one needs that lists a and then b, though each
  -- space has one of its own size there. The other way round the test succeeds.
  pub is_subset_order :
      (kind space : String) (a b : ℕ) (extra : J → J) (metadata : J)
      → a < b
      → let large = two_spaces kind space b a extra metadata in
        let small = two_spaces kind space a b extra metadata in
        (is_subset large small ≡ false)
        × Assigned DeviceSuits small.devices large.devices
        × (is_subset small large ≡ true)
  unfolding is_subset device_fits space_fits all_taken take_first
  is_subset_order kind space a b extra metadata lt = (
    ground (arith, eq_iff kind kind, eq_iff space space),
    (
      (two_spaces kind space b a extra metadata).devices,
      [],
      Perm.rfl,
      (
        (
          refl,
          ([], [], Perm.rfl, tt),
          (
            two_sizes space a b extra,
            [],
            Perm.swap _ _ [],
            ((refl, omega arith), ((refl, omega arith), tt)),
          ),
        ),
        tt,
      ),
    ),
    ground (arith, eq_iff kind kind, eq_iff space space),
  )
