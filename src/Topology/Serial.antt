-- ===== src/Topology/Serial.antt =====
-- `serialize`, `deserialize` and `verify` of include/hicr/core/topology.hpp, device.hpp,
-- memorySpace.hpp and computeResource.hpp. What is deserialized is of the base classes.
pub mod Written
pub mod Roundtrip
pub mod Failures
use Prim.Native.String.{String}
use hi_cr.Prelude.{
  ℕ, Bool, if◌then◌else◌, length, ◌==◌, List, [], ◌∷◌, map, Result, ok, err, require, ◌>>=◌, ◌>>◌,
  logic,
}
use hi_cr.Json.{Json, get_string, get_array, put_array}
use hi_cr.Topology.{ComputeResource, MemorySpace, Device, Topology, add_device}

module _ {J : Type 0} (j : Json J) where
  unfoldable pub serialize_resource : ComputeResource J → J
  serialize_resource r = j.set (r.serialize_impl j.null) "Type" (j.of_text r.type_name)

  unfoldable pub serialize_space : MemorySpace J → J
  serialize_space m =
      j.set (j.set (m.serialize_impl j.null) "Type" (j.of_text m.type_name)) "Size"
        (j.of_number m.size)

  unfoldable pub serialize_device : Device J → J
  serialize_device d =
      let output = d.serialize_impl (j.set j.null "Type" (j.of_text d.type_name)) in
      let output' =
        put_array j output "Compute Resources" (map serialize_resource d.compute_resources) in
      put_array j output' "Memory Spaces" (map serialize_space d.memory_spaces)

  unfoldable pub serialize : Topology J → J
  serialize t =
      j.set (put_array j j.null "Devices" (map serialize_device t.devices)) "Metadata" t.metadata

  -- The method of the base class, which the constructor calls, reads the type again.
  unfoldable pub deserialize_resource : J → Result (ComputeResource J)
  deserialize_resource input = do
    first ← get_string j input "Type"
    type_name ← get_string j input "Type"
    ok (record { type_name = type_name; serialize_impl = λ output. output })

  unfoldable pub deserialize_space : J → Result (MemorySpace J)
  deserialize_space input = do
    type_name ← get_string j input "Type"
    require (j.contains input "Size") logic
    require (j.is_unsigned (j.entry input "Size")) logic
    ok (record {
      type_name = type_name;
      size = j.number (j.entry input "Size");
      serialize_impl = λ output. output;
    })

  -- the loop that checks the `Type` of each entry
  unfoldable pub check_types : List J → Result (Unit {0})
  check_types [] = ok tt
  check_types (c ∷ cs) = do
    require (j.contains c "Type") logic
    require (j.is_string (j.entry c "Type")) logic
    check_types cs

  -- The checks of a list of `Device::deserialize`.
  unfoldable pub check_list : J → String → Result (Unit {0})
  unfolding check_types
  check_list input key = do
    require (j.contains input key) logic
    require (j.is_array (j.entry input key)) logic
    check_types (j.elements (j.entry input key))

  unfoldable pub read_each : {A : Type 0} → (J → Result A) → List J → Result (List A)
  read_each read [] = ok []
  read_each read (x ∷ xs) = do a ← read x; rest ← read_each read xs; ok (a ∷ rest)

  unfoldable pub deserialize_device : J → Result (Device J)
  unfolding check_list read_each
  deserialize_device input = do
    type_name ← get_string j input "Type"
    check_list input "Compute Resources"
    check_list input "Memory Spaces"
    resources ← read_each deserialize_resource (j.elements (j.entry input "Compute Resources"))
    spaces ← read_each deserialize_space (j.elements (j.entry input "Memory Spaces"))
    require (length resources == length (j.elements (j.entry input "Compute Resources"))) logic
    require (length spaces == length (j.elements (j.entry input "Memory Spaces"))) logic
    ok (record {
      type_name = type_name;
      compute_resources = resources;
      memory_spaces = spaces;
      serialize_impl = λ output. output;
    })

  -- Devices are added one by one, and stay if a later one throws.
  unfoldable pub read_devices : List J → Topology J → Topology J × Result (Unit {0})
  read_devices [] t = (t, ok tt)
  read_devices (x ∷ xs) t = elim (deserialize_device x) [
    | err e ↦ (t, err e)
    | ok d ↦ read_devices xs (add_device d t)
  ]

  read_list : J → Topology J → Topology J × Result (Unit {0})
  unfolding read_devices
  read_list input t =
      if j.contains input "Devices"
      then elim (get_array j input "Devices") [
        | err e ↦ (t, err e)
        | ok devices ↦ read_devices devices t
      ]
      else (t, ok tt)

  -- the metadata, if nothing was thrown before
  read_metadata : J → Topology J × Result (Unit {0}) → Topology J × Result (Unit {0})
  read_metadata input (t, err e) = (t, err e)
  read_metadata input (t, ok done) = (
    if j.contains input "Metadata" then record t { metadata = j.entry input "Metadata" } else t,
    ok tt,
  )

  unfoldable pub deserialize : J → Topology J → Topology J × Result (Unit {0})
  unfolding read_list read_metadata
  deserialize input t = read_metadata input (read_list input t)

  unfoldable pub verify : J → Result (Unit {0})
  unfolding check_list
  verify input = check_list input "Devices"
