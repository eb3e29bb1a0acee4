-- ===== src/Topology/Tests.antt =====
-- Topologies at concrete inputs, with JSON values as data.
use Prim.Native.String.{String}
use hi_cr.Prelude.{
  ℕ, ◌<◌, ◌^◌, ◌≤◌, ◌≡◌, ◌↔◌, true, false, [], ◌∷◌, ◌++◌, map, refl, ok, err, logic, inl, inr,
  arith,
}
use hi_cr.Json.{get_array, get_string, put_array}
use hi_cr.Json.Values.{
  Value, values, values-Laws, null, string, number, object, array, field, end, cons, nil, set,
  set-adds,
}
use hi_cr.Topology.{
  ComputeResource, MemorySpace, Device, Topology, take_first, all_taken, resource_fits, space_fits,
  device_fits, add_device, is_subset,
}
use hi_cr.Topology.Assign.{Assigned}
use hi_cr.Topology.Subset.{DeviceSuits, two_spaces, is_subset-Assigned, is_subset_order}
use hi_cr.Topology.Counts.{count, resources_taken_iff}
use hi_cr.Topology.Serial.{
  deserialize_resource, deserialize_space, serialize, serialize_device, serialize_resource,
  serialize_space, deserialize, verify, deserialize_device,
}
use hi_cr.Topology.Serial.Roundtrip.{deserialize-serialize_topology}
use hi_cr.Topology.Serial.Written.{ne_of, KeepsType, IsSerializable, base_device}
use hi_cr.Topology.Serial.Failures.{Listed, MetadataRead, deserialize_lem}

abbrev core : ComputeResource Value
core = record { type_name = "Processing Unit"; serialize_impl = λ v. v }

abbrev ram : ℕ → MemorySpace Value
ram size = record { type_name = "RAM"; size = size; serialize_impl = λ v. v }

-- The field that the device of hwloc adds.
abbrev numa : ℕ → ℕ → Device Value
numa id size = record {
  type_name = "NUMA Domain";
  compute_resources = core ∷ core ∷ [];
  memory_spaces = ram size ∷ [];
  serialize_impl = λ v. set v "NUMA Domain Id" (number id);
}

abbrev node : Topology Value
node = record { metadata = string "node"; devices = numa 0 64 ∷ numa 1 128 ∷ [] }

abbrev request : Topology Value
request = record { metadata = null; devices = numa 7 100 ∷ [] }

node_has : is_subset node request ≡ true
unfolding is_subset device_fits resource_fits space_fits all_taken take_first
node_has = refl

request_has_not : is_subset request node ≡ false
unfolding is_subset device_fits resource_fits space_fits all_taken take_first
request_has_not = refl

is_subset-Assigned_example : Assigned DeviceSuits request.devices node.devices
is_subset-Assigned_example = is_subset-Assigned node request node_has

abbrev large : Topology Value
large = two_spaces "GPU" "HBM" 16 8 (λ v. v) null

abbrev small : Topology Value
small = two_spaces "GPU" "HBM" 8 16 (λ v. v) null

is_subset_order_example :
    (is_subset large small ≡ false)
    × Assigned DeviceSuits small.devices large.devices
    × (is_subset small large ≡ true)
is_subset_order_example = is_subset_order "GPU" "HBM" 8 16 (λ v. v) null (omega arith)

abbrev gpu : ComputeResource Value
gpu = record { type_name = "GPU"; serialize_impl = λ v. v }

resources_taken_iff_example :
    (all_taken resource_fits (core ∷ gpu ∷ []) (gpu ∷ core ∷ core ∷ []) ≡ true)
    ↔ ((kind : String) → count kind (core ∷ gpu ∷ []) ≤ count kind (gpu ∷ core ∷ core ∷ []))
resources_taken_iff_example = resources_taken_iff (core ∷ gpu ∷ []) (gpu ∷ core ∷ core ∷ [])

plain-KeepsType : KeepsType values (λ v. v)
plain-KeepsType = (inl refl, λ v o c. (o, c, refl))

numa_id-KeepsType : (id : ℕ) → KeepsType values (λ v. set v "NUMA Domain Id" (number id))
numa_id-KeepsType id = (
  inr refl,
  λ v o c.
      let (c', e) =
        set-adds "NUMA Domain Id" (number id) "Type" v (ne_of "Type" "NUMA Domain Id" refl) o c in
      (values-Laws.set_object v "NUMA Domain Id" (number id) (inr o), c', e),
)

numa-IsSerializable : (id size : ℕ) → size < 2 ^ 64 → IsSerializable values (numa id size)
numa-IsSerializable id size h = record {
  own = numa_id-KeepsType id;
  resources = (plain-KeepsType, (plain-KeepsType, tt));
  spaces = ((plain-KeepsType, h), tt);
}

deserialize-serialize_topology_example :
    (deserialize values (serialize values node) request ≡ (
      record {
        metadata = string "node";
        devices = numa 7 100 ∷ map (base_device values) node.devices;
      },
      ok tt,
    ))
    × (verify values (serialize values node) ≡ ok tt)
deserialize-serialize_topology_example =
    deserialize-serialize_topology values values-Laws node request
      (numa-IsSerializable 0 64 (omega arith), (numa-IsSerializable 1 128 (omega arith), tt))

-- A second device that is not described: the first one is added all the same.
abbrev broken : Value
broken =
    object
      (field "Devices" (array (cons (serialize_device values (numa 0 64)) (cons null nil))) end)

deserialize_lem_example :
    Listed values broken node (deserialize values broken node).0 (deserialize values broken node).1
    × MetadataRead values broken node
        (deserialize values broken node).0
        (deserialize values broken node).1
deserialize_lem_example = deserialize_lem values broken node

broken_fails :
    deserialize values broken node
    ≡ (record node { devices = node.devices ++ base_device values (numa 0 64) ∷ [] }, err logic)
unfolding deserialize deserialize_device serialize_device serialize_resource serialize_space
    get_array get_string put_array deserialize_resource deserialize_space add_device
broken_fails = refl
