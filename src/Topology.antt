-- ===== src/Topology.antt =====
-- include/hicr/core/topology.hpp with device.hpp, memorySpace.hpp and computeResource.hpp: the
-- devices of an instance, their merge, and the test whether one topology has what another needs.
-- `J` stands for nlohmann::json; `serialize_impl` is the virtual method with which a backend's
-- class adds its own fields to the JSON object. A shared pointer is the object itself, since
-- nothing here changes a device in place.
pub mod Assign
pub mod Subset
pub mod Counts
pub mod Serial
mod Tests
use Prim.Native.String.{String}
use text.Mathlib.Text.{◌==◌ as str_eq}
use hi_cr.Prelude.{
  ℕ, Bool, true, false, if◌then◌else◌, leb, Option, none, some, List, [], ◌∷◌, ◌++◌,
}
use mathlib.Core.Option

-- `ComputeResource`
pub record ComputeResource (J : Type 0) : Type 0 where
  pub type_name : String
  pub serialize_impl : J → J

-- `MemorySpace`
pub record MemorySpace (J : Type 0) : Type 0 where
  pub type_name : String
  pub size : ℕ
  pub serialize_impl : J → J

-- `Device`
pub record Device (J : Type 0) : Type 0 where
  pub type_name : String
  pub compute_resources : List (ComputeResource J)
  pub memory_spaces : List (MemorySpace J)
  pub serialize_impl : J → J

-- `Topology`
pub record Topology (J : Type 0) : Type 0 where
  pub metadata : J
  pub devices : List (Device J)

-- A search by iterator that erases the first entry that passes, and stops there.
unfoldable pub take_first {ℓ} : {A : Type ℓ} → (A → Bool) → List A → Option (List A)
take_first passes [] = none
take_first passes (x ∷ xs) =
    if passes x then some xs else Option.map (λ rest. x ∷ rest) (take_first passes xs)

-- The loop over the entries needed: each takes the first entry left that fits it.
unfoldable pub all_taken {ℓ κ} : {A : Type ℓ} {B : Type κ} → (B → A → Bool) → List B → List A → Bool
all_taken fits [] available = true
all_taken fits (need ∷ needs) available = elim (take_first (fits need) available) [
  | none ↦ false
  | some rest ↦ all_taken fits needs rest
]

module _ {J : Type 0} where
  unfoldable pub add_device : Device J → Topology J → Topology J
  add_device d t = record t { devices = t.devices ++ d ∷ [] }

  unfoldable pub add_devices : List (Device J) → Topology J → Topology J
  add_devices [] t = t
  add_devices (d ∷ ds) t = add_devices ds (add_device d t)

  -- the source is the second one
  unfoldable pub merge : Topology J → Topology J → Topology J
  unfolding add_devices
  merge t source = add_devices source.devices t

  -- What is needed comes first.
  unfoldable pub resource_fits : ComputeResource J → ComputeResource J → Bool
  resource_fits need r = str_eq r.type_name need.type_name

  unfoldable pub space_fits : MemorySpace J → MemorySpace J → Bool
  space_fits need m = if str_eq m.type_name need.type_name then leb need.size m.size else false

  unfoldable pub device_fits : Device J → Device J → Bool
  device_fits need d =
      if str_eq d.type_name need.type_name
      then if all_taken resource_fits need.compute_resources d.compute_resources
        then all_taken space_fits need.memory_spaces d.memory_spaces
        else false
      else false

  -- whether the first topology has what the second needs
  unfoldable pub is_subset : Topology J → Topology J → Bool
  is_subset t1 t2 = all_taken device_fits t2.devices t1.devices
