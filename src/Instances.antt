-- ===== src/Instances.antt =====
-- include/hicr/core/instanceManager.hpp over include/hicr/backends/pthreads/instanceManager.hpp,
-- instance.hpp and the instances of core.hpp: threads that share a core register there as
-- instances, wait for each other, and list all of them. A number names a thread by its handle. A
-- call that waits for a mutex that nobody will unlock gives `none`.
pub mod Register
pub mod Manage
mod Tests
use hi_cr.Prelude.{
  ℕ, zero, suc, ◌+◌, ltb, ◌==◌, not, if◌then◌else◌, add_size, Bool, true, false, Option, none, some,
  List, [], ◌∷◌, ◌++◌, map, Result, ok, err, ◌>>=◌, Error, logic, runtime,
}

-- `pthreads::Instance`, whose root is the instance 0.
pub record Instance : Type 0 where
  pub id : ℕ
  pub thread : ℕ

unfoldable pub is_root_instance : Instance → Bool
is_root_instance i = i.id == 0

-- `Core`, as far as instances go: a `std::map` is kept in the order of its keys.
pub record Core : Type 0 where
  pub instances : List (ℕ × Instance)
  pub next_id : ℕ
  pub locked : Bool

unfoldable pub fresh : Core
fresh = record { instances = []; next_id = 0; locked = false }

-- `map[key] = value`
unfoldable pub insert : ℕ → Instance → List (ℕ × Instance) → List (ℕ × Instance)
insert k i [] = (k, i) ∷ []
insert k i (e ∷ m) =
    if k == e.0 then (k, i) ∷ m else (if ltb k e.0 then (k, i) ∷ e ∷ m else e ∷ insert k i m)

-- `map.at(key)`, which throws if there is none.
unfoldable pub find : ℕ → List (ℕ × Instance) → Option Instance
find k [] = none
find k (e ∷ m) = if k == e.0 then some e.1 else find k m

unfoldable pub add_thread : ℕ → Core → Option (Core × Instance)
add_thread thread c =
    let i : Instance = record { id = c.next_id; thread = thread } in
    if c.locked
    then none
    else some
        (record c { instances = insert thread i c.instances; next_id = add_size c.next_id 1 }, i)

unfoldable pub get_instances : Core → Option (List Instance)
get_instances c = if c.locked then none else some (map (λ e. e.1) c.instances)

-- The exception of `at` leaves the mutex locked. It is no HiCR exception, and stands as `none`.
unfoldable pub get_instance : ℕ → Core → Option (Core × Option Instance)
get_instance thread c =
    if c.locked
    then none
    else some (elim (find thread c.instances) [
      | none ↦ (record c { locked = true }, none)
      | some i ↦ (c, some i)
    ])

-- The threads in the order in which they enter the constructor of the instance manager.
unfoldable pub register_all : List ℕ → Core → Option Core
register_all [] c = some c
register_all (thread ∷ threads) c = elim (add_thread thread c) [
  | none ↦ none
  | some (c', i) ↦ register_all threads c'
]

-- `InstanceManager`
pub record Manager : Type 0 where
  pub instances : List Instance
  pub current_instance : Instance
  pub root_instance_id : ℕ

-- The rest of the constructor, once all threads have passed the barrier.
unfoldable pub make_manager : Instance → Core → Option Manager
make_manager current c = elim (get_instances c) [
  | none ↦ none
  | some instances ↦
      some (record { instances = instances; current_instance = current; root_instance_id = 0 })
]

-- `createInstance` over what a backend's implementation gives: an exception or a pointer.
unfoldable pub create_instance :
    Result (Option Instance) → Manager → Manager × Result (Option Instance)
create_instance (err e) m = (m, err e)
create_instance (ok none) m = (m, ok none)
create_instance (ok (some i)) m = (record m { instances = m.instances ++ i ∷ [] }, ok (some i))

remove_id : ℕ → List Instance → List Instance
remove_id id [] = []
remove_id id (i ∷ l) = if i.id == id then remove_id id l else i ∷ remove_id id l

-- `terminateInstance`, likewise.
unfoldable pub terminate_instance :
    Result (Unit {0}) → Instance → Manager → Manager × Result (Unit {0})
unfolding remove_id
terminate_instance (err e) i m = (m, err e)
terminate_instance (ok done) i m = (record m { instances = remove_id i.id m.instances }, ok tt)

-- `addInstance` by an id, in this backend.
unfoldable pub add_instance : ℕ → Core → Manager → Option (Core × Manager × Bool)
add_instance id c m = elim (get_instance id c) [
  | none ↦ none
  | some (c', none) ↦ some (c', m, false)
  | some (c', some i) ↦ some (c', record m { instances = m.instances ++ i ∷ [] }, true)
]
