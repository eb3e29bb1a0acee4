-- ===== src/Instances/Tests.antt =====
-- Instances at concrete threads.
use hi_cr.Prelude.{
  ℕ, ltb, ◌==◌, if◌then◌else◌, false, none, some, List, [], ◌∷◌, length, ◌≡◌, refl, arith,
}
use hi_cr.Instances.{
  Instance, Core, Manager, fresh, find, insert, add_thread, get_instances, register_all,
  make_manager, add_instance, is_root_instance,
}
use hi_cr.Instances.Register.{count_id, listed, managers_agree}
use hi_cr.Instances.Manage.{add_instance_locks}

abbrev threads : List ℕ
threads = 40 ∷ 20 ∷ 30 ∷ []

managers_agree_example :
    (c : Core) × (m : Manager) × (register_all threads fresh ≡ some c)
    × (make_manager (record { id = 1; thread = 20 }) c ≡ some m)
    × (m.current_instance ≡ record { id = 1; thread = 20 })
    × (find 20 c.instances ≡ some (record { id = 1; thread = 20 }))
    × (m.instances ≡ listed c.instances)
    × (length m.instances ≡ 3)
    × ((k : ℕ) → count_id k m.instances ≡ (if ltb k 3 then 1 else 0))
    × (is_root_instance (record { id = 1; thread = 20 }) ≡ (1 == m.root_instance_id))
managers_agree_example =
    managers_agree threads 1 20
      (
        (λ e. absurd (omega arith), (λ e. absurd (omega arith), tt)),
        ((λ e. absurd (omega arith), tt), (tt, tt)),
      )
      (omega arith) refl

-- In the order of the handles.
abbrev core : Core
core = record {
  instances =
      (20, record { id = 1; thread = 20 })
      ∷ (30, record { id = 2; thread = 30 })
      ∷ (40, record { id = 0; thread = 40 })
      ∷ [];
  next_id = 3;
  locked = false;
}

three_registered : register_all threads fresh ≡ some core
unfolding register_all add_thread fresh insert
three_registered = refl

abbrev manager : Manager
manager = record {
  instances = listed core.instances;
  current_instance = record { id = 2; thread = 30 };
  root_instance_id = 0;
}

abbrev newcomer : Instance
newcomer = record { id = 9; thread = 0 }

not_a_handle : find 0 core.instances ≡ none
unfolding find
not_a_handle = refl

-- The instance with the id 0 is there, and its id is no handle.
add_instance_locks_example :
    (c' : Core) × (add_instance 0 core manager ≡ some (c', manager, false))
    × (add_thread 50 c' ≡ none)
    × (get_instances c' ≡ none)
    × (add_instance 50 c' manager ≡ none)
add_instance_locks_example = add_instance_locks 0 50 core manager refl not_a_handle
