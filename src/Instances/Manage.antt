-- ===== src/Instances/Manage.antt =====
-- The calls of an instance manager after its construction.
use hi_cr.Prelude.{
  ℕ, ◌+◌, ◌<◌, ◌==◌, if◌then◌else◌, true, false, none, some, List, [], ◌∷◌, ◌++◌, ok, err, Error,
  ◌≡◌, refl, ap, ◌∙◌, arith,
}
use hi_cr.Instances.{
  Instance, Core, Manager, fresh, insert, find, add_thread, get_instances, get_instance,
  register_all, create_instance, remove_id, terminate_instance, add_instance,
}
use hi_cr.Instances.Register.{count_id}

count-append :
    (k : ℕ) (xs ys : List Instance) → count_id k (xs ++ ys) ≡ count_id k xs + count_id k ys
count-append k [] ys = omega arith
count-append k (x ∷ xs) ys = omega (arith, count-append k xs ys)

count-remove_id :
    (k id : ℕ) (l : List Instance)
    → count_id k (remove_id id l) ≡ (if k == id then 0 else count_id k l)
unfolding remove_id
count-remove_id k id [] = ground arith
count-remove_id k id (i ∷ l) = ground (arith, count-remove_id k id l)

remove_id-append :
    (id : ℕ) (xs : List Instance) (i : Instance)
    → i.id ≡ id
    → remove_id id (xs ++ i ∷ []) ≡ remove_id id xs
unfolding remove_id
remove_id-append id [] i e = ground arith
remove_id-append id (x ∷ xs) i e = ground (arith, remove_id-append id xs i e)

remove_id-absent : (id : ℕ) (l : List Instance) → count_id id l ≡ 0 → remove_id id l ≡ l
unfolding remove_id
remove_id-absent id [] e = refl
remove_id-absent id (i ∷ l) e = ground (arith, remove_id-absent id l)

-- An instance that a backend creates with a new id is listed once, behind the others; terminating
-- it, where the backend does not throw, restores the list. A backend that gives no instance or
-- throws, at either call, leaves the list as it was.
pub terminate-create :
    (i : Instance) (m : Manager) (e : Error)
    → count_id i.id m.instances ≡ 0
    → let created = (create_instance (ok (some i)) m).0 in
      (count_id i.id created.instances ≡ 1)
      × ((terminate_instance (ok tt) i created).0 ≡ m)
      × ((terminate_instance (err e) i created) ≡ (created, err e))
      × (create_instance (ok none) m ≡ (m, ok none))
      × (create_instance (err e) m ≡ (m, err e))
unfolding create_instance terminate_instance
terminate-create i m e new = (
  count-append i.id m.instances (i ∷ []) ∙ ground arith,
  ap (λ (l : List Instance). record m { instances = l })
      (remove_id-append i.id m.instances i refl ∙ remove_id-absent i.id m.instances new),
  refl,
  refl,
  refl,
)

-- The call that adds an instance by its id looks for a thread whose handle is that number. Where no
-- thread has that handle, whichever ids are there, it throws with the mutex locked, and from then
-- on every thread that registers, lists the instances or adds one waits forever.
pub add_instance_locks :
    (id thread : ℕ) (c : Core) (m : Manager)
    → c.locked ≡ false
    → find id c.instances ≡ none
    → (c' : Core) × (add_instance id c m ≡ some (c', m, false))
      × (add_thread thread c' ≡ none)
      × (get_instances c' ≡ none)
      × (add_instance thread c' m ≡ none)
unfolding add_instance get_instance add_thread get_instances
add_instance_locks id thread c m free missing =
    (record c { locked = true }, ground arith, refl, refl, refl)

-- The instances are listed in the order of their threads' handles. Of two threads of which the one
-- with the larger handle registers first, the first instance listed has the id 1, and the second 0.
pub positions_are_not_ids :
    (a b : ℕ)
    → b < a
    → (c : Core) × (register_all (a ∷ b ∷ []) fresh ≡ some c)
      × (get_instances c
          ≡ some (record { id = 1; thread = b } ∷ record { id = 0; thread = a } ∷ []))
unfolding register_all add_thread fresh insert get_instances
positions_are_not_ids a b lt = (
  record {
    instances = (b, record { id = 1; thread = b }) ∷ (a, record { id = 0; thread = a }) ∷ [];
    next_id = 2;
    locked = false;
  },
  ground arith,
  refl,
)
