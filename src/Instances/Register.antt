-- ===== src/Instances/Register.antt =====
-- What the threads find once all of them have registered.
use hi_cr.Prelude.{
  ℕ, zero, suc, ◌+◌, ◌^◌, ◌<◌, ltb, leb, ◌==◌, if◌then◌else◌, add_size, false, none, some, List, [],
  ◌∷◌, map, length, get_elem?, ◌≡◌, ◌≢◌, refl, sym, ap, subst, ◌∙◌, arith, some_injective,
}
use hi_cr.Instances.{
  Instance, Core, Manager, fresh, insert, find, add_thread, get_instances, register_all,
  make_manager, is_root_instance,
}

-- How many instances have the id.
abbrev pub count_id : ℕ → List Instance → ℕ
count_id k [] = 0
count_id k (i ∷ l) = (if i.id == k then 1 else 0) + count_id k l

abbrev pub listed : List (ℕ × Instance) → List Instance
listed m = map (λ e. e.1) m

-- A handle that is not in the list.
abbrev pub Absent : ℕ → List ℕ → Type 0
Absent t [] = Unit
Absent t (x ∷ xs) = (t ≢ x) × Absent t xs

abbrev pub Different : List ℕ → Type 0
Different [] = Unit
Different (x ∷ xs) = Absent x xs × Different xs

count-insert :
    (t k : ℕ) (i : Instance) (m : List (ℕ × Instance))
    → find t m ≡ none
    → count_id k (listed (insert t i m)) ≡ (if i.id == k then 1 else 0) + count_id k (listed m)
unfolding insert find
count-insert t k i [] e = refl
count-insert t k i ((t', i') ∷ m) e = ground (arith, count-insert t k i m)

length-insert :
    (t : ℕ) (i : Instance) (m : List (ℕ × Instance))
    → find t m ≡ none
    → length (listed (insert t i m)) ≡ suc (length (listed m))
unfolding insert find
length-insert t i [] e = refl
length-insert t i ((t', i') ∷ m) e = ground (arith, length-insert t i m)

find-insert :
    (t t' : ℕ) (i : Instance) (m : List (ℕ × Instance))
    → find t' (insert t i m) ≡ (if t' == t then some i else find t' m)
unfolding insert find
find-insert t t' i [] = refl
find-insert t t' i ((t'', i') ∷ m) = ground (arith, find-insert t t' i m)

-- One for the ids from n to n + length - 1, and none for the others.
abbrev pub in_range : ℕ → ℕ → ℕ → ℕ
in_range n len k = if leb n k then if ltb k (n + len) then 1 else 0 else 0

in_range-suc :
    (n len k : ℕ) → (if n == k then 1 else 0) + in_range (n + 1) len k ≡ in_range n (suc len) k
in_range-suc n len k = ground arith

pub record Registered (c : Core) (threads : List ℕ) (c' : Core) : Type 0 where
  pub unlocked : c'.locked ≡ false
  pub more : length (listed c'.instances) ≡ length (listed c.instances) + length threads
  pub ids :
      (k : ℕ)
      → count_id k (listed c'.instances)
        ≡ count_id k (listed c.instances) + in_range c.next_id (length threads) k
  pub others : (t : ℕ) → Absent t threads → find t c'.instances ≡ find t c.instances
  pub found :
      (j t : ℕ)
      → get_elem? threads j ≡ some t
      → find t c'.instances ≡ some (record { id = c.next_id + j; thread = t })

-- The core after one thread.
abbrev after : ℕ → Core → Core
after t c = record c {
  instances = insert t (record { id = c.next_id; thread = t }) c.instances;
  next_id = add_size c.next_id 1;
}

abbrev pub Missing : (c : Core) (threads : List ℕ) → Type 0
Missing c threads = (t j : ℕ) → get_elem? threads j ≡ some t → find t c.instances ≡ none

Absent-get : (t : ℕ) (xs : List ℕ) (j x : ℕ) → Absent t xs → get_elem? xs j ≡ some x → t ≢ x
Absent-get t [] j x a e = cc
Absent-get t (y ∷ ys) zero x (ne, a) e = λ same. ne (same ∙ sym (some_injective e))
Absent-get t (y ∷ ys) (suc j) x (ne, a) e = Absent-get t ys j x a e

register_next :
    (t : ℕ) (ts : List ℕ) (c : Core)
    → c.locked ≡ false
    → register_all (t ∷ ts) c ≡ register_all ts (after t c)
unfolding register_all add_thread
register_next t ts c free = rw free

find_self :
    (t : ℕ) (c : Core) → find t (after t c).instances ≡ some (record { id = c.next_id; thread = t })
find_self t c = find-insert t t (record { id = c.next_id; thread = t }) c.instances ∙ ground arith

found_next :
    (t : ℕ) (ts : List ℕ) (c c' : Core)
    → Absent t ts
    → add_size c.next_id 1 ≡ c.next_id + 1
    → Registered (after t c) ts c'
    → (j x : ℕ) → get_elem? (t ∷ ts) j ≡ some x
    → find x c'.instances ≡ some (record { id = c.next_id + j; thread = x })
found_next t ts c c' a next r zero x e =
    let same : t ≡ x = some_injective e in
    subst (λ y. find y c'.instances ≡ some (record { id = c.next_id + 0; thread = y })) same
      (r.others t a ∙ find_self t c ∙ ground arith)
found_next t ts c c' a next r (suc j) x e =
    r.found j x e ∙ ap (λ n. some (record { id = n; thread = x })) (omega (arith, next))

pub register_all_lem :
    (threads : List ℕ) (c : Core)
    → Different threads
    → Missing c threads
    → c.locked ≡ false
    → c.next_id + length threads < 2 ^ 64
    → (c' : Core) × (register_all threads c ≡ some c') × Registered c threads c'
unfolding register_all
register_all_lem [] c d missing free small = (
  c,
  refl,
  record {
    unlocked = free;
    more = omega arith;
    ids = λ k. ground arith;
    others = λ t a. refl;
    found = λ j t e. cc;
  },
)
register_all_lem (t ∷ ts) c (a, d) missing free small =
    let none_yet : find t c.instances ≡ none = missing t 0 refl in
    let i : Instance = record { id = c.next_id; thread = t } in
    let next : add_size c.next_id 1 ≡ c.next_id + 1 = ground arith in
    let (c', e, r) =
      register_all_lem ts (after t c) d
        (λ x j h.
          find-insert t x i c.instances
          ∙ ground (arith, Absent-get t ts j x a h, missing x (suc j) h))
        free (omega (arith, next)) in
    (
      c',
      register_next t ts c free ∙ e,
      record {
        unlocked = r.unlocked;
        more = omega (arith, r.more, length-insert t i c.instances none_yet);
        ids = λ k. omega (
          arith,
          r.ids k,
          count-insert t k i c.instances none_yet,
          in_range-suc c.next_id (length ts) k,
          ap (λ n. in_range n (length ts) k) next,
        );
        others = λ x (ne, b). r.others x b ∙ find-insert t x i c.instances ∙ ground (arith, ne);
        found = found_next t ts c c' a next r;
      },
    )

-- Threads with different handles, fewer than 2 ^ 64, that register at a fresh core in any order:
-- each makes its manager, and all of them list the same instances, as many as there are threads,
-- with exactly one for each id from 0 on and thus one root. The thread that came as number j
-- finds itself with the id j.
pub managers_agree :
    (threads : List ℕ) (j t : ℕ)
    → Different threads
    → length threads < 2 ^ 64
    → get_elem? threads j ≡ some t
    → let own : Instance = record { id = j; thread = t } in
      (c : Core) × (m : Manager) × (register_all threads fresh ≡ some c)
      × (make_manager own c ≡ some m)
      × (m.current_instance ≡ own)
      × (find t c.instances ≡ some own)
      × (m.instances ≡ listed c.instances)
      × (length m.instances ≡ length threads)
      × ((k : ℕ) → count_id k m.instances ≡ (if ltb k (length threads) then 1 else 0))
      × (is_root_instance own ≡ (j == m.root_instance_id))
unfolding fresh make_manager get_instances is_root_instance find
managers_agree threads j t d small at =
    let (c, e, r) = register_all_lem threads fresh d (λ x k h. refl) refl (omega arith) in
    (
      c,
      record {
        instances = listed c.instances;
        current_instance = record { id = j; thread = t };
        root_instance_id = 0;
      },
      e,
      ground (arith, r.unlocked),
      refl,
      r.found j t at ∙ ap (λ n. some (record { id = n; thread = t })) (omega arith),
      refl,
      omega (arith, r.more),
      λ k. ground (arith, r.ids k),
      refl,
    )
