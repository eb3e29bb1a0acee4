-- ===== src/Topology/Serial/Written.antt =====
-- What serialize writes of a device, and how its parts are read back.
use Prim.Native.String.{String}
use text.Mathlib.Text.{◌==◌ as str_eq}
use text.Mathlib.TextEquality.{eq_iff}
use hi_cr.Prelude.{
  ℕ, suc, ◌<◌, ◌^◌, ◌≡◌, ◌≢◌, true, false, List, [], ◌∷◌, map, length, ◌==◌, refl, ◌∙◌, ap, inl,
  inr, Result, ok, arith,
}
use hi_cr.Json.{Json, JsonLaws, Fillable, check_entry, get_string}
use hi_cr.Json.Writes.{Wrote, set-Wrote, put_array-Wrote}
use hi_cr.Topology.{ComputeResource, MemorySpace, Device}
use hi_cr.Topology.Serial.{
  serialize_resource, serialize_space, serialize_device, deserialize_resource, deserialize_space,
  check_types, check_list, read_each,
}

pub ne_of : (s t : String) → str_eq s t ≡ false → s ≢ t
ne_of s t differ e = cc ((eq_iff s t).1 e)

pub eq_true : {a b : ℕ} → a ≡ b → (a == b) ≡ true
eq_true e = ground arith

module _ {J : Type 0} (j : Json J) where
  -- A virtual method that writes fields of its own, and leaves the type.
  abbrev pub KeepsType : (J → J) → Type 0
  KeepsType impl =
      Fillable j (impl j.null)
      × ((v : J)
          → j.is_object v ≡ true
          → j.contains v "Type" ≡ true
          → (j.is_object (impl v) ≡ true)
            × (j.contains (impl v) "Type" ≡ true)
            × (j.entry (impl v) "Type" ≡ j.entry v "Type"))

  abbrev pub All {ℓ} : {A : Type ℓ} → (A → Type 0) → List A → Type 0
  All P [] = Unit
  All P (x ∷ xs) = P x × All P xs

  pub record IsSerializable (d : Device J) : Type 0 where
    pub own : KeepsType d.serialize_impl
    pub resources : All (λ r. KeepsType r.serialize_impl) d.compute_resources
    pub spaces : All (λ m. KeepsType m.serialize_impl × (m.size < 2 ^ 64)) d.memory_spaces

  -- An object without the fields of its own class.
  abbrev pub base_resource : ComputeResource J → ComputeResource J
  base_resource r = record r { serialize_impl = λ output. output }

  abbrev pub base_space : MemorySpace J → MemorySpace J
  base_space m = record m { serialize_impl = λ output. output }

  abbrev pub base_device : Device J → Device J
  base_device d = record {
    type_name = d.type_name;
    compute_resources = map base_resource d.compute_resources;
    memory_spaces = map base_space d.memory_spaces;
    serialize_impl = λ output. output;
  }

  module _ (laws : JsonLaws j) where
    -- An object with its type.
    abbrev pub Typed : J → String → Type 0
    Typed v kind =
        (j.is_object v ≡ true) × (j.contains v "Type" ≡ true) × (j.entry v "Type" ≡ j.of_text kind)

    pub get_type : (v : J) (kind : String) → Typed v kind → get_string j v "Type" ≡ ok kind
    unfolding get_string check_entry
    get_type v kind (o, c, e) = rw (o, c, e, laws.is_string-of_text kind, laws.text-of_text kind)

    pub serialize_resource-Typed :
        (r : ComputeResource J)
        → KeepsType r.serialize_impl
        → Typed (serialize_resource j r) r.type_name
    unfolding serialize_resource
    serialize_resource-Typed r adds =
        let f = adds.0 in
        let w = set-Wrote j laws (r.serialize_impl j.null) "Type" (j.of_text r.type_name) f in
        (w.object, w.has, laws.entry-set _ _ _ f)

    pub resource_back :
        (r : ComputeResource J)
        → KeepsType r.serialize_impl
        → deserialize_resource j (serialize_resource j r) ≡ ok (base_resource r)
    unfolding deserialize_resource
    resource_back r adds = rw (get_type _ _ (serialize_resource-Typed r adds))

    pub serialize_space_lem :
        (m : MemorySpace J)
        → KeepsType m.serialize_impl
        → Typed (serialize_space j m) m.type_name
          × (j.contains (serialize_space j m) "Size" ≡ true)
          × (j.entry (serialize_space j m) "Size" ≡ j.of_number m.size)
    unfolding serialize_space
    serialize_space_lem m adds =
        let f = adds.0 in
        let typed = j.set (m.serialize_impl j.null) "Type" (j.of_text m.type_name) in
        let w = set-Wrote j laws (m.serialize_impl j.null) "Type" (j.of_text m.type_name) f in
        let w' = set-Wrote j laws typed "Size" (j.of_number m.size) (inr w.object) in
        let (c, e) = w'.keeps "Type" (ne_of "Type" "Size" refl) w.has in
        (
          (w'.object, c, e ∙ laws.entry-set _ _ _ f),
          w'.has,
          laws.entry-set typed "Size" (j.of_number m.size) (inr w.object),
        )

    pub space_back :
        (m : MemorySpace J)
        → KeepsType m.serialize_impl
        → m.size < 2 ^ 64
        → deserialize_space j (serialize_space j m) ≡ ok (base_space m)
    unfolding deserialize_space
    space_back m adds small =
        let (typed, c, e) = serialize_space_lem m adds in
        rw (
          get_type _ _ typed,
          c,
          e,
          laws.is_unsigned-of_number m.size small,
          laws.number-of_number m.size small,
        )

    abbrev pub HasType : J → Type 0
    HasType v = (j.contains v "Type" ≡ true) × (j.is_string (j.entry v "Type") ≡ true)

    pub Typed-HasType : (v : J) (kind : String) → Typed v kind → HasType v
    Typed-HasType v kind (o, c, e) = (c, ap j.is_string e ∙ laws.is_string-of_text kind)

    check_types_ok : (xs : List J) → All HasType xs → check_types j xs ≡ ok tt
    unfolding check_types
    check_types_ok [] h = refl
    check_types_ok (x ∷ xs) ((c, s), h) = rw (c, s) (check_types_ok xs h)

    pub check_list_ok :
        (v : J) (key : String) (xs : List J)
        → j.contains v key ≡ true
        → j.is_array (j.entry v key) ≡ true
        → j.elements (j.entry v key) ≡ xs
        → All HasType xs
        → check_list j v key ≡ ok tt
    unfolding check_list
    check_list_ok v key xs c a e h = rw (c, a, e) (check_types_ok xs h)

    -- A list of objects is read back one by one.
    pub read_each_back :
        {A : Type 0} (P : A → Type 0) (write : A → J) (read : J → Result A) (base : A → A)
        → ((a : A) → P a → read (write a) ≡ ok (base a))
        → (xs : List A) → All P xs
        → read_each j read (map write xs) ≡ ok (map base xs)
    unfolding read_each
    read_each_back P write read base back [] h = refl
    read_each_back P write read base back (x ∷ xs) (p, h) =
        rw (back x p, read_each_back P write read base back xs h)

    pub All-map :
        {A : Type 0} (P : A → Type 0) (Q : J → Type 0) (write : A → J)
        → ((a : A) → P a → Q (write a))
        → (xs : List A) → All P xs
        → All Q (map write xs)
    All-map P Q write f [] h = tt
    All-map P Q write f (x ∷ xs) (p, h) = (f x p, All-map P Q write f xs h)

    pub length-map : {A B : Type 0} (f : A → B) (xs : List A) → length (map f xs) ≡ length xs
    length-map f [] = refl
    length-map f (x ∷ xs) = ap suc (length-map f xs)

    abbrev pub HoldsList : J → String → List J → Type 0
    HoldsList v key xs =
        (j.contains v key ≡ true)
        × (j.is_array (j.entry v key) ≡ true)
        × (j.elements (j.entry v key) ≡ xs)

    -- What a list is under another key that is written later.
    pub HoldsList-keeps :
        {v v' : J} {key : String} (other : String) (xs : List J)
        → Wrote j v key v'
        → other ≢ key
        → HoldsList v other xs
        → HoldsList v' other xs
    HoldsList-keeps other xs w ne (c, a, e) =
        let (c', same) = w.keeps other ne c in (c', ap j.is_array same ∙ a, ap j.elements same ∙ e)

    Typed-keeps :
        {v v' : J} {key : String} (kind : String)
        → Wrote j v key v'
        → "Type" ≢ key
        → Typed v kind
        → Typed v' kind
    Typed-keeps kind w ne (o, c, e) =
        let (c', same) = w.keeps "Type" ne c in (w.object, c', same ∙ e)

    pub serialize_device_lem :
        (d : Device J)
        → KeepsType d.serialize_impl
        → Typed (serialize_device j d) d.type_name
          × HoldsList
              (serialize_device j d)
              "Compute Resources"
              (map (serialize_resource j) d.compute_resources)
          × HoldsList
              (serialize_device j d)
              "Memory Spaces"
              (map (serialize_space j) d.memory_spaces)
    unfolding serialize_device
    serialize_device_lem d adds =
        let first = set-Wrote j laws j.null "Type" (j.of_text d.type_name) (inl refl) in
        let (o, c, e) =
          adds.1 (j.set j.null "Type" (j.of_text d.type_name)) first.object first.has in
        let typed : Typed (d.serialize_impl (j.set j.null "Type" (j.of_text d.type_name)))
            d.type_name =
          (o, c, e ∙ laws.entry-set _ _ _ (inl refl)) in
        let (w, a, l) =
          put_array-Wrote j laws (map (serialize_resource j) d.compute_resources)
            (d.serialize_impl (j.set j.null "Type" (j.of_text d.type_name))) "Compute Resources"
            (inr o) in
        let (w', a', l') =
          put_array-Wrote j laws (map (serialize_space j) d.memory_spaces) _ "Memory Spaces"
            (inr w.object) in
        (
          Typed-keeps d.type_name w' (ne_of "Type" "Memory Spaces" refl)
              (Typed-keeps d.type_name w (ne_of "Type" "Compute Resources" refl) typed),
          HoldsList-keeps "Compute Resources" _ w' (ne_of "Compute Resources" "Memory Spaces" refl)
              (w.has, a, l),
          (w'.has, a', l'),
        )
