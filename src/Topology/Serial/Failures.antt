-- ===== src/Topology/Serial/Failures.antt =====
-- What deserializing any input leaves.
use Prim.Native.String.{String}
use hi_cr.Prelude.{
  ◌≡◌, true, false, Bool, Bool-cases, List, [], ◌∷◌, ◌++◌, refl, sym, ◌∙◌, ap, subst, inl, inr, ◌⊎◌,
  Result, Result-cases, ok, err, Error, logic, library, append-nil, append_assoc, arith,
  if◌then◌else◌, require, ◌>>=◌,
}
use hi_cr.Json.{Json, shown, check_entry, get_string, get_array}
use hi_cr.Topology.{Device, Topology, add_device}
use hi_cr.Topology.Assign.{Each}
use hi_cr.Topology.Serial.{
  deserialize_resource, deserialize_space, check_types, check_list, read_each, deserialize_device,
  read_devices, read_list, read_metadata, deserialize,
}

module _ {J : Type 0} (j : Json J) where
  -- A logic error, or an exception of the JSON library, as some value cannot be dumped.
  abbrev pub Thrown : Error → Type 0
  Thrown e = (e ≡ logic) ⊎ (e ≡ library) × ((v : J) × (j.dumps v ≡ false))

  -- A result that is no other error.
  abbrev pub OnlyLogic {ℓ} : {A : Type ℓ} → Result A → Type 0
  OnlyLogic (ok a) = Unit
  OnlyLogic (err e) = Thrown e

  require_logic : (b : Bool) → OnlyLogic (require b logic)
  require_logic true = tt
  require_logic false = inl refl

  shown-Thrown : (v : J) → Thrown (shown j v)
  shown-Thrown v = elim (Bool-cases (j.dumps v)) [
    | inl yes_it ↦ rw yes_it (inl refl)
    | inr not_it ↦ rw not_it (inr (refl, (v, not_it)))
  ]

  require-shown : (b : Bool) (v : J) → OnlyLogic (require b (shown j v))
  require-shown true v = tt
  require-shown false v = shown-Thrown v

  bind_logic {ℓ κ} :
      {A : Type ℓ} {B : Type κ} (m : Result A) (f : A → Result B)
      → OnlyLogic m
      → ((a : A) → OnlyLogic (f a))
      → OnlyLogic (m >>= f)
  bind_logic (ok a) f h k = k a
  bind_logic (err e) f h k = h

  get_string_logic : (v : J) (key : String) → OnlyLogic (get_string j v key)
  unfolding get_string check_entry
  get_string_logic v key = search (bind_logic, require-shown)

  resource_logic : (v : J) → OnlyLogic (deserialize_resource j v)
  unfolding deserialize_resource
  resource_logic v = search (bind_logic, get_string_logic, tt)

  space_logic : (v : J) → OnlyLogic (deserialize_space j v)
  unfolding deserialize_space
  space_logic v = search (bind_logic, get_string_logic, require_logic)

  check_types_logic : (xs : List J) → OnlyLogic (check_types j xs)
  unfolding check_types
  check_types_logic [] = tt
  check_types_logic (x ∷ xs) = search (bind_logic, require_logic, check_types_logic xs)

  check_list_logic : (v : J) (key : String) → OnlyLogic (check_list j v key)
  unfolding check_list
  check_list_logic v key = search (bind_logic, require_logic, check_types_logic)

  read_each_logic :
      {A : Type 0} (read : J → Result A) (xs : List J)
      → ((x : J) → OnlyLogic (read x))
      → OnlyLogic (read_each j read xs)
  unfolding read_each
  read_each_logic read [] h = tt
  read_each_logic read (x ∷ xs) h =
      bind_logic (read x) _ (h x)
        (λ a. bind_logic (read_each j read xs) _ (read_each_logic read xs h) (λ rest. tt))

  device_logic : (v : J) → OnlyLogic (deserialize_device j v)
  unfolding deserialize_device
  device_logic v =
      search
        (
          bind_logic,
          require_logic,
          get_string_logic,
          check_list_logic,
          read_each_logic (deserialize_resource j) _ resource_logic,
          read_each_logic (deserialize_space j) _ space_logic,
        )
        depth 12

  get_array_logic : (v : J) (key : String) → OnlyLogic (get_array j v key)
  unfolding get_array check_entry
  get_array_logic v key = search (bind_logic, require-shown)

  -- A device is read off an element of the input.
  abbrev pub Reads : J → Device J → Type 0
  Reads x d = deserialize_device j x ≡ ok d

  abbrev pub Failed : Result (Unit {0}) → Type 0
  Failed outcome = (e : Error) × (outcome ≡ err e) × Thrown e

  -- What reading the elements leaves of a topology: the devices of the first ones, up to the first
  -- that throws, are added.
  abbrev pub Added : Topology J → Topology J → Result (Unit {0}) → List J → Type 0
  Added t t' outcome xs =
      (before after : List J) × (added : List (Device J)) × (xs ≡ before ++ after)
      × Each (λ d x. Reads x d) added before
      × (t'.devices ≡ t.devices ++ added)
      × ((outcome ≡ ok tt) × (after ≡ []) ⊎ Failed outcome)

  read_devices_lem :
      (xs : List J) (t : Topology J)
      → Added t (read_devices j xs t).0 (read_devices j xs t).1 xs
        × ((read_devices j xs t).0.metadata ≡ t.metadata)
  unfolding read_devices add_device
  read_devices_lem [] t =
      (([], [], [], refl, tt, sym (append-nil t.devices), inl (refl, refl)), refl)
  read_devices_lem (x ∷ xs) t = elim (Result-cases (deserialize_device j x)) [
    | inr (e, failed) ↦
        let kind : Thrown e = subst OnlyLogic failed (device_logic x) in
        rw (failed, read_devices)
          (([], x ∷ xs, [], refl, tt, sym (append-nil t.devices), inr (e, refl, kind)), refl)
    | inl (d, read) ↦
        let ((before, after, added, e, each, same, outcome), m) =
          read_devices_lem xs (add_device d t) in
        rw (read, read_devices)
          (
            (
              x ∷ before,
              after,
              d ∷ added,
              ap (λ l. x ∷ l) e,
              (read, each),
              same ∙ append_assoc t.devices (d ∷ []) added,
              outcome,
            ),
            m,
          )
  ]

  get_array-elements :
      (v : J) (key : String) {xs : List J}
      → get_array j v key ≡ ok xs
      → j.elements (j.entry v key) ≡ xs
  unfolding get_array check_entry
  get_array-elements v key e = ground arith

  -- What the list of devices leaves: the devices of the elements, or no change where there is none.
  abbrev pub Listed : J → Topology J → Topology J → Result (Unit {0}) → Type 0
  Listed input t t' outcome =
      (j.contains input "Devices" ≡ true)
        × Added t t' outcome (j.elements (j.entry input "Devices"))
      ⊎ (j.contains input "Devices" ≡ false) × (t'.devices ≡ t.devices) × (outcome ≡ ok tt)

  -- The metadata are read if the call returns.
  abbrev pub MetadataRead : J → Topology J → Topology J → Result (Unit {0}) → Type 0
  MetadataRead input t t' outcome =
      (outcome ≡ ok tt)
        × (t'.metadata
            ≡ (if j.contains input "Metadata" then j.entry input "Metadata" else t.metadata))
      ⊎ Failed outcome × (t'.metadata ≡ t.metadata)

  Listed-error :
      (input : J) (t t' : Topology J) (e : Error) → Listed input t t' (err e) → Failed (err e)
  Listed-error input t t' e (inl (has, (before, after, added, p, each, same, inl (o, n)))) = cc
  Listed-error input t t' e (inl (has, (before, after, added, p, each, same, inr o))) = o
  Listed-error input t t' e (inr (lacks, same, o)) = cc

  read_list_lem :
      (input : J) (t : Topology J)
      → Listed input t (read_list j input t).0 (read_list j input t).1
        × ((read_list j input t).0.metadata ≡ t.metadata)
  unfolding read_list
  read_list_lem input t = elim (Bool-cases (j.contains input "Devices")) [
    | inr lacks ↦ rw (lacks, read_list) (inr (refl, refl, refl), refl)
    | inl has ↦ elim (Result-cases (get_array j input "Devices")) [
      | inr (e, failed) ↦
          let kind : Thrown e = subst OnlyLogic failed (get_array_logic input "Devices") in
          rw (has, failed, read_list)
            (
              inl (refl, ([], _, [], refl, tt, sym (append-nil t.devices), inr (e, refl, kind))),
              refl,
            )
      | inl (xs, found) ↦
          let (added, m) = read_devices_lem xs t in
          rw (has, found, get_array-elements input "Devices" found, read_list)
            (inl (refl, added), m)
    ]
  ]

  -- Reading the metadata, after what the list has left.
  read_metadata_lem :
      (input : J) (t : Topology J) (p : Topology J × Result (Unit {0}))
      → Listed input t p.0 p.1
      → p.0.metadata ≡ t.metadata
      → Listed input t (read_metadata j input p).0 (read_metadata j input p).1
        × MetadataRead input t (read_metadata j input p).0 (read_metadata j input p).1
  unfolding read_metadata
  read_metadata_lem input t (t', err e) listed m =
      (listed, inr (Listed-error input t t' e listed, m))
  read_metadata_lem input t (t', ok done) listed m =
      elim (Bool-cases (j.contains input "Metadata")) [
        | inl has ↦ rw has (listed, inl (refl, refl))
        | inr lacks ↦ rw lacks (listed, inl (refl, m))
      ]

  -- Deserializing any input into a topology throws nothing but logic errors, or an exception of the
  -- JSON library, and that only if some JSON value cannot be dumped. Where there is a list of
  -- devices, the first of its elements are read and added in their order, behind the devices that
  -- are there: all of them if the call returns, and if it throws those before the failure, and they
  -- stay. Where there is none, the call returns and adds nothing. The metadata change only if it
  -- returns, to those of the input, where it has some.
  pub deserialize_lem :
      (input : J) (t : Topology J)
      → Listed input t (deserialize j input t).0 (deserialize j input t).1
        × MetadataRead input t (deserialize j input t).0 (deserialize j input t).1
  unfolding deserialize
  deserialize_lem input t =
      let (listed, m) = read_list_lem input t in
      read_metadata_lem input t (read_list j input t) listed m
