-- ===== src/ObjectStore/Tests.antt =====
-- A store over a backend that numbers its slots, and whose global slots are numbers too.
use hi_cr.Prelude.{
  ℕ, ◌+◌, ◌%◌, ◌^◌, ◌≡◌, ◌≢◌, ◌<◌, ◌↔◌, none, some, List, [], ◌∷◌, ◌++◌, Result, ok, err, logic,
  runtime, ok_injective, refl, arith,
}
use hi_cr.Registry.{find}
use hi_cr.ObjectStore.{
  DataObject, Handle, Managers, Objects, compound_id, publish, destroy, serialize, deserialize,
}
use hi_cr.ObjectStore.Lpf.{GlobalSlot, Noc, IsDocumented, serializer, deserialize-serialize}
use hi_cr.ObjectStore.Ids.{compound_id_eq}
use hi_cr.ObjectStore.Directory.{key, published, publish_then}

-- The state counts the slots.
abbrev numbered : Managers ℕ ℕ ℕ
numbered = record {
  slot_size = λ l. 8;
  allocate = λ s size. (s + 1, ok s);
  free = λ s l. (s, ok tt);
  promote = λ s l tag. (s + 1, ok s);
  destroy_promoted = λ s g. (s, ok tt);
  memcpy = λ s l g size. (s, ok tt);
}

abbrev own_object : DataObject ℕ ℕ
own_object = record { instance_id = 2; id = 5; size = 8; local_slot = some 0; global_slot = none }

compound_id_eq_example :
    ((compound_id 2 5 ≡ compound_id 4294967298 5)
      ↔ ((◌≡◌ {A = ℕ} (2 % 2 ^ 32) (4294967298 % 2 ^ 32)) × (◌≡◌ {A = ℕ} 5 5)))
    × (compound_id 2 5 < 2 ^ 64)
compound_id_eq_example = compound_id_eq 2 5 4294967298 5 (omega arith) (omega arith)

different : key own_object ≢ 9
unfolding compound_id
different = omega arith

absent : find {A = DataObject ℕ ℕ} (key own_object) [] ≡ none
unfolding find
absent = refl

publish_then_example :
    (between after : Objects numbered) × (publish numbered 7 1 [] own_object
      ≡ (2, between, published numbered own_object 1, ok tt))
    × (find (key own_object) between ≡ some (published numbered own_object 1))
    × (find 9 between ≡ find 9 [])
    × (publish numbered 7 2 between (published numbered own_object 1)
        ≡ (2, between, published numbered own_object 1, err logic))
    × (destroy numbered 2 2 between (published numbered own_object 1) ≡ (2, after, ok tt))
    × (find (key own_object) after ≡ none)
    × (find 9 after ≡ find 9 [])
publish_then_example =
    publish_then numbered 7 2 9 1 2 2 [] own_object 1 refl refl absent refl refl different

-- The slots of LPF are serialized to two bytes.
abbrev attached : List ℕ → Result ℕ
attached [] = err runtime
attached (b ∷ l) = ok (b + 100)

abbrev short : Noc
short = record { serialize_slot = λ slot. ok (slot ∷ 1 ∷ []); attach_slot = attached }

attached_first :
    (slot : ℕ) (bytes rest : List ℕ)
    → ok (slot ∷ 1 ∷ []) ≡ ok bytes
    → attached (bytes ++ rest) ≡ ok (slot + 100)
attached_first slot bytes rest e = rw (← ok_injective (slot ∷ 1 ∷ []) bytes e) refl

short-IsDocumented : IsDocumented short (λ slot. slot + 100)
short-IsDocumented = record { attaches = attached_first }

abbrev over_lpf : Managers ℕ ℕ GlobalSlot
over_lpf = record {
  slot_size = λ l. 8;
  allocate = λ s size. (s + 1, ok s);
  free = λ s l. (s, ok tt);
  promote = λ s l tag. (s, err runtime);
  destroy_promoted = λ s g. (s, ok tt);
  memcpy = λ s l g size. (s, ok tt);
}

abbrev promoted : GlobalSlot
promoted = record { rank = 3; lpf_slot = 9; lpf_swap_slot = some 4; tag = 1; key = 2 }

abbrev sent : DataObject ℕ GlobalSlot
sent = record {
  instance_id = 3;
  id = 5;
  size = 8;
  local_slot = some 0;
  global_slot = some promoted;
}

deserialize-serialize_example :
    (h : Handle) × (serialize over_lpf (serializer short (λ a. 7) 3) sent ≡ ok h)
    × (deserialize over_lpf (serializer short (λ a. 8) 1) 6 h
        ≡ ok (record sent {
          local_slot = none;
          global_slot =
              some (record { rank = 3; lpf_slot = 109; lpf_swap_slot = none; tag = 6; key = 0 });
        }))
deserialize-serialize_example =
    deserialize-serialize over_lpf short (λ slot. slot + 100) (λ a. 7) (λ a. 8) 3 1 6 sent promoted
      (9 ∷ 1 ∷ []) short-IsDocumented refl refl (omega arith) (omega arith)
