-- ===== src/Registry/Exchange.antt =====
-- What an exchange of many pairs leaves for a lookup.
use hi_cr.Prelude.{
  ℕ, ◌≡◌, ◌≢◌, some, none, List, [], ◌∷◌, ◌++◌, refl, arith, ◌∙◌, ap, Option-cases, inl, inr,
}
use hi_cr.Registry.{
  Registry, GlobalSlot, TagMap, find, insert, insert_slot, or_empty, get_global_slot,
  exchange_global_memory_slots,
}
use hi_cr.Registry.Lookup.{
  get-find, find-insert, find-insert_other, get-insert_slot, exchange_keeps, exchange-append,
}

find-nil : (key : ℕ) → find {A = GlobalSlot} key [] ≡ none
unfolding find
find-nil key = refl

get-or_empty :
    (tag key : ℕ) (m : TagMap) → find key (or_empty (find tag m)) ≡ get_global_slot tag key m
unfolding get_global_slot or_empty
get-or_empty tag key m = elim (Option-cases (find tag m)) [
  | inl e ↦ ground (arith, e, find-nil key)
  | inr (l, e) ↦ ground (arith, e)
]

get-other_key :
    (tag key key' : ℕ) (s : GlobalSlot) (m : TagMap)
    → key' ≢ key
    → get_global_slot tag key (insert_slot tag key' s m) ≡ get_global_slot tag key m
unfolding insert_slot
get-other_key tag key key' s m ne =
    get-find tag key _ _ (find-insert tag (insert key' s (or_empty (find tag m))) m)
    ∙ (find-insert_other key' key s (or_empty (find tag m)) ne ∙ get-or_empty tag key m)

-- The slot of the last pair is found.
pub get-last :
    (tag : ℕ) (ps : List (ℕ × ℕ)) (p : ℕ × ℕ) (r : Registry)
    → get_global_slot tag p.0 (exchange_global_memory_slots tag (ps ++ (p ∷ [])) r).core
      ≡ some (record { tag = tag; key = p.0; source = p.1 })
unfolding exchange_global_memory_slots
get-last tag ps p r =
    ap (λ (q : Registry). get_global_slot tag p.0 q.core) (exchange-append tag ps p r)
    ∙ get-insert_slot tag p.0 _ (exchange_global_memory_slots tag ps r).core

-- A last pair of another key changes no lookup.
pub get-before_last :
    (tag key : ℕ) (ps : List (ℕ × ℕ)) (p : ℕ × ℕ) (r : Registry)
    → p.0 ≢ key
    → get_global_slot tag key (exchange_global_memory_slots tag (ps ++ (p ∷ [])) r).core
      ≡ get_global_slot tag key (exchange_global_memory_slots tag ps r).core
unfolding exchange_global_memory_slots
get-before_last tag key ps p r ne =
    ap (λ (q : Registry). get_global_slot tag key q.core) (exchange-append tag ps p r)
    ∙ get-other_key tag key p.0 _ (exchange_global_memory_slots tag ps r).core ne

-- An exchange under another tag changes no lookup.
pub get-other_tag :
    (tag tag' key : ℕ) (ps : List (ℕ × ℕ)) (r : Registry)
    → tag' ≢ tag
    → get_global_slot tag key (exchange_global_memory_slots tag' ps r).core
      ≡ get_global_slot tag key r.core
unfolding get_global_slot
get-other_tag tag tag' key ps r ne =
    let same : find tag (exchange_global_memory_slots tag' ps r).core ≡ find tag r.core =
      (exchange_keeps tag' tag ps r ne).0 in
    ground (arith, same)
