-- ===== src/Json/Writes.antt =====
-- What an object is after an entry has been written.
use Prim.Native.String.{String}
use hi_cr.Prelude.{
  ◌≡◌, ◌≢◌, refl, true, List, [], ◌∷◌, ◌++◌, inr, sym, ◌∙◌, ap, append-nil, append_assoc,
}
use hi_cr.Json.{Json, JsonLaws, Fillable, append_each, put_array}

module _ {J : Type 0} (j : Json J) where
  -- The object has the entries of the value before, but for the key.
  pub record Wrote (before : J) (key : String) (after : J) : Type 0 where
    pub object : j.is_object after ≡ true
    pub has : j.contains after key ≡ true
    pub keeps :
        (other : String)
        → other ≢ key
        → j.contains before other ≡ true
        → (j.contains after other ≡ true) × (j.entry after other ≡ j.entry before other)

  module _ (laws : JsonLaws j) where
    pub set-Wrote : (v : J) (key : String) (x : J) → Fillable j v → Wrote v key (j.set v key x)
    set-Wrote v key x f = record {
      object = laws.set_object v key x f;
      has = laws.contains-set v key x f;
      keeps = λ other ne c.
          (laws.contains-set_ne v key other x f ne ∙ c, laws.entry-set_ne v key other x f ne c);
    }

    Wrote-again : {a b c : J} {key : String} → Wrote a key b → Wrote b key c → Wrote a key c
    Wrote-again p q = record {
      object = q.object;
      has = q.has;
      keeps = λ other ne h.
          let (h', e) = p.keeps other ne h in let (h'', e') = q.keeps other ne h' in (h'', e' ∙ e);
    }

    append_each-Wrote :
        (xs : List J) (v : J) (key : String)
        → j.is_object v ≡ true
        → j.contains v key ≡ true
        → j.is_array (j.entry v key) ≡ true
        → Wrote v key (append_each j v key xs)
          × (j.is_array (j.entry (append_each j v key xs) key) ≡ true)
          × (j.elements (j.entry (append_each j v key xs) key) ≡ j.elements (j.entry v key) ++ xs)
    unfolding append_each
    append_each-Wrote [] v key o c a =
        (record { object = o; has = c; keeps = λ other ne h. (h, refl) }, a, sym (append-nil _))
    append_each-Wrote (x ∷ xs) v key o c a =
        let grown = j.push_back (j.entry v key) x in
        let next = j.set v key grown in
        let w = set-Wrote v key grown (inr o) in
        let same = laws.entry-set v key grown (inr o) in
        let (rest, array, elems) =
          append_each-Wrote xs next key w.object w.has
            (ap j.is_array same ∙ laws.is_array-push_back (j.entry v key) x a) in
        (
          Wrote-again w rest,
          array,
          elems
              ∙ ap (λ l. l ++ xs) (ap j.elements same ∙ laws.elements-push_back (j.entry v key) x a)
              ∙ append_assoc (j.elements (j.entry v key)) (x ∷ []) xs,
        )

    pub put_array-Wrote :
        (xs : List J) (v : J) (key : String)
        → Fillable j v
        → Wrote v key (put_array j v key xs)
          × (j.is_array (j.entry (put_array j v key xs) key) ≡ true)
          × (j.elements (j.entry (put_array j v key xs) key) ≡ xs)
    unfolding put_array
    put_array-Wrote xs v key f =
        let w = set-Wrote v key j.empty_array f in
        let same = laws.entry-set v key j.empty_array f in
        let (rest, array, elems) =
          append_each-Wrote xs (j.set v key j.empty_array) key w.object w.has
            (ap j.is_array same ∙ laws.is_array-empty) in
        (
          Wrote-again w rest,
          array,
          elems ∙ ap (λ l. l ++ xs) (ap j.elements same ∙ laws.elements-empty),
        )
