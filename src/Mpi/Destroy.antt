-- ===== src/Mpi/Destroy.antt =====
-- What a process has left after a collective destruction.
use hi_cr.Prelude.{
  ℕ, suc, ◌^◌, ◌<◌, ◌==◌, if◌then◌else◌, Bool, true, false, Bool-cases, List, [], ◌∷◌, map, length,
  some, none, Option-cases, ◌≡◌, refl, sym, ap, subst, fun_ext, ◌∙◌, arith, Result, ok, err, fatal,
  ◌⊎◌, inl, inr,
}
use hi_cr.Registry.{find, erase}
use hi_cr.Mpi.{
  Collectives, GlobalSlot, Held, key_set, destroy_slot, destroy_key, destroy_keys,
  destroy_collective, slot_count,
}
use hi_cr.Mpi.Keys.{member, Ascends, key_set-Ascends, member-key_set, not-member, find-erase}
use hi_cr.Mpi.Gather.{sum, concat, IsDocumented, gathered, slot_count-sum}

-- The process holds a slot with the key.
abbrev pub is_held : ℕ → Held → Bool
is_held k h = elim (find k h.slots) [
  | some g ↦ true
  | none ↦ elim (find k h.deregistered) [ some g ↦ true | none ↦ false ]
]

-- The keys for which the test holds are gone: from the map, or, where it did not have them, from
-- the deregistered slots.
pub record Dropped (test : ℕ → Bool) (h h' : Held) : Type 0 where
  pub slots : (j : ℕ) → find j h'.slots ≡ (if test j then none else find j h.slots)
  pub deregistered :
      (j : ℕ)
      → find j h'.deregistered ≡ (
          if test j
          then elim (find j h.slots) [ none ↦ none | some g ↦ find j h.deregistered ]
          else find j h.deregistered)

module _ (freed : GlobalSlot → Bool) (all_freed : (g : GlobalSlot) → freed g ≡ true) where
  key-Dropped :
      (k : ℕ) (h : Held)
      → is_held k h ≡ true
      → (h' : Held) × (destroy_key freed k h ≡ (h', ok tt)) × Dropped (λ j. j == k) h h'
  unfolding destroy_key destroy_slot
  key-Dropped k h held = elim (Option-cases (find k h.slots)) [
    | inr (g, here) ↦ (
      record h { slots = erase k h.slots },
      ground (arith, all_freed g),
      record { slots = λ j. find-erase j k h.slots; deregistered = λ j. ground arith },
    )
    | inl gone ↦ elim (Option-cases (find k h.deregistered)) [
      | inl missing ↦ absurd (ground arith)
      | inr (g, here) ↦ (
        record h { deregistered = erase k h.deregistered },
        ground (arith, all_freed g),
        record {
          slots = λ j. ground arith;
          deregistered = λ j. ground (arith, find-erase j k h.deregistered);
        },
      )
    ]
  ]

  -- First the keys of one set, then those of another.
  Dropped-both :
      (test test' both : ℕ → Bool) (h h' h'' : Held)
      → ((j : ℕ) → both j ≡ (if test j then true else test' j))
      → ((j : ℕ) → test j ≡ true → test' j ≡ false)
      → Dropped test h h'
      → Dropped test' h' h''
      → Dropped both h h''
  Dropped-both test test' both h h' h'' e apart d d' = record {
    slots = λ j. ground (arith, e j, d.slots j, d'.slots j);
    deregistered =
        λ j. ground (arith, e j, apart j, d.slots j, d.deregistered j, d'.deregistered j);
  }

  held_still :
      (k j : ℕ) (h h' : Held)
      → (j == k) ≡ false
      → Dropped (λ i. i == k) h h'
      → is_held j h' ≡ is_held j h
  held_still k j h h' other d = ground (arith, d.slots j, d.deregistered j)

  key_missing : (k : ℕ) (h : Held) → is_held k h ≡ false → destroy_key freed k h ≡ (h, err fatal)
  unfolding destroy_key
  key_missing k h gone = ground arith

  keys-Dropped :
      (low : ℕ) (ks : List ℕ) (h : Held)
      → Ascends low ks
      → ((j : ℕ) → member j ks ≡ true → is_held j h ≡ true)
      → (h' : Held) × (destroy_keys freed ks h ≡ (h', ok tt)) × Dropped (λ j. member j ks) h h'
  unfolding destroy_keys
  keys-Dropped low [] h a held = (h, refl, record { slots = λ j. refl; deregistered = λ j. refl })
  keys-Dropped low (k ∷ ks) h (le, a) held =
      let (h', e, d) = key-Dropped k h (held k (ground arith)) in
      let (h'', e', d') = keys-Dropped (suc k) ks h' a (λ j m.
        held_still k j h h' (ground (arith, not-member k (suc k) ks a)) d
        ∙ held j (ground (arith, m))) in
      (
        h'',
        ground (arith, e, e'),
        Dropped-both (λ j. j == k) (λ j. member j ks) (λ j. member j (k ∷ ks)) h h' h'' (λ j. refl)
            (λ j same. ground (arith, not-member k (suc k) ks a)) d d',
      )

  -- A key without a slot is met sooner or later.
  missing_fatal :
      (low : ℕ) (ks : List ℕ) (h : Held) (j : ℕ)
      → Ascends low ks
      → member j ks ≡ true
      → is_held j h ≡ false
      → (destroy_keys freed ks h).1 ≡ err fatal
  unfolding destroy_keys
  missing_fatal low [] h j a m lost = cc
  missing_fatal low (k ∷ ks) h j (le, a) m lost = elim (Bool-cases (is_held k h)) [
    | inr gone ↦ ground (arith, key_missing k h gone)
    | inl here ↦
        let (h', e, d) = key-Dropped k h here in
        let other : (j == k) ≡ false = ground (arith) in
        let rest =
          missing_fatal (suc k) ks h' j a (ground (arith, m))
            (held_still k j h h' other d ∙ lost) in
        ground (arith, e, rest)
  ]

all_or_missing :
    (ks : List ℕ) (h : Held)
    → ((j : ℕ) → member j ks ≡ true → is_held j h ≡ true)
      ⊎ ((j : ℕ) × (member j ks ≡ true) × (is_held j h ≡ false))
all_or_missing [] h = inl (λ j e. cc)
all_or_missing (k ∷ ks) h = elim (Bool-cases (is_held k h)) [
  | inr gone ↦ inr (k, ground arith, gone)
  | inl here ↦ elim (all_or_missing ks h) [
    | inl rest ↦ inl (λ j e. ground (arith, rest j))
    | inr (j, m, lost) ↦ inr (j, ground arith, lost)
  ]
]

none_asked : (asked : List (List ℕ)) → sum (map length asked) ≡ 0 → concat asked ≡ []
none_asked [] e = refl
none_asked ([] ∷ others) e = none_asked others (omega (arith, e))
none_asked ((k ∷ ks) ∷ others) e = absurd (omega (arith, e))

-- The early return does nothing that the loop would not do.
collective_keys :
    (c : Collectives) (freed : GlobalSlot → Bool) (asked : List (List ℕ)) (h : Held)
    → IsDocumented c
    → sum (map length asked) < 2 ^ 31
    → destroy_collective c freed asked h ≡ destroy_keys freed (key_set (concat asked)) h
unfolding destroy_collective key_set destroy_keys
collective_keys c freed asked h d small =
    let keys = gathered asked (map length asked) d refl small in
    let count : slot_count 0 (c.all_gather (map length asked)) ≡ sum (map length asked) =
      rw (d.gather (map length asked))
        (slot_count-sum (map length asked) 0 (omega arith) ∙ omega arith) in
    elim (Bool-cases (sum (map length asked) == 0)) [
      | inl nothing ↦ rw (keys, count, nothing, none_asked asked (ground (arith, nothing))) refl
      | inr some_keys ↦ rw (keys, count, some_keys) refl
    ]

-- In a collective destruction each process destroys the slots of the keys that any process asks
-- for: where it holds them all, the call returns, these keys are gone and no others, each from the
-- map, or from the deregistered slots where the map did not have it. A key that it does not hold is
-- a fatal error. The windows can be freed, fewer than 2 ^ 31 keys are asked for, and the collective
-- calls do what is documented of them.
pub destroy_lem :
    (c : Collectives) (freed : GlobalSlot → Bool) (asked : List (List ℕ)) (h : Held)
    → IsDocumented c
    → ((g : GlobalSlot) → freed g ≡ true)
    → sum (map length asked) < 2 ^ 31
    → ((h' : Held) × (destroy_collective c freed asked h ≡ (h', ok tt))
        × Dropped (λ j. member j (concat asked)) h h')
      ⊎ ((destroy_collective c freed asked h).1 ≡ err fatal)
        × ((j : ℕ) × (member j (concat asked) ≡ true) × (is_held j h ≡ false))
destroy_lem c freed asked h d free small =
    let ks = key_set (concat asked) in
    let same = collective_keys c freed asked h d small in
    elim (all_or_missing ks h) [
      | inl held ↦
          let (h', e, dropped) =
            keys-Dropped freed free 0 ks h (key_set-Ascends (concat asked)) held in
          inl (
            h',
            same ∙ e,
            subst (λ test. Dropped test h h') (fun_ext (λ j. member-key_set j (concat asked)))
                dropped,
          )
      | inr (j, m, lost) ↦ inr (
        ap (λ (r : Held × Result (Unit {0})). r.1) same
            ∙ missing_fatal freed free 0 ks h j (key_set-Ascends (concat asked)) m lost,
        (j, sym (member-key_set j (concat asked)) ∙ m, lost),
      )
    ]
