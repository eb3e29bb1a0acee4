-- ===== src/ObjectStore/Lpf.antt =====
-- `serializeGlobalMemorySlot` and `deserializeGlobalMemorySlot` of
-- include/hicr/backends/lpf/communicationManager.hpp, and an object that goes through them as a
-- handle. LPF is a parameter. `past` is what lies behind a serialized slot in memory.
use hi_cr.Prelude.{
  ℕ, zero, suc, ◌+◌, ◌-◌, ◌^◌, ◌≡◌, ◌≤◌, ◌<◌, Option, none, some, List, [], ◌∷◌, ◌++◌, length, drop,
  Result, ok, err, logic, ◌>>=◌, refl, arith, ap, ap₂, ◌∙◌, sym,
}
use hi_cr.Memory.{read}
use hi_cr.Rpc.Payload.{word_bytes, bytes_word, first, word_lem}
use hi_cr.ObjectStore.{DataObject, Handle, Managers, Serializer, serialize, deserialize}

-- `lpf::GlobalMemorySlot`; a swap slot that is LPF_INVALID_MEMSLOT is `none`.
pub record GlobalSlot : Type 0 where
  pub rank : ℕ
  pub lpf_slot : ℕ
  pub lpf_swap_slot : Option ℕ
  pub tag : ℕ
  pub key : ℕ

-- `lpf_noc_serialize_slot`, and `lpf_noc_register` of a new slot with `lpf_noc_deserialize_slot` into
-- it. The second reads a buffer whose end it is not told.
pub record Noc : Type 0 where
  pub serialize_slot : ℕ → Result (List ℕ)
  pub attach_slot : List ℕ → Result ℕ

-- A slot that was serialized comes out as the slot `same_memory` for its memory, whatever bytes
-- follow.
pub record IsDocumented (n : Noc) (same_memory : ℕ → ℕ) : Type 0 where
  pub attaches :
      (slot : ℕ) (bytes rest : List ℕ)
      → n.serialize_slot slot ≡ ok bytes
      → n.attach_slot (bytes ++ rest) ≡ ok (same_memory slot)

abbrev buffer_at : (ℕ → ℕ) → List ℕ → ℕ → ℕ
buffer_at past [] i = past i
buffer_at past (b ∷ l) zero = b
buffer_at past (b ∷ l) (suc i) = buffer_at past l i

-- The rank is that of the instance that serializes. A null slot is no LPF slot.
unfoldable pub serialize_global_memory_slot : Noc → (ℕ → ℕ) → ℕ → Option GlobalSlot → Result (ℕ → ℕ)
serialize_global_memory_slot n past rank none = err logic
serialize_global_memory_slot n past rank (some g) = do
  serialized ← n.serialize_slot g.lpf_slot
  ok (buffer_at past (word_bytes 4 rank ++ (word_bytes 8 (length serialized) ++ serialized)))

-- The size is read and not used.
unfoldable pub deserialize_global_memory_slot : Noc → List ℕ → ℕ → Result (Option GlobalSlot)
deserialize_global_memory_slot n buffer tag = do
  slot ← n.attach_slot (drop 12 buffer)
  ok (
      some (record {
        rank = bytes_word (first 4 buffer);
        lpf_slot = slot;
        lpf_swap_slot = none;
        tag = tag;
        key = 0;
      }))

-- What the instance `rank` serializes with.
abbrev pub serializer : Noc → (ℕ → ℕ) → ℕ → Serializer GlobalSlot
serializer n past rank = record {
  serialize_slot = serialize_global_memory_slot n past rank;
  deserialize_slot = deserialize_global_memory_slot n;
}

-- A read that begins with the bytes of a list.
read_over :
    (f : ℕ → ℕ) (l : List ℕ) (past : ℕ → ℕ) (a k : ℕ)
    → ((i : ℕ) → f (a + i) ≡ buffer_at past l i)
    → (rest : List ℕ) × (read f a (length l + k) ≡ l ++ rest)
unfolding read
read_over f [] past a k h = (let e : 0 + k ≡ k = omega arith in (read f a k, ap (read f a) e))
read_over f (b ∷ l) past a k h =
    let here : f a ≡ b = (let e : a ≡ a + 0 = omega arith in ap f e) ∙ h 0 in
    let (rest, e) =
      read_over f l past (suc a) k
        (λ i. (let e : suc a + i ≡ a + suc i = omega arith in ap f e) ∙ h (suc i)) in
    let n : suc (length l) + k ≡ suc (length l + k) = omega arith in
    (rest, ap (read f a) n ∙ ap₂ (λ (x : ℕ) (y : List ℕ). x ∷ y) here e)

-- The bytes that a handle keeps begin with the serialized slot, where they hold all of it.
kept :
    (past : ℕ → ℕ) (rank : ℕ) (bytes : List ℕ)
    → length bytes ≤ 24
    → (rest : List ℕ) × (read
          (buffer_at past (word_bytes 4 rank ++ (word_bytes 8 (length bytes) ++ bytes)))
          0
          36
        ≡ word_bytes 4 rank ++ (word_bytes 8 (length bytes) ++ (bytes ++ rest)))
kept past rank bytes fits =
    let l : List ℕ = word_bytes 4 rank ++ (word_bytes 8 (length bytes) ++ bytes) in
    let (rest, e) =
      read_over (buffer_at past l) l past 0 (24 - length bytes)
        (λ i. (let e : 0 + i ≡ i = omega arith in ap (buffer_at past l) e)) in
    let size : length l + (24 - length bytes) ≡ 36 = omega arith in
    (rest, ap (read (buffer_at past l) 0) (sym size) ∙ e)

-- An object with a global slot of LPF is serialized to a handle by the instance with a rank, and
-- deserialized by another store, which may be that of another instance: it comes back with its
-- instance, its block and its size, without a local slot, and with a global slot for the same memory
-- of LPF, which carries the rank of the instance that serialized it, whichever one its own slot had,
-- the tag of the store that deserialized it, and no swap slot. The rank has 32 bits, LPF serializes
-- the slot to at most 24 bytes, and it does what is documented of it.
pub deserialize-serialize :
    {S L : Type 0} (m : Managers S L GlobalSlot) (n : Noc) (same_memory past past' : ℕ → ℕ)
    (rank other tag : ℕ) (o : DataObject L GlobalSlot) (g : GlobalSlot) (bytes : List ℕ)
    → IsDocumented n same_memory
    → o.global_slot ≡ some g
    → n.serialize_slot g.lpf_slot ≡ ok bytes
    → length bytes ≤ 24
    → rank < 2 ^ 32
    → (h : Handle) × (serialize m (serializer n past rank) o ≡ ok h)
      × (deserialize m (serializer n past' other) tag h
          ≡ ok (record o {
            local_slot = none;
            global_slot = some (record {
              rank = rank;
              lpf_slot = same_memory g.lpf_slot;
              lpf_swap_slot = none;
              tag = tag;
              key = 0;
            });
          }))
unfolding serialize deserialize serialize_global_memory_slot deserialize_global_memory_slot
deserialize-serialize m n same_memory past past' rank other tag o g bytes d e f fits small =
    let (rest, k) = kept past rank bytes fits in
    let h : Handle = record {
      instance_id = o.instance_id;
      id = o.id;
      size = o.size;
      serialized_global_slot =
          word_bytes 4 rank ++ (word_bytes 8 (length bytes) ++ (bytes ++ rest));
    } in
    (h, rw (e, f, k) refl, rw (d.attaches g.lpf_slot bytes rest f, word_lem 4 rank small) refl)
