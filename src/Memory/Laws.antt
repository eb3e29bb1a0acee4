-- ===== src/Memory/Laws.antt =====
-- What a copy leaves in the two slots.
use hi_cr.Prelude.{
  fun_ext, ℕ, zero, suc, ◌+◌, ◌-◌, ◌≤◌, ◌<◌, ◌^◌, ◌≡◌, refl, ap₂, ◌⊎◌, ◌∷◌, arith, add_size, ok,
  length,
}
use hi_cr.Memory.{Slot, copy, memcpy_global, memcpy_local, read}

pub length-read : (m : ℕ → ℕ) (o n : ℕ) → length (read m o n) ≡ n
unfolding read
length-read m o zero = refl
length-read m o (suc n) = omega (arith, length-read m (suc o) n)

-- Reading back a part of what was copied.
read-copy_within :
    (d s : ℕ → ℕ) (o p k a q n : ℕ)
    → o ≤ a
    → a + n ≤ o + k
    → q ≡ p + (a - o)
    → read (copy d o s p k) a n ≡ read s q n
unfolding read copy
read-copy_within d s o p k a q zero h h' e = refl
read-copy_within d s o p k a q (suc n) h h' e =
    ap₂ ◌∷◌ first
      (read-copy_within d s o p k (suc a) (suc q) n (omega arith) (omega arith) (omega arith))
  where
    first : copy d o s p k a ≡ s q
    first = rw e (ground arith)

pub read-copy_self : (d s : ℕ → ℕ) (o p n : ℕ) → read (copy d o s p n) o n ≡ read s p n
read-copy_self d s o p n =
    read-copy_within d s o p n o p n (omega arith) (omega arith) (omega arith)

pub read-copy_apart :
    (d s : ℕ → ℕ) (o p k a n : ℕ)
    → (a + n ≤ o) ⊎ (o + k ≤ a)
    → read (copy d o s p k) a n ≡ read d a n
unfolding read copy
read-copy_apart d s o p k a zero h = refl
read-copy_apart d s o p k a (suc n) h =
    ap₂ ◌∷◌ (ground arith) (read-copy_apart d s o p k (suc a) n (ground arith))

-- A read within a slot of what a copy within both slots has put there.
pub memcpy_global_lem :
    (dst src : Slot) (o p n : ℕ)
    → dst.size < 2 ^ 64
    → src.size < 2 ^ 64
    → o + n ≤ dst.size
    → p + n ≤ src.size
    → memcpy_global dst o src p n
      ≡ ok (
        record dst {
          byte = copy dst.byte o src.byte p n;
          messages_recv = add_size (add_size dst.messages_recv 1) 1;
        },
        record src { messages_sent = add_size (add_size src.messages_sent 1) 1 },
      )
unfolding memcpy_global
memcpy_global_lem dst src o p n hd hs h h' = ground arith

pub memcpy_local_lem :
    (dst src : Slot) (o p n : ℕ)
    → dst.size < 2 ^ 64
    → src.size < 2 ^ 64
    → o + n ≤ dst.size
    → p + n ≤ src.size
    → memcpy_local dst o src p n
      ≡ ok (
        record dst {
          byte = copy dst.byte o src.byte p n;
          messages_recv = add_size (add_size dst.messages_recv 1) 1;
        },
        record src { messages_sent = add_size (add_size src.messages_sent 1) 1 },
      )
unfolding memcpy_local
memcpy_local_lem dst src o p n hd hs h h' = ground arith

-- A second copy to the same place hides the first.
pub copy-copy : (d s : ℕ → ℕ) (o p q k : ℕ) → copy (copy d o s p k) o s q k ≡ copy d o s q k
unfolding copy
copy-copy d s o p q k = fun_ext λ a. ground arith
