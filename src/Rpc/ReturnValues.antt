-- ===== src/Rpc/ReturnValues.antt =====
-- What becomes of a return value on its way back.
use hi_cr.Prelude.{
  ℕ, ◌+◌, ◌^◌, ◌≡◌, ◌<◌, ◌⊎◌, List, [], ◌∷◌, ◌++◌, refl, arith, ok, true, false, Bool, ap, ◌∙◌, inl,
  inr,
}
use hi_cr.Memory.{Slot, read, memcpy, copy}
use hi_cr.Memory.Laws.{read-copy_self}
use hi_cr.Channel.VariableLocking.{Mpsc, Producer, push}
use hi_cr.Channel.VariableLocking.Inv.{IsValid, depth, contents}
use hi_cr.Channel.VariableLocking.Push.{HasRoom, Matches, updated, push_wrapping}
use hi_cr.Rpc.{submit_return_value}

-- The newly allocated slot after the copy of the value.
abbrev pub copied : (ℕ → ℕ) → Slot → Slot
copied fresh source = record {
  size = source.size;
  byte = copy fresh 0 source.byte 0 source.size;
  messages_recv = 1;
  messages_sent = 0;
}

pub submit_pushes :
    (fresh : ℕ → ℕ) (c c' : Mpsc) (p p' : Producer) (source t : Slot) (flag : Bool)
    → source.size < 2 ^ 64
    → push c p (copied fresh source) 1 ≡ ok (flag, c', p', t)
    → submit_return_value fresh c p source ≡ ok (c', p')
unfolding submit_return_value memcpy
submit_pushes fresh c c' p p' source t flag h e = ground (arith, e)

-- Submitting a return value to a valid channel never fails. Where the count and the bytes have room
-- it appends the value as one message; where they have not, or where another party holds the lock,
-- it leaves the channel as it was all the same, and the value is lost. The producer has the
-- capacities of the channel, the counters may not wrap, and the value is smaller than half the
-- address space.
pub submit_outcome :
    (fresh : ℕ → ℕ) {c : Mpsc} (p : Producer) (source : Slot)
    → IsValid c
    → Matches p c
    → source.size < 2 ^ 63
    → c.counts.head + 1 < 2 ^ 64
    → c.payloads.head + source.size < 2 ^ 64
    → ((HasRoom c source.size
          × ((out : Mpsc × Producer) × (submit_return_value fresh c p source ≡ ok out)
              × IsValid out.0
              × (contents out.0 ≡ contents c ++ (read source.byte 0 source.size ∷ []))))
        ⊎ (((depth c ≡ c.counts.capacity)
              ⊎ (c.payloads.tail + c.payloads.capacity < c.payloads.head + source.size))
            × (submit_return_value fresh c p source ≡ ok (c, updated c p))))
      × (submit_return_value fresh (record c { locked = true }) p source
          ≡ ok (record c { locked = true }, p))
unfolding push
submit_outcome fresh {c} p source v m small w w' = (
  elim (push_wrapping p (copied fresh source) v m small w w') [
    | inl (room, ((c', p', t), e, v', _, held, _)) ↦ inl (
      room,
      (
        (c', p'),
        submit_pushes fresh c c' p p' source t true (omega arith) e,
        v',
        held
            ∙ ap (λ (x : List ℕ). contents c ++ (x ∷ []))
                (read-copy_self fresh source.byte 0 0 source.size),
      ),
    )
    | inr (full, e) ↦ inr (
      full,
      submit_pushes fresh c c p (updated c p) source (copied fresh source) false (omega arith) e,
    )
  ],
  submit_pushes fresh (record c { locked = true }) (record c { locked = true }) p p source
      (copied fresh source) false (omega arith) refl,
)
