-- ===== src/Rpc/Answer.antt =====
-- A return value from `submitReturnValue` to the end of `getReturnValue` in
-- include/hicr/frontends/RPCEngine/RPCEngine.hpp, with the loop that waits for it. A round of the loop
-- is given by the channel as the other instances have left it by then; `none` is a call that still
-- waits after these rounds.
use hi_cr.Prelude.{
  ℕ, zero, suc, ◌+◌, ◌^◌, ◌≡◌, ◌≤◌, ◌<◌, ◌⊎◌, inl, inr, if◌then◌else◌, true, List, [], ◌∷◌, ◌++◌,
  Option, some, none, refl, arith, ok, err, runtime, Result, ◌>>=◌, replicate, get_elem?, drop, ap,
  ap₂, sym, ◌∙◌, some_injective,
}
use hi_cr.Memory.{Slot, read}
use hi_cr.Memory.Laws.{read-copy_self}
use hi_cr.Channel.CircularBuffer.Inv.{get_depth_lem}
use hi_cr.Channel.VariableLocking.{Mpsc, Producer, is_empty}
use hi_cr.Channel.VariableLocking.Inv.{IsValid, depth, contents, bytes_of}
use hi_cr.Channel.VariableLocking.Ring.{ring}
use hi_cr.Channel.Region.{messages}
use hi_cr.Channel.VariableLocking.Push.{
  HasRoom, Matches, pushed, advanced, push_ok, pushed-IsValid, contents-pushed,
}
use hi_cr.Rpc.{submit_return_value, get_return_value}
use hi_cr.Rpc.ReturnValues.{copied, submit_pushes}
use hi_cr.Rpc.Retrieve.{position, oldest_size, get_oldest}

-- The `while` loop.
unfoldable pub wait_value : List Mpsc → Result (Option Mpsc)
wait_value [] = ok none
wait_value (c ∷ rounds) =
    let rest = wait_value rounds in do empty ← is_empty c; if empty then rest else ok (some c)

get_ready : (ℕ → ℕ) → Option Mpsc → Result (Option (Slot × Mpsc))
get_ready fresh none = ok none
get_ready fresh (some c) = do out ← get_return_value fresh c; ok (some out)

unfoldable pub await_return_value : (ℕ → ℕ) → List Mpsc → Result (Option (Slot × Mpsc))
unfolding get_ready
await_return_value fresh rounds = do ready ← wait_value rounds; get_ready fresh ready

-- Rounds in which the channel is empty, and one in which it holds a message.
wait_lem :
    (n : ℕ) (c c' : Mpsc)
    → IsValid c
    → depth c ≡ 0
    → IsValid c'
    → depth c' ≡ 1
    → wait_value (replicate n c ++ (c' ∷ [])) ≡ ok (some c')
unfolding wait_value is_empty
wait_lem zero c c' v e v' e' = ground (arith, get_depth_lem v'.counts, e')
wait_lem (suc n) c c' v e v' e' =
    ground (arith, get_depth_lem v.counts, e, wait_lem n c c' v e v' e')

await_ok :
    (fresh : ℕ → ℕ) (rounds : List Mpsc) (c : Mpsc) (out : Slot × Mpsc)
    → wait_value rounds ≡ ok (some c)
    → get_return_value fresh c ≡ ok out
    → await_return_value fresh rounds ≡ ok (some out)
unfolding await_return_value get_ready
await_ok fresh rounds c out e f = rw (e, f) refl

await_fails :
    (fresh : ℕ → ℕ) (rounds : List Mpsc) (c : Mpsc)
    → wait_value rounds ≡ ok (some c)
    → get_return_value fresh c ≡ err runtime
    → await_return_value fresh rounds ≡ err runtime
unfolding await_return_value get_ready
await_fails fresh rounds c e f = rw (e, f) refl

empty-contents : (c : Mpsc) → depth c ≡ 0 → contents c ≡ []
empty-contents c e =
    ap
      (messages (ring c.payload.byte c.payloads.capacity) c.sizes.element c.counts.capacity
        c.counts.tail c.payloads.tail)
      e

-- The only message of a channel is its oldest one.
only_size : {c : Mpsc} → IsValid c → depth c ≡ 1 → c.payloads.head ≡ c.payloads.tail + oldest_size c
only_size {c} v e =
    let bytes : bytes_of c (depth c) ≡ oldest_size c + 0 = ap (bytes_of c) e in
    omega (arith, v.exact, bytes)

-- The channel after the value has been submitted.
record Submitted (c d : Mpsc) (value : List ℕ) (size : ℕ) : Type 0 where
  valid : IsValid d
  one : depth d ≡ 1
  held : contents d ≡ value ∷ []
  at : position d ≡ position c
  sized : oldest_size d ≡ size
  capacity : d.payloads.capacity ≡ c.payloads.capacity
  whole : d.payload.size ≡ c.payload.size

submitted_lem :
    (fresh : ℕ → ℕ) {c : Mpsc} (p : Producer) (source : Slot)
    → IsValid c
    → depth c ≡ 0
    → Matches p c
    → source.size ≤ c.payloads.capacity
    → c.counts.head + 1 < 2 ^ 64
    → c.payloads.head + source.size < 2 ^ 64
    → (out : Mpsc × Producer) × (submit_return_value fresh c p source ≡ ok out)
      × Submitted c out.0 (read source.byte 0 source.size) source.size
submitted_lem fresh {c} p source v e m fits w w' =
    let bytes : bytes_of c (depth c) ≡ 0 = ap (bytes_of c) e in
    let start : c.payloads.head ≡ c.payloads.tail = omega (arith, v.exact, bytes) in
    let room : HasRoom c source.size = record {
      count = omega (arith, e, v.counts);
      space = omega (arith, start);
    } in
    let src : Slot = copied fresh source in
    let (recv, sent, done) = push_ok p src v m room (omega (arith, v.payload_half)) w w' in
    let v' : IsValid (pushed c src recv) = pushed-IsValid src recv v room w w' in
    let one : depth (pushed c src recv) ≡ 1 = omega (arith, e, v.counts.ordered) in
    (
      (pushed c src recv, advanced c p src),
      submit_pushes fresh c (pushed c src recv) p (advanced c p src) source _ true
          (omega (arith, v.payload_half)) done,
      record {
        valid = v';
        one = one;
        held =
            contents-pushed src recv v room
            ∙ ap₂ (λ (l : List (List ℕ)) (x : List ℕ). l ++ (x ∷ [])) (empty-contents c e)
                (read-copy_self fresh source.byte 0 0 source.size);
        at = refl;
        sized = omega (arith, only_size v' one, start);
        capacity = refl;
        whole = refl;
      },
    )

-- What waiting then gives.
awaited_lem :
    (fresh : ℕ → ℕ) (n : ℕ) {c d : Mpsc} {value : List ℕ} {size : ℕ}
    → IsValid c
    → depth c ≡ 0
    → c.payload.size ≡ c.payloads.capacity
    → Submitted c d value size
    → ((position c + size ≤ c.payloads.capacity)
        × (out : Slot × Mpsc) × (await_return_value fresh (replicate n c ++ (d ∷ []))
            ≡ ok (some out))
        × (read out.0.byte 0 out.0.size ≡ value)
        × IsValid out.1
        × (contents out.1 ≡ []))
      ⊎ ((c.payloads.capacity < position c + size)
          × (await_return_value fresh (replicate n c ++ (d ∷ [])) ≡ err runtime))
awaited_lem fresh n {c} {d} {value} v e whole s =
    let waited = wait_lem n c d v e s.valid s.one in
    elim (get_oldest fresh s.valid (omega (arith, s.one)) (s.whole ∙ (whole ∙ sym s.capacity))) [
      | inl (fits, (out, got, oldest, v', left), _) ↦ inl (
        omega (arith, fits, s.at, s.sized, s.capacity),
        out,
        await_ok fresh _ d out waited got,
        some_injective (sym oldest ∙ ap (λ (l : List (List ℕ)). get_elem? l 0) s.held),
        v',
        left ∙ ap (drop 1) s.held,
      )
      | inr (wraps, fails) ↦
          inr (omega (arith, wraps, s.at, s.sized, s.capacity), await_fails fresh _ d waited fails)
    ]

-- A return value that is submitted to an empty channel, while the requester finds that channel
-- empty for n rounds of its loop and then looks again: the submission succeeds. Where the value lies
-- in one piece of the payload buffer, the call returns a slot with the bytes of the value, and the
-- channel is valid and empty; where it passes the end of that buffer, the call is a runtime error.
-- The channel is valid, its payload slot is as large as its capacity, the producer has its
-- capacities, the value is not larger than them, and the counters may not wrap.
pub value_returns :
    (fresh fresh' : ℕ → ℕ) (n : ℕ) {c : Mpsc} (p : Producer) (source : Slot)
    → IsValid c
    → depth c ≡ 0
    → c.payload.size ≡ c.payloads.capacity
    → Matches p c
    → source.size ≤ c.payloads.capacity
    → c.counts.head + 1 < 2 ^ 64
    → c.payloads.head + source.size < 2 ^ 64
    → (c' : Mpsc) × (p' : Producer) × (submit_return_value fresh c p source ≡ ok (c', p'))
      × (((position c + source.size ≤ c.payloads.capacity)
            × (out : Slot × Mpsc) × (await_return_value fresh' (replicate n c ++ (c' ∷ []))
                ≡ ok (some out))
            × (read out.0.byte 0 out.0.size ≡ read source.byte 0 source.size)
            × IsValid out.1
            × (contents out.1 ≡ []))
          ⊎ ((c.payloads.capacity < position c + source.size)
              × (await_return_value fresh' (replicate n c ++ (c' ∷ [])) ≡ err runtime)))
value_returns fresh fresh' n p source v e whole m fits w w' =
    let (out, submitted, s) = submitted_lem fresh p source v e m fits w w' in
    (out.0, out.1, submitted, awaited_lem fresh' n v e whole s)
