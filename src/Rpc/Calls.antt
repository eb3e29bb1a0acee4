-- ===== src/Rpc/Calls.antt =====
-- What a request leaves in the channel, and what the instance that listens does with it.
use hi_cr.Prelude.{
  ℕ, ◌*◌, ◌≡◌, List, ◌∷◌, refl, arith, ok, err, runtime, ap, sym, ◌∙◌, Option-cases, some_injective,
  none, some, get_elem?, ◌⊎◌, inl, inr, Result, subst, ok_injective,
}
use hi_cr.Memory.{read}
use hi_cr.Registry.{find}
use hi_cr.Compute.{PuState, Backend, initialize, start, await}
use hi_cr.Compute.Lifetime.{Works}
use hi_cr.Channel.FixedSpsc.{Spsc}
use hi_cr.Channel.FixedSpsc.Inv as Channel
use hi_cr.Channel.NonlockingMpsc as Mpsc
use hi_cr.Channel.NonlockingMpsc.Sync.{IsValid, update_depth_lem}
use hi_cr.Channel.NonlockingMpsc.Repeat.{update_twice}
use hi_cr.Channel.NonlockingMpsc.Calls.{taken, pop_next, peek_next}
use hi_cr.Rpc.{Engine, Target, run_target, execute_rpc, parse_rpc, parse_and_execute_rpc}
use hi_cr.Rpc.Payload.{RpcPayload, decode}

run_target_lem :
    (b : Backend) (unit : ℕ) → Works b → run_target b unit ≡ ok (unit, PuState.terminated)
unfolding run_target initialize start await
run_target_lem b unit w = ground (arith, w)

-- The instance after it has parsed the request `p` of the part `x`.
abbrev pub parsed : Engine → Mpsc.Mpsc → ℕ → List ℕ → RpcPayload → Engine
parsed e c x rest p = record e {
  requester_instance_idx = x;
  current_argument = p.argument;
  consumer_channel = taken c x rest;
}

-- The token at the position that a peek gives.
token_lem :
    (s : Spsc) (k : ℕ) (token : List ℕ)
    → s.token_size ≡ 16
    → get_elem? (Channel.contents s) 0
      ≡ some (read s.token_buffer.byte (s.token_size * k) s.token_size)
    → get_elem? (Channel.contents s) 0 ≡ some token
    → read s.token_buffer.byte (16 * k) 16 ≡ token
token_lem s k token z e f =
    ap (λ n. read s.token_buffer.byte (n * k) n) (sym z) ∙ some_injective (sym e ∙ f)

-- The oldest token of the part `x`, as a request.
parse_next :
    (garbage : ℕ) (e : Engine) {c : Mpsc.Mpsc} (x : ℕ) (rest token : List ℕ)
    → IsValid e.consumer_channel
    → Mpsc.update_depth e.consumer_channel ≡ ok c
    → c.pushes ≡ x ∷ rest
    → (c.channels x).token_size ≡ 16
    → get_elem? (Channel.contents (c.channels x)) 0 ≡ some token
    → (parse_rpc garbage e ≡ ok ((decode token).index, parsed e c x rest (decode token)))
      × IsValid (taken c x rest)
unfolding parse_rpc
parse_next garbage e {c} x rest token v up f s g =
    let (k, p, _, q) = peek_next garbage x rest v up f in
    let (_, up', u) = update_depth_lem v in
    let valid : IsValid c = subst IsValid (ok_injective _ c (sym up' ∙ up)) u.valid in
    let (r, t, _) = pop_next garbage x rest valid (update_twice e.consumer_channel up) f in
    (rw (p, token_lem (c.channels x) k token s q g, r) refl, t)

-- How the execution of a parsed request ends.
execute_lem :
    (b : Backend) (e : Engine) (idx : ℕ)
    → Works b
    → ((target : Target) × (find idx e.target_map ≡ some target)
        × (execute_rpc b e idx ≡ ok (target.execution_unit, PuState.terminated)))
      ⊎ ((find idx e.target_map ≡ none) × (execute_rpc b e idx ≡ err runtime))
unfolding execute_rpc
execute_lem b e idx w = elim (Option-cases (find idx e.target_map)) [
  | inl h ↦ inr (h, ground (arith, h))
  | inr (target, h) ↦ inl (target, h, ground (arith, h, run_target_lem b target.execution_unit w))
]

-- Parsing and executing a request takes the oldest token of the part x that stands first in the
-- updated queue, records x as the requester and the argument of the token, and keeps the channel
-- valid; the execution unit registered for the index of the token runs to its end on a new
-- processing unit, or there is none and the execution is a runtime error. The backend's operations
-- return.
pub executes_oldest :
    (b : Backend) (garbage : ℕ) (e : Engine) {c : Mpsc.Mpsc} (x : ℕ) (rest token : List ℕ)
    → Works b
    → IsValid e.consumer_channel
    → Mpsc.update_depth e.consumer_channel ≡ ok c
    → c.pushes ≡ x ∷ rest
    → (c.channels x).token_size ≡ 16
    → get_elem? (Channel.contents (c.channels x)) 0 ≡ some token
    → (e' : Engine) × (result : Result (ℕ × PuState)) × (parse_and_execute_rpc b garbage e
        ≡ ok (e', result))
      × (IsValid e'.consumer_channel × (e'.consumer_channel ≡ taken c x rest))
      × (e'.requester_instance_idx ≡ x)
      × (e'.current_argument ≡ (decode token).argument)
      × (((target : Target) × (find (decode token).index e.target_map ≡ some target)
            × (result ≡ ok (target.execution_unit, PuState.terminated)))
          ⊎ ((find (decode token).index e.target_map ≡ none) × (result ≡ err runtime)))
unfolding parse_and_execute_rpc
executes_oldest b garbage e {c} x rest token w v up f s g =
    let (p, t) = parse_next garbage e x rest token v up f s g in
    let e' = parsed e c x rest (decode token) in
    (
      e',
      execute_rpc b e' (decode token).index,
      rw p refl,
      (t, refl),
      refl,
      refl,
      execute_lem b e' (decode token).index w,
    )
