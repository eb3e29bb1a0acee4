-- ===== src/Rpc/Roundtrip.antt =====
-- A request to an idle instance, from the name to the end of the function.
use hi_cr.Prelude.{
  ℕ, ◌+◌, ◌-◌, ◌*◌, ◌^◌, ◌≡◌, ◌<◌, List, [], ◌∷◌, ◌++◌, refl, arith, ok, ap, ap₂, sym, ◌∙◌, some,
  ◌⊎◌, get_elem?, subst, none, Result, err, runtime, true, length, some_injective, inl, inr,
}
use hi_cr.Memory.{Slot, read}
use hi_cr.Registry.{find}
use hi_cr.Registry.Lookup.{find-insert}
use hi_cr.Compute.{PuState, Backend}
use hi_cr.Compute.Lifetime.{Works}
use hi_cr.Channel.FixedSpsc
use hi_cr.Channel.FixedSpsc.{Spsc}
use hi_cr.Channel.FixedSpsc.Inv as Channel
use hi_cr.Channel.FixedSpsc.Push.{push_lem}
use hi_cr.Channel.NonlockingMpsc as Mpsc
use hi_cr.Channel.NonlockingMpsc.Sync.{IsValid}
use hi_cr.Channel.NonlockingMpsc.Calls.{replace-same}
use hi_cr.Channel.NonlockingMpsc.Send.{IsIdle, sent, sent_lem, sent-IsValid, taken-IsIdle}
use hi_cr.Channel.Window.{window}
use hi_cr.Rpc.{Engine, Target, add_rpc_target, request_rpc, has_pending_rpcs, parse_and_execute_rpc}
use hi_cr.Rpc.Payload.{RpcPayload, encode, payload_slot, read-payload_slot, decode-encode, decode}
use hi_cr.Rpc.Calls.{executes_oldest}

-- The part `s` is empty, has the token size of the requests, and its head does not wrap.
pub record IsOpen (s : Spsc) : Type 0 where
  pub valid : Channel.IsValid s
  pub token : s.token_size ≡ 16
  pub none : s.consumer.head - s.consumer.tail ≡ 0
  pub word : s.consumer.head + 1 < 2 ^ 64

-- A request in an empty part.
pub record Posted (s s' : Spsc) (p : RpcPayload) : Type 0 where
  pub valid : Channel.IsValid s'
  pub token : s'.token_size ≡ 16
  pub one : s'.consumer.head - s'.consumer.tail ≡ 1
  pub oldest : get_elem? (Channel.contents s') 0 ≡ some (encode p)

posted_oldest :
    {s : Spsc} (s' : Spsc) (p : RpcPayload) (l : List (List ℕ))
    → IsOpen s
    → Channel.contents s'
      ≡ Channel.contents s ++ (read (payload_slot p).byte (0 * s.token_size) s.token_size ∷ l)
    → get_elem? (Channel.contents s') 0 ≡ some (encode p)
posted_oldest {s} s' p l o e =
    let empty : Channel.contents s ≡ [] =
      ap (window s.token_buffer.byte s.token_size s.consumer.capacity s.consumer.tail) o.none in
    let token : read (payload_slot p).byte (0 * s.token_size) s.token_size ≡ encode p =
      ap (λ z. read (payload_slot p).byte (0 * z) z) o.token ∙ read-payload_slot p in
    ap (λ (k : List (List ℕ)). get_elem? k 0)
      (e ∙ ap₂ (λ (k : List (List ℕ)) (x : List ℕ). k ++ (x ∷ l)) empty token)

pub post_lem :
    {s : Spsc} (p : RpcPayload)
    → IsOpen s
    → (out : Spsc × Slot) × (FixedSpsc.push s (payload_slot p) 1 ≡ ok out) × Posted s out.0 p
post_lem {s} p o =
    let (out, e, r) =
      push_lem (payload_slot p) 0 o.valid (omega arith) (omega (arith, o.token)) o.word
        (omega (arith, o.none, o.valid.buffer)) in
    (
      out,
      e,
      record {
        valid = r.valid;
        token = r.token_size ∙ o.token;
        one = omega (arith, r.head, r.tail, o.none, o.valid.buffer.ordered);
        oldest = posted_oldest out.0 p _ o r.tokens;
      },
    )

-- The index of a request finds the target that was just registered.
pub ended :
    (hash : List ℕ → ℕ) (e : Engine) (name : List ℕ) (unit : ℕ) (result : Result (ℕ × PuState))
    (idx : ℕ)
    → idx ≡ hash name
    → ((target : Target) × (find idx (add_rpc_target hash e name unit).target_map ≡ some target)
        × (result ≡ ok (target.execution_unit, PuState.terminated)))
      ⊎ ((find idx (add_rpc_target hash e name unit).target_map ≡ none) × (result ≡ err runtime))
    → result ≡ ok (unit, PuState.terminated)
unfolding add_rpc_target
ended hash e name unit result idx same h =
    let found : find idx (add_rpc_target hash e name unit).target_map
        ≡ some (record { name = name; execution_unit = unit }) =
      rw same (find-insert (hash name) _ e.target_map) in
    elim h [
      | inl (target, f, r) ↦
          r
          ∙ ap (λ (t : Target). ok (t.execution_unit, PuState.terminated))
              (some_injective (sym f ∙ found))
      | inr (f, r) ↦ absurd (ground (arith, f, found))
    ]

-- The instance then sees the request.
pending_lem :
    (e : Engine) (c : Mpsc.Mpsc) (i : ℕ)
    → Mpsc.update_depth e.consumer_channel ≡ ok c
    → c.pushes ≡ i ∷ []
    → Mpsc.sum_depths c.depths c.producers ≡ length c.pushes
    → has_pending_rpcs e ≡ ok (true, record e { consumer_channel = c })
unfolding has_pending_rpcs Mpsc.is_empty Mpsc.total_depth
pending_lem e c i up queue total =
    let one : Mpsc.sum_depths c.depths c.producers ≡ 1 = rw (total, queue) refl in
    ground (arith, up, one)

-- A function that was registered under a name and is then requested under that name by the instance
-- with the index i is executed to its end: on an instance with an idle channel, the request
-- succeeds and is pending, and parsing it records i as the requester and the argument as it was
-- sent, runs the execution unit, and leaves the channel idle again. The hash and the argument have
-- 64 bits, and the backend's operations return.
pub request_executes :
    (hash : List ℕ → ℕ) (b : Backend) (garbage i : ℕ) (e : Engine) (name : List ℕ)
    (unit argument : ℕ)
    → Works b
    → IsIdle e.consumer_channel
    → i < e.consumer_channel.producers
    → IsOpen (e.consumer_channel.channels i)
    → hash name < 2 ^ 64
    → argument < 2 ^ 64
    → (posted e' : Engine) × (request_rpc hash i (add_rpc_target hash e name unit) name argument
        ≡ ok posted)
      × ((seen : Engine) × (has_pending_rpcs posted ≡ ok (true, seen)))
      × (parse_and_execute_rpc b garbage posted ≡ ok (e', ok (unit, PuState.terminated)))
      × (e'.requester_instance_idx ≡ i)
      × (e'.current_argument ≡ argument)
      × IsIdle e'.consumer_channel
unfolding request_rpc add_rpc_target
request_executes hash b garbage i e name unit argument w idle lt o h h' =
    let p : RpcPayload = record { index = hash name; argument = argument } in
    let ((s, src), push_ok, post) = post_lem p o in
    let (c, up, queue, u) = sent_lem s i idle lt post.valid post.one in
    let part : c.channels i ≡ s =
      ap (λ (f : ℕ → Spsc). f i) u.channels ∙ replace-same e.consumer_channel.channels i s in
    let posted : Engine = record (add_rpc_target hash e name unit) {
      consumer_channel = sent e.consumer_channel i s;
    } in
    let back : decode (encode p) ≡ p = decode-encode p h h' in
    let (e', result, run, (v, f), r, a, end) =
      executes_oldest b garbage posted i [] (encode p) w
        (sent-IsValid s i idle lt post.valid post.one) up queue (rw part post.token)
        (rw part post.oldest) in
    let done : result ≡ ok (unit, PuState.terminated) =
      ended hash e name unit result (decode (encode p)).index
        (ap (λ (q : RpcPayload). q.index) back) end in
    (
      posted,
      e',
      rw push_ok refl,
      (record posted { consumer_channel = c }, pending_lem posted c i up queue u.total),
      run ∙ ap (λ x. ok (e', x)) done,
      r,
      a ∙ ap (λ (q : RpcPayload). q.argument) back,
      subst IsIdle (sym f) (taken-IsIdle s i idle lt post.one u (subst IsValid f v)),
    )
