-- ===== src/Rpc/Listen.antt =====
-- `listen` of include/hicr/frontends/RPCEngine/RPCEngine.hpp: the loop that waits for a request, and
-- the request that ends it. A round of the loop is given by the channels as their producers have
-- left them by then; `none` is a call that still waits after these rounds.
use hi_cr.Prelude.{
  ℕ, zero, suc, ◌-◌, ◌^◌, ◌≡◌, ◌<◌, ◌==◌, if◌then◌else◌, List, [], ◌∷◌, ◌++◌, Option, some, none,
  refl, arith, ok, Result, ◌>>=◌, replicate, length, dec_lt, ap, subst, sym, ◌∙◌,
}
use hi_cr.Compute.{PuState, Backend}
use hi_cr.Compute.Lifetime.{Works}
use hi_cr.Channel.FixedSpsc.{Spsc}
use hi_cr.Channel.FixedSpsc.Inv as Channel
use hi_cr.Channel.NonlockingMpsc.{Mpsc, update_depth, total_depth, sum_depths, replace}
use hi_cr.Channel.NonlockingMpsc.Counts.{count, sum, sum-eq, sum-count, sum_depths-sum}
use hi_cr.Channel.NonlockingMpsc.Sync.{IsValid, depth, Updated, update_depth_lem}
use hi_cr.Channel.NonlockingMpsc.Calls.{replace-same}
use hi_cr.Channel.NonlockingMpsc.Repeat.{update_twice}
use hi_cr.Channel.NonlockingMpsc.Send.{IsIdle, sent, none_counted, sent_lem, taken-IsIdle}
use hi_cr.Rpc.{Engine, add_rpc_target, request_rpc, parse_and_execute_rpc}
use hi_cr.Rpc.Payload.{RpcPayload, encode, decode, decode-encode}
use hi_cr.Rpc.Calls.{executes_oldest}
use hi_cr.Rpc.Roundtrip.{IsOpen, post_lem, ended}

-- The `while` loop: nothing is read once a request is known.
unfoldable pub wait_rounds : List (ℕ → Spsc) → Engine → Result (Option Engine)
wait_rounds [] e = ok (if total_depth e.consumer_channel == 0 then none else some e)
wait_rounds (parts ∷ rounds) e =
    let rest : Result (Option Engine) = (do
      c ← update_depth (record e.consumer_channel { channels = parts })
      wait_rounds rounds (record e { consumer_channel = c })) in
    if total_depth e.consumer_channel == 0 then rest else ok (some e)

execute_ready : Backend → ℕ → Option Engine → Result (Option (Engine × Result (ℕ × PuState)))
execute_ready b garbage none = ok none
execute_ready b garbage (some e) = do out ← parse_and_execute_rpc b garbage e; ok (some out)

unfoldable pub listen :
    Backend → ℕ → List (ℕ → Spsc) → Engine → Result (Option (Engine × Result (ℕ × PuState)))
unfolding execute_ready
listen b garbage rounds e = do ready ← wait_rounds rounds e; execute_ready b garbage ready

-- The snapshot of an idle channel.
idle_total : {c : Mpsc} → IsIdle c → total_depth c ≡ 0
unfolding total_depth
idle_total {c} v =
    let empty : sum c.depths c.producers ≡ 0 =
      sum-eq c.depths (λ i. count i c.pushes) c.producers (λ i l. sym (v.valid.counted i l))
      ∙ (sum-count c.pushes c.producers v.valid.known ∙ ap length v.queue) in
    sum_depths-sum c.depths c.producers (omega (arith, empty)) ∙ empty

-- An update of an idle channel finds nothing.
record Quiet (c c' : Mpsc) : Type 0 where
  update : update_depth c ≡ ok c'
  idle : IsIdle c'
  channels : c'.channels ≡ c.channels
  producers : c'.producers ≡ c.producers

quiet_lem : {c : Mpsc} → IsIdle c → (c' : Mpsc) × Quiet c c'
quiet_lem {c} v =
    let (c', e, u) = update_depth_lem v.valid in
    let empty : (j : ℕ) → j < c'.producers → depth c' j ≡ 0 = λ j l.
      ap (λ (f : ℕ → Spsc). (f j).consumer.head - (f j).consumer.tail) u.channels
      ∙ v.empty j (omega (arith, l, u.producers)) in
    let queue : c'.pushes ≡ [] = none_counted c'.pushes (λ j. elim (dec_lt j c'.producers) [
      | yes l ↦ u.valid.counted j l ∙ (u.exact j l ∙ empty j l)
      | no l ↦ u.valid.known j (omega (arith, l))
    ]) in
    (
      c',
      record {
        update = e;
        idle = record { valid = u.valid; queue = queue; empty = empty };
        channels = u.channels;
        producers = u.producers;
      },
    )

-- What the loop knows after quiet rounds and one in which the part `i` has become `s`.
record Heard (rounds : List (ℕ → Spsc)) (e : Engine) (i : ℕ) (s : Spsc) : Type 0 where
  before : Mpsc
  after : Mpsc
  idle : IsIdle before
  producers : before.producers ≡ e.consumer_channel.producers
  waited : wait_rounds rounds e ≡ ok (some (record e { consumer_channel = after }))
  queue : after.pushes ≡ i ∷ []
  updated : Updated (sent before i s) after
  update : update_depth after ≡ ok after

heard_lem :
    (n : ℕ) (e : Engine) (i : ℕ) (s : Spsc) (parts : ℕ → Spsc)
    → IsIdle e.consumer_channel
    → e.consumer_channel.channels ≡ parts
    → i < e.consumer_channel.producers
    → Channel.IsValid s
    → s.consumer.head - s.consumer.tail ≡ 1
    → Heard (replicate n parts ++ (replace parts i s ∷ [])) e i s
unfolding wait_rounds total_depth
heard_lem zero e i s parts v same lt w h =
    let (c, up, queue, u) = sent_lem s i v lt w h in
    let up' : update_depth (record e.consumer_channel { channels = replace parts i s }) ≡ ok c =
      subst (λ f. update_depth (record e.consumer_channel { channels = replace f i s }) ≡ ok c) same
        up in
    let one : sum_depths c.depths c.producers ≡ 1 = u.total ∙ ap length queue in
    record {
      before = e.consumer_channel;
      after = c;
      idle = v;
      producers = refl;
      waited = ground (arith, idle_total v, up', one);
      queue = queue;
      updated = u;
      update = update_twice (sent e.consumer_channel i s) up;
    }
heard_lem (suc n) e i s parts v same lt w h =
    let (c, q) = quiet_lem v in
    let r =
      heard_lem n (record e { consumer_channel = c }) i s parts q.idle (q.channels ∙ same)
        (omega (arith, q.producers)) w h in
    let up : update_depth (record e.consumer_channel { channels = parts }) ≡ ok c =
      subst (λ f. update_depth (record e.consumer_channel { channels = f }) ≡ ok c) same q.update in
    record {
      before = r.before;
      after = r.after;
      idle = r.idle;
      producers = r.producers ∙ q.producers;
      waited = ground (arith, idle_total v, up, r.waited);
      queue = r.queue;
      updated = r.updated;
      update = r.update;
    }

-- The call on what the loop gives.
listen_lem :
    (b : Backend) (garbage : ℕ) (rounds : List (ℕ → Spsc)) (e ready e' : Engine)
    (result : Result (ℕ × PuState))
    → wait_rounds rounds e ≡ ok (some ready)
    → parse_and_execute_rpc b garbage ready ≡ ok (e', result)
    → listen b garbage rounds e ≡ ok (some (e', result))
unfolding listen execute_ready
listen_lem b garbage rounds e ready e' result f g = rw (f, g) refl

-- An instance that listens executes the next request to its end: the instance is idle, nothing
-- comes for n rounds of its loop, and then the instance with the index i requests a function that
-- is registered. The call returns, with i as the requester and the argument as it was sent; the
-- execution unit has run, and the channel is idle again. The hash and the argument have 64 bits,
-- and the backend's operations return.
pub listen_executes :
    (hash : List ℕ → ℕ) (b : Backend) (garbage n i : ℕ) (e : Engine) (name : List ℕ)
    (unit argument : ℕ)
    → Works b
    → IsIdle e.consumer_channel
    → i < e.consumer_channel.producers
    → IsOpen (e.consumer_channel.channels i)
    → hash name < 2 ^ 64
    → argument < 2 ^ 64
    → (posted e' : Engine) × (request_rpc hash i (add_rpc_target hash e name unit) name argument
        ≡ ok posted)
      × (listen b garbage
            (replicate n e.consumer_channel.channels ++ (posted.consumer_channel.channels ∷ []))
            (add_rpc_target hash e name unit)
          ≡ ok (some (e', ok (unit, PuState.terminated))))
      × (e'.requester_instance_idx ≡ i)
      × (e'.current_argument ≡ argument)
      × IsIdle e'.consumer_channel
unfolding request_rpc add_rpc_target
listen_executes hash b garbage n i e name unit argument w idle lt o h h' =
    let p : RpcPayload = record { index = hash name; argument = argument } in
    let ((s, src), push_ok, post) = post_lem p o in
    let known = add_rpc_target hash e name unit in
    let r = heard_lem n known i s e.consumer_channel.channels idle refl lt post.valid post.one in
    let ready : Engine = record known { consumer_channel = r.after } in
    let lt' : i < r.before.producers = omega (arith, lt, r.producers) in
    let part : r.after.channels i ≡ s =
      ap (λ (f : ℕ → Spsc). f i) r.updated.channels ∙ replace-same r.before.channels i s in
    let back : decode (encode p) ≡ p = decode-encode p h h' in
    let (e', result, run, (v, f), q, a, end) =
      executes_oldest b garbage ready i [] (encode p) w r.updated.valid r.update r.queue
        (rw part post.token) (rw part post.oldest) in
    let done : result ≡ ok (unit, PuState.terminated) =
      ended hash e name unit result (decode (encode p)).index
        (ap (λ (x : RpcPayload). x.index) back) end in
    (
      record known { consumer_channel = sent e.consumer_channel i s },
      e',
      rw push_ok refl,
      listen_lem b garbage _ known ready e' _ r.waited (run ∙ ap (λ x. ok (e', x)) done),
      q,
      a ∙ ap (λ (x : RpcPayload). x.argument) back,
      subst IsIdle (sym f) (taken-IsIdle s i r.idle lt' post.one r.updated (subst IsValid f v)),
    )
