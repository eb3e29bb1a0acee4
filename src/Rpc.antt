-- ===== src/Rpc.antt =====
-- include/hicr/frontends/RPCEngine/RPCEngine.hpp: requests go through a non-locking MPSC channel of
-- fixed-size tokens to the instance that runs the function, return values through a locking MPSC
-- channel of variable-size messages back. `std::hash` is a parameter; a string is a list of
-- characters, and a number names an execution unit.
pub mod Payload
pub mod Buffers
pub mod Wiring
pub mod Ends
pub mod Calls
pub mod Roundtrip
pub mod Start
pub mod Listen
pub mod Answer
pub mod Returning
pub mod ReturnBuffers
pub mod ReturnValues
pub mod Retrieve
mod Tests
use hi_cr.Prelude.{
  ℕ, zero, suc, ◌*◌, Bool, true, false, not, ltb, ◌==◌, if◌then◌else◌, Option, none, some, List,
  Error, runtime, Result, ok, err, ◌>>=◌, ◌>>◌,
}
use hi_cr.Memory.{Slot, read, memcpy, memcpy_local}
use hi_cr.Registry.{find, insert}
use hi_cr.Compute.{PuState, Outcome, returned, thrown, Backend, initialize, start, await}
use hi_cr.Channel.FixedSpsc
use hi_cr.Channel.NonlockingMpsc as Requests
use hi_cr.Channel.VariableLocking as Returns
use hi_cr.Rpc.Payload.{RpcPayload, payload_slot, decode}

-- `RPCTarget_t`
pub record Target : Type 0 where
  pub name : List ℕ
  pub execution_unit : ℕ

-- What an instance that runs functions for others keeps.
pub record Engine : Type 0 where
  pub requester_instance_idx : ℕ
  pub current_argument : ℕ
  pub consumer_channel : Requests.Mpsc
  pub target_map : List (ℕ × Target)

unfoldable pub add_rpc_target : (List ℕ → ℕ) → Engine → List ℕ → ℕ → Engine
add_rpc_target hash e name unit = record e {
  target_map = insert (hash name) (record { name = name; execution_unit = unit }) e.target_map;
}

-- `requestRPC` of the instance with the index `i`, once it has found its channel to the instance
-- `e`.
unfoldable pub request_rpc : (List ℕ → ℕ) → ℕ → Engine → List ℕ → ℕ → Result Engine
request_rpc hash i e name argument = do
  (s, src) ←
      FixedSpsc.push (e.consumer_channel.channels i)
        (payload_slot (record { index = hash name; argument = argument })) 1
  ok (record e {
    consumer_channel = record e.consumer_channel {
      channels = Requests.replace e.consumer_channel.channels i s;
    };
  })

unfoldable pub has_pending_rpcs : Engine → Result (Bool × Engine)
has_pending_rpcs e = do
  c ← Requests.update_depth e.consumer_channel
  ok (not (Requests.is_empty c), record e { consumer_channel = c })

unfoldable pub try_listen : Engine → Result (Bool × Engine)
try_listen e = if ltb 0 (Requests.total_depth e.consumer_channel) then ok (true, e) else (do
  c ← Requests.update_depth e.consumer_channel
  ok (ltb 0 (Requests.total_depth c), record e { consumer_channel = c }))

-- The state that an operation of the compute manager leaves, or its exception.
abbrev returns : PuState × Outcome → Result PuState
returns (s, returned) = ok s
returns (s, thrown e) = err e

-- The new processing unit from its creation to the end of the execution unit.
unfoldable pub run_target : Backend → ℕ → Result (ℕ × PuState)
run_target b unit = do
  ready ← returns (initialize b PuState.uninitialized)
  running ← returns (start b ready)
  finished ← returns (await b running)
  ok (unit, finished)

-- The execution unit that was run, and the state of its processing unit.
unfoldable pub execute_rpc : Backend → Engine → ℕ → Result (ℕ × PuState)
unfolding run_target
execute_rpc b e idx = elim (find idx e.target_map) [
  | none ↦ err runtime
  | some target ↦ run_target b target.execution_unit
]

-- The part of `parseAndExecuteRPC` before the execution.
unfoldable pub parse_rpc : ℕ → Engine → Result (ℕ × Engine)
parse_rpc garbage e = do
  ((requester, pos), c) ← Requests.peek garbage e.consumer_channel 0
  let payload = decode (read (c.channels requester).token_buffer.byte (16 * pos) 16)
  c' ← Requests.pop garbage c 1
  ok (
    payload.index,
    record e {
      requester_instance_idx = requester;
      current_argument = payload.argument;
      consumer_channel = c';
    },
  )

-- What is left of the engine, and how the execution went.
unfoldable pub parse_and_execute_rpc : Backend → ℕ → Engine → Result (Engine × Result (ℕ × PuState))
parse_and_execute_rpc b garbage e = do
  (idx, e') ← parse_rpc garbage e
  ok (e', execute_rpc b e' idx)

-- `submitReturnValue`, once it has found its channel to the requester; `fresh` are the bytes of the
-- newly allocated slot. What `push` returns is not looked at.
unfoldable pub submit_return_value :
    (ℕ → ℕ) → Returns.Mpsc → Returns.Producer → Slot → Result (Returns.Mpsc × Returns.Producer)
submit_return_value fresh c p source = do
  (temp, source') ←
      memcpy (record { size = source.size; byte = fresh; messages_recv = 0; messages_sent = 0 }) 0
        source 0 source.size
  (pushed, c', p', temp') ← Returns.push c p temp 1
  ok (c', p')

-- `getReturnValue` once the channel is not empty. What `pop` returns is not looked at.
unfoldable pub get_return_value : (ℕ → ℕ) → Returns.Mpsc → Result (Slot × Returns.Mpsc)
get_return_value fresh c = do
  (offset, size) ← Returns.peek c 0
  (temp, payload) ←
      memcpy_local (record { size = size; byte = fresh; messages_recv = 0; messages_sent = 0 }) 0
        c.payload offset size
  let (c', popped) = Returns.pop (record c { payload = payload }) 1
  r ← popped
  ok (temp, c')
