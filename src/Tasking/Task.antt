-- ===== src/Tasking/Task.antt =====
-- include/hicr/frontends/tasking/task.hpp. `log` lists what has happened so far: the callbacks that
-- were called, and each time that the function was resumed.
pub mod Lifetime
mod Tests
use hi_cr.Prelude.{
  ℕ, zero, suc, Bool, ◌||◌, not, Option, none, some, List, [], ◌∷◌, ◌++◌, map, Result, ok, err,
  ◌>>=◌, ◌>>◌, require, Error, logic, runtime, if◌then◌else◌,
}
use hi_cr.Execution.{State, is_state, ExecutionState}
use hi_cr.Execution
use hi_cr.Tasking.CallbackMap.{CallbackMap, trigger}

-- `Task::callback_t`
pub data Callback : Type 0 where
  on_task_execute on_task_suspend on_task_finish on_task_sync : Callback

pub data Event (F : Type 0) : Type 0 where
  called : F → Event F
  resumed : Event F

pub record Task (F : Type 0) : Type 0 where
  pub callback_map : Option (CallbackMap Callback F)
  pub execution_state : Option ExecutionState
  pub log : List (Event F)

module _ {F : Type 0} where
  unfoldable pub create : Option (CallbackMap Callback F) → Task F
  create m = record { callback_map = m; execution_state = none; log = [] }

  unfoldable pub get_state : Task F → State
  get_state t = elim t.execution_state [ none ↦ State.uninitialized | some e ↦ e.state ]

  unfoldable pub initialize : Task F → ExecutionState → Result (Task F)
  unfolding get_state
  initialize t e = do
    require (is_state (get_state t) State.uninitialized) logic
    ok (record t { execution_state = some e })

  -- `if (_callbackMap != nullptr) _callbackMap->trigger(this, ...)`
  abbrev pub fired : Option (CallbackMap Callback F) → Callback → List (Event F)
  fired none e = []
  fired (some m) e = map called (trigger m e)

  call : Callback → Task F → Task F
  unfolding trigger
  call e t = record t { log = t.log ++ fired t.callback_map e }

  -- A null execution state is ruled out by the check on the state before.
  held : Task F → Result ExecutionState
  held t = elim t.execution_state [ none ↦ err runtime | some e ↦ ok e ]

  unfoldable pub run : Task F → Result (Task F)
  unfolding get_state call held
  run t = do
    require (is_state (get_state t) State.initialized || is_state (get_state t) State.suspended)
        runtime
    e ← held t
    let before = call on_task_execute t
    e' ← Execution.resume e
    let t' = record before {
      execution_state = some (Execution.check_finalization e').1;
      log = before.log ++ (resumed ∷ []);
    }
    let state = get_state t'
    require (is_state state State.suspended || is_state state State.finished) runtime
    let t'' = if is_state state State.suspended then call on_task_suspend t' else t'
    ok (if is_state state State.finished then call on_task_finish t'' else t'')

  -- `Task::suspend`, called by the function while it runs.
  unfoldable pub suspend : Task F → Result (Task F)
  unfolding get_state held
  suspend t = do
    require (is_state (get_state t) State.running) runtime
    e ← held t
    e' ← Execution.suspend e
    ok (record t { execution_state = some e' })

  -- A worker that runs the task `n` times.
  unfoldable pub run_times : ℕ → Task F → Result (Task F)
  run_times zero t = ok t
  run_times (suc n) t = run t >>= run_times n
