-- ===== src/Tasking/Task/Tests.antt =====
-- A task with all callbacks set, run to its end.
use hi_cr.Prelude.{ℕ, ◌≡◌, refl, none, some, [], ◌∷◌, ◌++◌, ok, err, runtime, arith, false}
use hi_cr.Execution.{State, ExecutionState, Coroutine}
use hi_cr.Execution
use hi_cr.Tasking.CallbackMap.{CallbackMap, trigger}
use hi_cr.Tasking.Task.{
  Task, Callback, called, resumed, on_task_execute, on_task_suspend, on_task_finish, on_task_sync,
  get_state, create, initialize, run, run_times,
}
use hi_cr.Tasking.Task.Lifetime.{IsReady, life, create-IsReady, runs_to_finish, runs_suspend}

abbrev name_of : CallbackMap Callback ℕ
name_of on_task_execute = some 1
name_of on_task_suspend = some 2
name_of on_task_finish = some 3
name_of on_task_sync = none

abbrev fresh : ExecutionState
fresh = record {
  state = State.initialized;
  coroutine = record { has_finished = false; running_context = false; suspensions = 2 };
}

abbrev ready : Task ℕ
ready = record { callback_map = some name_of; execution_state = some fresh; log = [] }

ready-IsReady : IsReady 2 ready fresh
ready-IsReady = ground arith

life-ready :
    life (some name_of) 2
    ≡ called 1
      ∷ resumed
      ∷ called 2
      ∷ called 1
      ∷ resumed
      ∷ called 2
      ∷ called 1
      ∷ resumed
      ∷ called 3
      ∷ []
unfolding trigger
life-ready = refl

create-IsReady_example :
    IsReady 2 ready fresh × (ready.log ≡ []) × (ready.callback_map ≡ some name_of)
unfolding Execution.create initialize create
create-IsReady_example = create-IsReady (some name_of) 2 {e = fresh} {t = ready} refl refl

runs_to_finish_example :
    (t : Task ℕ) × (run_times 3 ready ≡ ok t)
    × (get_state t ≡ State.finished)
    × (t.log ≡ [] ++ life (some name_of) 2)
    × (run t ≡ err runtime)
runs_to_finish_example = runs_to_finish 2 ready-IsReady

runs_suspend_example : (t : Task ℕ) × (run_times 2 ready ≡ ok t) × (get_state t ≡ State.suspended)
runs_suspend_example = runs_suspend 1 2 ready-IsReady (omega arith)
