-- ===== src/Tasking/Pull/Tests.antt =====
-- A task whose function suspends once.
use hi_cr.Prelude.{ℕ, ◌≡◌, some, none, [], ◌∷◌, ok, err, runtime}
use hi_cr.Execution.{State}
use hi_cr.Tasking.CallbackMap.{CallbackMap}
use hi_cr.Tasking.Task.{
  Task, Callback, called, resumed, on_task_execute, on_task_suspend, on_task_finish, on_task_sync,
  create, get_state,
}
use hi_cr.Tasking.Pull.{execute, execute_times, executes_to_finish}

abbrev name_of : CallbackMap Callback ℕ
name_of on_task_execute = some 1
name_of on_task_suspend = some 2
name_of on_task_finish = some 3
name_of on_task_sync = none

executes_to_finish_example :
    (t : Task ℕ) × (execute_times 1 2 (create (some name_of)) ≡ ok t)
    × (get_state t ≡ State.finished)
    × (t.log ≡ called 1 ∷ resumed ∷ called 2 ∷ called 1 ∷ resumed ∷ called 3 ∷ [])
    × (execute 1 t ≡ err runtime)
unfolding hi_cr.Tasking.CallbackMap.trigger
executes_to_finish_example = executes_to_finish (some name_of) 1
