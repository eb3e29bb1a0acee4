-- ===== src/Tasking/Task/Lifetime.antt =====
-- From its first run to its end: how often a task runs, and which callbacks are called.
use hi_cr.Prelude.{
  ◌<◌, ◌∙◌, ◌⊎◌, ℕ, zero, suc, ◌≡◌, refl, Option, some, List, [], ◌∷◌, ◌++◌, append_assoc, ok, err,
  runtime, arith, true, false,
}
use hi_cr.Execution.{State, ExecutionState, Coroutine}
use hi_cr.Execution
use hi_cr.Tasking.CallbackMap.{CallbackMap}
use hi_cr.Tasking.Task.{
  Task, Callback, Event, resumed, on_task_execute, on_task_suspend, on_task_finish, get_state,
  create, initialize, fired, run, run_times,
}

-- A task between two runs whose function suspends `k` more times.
pub record IsReady {F : Type 0} (k : ℕ) (t : Task F) (e : ExecutionState) : Type 0 where
  pub is_held : t.execution_state ≡ some e
  pub state : (e.state ≡ State.initialized) ⊎ (e.state ≡ State.suspended)
  pub unfinished : e.coroutine.has_finished ≡ false
  pub left : e.coroutine.running_context ≡ false
  pub function : e.coroutine.suspensions ≡ k

abbrev pub suspended_with : ℕ → ExecutionState
suspended_with k = record {
  state = State.suspended;
  coroutine = record { has_finished = false; running_context = false; suspensions = k };
}

abbrev pub ended : ExecutionState
ended = record {
  state = State.finished;
  coroutine = record { has_finished = true; running_context = false; suspensions = 0 };
}

module _ {F : Type 0} where
  -- The events of a whole life.
  abbrev pub life : Option (CallbackMap Callback F) → ℕ → List (Event F)
  life m zero = fired m on_task_execute ++ (resumed ∷ fired m on_task_finish)
  life m (suc k) = fired m on_task_execute ++ (resumed ∷ fired m on_task_suspend ++ life m k)

  pub run_suspends :
      (k : ℕ) (t : Task F) (e : ExecutionState)
      → IsReady (suc k) t e
      → run t
        ≡ ok (record t {
          execution_state = some (suspended_with k);
          log =
              ((t.log ++ fired t.callback_map on_task_execute) ++ (resumed ∷ []))
              ++ fired t.callback_map on_task_suspend;
        })
  unfolding run Execution.resume Execution.check_finalization
  run_suspends k t e r = ground arith

  run_finishes :
      (t : Task F) (e : ExecutionState)
      → IsReady 0 t e
      → run t
        ≡ ok (record t {
          execution_state = some ended;
          log =
              ((t.log ++ fired t.callback_map on_task_execute) ++ (resumed ∷ []))
              ++ fired t.callback_map on_task_finish;
        })
  unfolding run Execution.resume Execution.check_finalization
  run_finishes t e r = ground arith

  -- The task after a run that suspended.
  unfoldable pub after_suspension : ℕ → Task F → Task F
  after_suspension k t = record t {
    execution_state = some (suspended_with k);
    log =
        ((t.log ++ fired t.callback_map on_task_execute) ++ (resumed ∷ []))
        ++ fired t.callback_map on_task_suspend;
  }

  pub after_suspension-IsReady :
      (k : ℕ) (t : Task F) → IsReady k (after_suspension k t) (suspended_with k)
  unfolding after_suspension
  after_suspension-IsReady k t = ground arith

  -- A task that the constructors and `initialize` have made ready is ready, with an empty log.
  pub create-IsReady :
      (m : Option (CallbackMap Callback F)) (k : ℕ) {e : ExecutionState} {t : Task F}
      → Execution.create k ≡ ok e
      → initialize (create m) e ≡ ok t
      → IsReady k t e × (t.log ≡ []) × (t.callback_map ≡ m)
  unfolding Execution.create initialize create
  create-IsReady m k f g = ground arith

  -- A ready task whose function suspends `k` more times ends with the `k + 1`-st run. By then it
  -- has, at each run, called the execute callback, then resumed the function, then called the
  -- suspend or finish callback, and a further run is refused.
  pub runs_to_finish :
      (k : ℕ) {t : Task F} {e : ExecutionState}
      → IsReady k t e
      → (t' : Task F) × (run_times (suc k) t ≡ ok t')
        × (get_state t' ≡ State.finished)
        × (t'.log ≡ t.log ++ life t.callback_map k)
        × (run t' ≡ err runtime)
  unfolding run_times get_state after_suspension
  runs_to_finish zero {t} {e} r = (
    record t {
      execution_state = some ended;
      log =
          ((t.log ++ fired t.callback_map on_task_execute) ++ (resumed ∷ []))
          ++ fired t.callback_map on_task_finish;
    },
    rw (run_finishes t e r),
    refl,
    simp append_assoc,
    refused,
  )
    where
      refused :
          run (record t {
            execution_state = some ended;
            log =
                ((t.log ++ fired t.callback_map on_task_execute) ++ (resumed ∷ []))
                ++ fired t.callback_map on_task_finish;
          })
          ≡ err runtime
      refused = unfold run in ground arith
  runs_to_finish (suc k) {t} {e} r =
      let (t', f, g, h, l) = runs_to_finish k (after_suspension-IsReady k t) in
      (t', rw (run_suspends k t e r) f, g, h ∙ simp append_assoc, l)

  -- Before that it is suspended after each run.
  pub runs_suspend :
      (i k : ℕ) {t : Task F} {e : ExecutionState}
      → IsReady k t e
      → i < k
      → (t' : Task F) × (run_times (suc i) t ≡ ok t') × (get_state t' ≡ State.suspended)
  unfolding run_times get_state after_suspension
  runs_suspend i zero r h = absurd (omega arith)
  runs_suspend zero (suc k) {t} {e} r h = (after_suspension k t, rw (run_suspends k t e r), refl)
  runs_suspend (suc i) (suc k) {t} {e} r h =
      let (t', f, g) = runs_suspend i k (after_suspension-IsReady k t) (omega arith) in
      (t', rw (run_suspends k t e r) f, g)
