-- ===== src/Tasking/Pull.antt =====
-- include/hicr/frontends/tasking/worker.hpp: what the loop of a worker does with a task that it has
-- pulled. Creating the execution state is that of the boost backend.
mod Tests
use hi_cr.Prelude.{
  ℕ, zero, suc, Option, some, none, List, [], ◌∷◌, ◌++◌, Result, ok, err, runtime, ◌>>=◌,
  if◌then◌else◌, ◌≡◌, refl, arith, ◌∙◌, ap, inl, inr, false,
}
use hi_cr.Execution.{State, is_state, ExecutionState}
use hi_cr.Execution
use hi_cr.Tasking.CallbackMap.{CallbackMap}
use hi_cr.Tasking.Task.{Task, Callback, create, get_state, initialize, run, run_times}
use hi_cr.Tasking.Task.Lifetime.{
  IsReady, life, suspended_with, after_suspension, run_suspends, after_suspension-IsReady,
  create-IsReady, runs_to_finish,
}

module _ {F : Type 0} where
  -- The function of the task suspends `k` times.
  unfoldable pub execute : ℕ → Task F → Result (Task F)
  unfolding get_state
  execute k t = do
    t' ←
        if is_state (get_state t) State.uninitialized
        then (Execution.create k >>= initialize t)
        else ok t
    run t'

  -- A task that is pulled and executed `n` times.
  unfoldable pub execute_times : ℕ → ℕ → Task F → Result (Task F)
  execute_times k zero t = ok t
  execute_times k (suc n) t = execute k t >>= execute_times k n

  execute-run : (k j : ℕ) (t : Task F) (e : ExecutionState) → IsReady j t e → execute k t ≡ run t
  unfolding execute
  execute-run k j t e r = ground arith

  times-run :
      (k j : ℕ) (t : Task F) (e : ExecutionState)
      → IsReady j t e
      → execute_times k (suc j) t ≡ run_times (suc j) t
  unfolding execute_times run_times after_suspension
  times-run k zero t e r = rw (execute-run k zero t e r) refl
  times-run k (suc j) t e r =
      rw (execute-run k (suc j) t e r, run_suspends j t e r)
        (times-run k j (after_suspension j t) (suspended_with j) (after_suspension-IsReady j t))

  -- The task that the first execution runs.
  made : Option (CallbackMap Callback F) → ℕ → Task F
  made m k = record (create m) {
    execution_state = some (record {
      state = State.initialized;
      coroutine = record { has_finished = false; running_context = false; suspensions = k };
    });
  }

  held : Option (CallbackMap Callback F) → ℕ → ExecutionState
  held m k = record {
    state = State.initialized;
    coroutine = record { has_finished = false; running_context = false; suspensions = k };
  }

  made-IsReady : (m : Option (CallbackMap Callback F)) (k : ℕ) → IsReady k (made m k) (held m k)
  unfolding made held create
  made-IsReady m k = ground arith

  first :
      (m : Option (CallbackMap Callback F)) (k : ℕ)
      → execute_times k (suc k) (create m) ≡ execute_times k (suc k) (made m k)
  unfolding execute_times execute initialize Execution.create made create
  first m k = refl

  -- A finished task is not made anew.
  execute_finished :
      (k : ℕ) (t : Task F)
      → get_state t ≡ State.finished
      → run t ≡ err runtime
      → execute k t ≡ err runtime
  unfolding execute
  execute_finished k t e f = ground (arith, e, f)

  -- A task that a worker creates and then executes over and over, whose function suspends `k`
  -- times, finishes in `k + 1` executions. Each of them first calls the callback of execution, then
  -- resumes the function, and then calls a callback: that of suspension in the first `k`, that of the
  -- end in the last. One more execution is a runtime error.
  pub executes_to_finish :
      (m : Option (CallbackMap Callback F)) (k : ℕ)
      → (t : Task F) × (execute_times k (suc k) (create m) ≡ ok t)
        × (get_state t ≡ State.finished)
        × (t.log ≡ life m k)
        × (execute k t ≡ err runtime)
  unfolding made create
  executes_to_finish m k =
      let (t, f, g, h, l) = runs_to_finish k (made-IsReady m k) in
      (
        t,
        first m k ∙ (times-run k k (made m k) (held m k) (made-IsReady m k) ∙ f),
        g,
        h,
        execute_finished k t g l,
      )
