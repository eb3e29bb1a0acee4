-- ===== src/Tasking/Worker.antt =====
-- include/hicr/frontends/tasking/worker.hpp: the controller's calls and the loop of the worker's
-- thread, interleaved at each access to the shared state. Pulling and running a task (Task.antt) is
-- one step of the loop, which leaves the worker's own state alone, and may throw.
pub mod Termination
pub mod Suspension
mod Tests
use hi_cr.Prelude.{
  ℕ, Bool, true, false, ◌&&◌, ◌||◌, not, List, [], ◌∷◌, Error, logic, runtime, if◌then◌else◌,
}
use hi_cr.Compute.{PuState, Outcome, returned, thrown, Backend}
use hi_cr.Compute

-- `Worker::state_t`
pub data WorkerState : Type 0 where
  uninitialized ready running suspending suspended resuming terminating terminated : WorkerState

abbrev pub is_worker_state : WorkerState → WorkerState → Bool
is_worker_state WorkerState.uninitialized WorkerState.uninitialized = true
is_worker_state WorkerState.ready WorkerState.ready = true
is_worker_state WorkerState.running WorkerState.running = true
is_worker_state WorkerState.suspending WorkerState.suspending = true
is_worker_state WorkerState.suspended WorkerState.suspended = true
is_worker_state WorkerState.resuming WorkerState.resuming = true
is_worker_state WorkerState.terminating WorkerState.terminating = true
is_worker_state WorkerState.terminated WorkerState.terminated = true
is_worker_state _ _ = false

-- Where the thread stands in `mainLoop`.
pub data Loop : Type 0 where
  -- no thread runs the loop
  absent : Loop
  -- at the top, before the pull
  pulling : Loop
  -- before the test for `suspending`
  suspend_test : Loop
  -- the test has passed, `suspended` is not yet stored
  suspend_store : Loop
  -- in the wait for `checkResumeConditions`
  waiting : Loop
  -- the wait is over, `running` is not yet stored
  resume_store : Loop
  -- before the test for `terminating`
  terminate_test : Loop
  -- the loop has returned
  exited : Loop
  -- an exception has left the loop
  crashed : Error → Loop

pub record Worker : Type 0 where
  pub state : WorkerState
  pub units : List PuState
  pub loop : Loop

-- A call on each unit in turn, up to the first that throws.
unfoldable pub each : (PuState → PuState × Outcome) → List PuState → List PuState × Outcome
each f [] = ([], returned)
each f (u ∷ us) =
    let (u', o) = f u in
    let rest = each f us in
    elim o [ returned ↦ (u' ∷ rest.0, rest.1) | thrown e ↦ (u' ∷ us, thrown e) ]

-- The units from the second on.
unfoldable pub each_secondary :
    (PuState → PuState × Outcome) → List PuState → List PuState × Outcome
unfolding each
each_secondary f [] = ([], returned)
each_secondary f (u ∷ us) = let (us', o) = each f us in (u ∷ us', o)

-- The first unit.
unfoldable pub lead : (PuState → PuState × Outcome) → List PuState → List PuState × Outcome
lead f [] = ([], thrown logic)
lead f (u ∷ us) = let (u', o) = f u in (u' ∷ us, o)

is_empty : List PuState → Bool
is_empty [] = true
is_empty (u ∷ us) = false

-- The state is stored only if the calls on the units return.
store_if : Outcome → WorkerState → WorkerState → WorkerState
store_if returned old new = new
store_if (thrown e) old new = old

-- The thread of the loop begins if the lead unit starts.
started_loop : Outcome → Loop → Loop
started_loop returned old = pulling
started_loop (thrown e) old = old

proceed_if : Outcome → Loop → Loop
proceed_if returned next = next
proceed_if (thrown e) next = crashed e

module _ (b : Backend) where
  unfoldable pub initialize : Worker → Worker × Outcome
  unfolding each is_empty store_if
  initialize w =
      let (units, o) = each (Compute.initialize b) w.units in
      if is_empty w.units
      then (w, thrown logic)
      else if not (is_worker_state w.state WorkerState.uninitialized)
          && not (is_worker_state w.state WorkerState.terminated)
      then (w, thrown runtime)
      else (record w { units = units; state = store_if o w.state WorkerState.ready }, o)

  -- Creating the execution unit and state of the loop is the backend's, and returns.
  unfoldable pub start : Worker → Worker × Outcome
  unfolding lead started_loop
  start w =
      let (units, o) = lead (Compute.start b) w.units in
      if not (is_worker_state w.state WorkerState.ready)
      then (w, thrown runtime)
      else (record { state = WorkerState.running; units = units; loop = started_loop o w.loop }, o)

  -- `compare_exchange_weak` may fail though the state is the one expected: `spurious`.
  unfoldable pub suspend : Bool → Worker → Worker × Bool
  suspend spurious w =
      if is_worker_state w.state WorkerState.running && not spurious
      then (record w { state = WorkerState.suspending }, true)
      else (w, false)

  unfoldable pub resume : Bool → Worker → Worker × Bool
  resume spurious w =
      if is_worker_state w.state WorkerState.suspended && not spurious
      then (record w { state = WorkerState.resuming }, true)
      else (w, false)

  -- The exchange comes before the check.
  unfoldable pub terminate : Worker → Worker × Outcome
  terminate w = (
    record w { state = WorkerState.terminating },
    if not (is_worker_state w.state WorkerState.running)
          && not (is_worker_state w.state WorkerState.suspending)
        then thrown runtime
        else returned,
  )

  may_await : WorkerState → Bool
  may_await s =
      is_worker_state s WorkerState.terminating
      || is_worker_state s WorkerState.running
      || is_worker_state s WorkerState.suspended
      || is_worker_state s WorkerState.suspending
      || is_worker_state s WorkerState.resuming

  -- The wait for the units is over: the caller of the step below sees to it that it is.
  unfoldable pub await : Worker → Worker × Outcome
  unfolding each store_if may_await
  await w =
      let (units, o) = each (Compute.await b) w.units in
      if not (may_await w.state)
      then (w, thrown runtime)
      else (record w { units = units; state = store_if o w.state WorkerState.terminated }, o)

  -- One step of the thread; at the pull, `task` is how pulling, initializing and running a task and
  -- the callbacks end.
  unfoldable pub loop_step : Outcome → Worker → Worker
  unfolding each_secondary lead proceed_if
  loop_step task w = elim w.loop [
    | absent ↦ w
    | pulling ↦ record w { loop = proceed_if task suspend_test }
    | suspend_test ↦ record w {
      loop =
          if is_worker_state w.state WorkerState.suspending then suspend_store else terminate_test;
    }
    | suspend_store ↦
        let (units, o) = each_secondary (Compute.suspend b) w.units in
        record { state = WorkerState.suspended; units = units; loop = proceed_if o waiting }
    | waiting ↦
        let (units, o) = each_secondary (Compute.resume b) w.units in
        if is_worker_state w.state WorkerState.resuming
        then record w { units = units; loop = proceed_if o resume_store }
        else w
    | resume_store ↦ record w { state = WorkerState.running; loop = terminate_test }
    | terminate_test ↦
        let (units, o) = each_secondary (Compute.terminate b) w.units in
        let (units', o') = lead (Compute.terminate b) units in
        if is_worker_state w.state WorkerState.terminating
        then elim o [
          | returned ↦ record w { units = units'; loop = proceed_if o' exited }
          | thrown e ↦ record w { units = units; loop = crashed e }
        ]
        else record w { loop = pulling }
    | exited ↦ w
    | crashed e ↦ w
  ]

-- What may happen next: a call of the controller, or a step of the thread.
pub data Action : Type 0 where
  initializes starts terminates awaits steps : Action
  suspends resumes : Bool → Action
  -- a step of the thread in which a task throws, if it pulls one
  throws : Error → Action

has_exited : Loop → Bool
has_exited exited = true
has_exited _ = false

-- A wait for a thread that has not left its loop has not come back: nothing happens yet.
unfoldable pub act : Backend → Action → Worker → Worker
unfolding has_exited
act b initializes w = (initialize b w).0
act b starts w = (start b w).0
act b (suspends spurious) w = (suspend b spurious w).0
act b (resumes spurious) w = (resume b spurious w).0
act b terminates w = (terminate b w).0
act b awaits w = if has_exited w.loop then (await b w).0 else w
act b steps w = loop_step b returned w
act b (throws e) w = loop_step b (thrown e) w

unfoldable pub run : Backend → List Action → Worker → Worker
run b [] w = w
run b (a ∷ rest) w = run b rest (act b a w)
