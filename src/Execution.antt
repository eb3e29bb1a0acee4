-- ===== src/Execution.antt =====
-- include/hicr/core/executionState.hpp over include/hicr/backends/boost/coroutine.hpp and
-- include/hicr/backends/boost/executionState.hpp: a function that runs, suspends and resumes.
-- The function itself is the user's. Of it the model keeps how often it still suspends before it
-- returns; it does so through `suspend`. A switch of contexts is a call.
use hi_cr.Prelude.{
  ℕ, zero, suc, Bool, true, false, not, ◌||◌, Result, ok, ◌>>=◌, ◌>>◌, require, runtime,
  if◌then◌else◌,
}

-- `ExecutionState::state_t`
pub data State : Type 0 where
  uninitialized initialized running suspended finished : State

abbrev pub is_state : State → State → Bool
is_state State.uninitialized State.uninitialized = true
is_state State.initialized State.initialized = true
is_state State.running State.running = true
is_state State.suspended State.suspended = true
is_state State.finished State.finished = true
is_state _ _ = false

-- `Coroutine`, with what its function has left to do.
pub record Coroutine : Type 0 where
  pub has_finished : Bool
  pub running_context : Bool
  pub suspensions : ℕ

unfoldable pub yield_coroutine : Coroutine → Result Coroutine
yield_coroutine c = do
  require (not c.has_finished) runtime
  require c.running_context runtime
  ok (record c { running_context = false })

-- `Coroutine::start` enters the context, which yields at once.
unfoldable pub start_coroutine : ℕ → Result Coroutine
unfolding yield_coroutine
start_coroutine k =
    yield_coroutine (record { has_finished = false; running_context = true; suspensions = k })

-- The checks of `Coroutine::resume`, up to the switch into the function.
unfoldable pub enter_coroutine : Coroutine → Result Coroutine
enter_coroutine c = do
  require (not c.has_finished) runtime
  require (not c.running_context) runtime
  ok (record c { running_context = true })

-- The end of the lambda in `Coroutine::start`, after the function has returned.
unfoldable pub leave_coroutine : Coroutine → Coroutine
leave_coroutine c = record c { has_finished = true; running_context = false }

pub record ExecutionState : Type 0 where
  pub state : State
  pub coroutine : Coroutine

-- The constructor of the boost backend's execution state.
unfoldable pub create : ℕ → Result ExecutionState
unfolding start_coroutine
create k = do c ← start_coroutine k; ok (record { state = State.initialized; coroutine = c })

unfoldable pub suspend : ExecutionState → Result ExecutionState
unfolding yield_coroutine
suspend e = do
  require (is_state e.state State.running) runtime
  c ← yield_coroutine e.coroutine
  ok (record e { state = State.suspended; coroutine = c })

-- The function runs until it suspends or returns.
run_function : ℕ → ExecutionState → Result ExecutionState
unfolding suspend leave_coroutine
run_function zero e = ok (record e { coroutine = leave_coroutine e.coroutine })
run_function (suc k) e = suspend (record e { coroutine = record e.coroutine { suspensions = k } })

unfoldable pub resume : ExecutionState → Result ExecutionState
unfolding enter_coroutine run_function
resume e = do
  require (is_state e.state State.initialized || is_state e.state State.suspended) runtime
  c ← enter_coroutine e.coroutine
  run_function c.suspensions (record e { state = State.running; coroutine = c })

unfoldable pub check_finalization : ExecutionState → Bool × ExecutionState
check_finalization e =
    if e.coroutine.has_finished then (true, record e { state = State.finished }) else (false, e)
