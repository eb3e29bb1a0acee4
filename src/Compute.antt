-- ===== src/Compute.antt =====
-- include/hicr/core/processingUnit.hpp and include/hicr/core/computeManager.hpp: the life of a
-- processing unit. The backend's part of each operation is a parameter: it returns, or it throws.
pub mod Lifetime
use hi_cr.Prelude.{
  Bool, true, false, ◌&&◌, ◌||◌, not, Error, runtime, if◌then◌else◌, Option, none, some,
}

-- `ProcessingUnit::state_t`
pub data PuState : Type 0 where
  uninitialized ready running suspended terminating terminated : PuState

abbrev pub is_pu_state : PuState → PuState → Bool
is_pu_state PuState.uninitialized PuState.uninitialized = true
is_pu_state PuState.ready PuState.ready = true
is_pu_state PuState.running PuState.running = true
is_pu_state PuState.suspended PuState.suspended = true
is_pu_state PuState.terminating PuState.terminating = true
is_pu_state PuState.terminated PuState.terminated = true
is_pu_state _ _ = false

-- How an operation ends: it returns, or it throws.
pub data Outcome : Type 0 where
  returned : Outcome
  thrown : Error → Outcome

-- What the `...Impl` functions of the backend do at this call.
pub record Backend : Type 0 where
  pub initialize_impl : Outcome
  pub start_impl : Outcome
  pub suspend_impl : Outcome
  pub resume_impl : Outcome
  pub terminate_impl : Outcome
  pub await_impl : Outcome

-- The backend's part comes before the change of state.
impl_then_set : Outcome → PuState → PuState → PuState × Outcome
impl_then_set returned old new = (new, returned)
impl_then_set (thrown e) old new = (old, thrown e)

module _ (b : Backend) where
  unfoldable pub initialize : PuState → PuState × Outcome
  unfolding impl_then_set
  initialize s =
      if not (is_pu_state s PuState.uninitialized) && not (is_pu_state s PuState.terminated)
      then (s, thrown runtime)
      else impl_then_set b.initialize_impl s PuState.ready

  unfoldable pub start : PuState → PuState × Outcome
  start s =
      if not (is_pu_state s PuState.ready)
      then (s, thrown runtime)
      else (PuState.running, b.start_impl)

  unfoldable pub suspend : PuState → PuState × Outcome
  suspend s =
      if not (is_pu_state s PuState.running)
      then (s, thrown runtime)
      else (PuState.suspended, b.suspend_impl)

  unfoldable pub resume : PuState → PuState × Outcome
  resume s =
      if not (is_pu_state s PuState.suspended)
      then (s, thrown runtime)
      else (PuState.running, b.resume_impl)

  -- There is no check.
  unfoldable pub terminate : PuState → PuState × Outcome
  terminate s = (PuState.terminating, b.terminate_impl)

  unfoldable pub await : PuState → PuState × Outcome
  unfolding impl_then_set
  await s =
      if not (is_pu_state s PuState.terminating)
        && not (is_pu_state s PuState.running)
        && not (is_pu_state s PuState.suspended)
      then (s, returned)
      else impl_then_set b.await_impl s PuState.terminated
