-- ===== src/Tasking/Worker/Suspension.antt =====
-- What suspension does to the loop of a worker, by the number of its units.
use hi_cr.Prelude.{ℕ, zero, suc, false, List, [], ◌∷◌, ◌++◌, replicate, ◌≡◌, refl, arith, runtime}
use hi_cr.Compute.{PuState, Outcome, returned, thrown, Backend}
use hi_cr.Compute
use hi_cr.Compute.Lifetime.{Works}
use hi_cr.Tasking.Worker.{
  Worker, WorkerState, Loop, absent, pulling, suspend_test, waiting, terminate_test, crashed,
  Action, initializes, starts, steps, suspends, resumes, each, each_secondary, act, run, initialize,
  start, suspend, resume, loop_step,
}

each-initialize :
    (b : Backend) (n : ℕ)
    → Works b
    → each (Compute.initialize b) (replicate n PuState.uninitialized)
      ≡ (replicate n PuState.ready, returned)
unfolding each Compute.initialize
each-initialize b zero w = refl
each-initialize b (suc n) w = ground (arith, w, each-initialize b n w)

abbrev fresh : ℕ → Worker
fresh n = record {
  state = WorkerState.uninitialized;
  units = replicate n PuState.uninitialized;
  loop = absent;
}

abbrev initialized : ℕ → Worker
initialized n = record {
  state = WorkerState.ready;
  units = replicate n PuState.ready;
  loop = absent;
}

-- Only the first unit is started.
abbrev started : ℕ → WorkerState → Loop → Worker
started n s l = record { state = s; units = PuState.running ∷ replicate n PuState.ready; loop = l }

initialize_fresh :
    (b : Backend) (n : ℕ) → Works b → act b initializes (fresh (suc n)) ≡ initialized (suc n)
unfolding act initialize
initialize_fresh b n k = ground (arith, each-initialize b (suc n) k)

start_ready :
    (b : Backend) (n : ℕ)
    → Works b
    → act b starts (initialized (suc n)) ≡ started n WorkerState.running pulling
unfolding act start Compute.start
start_ready b n k = ground (arith, k)

started_crashes :
    (b : Backend) (n : ℕ)
    → run b
        (steps ∷ suspends false ∷ steps ∷ steps ∷ [])
        (started (suc n) WorkerState.running pulling)
      ≡ started (suc n) WorkerState.suspended (crashed runtime)
unfolding run act suspend loop_step each_secondary each Compute.suspend
started_crashes b n = refl

-- A worker of two or more units that is initialized and started over a backend whose parts
-- return, and is suspended once its loop is past the pull, ends its loop by a runtime error, as
-- it suspends units that were never started.
pub suspension_throws :
    (b : Backend) (n : ℕ)
    → Works b
    → (run b
        (initializes ∷ starts ∷ steps ∷ suspends false ∷ steps ∷ steps ∷ [])
        (fresh (suc (suc n)))).loop
      ≡ crashed runtime
unfolding run
suspension_throws b n k =
    rw (initialize_fresh b (suc n) k, start_ready b (suc n) k, started_crashes b n) refl

-- The worker of one unit in its suspension.
abbrev asleep : PuState → Worker
asleep u = record { state = WorkerState.suspended; units = u ∷ []; loop = waiting }

waits :
    (b : Backend) (n : ℕ) (u : PuState) (l : List Action)
    → run b (replicate n steps ++ l) (asleep u) ≡ run b l (asleep u)
unfolding run act loop_step
waits b zero u l = refl
waits b (suc n) u l = waits b n u l

-- A running worker of one unit that is suspended before the test of any of its rounds, waits for
-- any number of steps and is resumed, both exchanges without a spurious failure, is back in its
-- loop, running, with its unit untouched.
pub suspend_resume :
    (b : Backend) (n : ℕ) (w : Worker) (u : PuState)
    → w.state ≡ WorkerState.running
    → w.loop ≡ suspend_test
    → w.units ≡ u ∷ []
    → run b
        (suspends false ∷ steps ∷ steps ∷ replicate n steps ++ (resumes false ∷ steps ∷ steps ∷ []))
        w
      ≡ record { state = WorkerState.running; units = u ∷ []; loop = terminate_test }
unfolding run act suspend resume loop_step each_secondary each
suspend_resume b n w u e f g =
    let start_eq : w ≡ record { state = WorkerState.running; units = u ∷ []; loop = suspend_test } =
      λ i. record { state = e i; units = g i; loop = f i } in
    rw start_eq (waits b n u (resumes false ∷ steps ∷ steps ∷ []))
