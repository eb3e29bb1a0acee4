-- ===== src/Tasking/Worker/Termination.antt =====
-- How a worker ends, and when it cannot.
use hi_cr.Prelude.{Error, inl, inr, ap, ◌∙◌, map, List, [], ◌∷◌, ◌≡◌, refl, arith, runtime, ◌⊎◌}
use hi_cr.Compute.{PuState, Outcome, returned, thrown, Backend}
use hi_cr.Compute
use hi_cr.Compute.Lifetime.{Works}
use hi_cr.Tasking.Worker.{
  Worker, WorkerState, Loop, pulling, suspend_test, suspend_store, waiting, terminate_test, exited,
  Action, initializes, starts, terminates, awaits, steps, suspends, resumes, throws, crashed, each,
  act, run, initialize, start, suspend, resume, terminate, await, loop_step,
}

-- The worker sleeps in its loop and its state says that it is to terminate.
pub record Stuck (w : Worker) : Type 0 where
  pub state : w.state ≡ WorkerState.terminating
  pub loop : w.loop ≡ waiting

act-Stuck : (b : Backend) (a : Action) {w : Worker} → Stuck w → Stuck (act b a w)
unfolding act initialize start suspend resume terminate loop_step
act-Stuck b initializes s = ground arith
act-Stuck b starts s = ground arith
act-Stuck b terminates s = ground arith
act-Stuck b awaits s = ground arith
act-Stuck b steps s = ground arith
act-Stuck b (suspends x) s = ground arith
act-Stuck b (resumes x) s = ground arith
act-Stuck b (throws e) s = ground arith

run-Stuck : (b : Backend) (l : List Action) {w : Worker} → Stuck w → Stuck (run b l w)
unfolding run
run-Stuck b [] s = s
run-Stuck b (a ∷ l) s = run-Stuck b l (act-Stuck b a s)

-- Terminating a suspended worker, in the wait of its loop, throws, and all the same leaves it so
-- that no sequence of further calls and steps ever brings its loop out of the wait.
pub terminate_suspended :
    (b : Backend) (w : Worker) (l : List Action)
    → w.state ≡ WorkerState.suspended
    → w.loop ≡ waiting
    → ((terminate b w).1 ≡ thrown runtime) × ((run b l (terminate b w).0).loop ≡ waiting)
unfolding terminate
terminate_suspended b w l e f =
    (ground arith, (run-Stuck b l (record { state = refl; loop = f })).loop)

-- A termination between the test for `suspending` and the store of `suspended` returns, and is
-- overwritten: the worker of one unit is then suspended as if it had not been asked to terminate.
pub terminate_lost :
    (b : Backend) (w : Worker) (u : PuState)
    → w.state ≡ WorkerState.suspending
    → w.loop ≡ suspend_store
    → w.units ≡ u ∷ []
    → ((terminate b w).1 ≡ returned)
      × (loop_step b returned (terminate b w).0 ≡ loop_step b returned w)
      × ((loop_step b returned w).state ≡ WorkerState.suspended)
unfolding terminate loop_step
terminate_lost b w u e f g = (ground arith, ground arith, ground arith)

each-terminate :
    (b : Backend) (us : List PuState)
    → Works b
    → each (Compute.terminate b) us ≡ (map (λ _. PuState.terminating) us, returned)
unfolding each Compute.terminate
each-terminate b [] w = refl
each-terminate b (u ∷ us) w = ground (arith, w, each-terminate b us w)

each-await :
    (b : Backend) (us : List PuState)
    → Works b
    → each (Compute.await b) (map (λ _. PuState.terminating) us)
      ≡ (map (λ _. PuState.terminated) us, returned)
unfolding each Compute.await
each-await b [] w = refl
each-await b (u ∷ us) w = ground (arith, w, each-await b us w)

-- The three places of the loop from which it reads the state before it stores one.
abbrev pub Awake : Loop → Type 0
Awake l = (l ≡ pulling) ⊎ (l ≡ suspend_test) ⊎ (l ≡ terminate_test)

abbrev asked : List PuState → Loop → Worker
asked us l = record { state = WorkerState.terminating; units = us; loop = l }

abbrev over : List PuState → Worker
over us = record {
  state = WorkerState.terminating;
  units = map (λ _. PuState.terminating) us;
  loop = exited;
}

test_exits :
    (b : Backend) (u : PuState) (us : List PuState)
    → Works b
    → loop_step b returned (asked (u ∷ us) terminate_test) ≡ over (u ∷ us)
unfolding loop_step Compute.terminate
test_exits b u us k = ground (arith, k, each-terminate b us k)

pull_step :
    (b : Backend) (us : List PuState)
    → loop_step b returned (asked us pulling) ≡ asked us suspend_test
unfolding loop_step
pull_step b us = refl

pass_step :
    (b : Backend) (us : List PuState)
    → loop_step b returned (asked us suspend_test) ≡ asked us terminate_test
unfolding loop_step
pass_step b us = refl

over_step : (b : Backend) (us : List PuState) → loop_step b returned (over us) ≡ over us
unfolding loop_step
over_step b us = refl

exits :
    (b : Backend) (u : PuState) (us : List PuState) (l : Loop)
    → Works b
    → Awake l
    → run b (steps ∷ steps ∷ steps ∷ []) (asked (u ∷ us) l) ≡ over (u ∷ us)
unfolding run act
exits b u us l k (inl e) = rw (e, pull_step b (u ∷ us), pass_step b (u ∷ us)) (test_exits b u us k)
exits b u us l k (inr (inl e)) =
    rw (e, pass_step b (u ∷ us), test_exits b u us k) (over_step b (u ∷ us))
exits b u us l k (inr (inr e)) =
    rw (e, test_exits b u us k, over_step b (u ∷ us)) (over_step b (u ∷ us))

run_snoc :
    (b : Backend) (w : Worker)
    → run b (steps ∷ steps ∷ steps ∷ awaits ∷ []) w
      ≡ act b awaits (run b (steps ∷ steps ∷ steps ∷ []) w)
unfolding run
run_snoc b w = refl

await_over :
    (b : Backend) (us : List PuState)
    → Works b
    → act b awaits (over us) ≡ record {
      state = WorkerState.terminated;
      units = map (λ _. PuState.terminated) us;
      loop = exited;
    }
unfolding act await
await_over b us k = ground (arith, each-await b us k)

-- An exception has left the loop of a worker that is to terminate.
record Left (e : Error) (w : Worker) : Type 0 where
  state : w.state ≡ WorkerState.terminating
  loop : w.loop ≡ crashed e

act-Left : (b : Backend) (e : Error) (a : Action) {w : Worker} → Left e w → Left e (act b a w)
unfolding act initialize start suspend resume terminate loop_step
act-Left b e initializes s = ground arith
act-Left b e starts s = ground arith
act-Left b e terminates s = ground arith
act-Left b e awaits s = ground arith
act-Left b e steps s = ground arith
act-Left b e (suspends x) s = ground arith
act-Left b e (resumes x) s = ground arith
act-Left b e (throws x) s = ground arith

run-Left :
    (b : Backend) (e : Error) (l : List Action) {w : Worker}
    → Left e w
    → (run b l w).loop ≡ crashed e
unfolding run
run-Left b e [] s = s.loop
run-Left b e (a ∷ l) s = run-Left b e l (act-Left b e a s)

thrown_task :
    (b : Backend) (e : Error) (w : Worker)
    → w.state ≡ WorkerState.terminating
    → Left e (act b (throws e) (record w { loop = pulling }))
unfolding act loop_step
thrown_task b e w f = record { state = f; loop = refl }

run_first :
    (b : Backend) (a : Action) (l : List Action) (w : Worker)
    → run b (a ∷ l) w ≡ run b l (act b a w)
unfolding run
run_first b a l w = refl

-- A worker that is asked to terminate while its loop is between two stores, over a backend whose
-- parts return, leaves the loop within three steps of its thread in which no task throws, with every
-- unit terminating; a wait for it then leaves the worker and every unit terminated. If instead it is
-- at the pull and the task throws, the exception has left the loop, and no sequence of further calls
-- and steps changes that.
pub terminates_in_three :
    (b : Backend) (w : Worker) (u : PuState) (us : List PuState) (e : Error) (l : List Action)
    → Works b
    → w.state ≡ WorkerState.terminating
    → w.units ≡ u ∷ us
    → Awake w.loop
    → (run b (steps ∷ steps ∷ steps ∷ []) w ≡ over (u ∷ us))
      × (run b (steps ∷ steps ∷ steps ∷ awaits ∷ []) w ≡ record {
        state = WorkerState.terminated;
        units = map (λ _. PuState.terminated) (u ∷ us);
        loop = exited;
      })
      × ((run b (throws e ∷ l) (record w { loop = pulling })).loop ≡ crashed e)
terminates_in_three b w u us x l k e f a =
    let start_eq : w ≡ asked (u ∷ us) w.loop =
      λ i. record { state = e i; units = f i; loop = w.loop } in
    let done : run b (steps ∷ steps ∷ steps ∷ []) w ≡ over (u ∷ us) =
      rw start_eq (exits b u us w.loop k a) in
    (
      done,
      run_snoc b w ∙ (ap (act b awaits) done ∙ await_over b (u ∷ us) k),
      ap (λ (v : Worker). v.loop) (run_first b (throws x) l (record w { loop = pulling }))
          ∙ run-Left b x l (thrown_task b x w e),
    )
