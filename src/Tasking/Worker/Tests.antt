-- ===== src/Tasking/Worker/Tests.antt =====
-- Workers of one and of two units, over a backend whose parts return.
use hi_cr.Prelude.{◌≡◌, refl, arith, [], ◌∷◌, ◌++◌, replicate, runtime, inl, false}
use hi_cr.Compute.{PuState, returned, Backend}
use hi_cr.Compute.Lifetime.{Works}
use hi_cr.Tasking.Worker.{
  Worker, WorkerState, Loop, pulling, suspend_test, suspend_store, waiting, terminate_test, exited,
  steps, suspends, resumes, awaits, throws, crashed, run,
}
use hi_cr.Tasking.Worker.Termination.{terminates_in_three}
use hi_cr.Tasking.Worker.Suspension.{suspend_resume}

abbrev working : Backend
working = record {
  initialize_impl = returned;
  start_impl = returned;
  suspend_impl = returned;
  resume_impl = returned;
  terminate_impl = returned;
  await_impl = returned;
}

working-Works : Works working
working-Works = ground arith

-- A worker of one running unit.
abbrev worker_at : WorkerState → Loop → Worker
worker_at s l = record { state = s; units = PuState.running ∷ []; loop = l }

abbrev asleep : Worker
asleep = worker_at WorkerState.suspended waiting

abbrev storing : Worker
storing = worker_at WorkerState.suspending suspend_store

abbrev pair_asked : Worker
pair_asked = record {
  state = WorkerState.terminating;
  units = PuState.running ∷ PuState.ready ∷ [];
  loop = pulling;
}

terminates_in_three_example :
    (run working (steps ∷ steps ∷ steps ∷ []) pair_asked ≡ record {
      state = WorkerState.terminating;
      units = PuState.terminating ∷ PuState.terminating ∷ [];
      loop = exited;
    })
    × (run working (steps ∷ steps ∷ steps ∷ awaits ∷ []) pair_asked ≡ record {
      state = WorkerState.terminated;
      units = PuState.terminated ∷ PuState.terminated ∷ [];
      loop = exited;
    })
    × ((run working
          (throws runtime ∷ steps ∷ awaits ∷ [])
          (record pair_asked { loop = pulling })).loop
        ≡ crashed runtime)
terminates_in_three_example =
    terminates_in_three working pair_asked PuState.running (PuState.ready ∷ []) runtime
      (steps ∷ awaits ∷ []) working-Works refl refl (inl refl)

suspend_resume_example :
    run working
      (suspends false ∷ steps ∷ steps ∷ replicate 3 steps ++ (resumes false ∷ steps ∷ steps ∷ []))
      (worker_at WorkerState.running suspend_test)
    ≡ worker_at WorkerState.running terminate_test
suspend_resume_example =
    suspend_resume working 3 (worker_at WorkerState.running suspend_test) PuState.running refl refl
      refl
