-- ===== src/Compute/Lifetime.antt =====
-- When the operations of a processing unit return.
use hi_cr.Prelude.{◌≡◌}
use hi_cr.Compute.{returned, Backend}

-- The backend's part of every operation returns.
pub record Works (b : Backend) : Type 0 where
  pub initializes_ok : b.initialize_impl ≡ returned
  pub starts_ok : b.start_impl ≡ returned
  pub suspends_ok : b.suspend_impl ≡ returned
  pub resumes_ok : b.resume_impl ≡ returned
  pub terminates_ok : b.terminate_impl ≡ returned
  pub awaits_ok : b.await_impl ≡ returned
