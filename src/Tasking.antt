-- ===== src/Tasking.antt =====
-- include/hicr/frontends/tasking
pub mod CallbackMap
pub mod Task
pub mod Worker
pub mod Pull
