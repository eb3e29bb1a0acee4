-- ===== src/Channel.antt =====
-- include/hicr/frontends/channel: channels over the shared-memory backend.
pub mod CircularBuffer
pub mod Base
pub mod Window
pub mod FixedSpsc
pub mod LockingMpsc
pub mod Region
pub mod VariableSpsc
pub mod VariableLocking
pub mod NonlockingMpsc
pub mod VariableNonlocking
