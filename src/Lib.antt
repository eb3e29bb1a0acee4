-- ===== src/Lib.antt =====
-- HiCR is a runtime library for distributed and heterogeneous systems. Its core classes check the
-- state of an operation and hand it to a backend; its frontends (channels, tasking) are written on
-- top of the core. This library models both over the shared-memory backend
-- (include/hicr/backends/pthreads), the host memory of include/hicr/backends/hwloc and the coroutines
-- of include/hicr/backends/boost; and the slots that processes share over include/hicr/backends/mpi.
--
-- - Prelude: shared names, Boolean tests, the list functions over native numbers, 64-bit arithmetic
--   that wraps around (add_size, mul_size, sub_size), and Prelude/Results, the three exceptions of
--   include/hicr/core/exceptions.hpp, and one for those of other libraries, as errors of a result.
-- - Memory: a local memory slot (include/hicr/core/localMemorySlot.hpp) with its bytes as a function
--   of the offset, and memcpy between local slots and between a global and a local one, with the
--   message counters. Memory/Laws says what a read after a copy gives.
-- - Registry: the global memory slots of include/hicr/core/communicationManager.hpp by tag and key,
--   over the store of include/hicr/backends/pthreads/core.hpp; Lookup and Exchange say which slots are found.
-- - Json: the readers of entries in extern/nlohmann_json/parser.hpp over an interface to the JSON
--   library beside it, whose dump of a value for a message may throw.
-- - Topology: include/hicr/core/topology.hpp with device.hpp, computeResource.hpp and
--   memorySpace.hpp beside it. Subset is about isSubset and merge, Counts about resources that are
--   taken, Serial about the JSON form and its errors.
-- - MemoryManager: include/hicr/core/memoryManager.hpp over the allocators of
--   include/hicr/backends/hwloc/memoryManager.hpp. Lifetime follows a slot to its end.
-- - Instances: include/hicr/core/instanceManager.hpp and the instances of
--   include/hicr/backends/pthreads. Register is about the list that each manager starts with, Manage
--   about creating, adding and terminating instances.
-- - Mpi: the collective exchange and destruction of global slots in
--   include/hicr/backends/mpi/communicationManager.hpp. Gather, Keys: what the collective calls bring
--   together. Exchange and Destroy: what each process then has.
-- - Channel/CircularBuffer: include/hicr/frontends/channel/circularBuffer.hpp. Channel/Base: the
--   constructor in include/hicr/frontends/channel/base.hpp. Channel/Window: tokens at positions.
-- - Channel/FixedSpsc: fixedSize/spsc/producer.hpp and consumer.hpp. Push, Pop and Create say what each
--   call does, Refine compares the channel with a queue, Threads interleaves the two sides at each
--   access to the memory that they share.
-- - Channel/LockingMpsc: fixedSize/mpsc/locking, where all calls work on the coordination buffer of
--   the consumer under a lock that is only tried.
-- - Channel/NonlockingMpsc: fixedSize/mpsc/nonlocking/consumer.hpp, a queue of indices over one SPSC
--   channel for each producer. Counts and Sync say how the two keep step.
-- - Channel/VariableSpsc: variableSize/spsc, with messages of any size in one piece. Channel/Region:
--   messages one after the other in a payload buffer. VariableSpsc/Sizes: their sizes.
-- - Channel/VariableLocking: variableSize/mpsc/locking, where a message may wrap around in the payload
--   buffer (Ring, Chunks). Bytes adds up the sizes of the oldest and of the newest messages.
-- - Channel/VariableNonlocking: variableSize/mpsc/nonlocking/consumer.hpp, a queue of indices over one
--   variable-size SPSC channel for each producer. NonlockingMpsc/Tracks says how such a queue keeps
--   step with the depths.
-- - ObjectStore: include/hicr/frontends/objectStore. Ids is about compound identifiers, Directory about
--   publication, reads and destruction. Lpf is about handles, whose global slots
--   include/hicr/backends/lpf/communicationManager.hpp serializes.
-- - Rpc: include/hicr/frontends/RPCEngine/RPCEngine.hpp. Payload holds the bytes of a request, Calls
--   and Roundtrip follow it to its execution, ReturnValues, Retrieve and Answer follow the value back.
--   Listen holds the loop that waits for a request. Start makes the request channels, Returning the
--   channels for return values. Buffers and ReturnBuffers hold the exchange of their buffers; Wiring
--   and Ends say who finds those of the request channels.
-- - Compute: the life of a processing unit (include/hicr/core/processingUnit.hpp, computeManager.hpp).
--   What the backend does at each operation is a parameter: it returns, or it throws.
-- - Execution: include/hicr/core/executionState.hpp over the coroutines of the boost backend, whose
--   context switch is a call. The user's function is the number of times that it still suspends.
-- - Tasking: callbackMap.hpp, task.hpp and worker.hpp of include/hicr/frontends/tasking. Worker holds
--   the calls of the controller and the steps of the thread's loop, and Pull what the loop does with
--   a task.
--
-- The channels use Memory and CircularBuffer; LockingMpsc uses a round of the loop of FixedSpsc; Pull
-- uses Task, which uses CallbackMap and Execution; Worker uses Compute. Rpc uses NonlockingMpsc for its
-- requests, VariableLocking for its return values, Registry for their buffers and Compute to execute.
-- Mpi has the maps of Registry, and the template of an instance in Instances is a device of Topology.
--
-- Bounds: counters and sizes are 64 bits and wrap. The theorems suppose that the head counter does not
-- wrap, and that a capacity is at most 2 ^ 63 (2 ^ 62 bytes and 2 ^ 60 messages for variable sizes), so
-- that the sum of two positions does not. No function runs on fuel: every loop is by structural
-- recursion on its number of rounds. In this backend flushReceived, queryMemorySlotUpdates and
-- the fences of a slot do nothing. A copy of one counter between two coordination buffers is an
-- assignment of the field.
--
-- The collective calls of MPI, LPF, the allocators of hwloc, the JSON library and what a backend gives for
-- a new instance are parameters. A sum of counts in an int is taken modulo 2 ^ 32, and so is the size
-- of a window; one that is negative as an int is not made.
--
-- A request is read as the bytes of two words, the lowest byte first. An exception below the lock of a
-- locking push, which only a failing copy could raise, is not followed; one of a pop keeps the state.
--
-- Not modelled: the fences of the object store; the discovery of devices and what the hwloc
-- classes add to the JSON form; the copies and window locks of MPI, which pass each call on; the
-- creation of threads, their signals and affinity. The other backends for devices and networks
-- are glue around libraries that are not part of the repository.
pub mod Channel
pub mod Compute
pub mod Execution
pub mod Instances
pub mod Json
pub mod Memory
pub mod MemoryManager
pub mod Mpi
pub mod ObjectStore
pub mod Prelude
pub mod Registry
pub mod Rpc
pub mod Tasking
pub mod Topology
