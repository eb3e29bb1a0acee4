-- ===== src/Memory.antt =====
-- include/hicr/core/localMemorySlot.hpp, the local and global `memcpy` of
-- include/hicr/core/communicationManager.hpp, and what they call in
-- include/hicr/backends/pthreads/communicationManager.hpp (shared memory).
pub mod Laws
use hi_cr.Prelude.{
  ℕ, zero, suc, ◌+◌, ◌-◌, List, [], ◌∷◌, ◌&&◌, Bool, ltb, leb, if◌then◌else◌, add_size, Result, ok,
  ◌>>=◌, ◌>>◌, require, Error, runtime, ◌^◌, ◌%◌,
}

-- `LocalMemorySlot`: `size` bytes behind a pointer, and the two message counters.
pub record Slot : Type 0 where
  pub size : ℕ
  pub byte : ℕ → ℕ
  pub messages_recv : ℕ
  pub messages_sent : ℕ

-- `std::memcpy(dst + dst_offset, src + src_offset, size)`.
unfoldable pub copy : (ℕ → ℕ) → ℕ → (ℕ → ℕ) → ℕ → ℕ → ℕ → ℕ
copy dst dst_offset src src_offset size a =
    if leb dst_offset a && ltb a (dst_offset + size)
    then src (src_offset + (a - dst_offset))
    else dst a

-- `memcpyImpl(Local, Local)` of the pthreads backend: the copy and one message on each side.
unfoldable pub memcpy_impl : Slot → ℕ → Slot → ℕ → ℕ → Slot × Slot
memcpy_impl dst dst_offset src src_offset size = (
  record dst {
    byte = copy dst.byte dst_offset src.byte src_offset size;
    messages_recv = add_size dst.messages_recv 1;
  },
  record src { messages_sent = add_size src.messages_sent 1 },
)

-- `CommunicationManager::memcpy(Local, Local)`. The result is the destination and the source.
unfoldable pub memcpy : Slot → ℕ → Slot → ℕ → ℕ → Result (Slot × Slot)
unfolding memcpy_impl
memcpy dst dst_offset src src_offset size = do
  require (leb (add_size size src_offset) src.size) runtime
  require (leb (add_size size dst_offset) dst.size) runtime
  ok (memcpy_impl dst dst_offset src src_offset size)

-- `memcpyImpl(Global, Local)` of the pthreads backend, for a global slot whose source slot is
-- local: the checked local copy, then one more message on each side.
unfoldable pub memcpy_global_impl : Slot → ℕ → Slot → ℕ → ℕ → Result (Slot × Slot)
unfolding memcpy
memcpy_global_impl dst dst_offset src src_offset size = do
  (dst', src') ← memcpy dst dst_offset src src_offset size
  ok (
    record dst' { messages_recv = add_size dst'.messages_recv 1 },
    record src' { messages_sent = add_size src'.messages_sent 1 },
  )

-- `CommunicationManager::memcpy(Global, Local)`: only the source is checked before the backend.
unfoldable pub memcpy_global : Slot → ℕ → Slot → ℕ → ℕ → Result (Slot × Slot)
unfolding memcpy_global_impl
memcpy_global dst dst_offset src src_offset size = do
  require (leb (add_size size src_offset) src.size) runtime
  memcpy_global_impl dst dst_offset src src_offset size

-- `memcpyImpl(Local, Global)` of the pthreads backend, for a global slot whose source slot is local.
unfoldable pub memcpy_local_impl : Slot → ℕ → Slot → ℕ → ℕ → Result (Slot × Slot)
unfolding memcpy
memcpy_local_impl dst dst_offset src src_offset size = do
  (dst', src') ← memcpy dst dst_offset src src_offset size
  ok (
    record dst' { messages_recv = add_size dst'.messages_recv 1 },
    record src' { messages_sent = add_size src'.messages_sent 1 },
  )

-- `CommunicationManager::memcpy(Local, Global)`: only the destination is checked before the backend.
unfoldable pub memcpy_local : Slot → ℕ → Slot → ℕ → ℕ → Result (Slot × Slot)
unfolding memcpy_local_impl
memcpy_local dst dst_offset src src_offset size = do
  require (leb (add_size size dst_offset) dst.size) runtime
  memcpy_local_impl dst dst_offset src src_offset size

-- The `n` bytes from an offset on.
unfoldable pub read : (ℕ → ℕ) → ℕ → ℕ → List ℕ
read m offset zero = []
read m offset (suc n) = m offset ∷ read m (suc offset) n
