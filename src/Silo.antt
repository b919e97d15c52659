-- ===== src/Silo.antt =====
-- silo/: the Silo protocol on one version per record. `Memory` is what the threads share and
-- `Executor` one TxnExecutor; each access to a shared word or byte is one turn, before which the
-- other threads may have changed the memory.
pub mod Memory
pub mod Executor
pub mod Commit
pub mod Worker
pub mod Epoch
mod Tests
