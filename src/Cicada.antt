-- ===== src/Cicada.antt =====
-- cicada/: multi-version concurrency control with timestamps, as far as the repository has it.
pub mod TimeStamp
pub mod Memory
pub mod Executor
pub mod Leader
pub mod Collector
mod Tests
