-- ===== src/Masstree.antt =====
-- masstree/: the Masstree of key slices, its concurrent readers and its insertion.
pub mod Version
pub mod Key
pub mod Heap
pub mod Alone
pub mod Search
pub mod Access
pub mod Entry
pub mod Split
pub mod Insertion
pub mod Samples
mod Tests
