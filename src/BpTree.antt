-- ===== src/BpTree.antt =====
-- bptree/main.c: the B+ tree of order `order` in main memory, over a heap of nodes and records.
pub mod Heap
pub mod Search
pub mod Slots
pub mod Insertion
pub mod Removal
pub mod Deletion
pub mod Printing
pub mod Entries
pub mod Tree
pub mod Looks
mod Tests
