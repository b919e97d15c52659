-- ===== src/KvSilo.antt =====
-- kvsilo/: Silo over a primary B+ tree of records. `Transaction` is kvsilo/transaction.cpp and
-- `Database` what kvsilo/database.cpp, worker.cpp and result.h do with it.
pub mod Memory
pub mod PrimaryTree
pub mod Transaction
pub mod Database
mod Tests
