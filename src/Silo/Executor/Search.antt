-- ===== src/Silo/Executor/Search.antt =====
-- The read set and the write set of an executor hold each key at most once.
use transaction_system.Base.{ℕ, ◌≡◌, refl, Bool, false, ◌||◌, List, [], ◌∷◌, ◌++◌, ◌==◌, arith}
use transaction_system.Silo.Executor.{
  ReadElement, WriteElement, TxnExecutor, search_read, search_write, search_write_set, is_some,
  write,
}

abbrev pub reads : ℕ → List ReadElement → Bool
reads k ops = is_some (search_read k ops)

abbrev pub writes : ℕ → List WriteElement → Bool
writes k ops = is_some (search_write k ops)

abbrev pub DistinctReads : List ReadElement → Type 0
DistinctReads [] = Unit
DistinctReads (op ∷ ops) = (reads op.key ops ≡ false) × DistinctReads ops

abbrev pub DistinctWrites : List WriteElement → Type 0
DistinctWrites [] = Unit
DistinctWrites (op ∷ ops) = (writes op.key ops ≡ false) × DistinctWrites ops

pub reads-append :
    (k : ℕ) (ops : List ReadElement) (op : ReadElement)
    → reads k (ops ++ op ∷ []) ≡ (reads k ops || op.key == k)
unfolding search_read
reads-append k [] op = ground arith
reads-append k (x ∷ ops) op = ground (arith, reads-append k ops op)

pub writes-append :
    (k : ℕ) (ops : List WriteElement) (op : WriteElement)
    → writes k (ops ++ op ∷ []) ≡ (writes k ops || op.key == k)
unfolding search_write
writes-append k [] op = ground arith
writes-append k (x ∷ ops) op = ground (arith, writes-append k ops op)

pub DistinctReads-append :
    (ops : List ReadElement) (op : ReadElement)
    → DistinctReads ops
    → reads op.key ops ≡ false
    → DistinctReads (ops ++ op ∷ [])
unfolding search_read
DistinctReads-append [] op d h = (refl, tt)
DistinctReads-append (x ∷ ops) op d h =
    (ground (arith, reads-append x.key ops op), DistinctReads-append ops op d.1 (ground arith))

pub DistinctWrites-append :
    (ops : List WriteElement) (op : WriteElement)
    → DistinctWrites ops
    → writes op.key ops ≡ false
    → DistinctWrites (ops ++ op ∷ [])
unfolding search_write
DistinctWrites-append [] op d h = (refl, tt)
DistinctWrites-append (x ∷ ops) op d h =
    (ground (arith, writes-append x.key ops op), DistinctWrites-append ops op d.1 (ground arith))

pub record IsDistinct (t : TxnExecutor) : Type 0 where
  pub reads_once : DistinctReads t.read_set
  pub writes_once : DistinctWrites t.write_set

-- `write` keeps the sets free of duplicates.
pub write-IsDistinct : (t : TxnExecutor) (k : ℕ) → IsDistinct t → IsDistinct (write t k)
unfolding write search_write_set
write-IsDistinct t k d = ground (arith, DistinctWrites-append t.write_set (record { key = k }))

-- After `write` the key is in the write set, and every other key is where it was.
pub write-writes :
    (t : TxnExecutor) (k j : ℕ) → writes j (write t k).write_set ≡ (writes j t.write_set || k == j)
unfolding write search_write_set
write-writes t k j = ground (arith, writes-append j t.write_set (record { key = k }))
