-- ===== src/Silo/Commit/Sorted.antt =====
-- Sorting the write set by key keeps what it holds, and locks are then taken in the order of keys.
use transaction_system.Base.{ℕ, ◌≡◌, ◌≤◌, refl, false, ◌||◌, List, [], ◌∷◌, ◌==◌, arith}
use transaction_system.Silo.Executor.{WriteElement, search_write}
use transaction_system.Silo.Executor.Search.{writes, DistinctWrites}
use transaction_system.Silo.Commit.{insert_by_key, sort_by_key}

-- No later element has a smaller key.
abbrev pub Ascending : List WriteElement → Type 0
Ascending [] = Unit
Ascending (op ∷ []) = Unit
Ascending (op ∷ next ∷ ops) = (op.key ≤ next.key) × Ascending (next ∷ ops)

writes-insert_by_key :
    (k : ℕ) (x : WriteElement) (ops : List WriteElement)
    → writes k (insert_by_key x ops) ≡ (x.key == k || writes k ops)
unfolding insert_by_key search_write
writes-insert_by_key k x [] = ground arith
writes-insert_by_key k x (y ∷ ops) = ground (arith, writes-insert_by_key k x ops)

DistinctWrites-insert_by_key :
    (x : WriteElement) (ops : List WriteElement)
    → DistinctWrites ops
    → writes x.key ops ≡ false
    → DistinctWrites (insert_by_key x ops)
unfolding insert_by_key search_write
DistinctWrites-insert_by_key x [] d h = (refl, tt)
DistinctWrites-insert_by_key x (y ∷ ops) d h =
    ground (arith, writes-insert_by_key y.key x ops, DistinctWrites-insert_by_key x ops d.1)

Ascending-insert_by_key :
    (x : WriteElement) (ops : List WriteElement) → Ascending ops → Ascending (insert_by_key x ops)
unfolding insert_by_key
Ascending-insert_by_key x [] a = tt
Ascending-insert_by_key x (y ∷ []) a = ground arith
Ascending-insert_by_key x (y ∷ z ∷ ops) a = ground (arith, Ascending-insert_by_key x (z ∷ ops))

pub writes-sort_by_key :
    (k : ℕ) (ops : List WriteElement) → writes k (sort_by_key ops) ≡ writes k ops
unfolding sort_by_key search_write
writes-sort_by_key k [] = refl
writes-sort_by_key k (x ∷ ops) =
    ground (arith, writes-insert_by_key k x (sort_by_key ops), writes-sort_by_key k ops)

pub DistinctWrites-sort_by_key :
    (ops : List WriteElement) → DistinctWrites ops → DistinctWrites (sort_by_key ops)
unfolding sort_by_key
DistinctWrites-sort_by_key [] d = tt
DistinctWrites-sort_by_key (x ∷ ops) d =
    DistinctWrites-insert_by_key x (sort_by_key ops) (DistinctWrites-sort_by_key ops d.1)
      (rw (writes-sort_by_key x.key ops) d.0)

pub Ascending-sort_by_key : (ops : List WriteElement) → Ascending (sort_by_key ops)
unfolding sort_by_key
Ascending-sort_by_key [] = tt
Ascending-sort_by_key (x ∷ ops) =
    Ascending-insert_by_key x (sort_by_key ops) (Ascending-sort_by_key ops)
