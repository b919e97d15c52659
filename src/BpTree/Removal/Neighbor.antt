-- ===== src/BpTree/Removal/Neighbor.antt =====
-- get_left_index and get_neighbor_index of bptree/main.c search a parent for a child.
use transaction_system.Base.{
  ℕ, zero, suc, ◌+◌, ◌≤◌, ◌<◌, ◌≡◌, true, false, some, ◌==◌, arith, Bool-cases, inl, inr, ap, ◌∙◌,
  sym,
}
use transaction_system.Base.Run.{ok}
use transaction_system.BpTree.Heap.{Addr, Node}
use transaction_system.BpTree.Slots.{left_index_loop, get_left_index}
use transaction_system.BpTree.Removal.{before_index, neighbor_loop, get_neighbor_index}
use transaction_system.BpTree.Entries.{get_pointer-ok}

-- `child` stands at the index `at` of a node's pointers, and nowhere before it.
abbrev pub IsFirstAt : Node → Addr → ℕ → Type 0
IsFirstAt m child at =
    (m.pointers at ≡ some child)
    × ((j : ℕ) → j < at → (q : Addr) × (m.pointers j ≡ some q) × ((q == child) ≡ false))

module _ (order : ℕ) (m : Node) (child : Addr) (at : ℕ) (first : IsFirstAt m child at) where
  left_index_loop-ok :
      (n i : ℕ) → i ≤ at → at < i + n → at < order → left_index_loop order child n i m ≡ ok at m
  unfolding left_index_loop
  left_index_loop-ok zero i lo hi small = absurd (omega arith)
  left_index_loop-ok (suc n) i lo hi small = elim (Bool-cases (i == at)) [
    | inl here ↦
        let same : at ≡ i = ground arith in
        let found : m.pointers i ≡ some child = ap m.pointers (sym same) ∙ first.0 in
        let yes' : (child == child) ≡ true = ground arith in
        rw (get_pointer-ok order m i child (omega arith) found)
          (rw yes' (ap (λ (a : ℕ). ok a m) (sym same)))
    | inr later ↦
        let (q, there, other) = first.1 i (ground arith) in
        rw (get_pointer-ok order m i q (omega arith) there)
          (rw other (left_index_loop-ok n (i + 1) (ground arith) (omega arith) small))
  ]

  neighbor_loop-ok :
      (n i : ℕ)
      → i ≤ at
      → at < i + n
      → at < order
      → neighbor_loop order child n i m ≡ ok (before_index at) m
  unfolding neighbor_loop
  neighbor_loop-ok zero i lo hi small = absurd (omega arith)
  neighbor_loop-ok (suc n) i lo hi small = elim (Bool-cases (i == at)) [
    | inl here ↦
        let same : at ≡ i = ground arith in
        let found : m.pointers i ≡ some child = ap m.pointers (sym same) ∙ first.0 in
        let yes' : (child == child) ≡ true = ground arith in
        rw (get_pointer-ok order m i child (omega arith) found)
          (rw yes' (ap (λ (a : ℕ). ok (before_index a) m) (sym same)))
    | inr later ↦
        let (q, there, other) = first.1 i (ground arith) in
        rw (get_pointer-ok order m i q (omega arith) there)
          (rw other (neighbor_loop-ok n (i + 1) (ground arith) (omega arith) small))
  ]

  -- For a child that is first found at an index up to `num_keys` and below the order, get_left_index
  -- returns that index, and get_neighbor_index returns the one before it (-1 for the first child) and
  -- does not exit.
  pub get_neighbor_index-get_left_index :
      at ≤ m.num_keys
      → at < order
      → (get_left_index order child m ≡ ok at m)
        × (get_neighbor_index order child m ≡ ok (before_index at) m)
  unfolding get_left_index get_neighbor_index
  get_neighbor_index-get_left_index inside small = (
    left_index_loop-ok (m.num_keys + 1) 0 (omega arith) (omega arith) small,
    neighbor_loop-ok (m.num_keys + 1) 0 (omega arith) (omega arith) small,
  )
