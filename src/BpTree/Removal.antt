-- ===== src/BpTree/Removal.antt =====
-- Deletion in one node of bptree/main.c: get_neighbor_index, remove_entry_from_node, the loops of
-- redistribute_nodes, and the bounds that delete_entry compares with.
pub mod Neighbor
pub mod Shift
pub mod Leaf
pub mod Lookup
use transaction_system.Base.{
  ℕ, zero, suc, ◌+◌, ◌-◌, Bool, true, false, Option, none, some, ltb, leb, ◌==◌, if◌then◌else◌, not,
  ◌||◌,
}
use transaction_system.Base.Run.{Cmd, fault, starved, pure, ◌>>=◌, ◌>>◌}
use transaction_system.BpTree.Heap.{
  Addr, Node, Store, get_key, set_key, get_pointer, set_pointer, add_key, drop_key, set_parent,
  at_node, node_at, free,
}
use transaction_system.BpTree.Search.{cut, find}
use transaction_system.BpTree.Slots.{clear_pointers}

-- `i - 1`, with `none` for -1.
unfoldable pub before_index : ℕ → Option ℕ
before_index zero = none
before_index (suc i) = some i

-- `neighbor_index == -1 ? 0 : neighbor_index`
unfoldable pub k_prime_index_of : Option ℕ → ℕ
k_prime_index_of none = 0
k_prime_index_of (some i) = i

-- The index of the pointer to the neighbour.
unfoldable pub neighbor_of : Option ℕ → ℕ
neighbor_of none = 1
neighbor_of (some i) = i

module _ (order : ℕ) where
  -- The loop of get_neighbor_index over `n` pointers of the parent from the i-th; `exit` after it.
  unfoldable pub neighbor_loop : Addr → ℕ → ℕ → Cmd Node (Option ℕ)
  neighbor_loop p zero i = λ n. fault
  neighbor_loop p (suc n) i = do
    q ← get_pointer order i
    if q == p then pure (before_index i) else neighbor_loop p n (i + 1)

  -- The neighbour's index in the parent, `none` for -1.
  unfoldable pub get_neighbor_index : Addr → Cmd Node (Option ℕ)
  get_neighbor_index p parent = neighbor_loop p (parent.num_keys + 1) 0 parent

  -- `while (n->keys[i] != key) i++;` and the same for pointers: only the end of the array stops it.
  unfoldable pub seek_key : ℕ → ℕ → ℕ → Cmd Node ℕ
  seek_key key zero i = λ n. fault
  seek_key key (suc cells) i = do
    k ← get_key order i
    if k == key then pure i else seek_key key cells (i + 1)

  unfoldable pub seek_pointer : Addr → ℕ → ℕ → Cmd Node ℕ
  seek_pointer p zero i = λ n. fault
  seek_pointer p (suc cells) i = do
    q ← get_pointer order i
    if q == p then pure i else seek_pointer p cells (i + 1)

  -- `n` keys, or pointers, from the i-th move down by one.
  unfoldable pub shift_keys : ℕ → ℕ → Cmd Node (Unit {0})
  shift_keys zero i = pure tt
  shift_keys (suc n) i = do k ← get_key order i; set_key order (i - 1) k; shift_keys n (i + 1)

  unfoldable pub shift_pointers : ℕ → ℕ → Cmd Node (Unit {0})
  shift_pointers zero i = pure tt
  shift_pointers (suc n) i = do
    p ← get_pointer order i
    set_pointer order (i - 1) p
    shift_pointers n (i + 1)

  -- The tidying at the end of remove_entry_from_node.
  unfoldable pub tidy : Cmd Node (Unit {0})
  tidy n =
      if n.is_leaf
      then clear_pointers order (order - 1 - n.num_keys) n.num_keys n
      else clear_pointers order (order - (n.num_keys + 1)) (n.num_keys + 1) n

  unfoldable pub remove_entry_from_node : (key : ℕ) → (pointer : Addr) → Cmd Node (Unit {0})
  remove_entry_from_node key pointer n =
      (do
        i ← seek_key key (order - 1) 0
        shift_keys (n.num_keys - (i + 1)) (i + 1)
        let num_pointers = if n.is_leaf then n.num_keys else n.num_keys + 1
        j ← seek_pointer pointer order 0
        shift_pointers (num_pointers - (j + 1)) (j + 1)
        drop_key
        tidy)
        n

  -- `for (i = n->num_keys; i > 0; i--)`: the `c` entries below the c-th move up.
  unfoldable pub make_room : ℕ → Cmd Node (Unit {0})
  make_room zero = pure tt
  make_room (suc i) = do
    k ← get_key order i
    set_key order (suc i) k
    p ← get_pointer order i
    set_pointer order (suc i) p
    make_room i

  -- `for (i = 0; i < neighbor->num_keys - 1; i++)`: `c` entries move down to the i-th on.
  unfoldable pub close_up : ℕ → ℕ → Cmd Node (Unit {0})
  close_up zero i = pure tt
  close_up (suc c) i = do
    k ← get_key order (i + 1)
    set_key order i k
    p ← get_pointer order (i + 1)
    set_pointer order i p
    close_up c (i + 1)

  unfoldable pub min_keys : Bool → ℕ
  min_keys is_leaf = if is_leaf then cut (order - 1) else cut order - 1

  unfoldable pub capacity : Bool → ℕ
  capacity is_leaf = if is_leaf then order else order - 1
