-- ===== src/BpTree/Deletion.antt =====
-- Deletion in bptree/main.c: adjust_root, coalesce_nodes, redistribute_nodes, delete_entry, delete,
-- destroy_tree.
pub mod Found
use transaction_system.Base.{
  ℕ, zero, suc, ◌+◌, ◌-◌, Option, none, some, ltb, leb, ◌==◌, if◌then◌else◌, ◌||◌,
}
use transaction_system.Base.Run.{Cmd, fault, starved, pure, ◌>>=◌, ◌>>◌}
use transaction_system.BpTree.Heap.{
  Addr, Node, Store, get_key, set_key, get_pointer, set_pointer, add_key, drop_key, set_parent,
  at_node, node_at, free,
}
use transaction_system.BpTree.Search.{find}
use transaction_system.BpTree.Insertion.{adopt}
use transaction_system.BpTree.Removal.{
  get_neighbor_index, remove_entry_from_node, make_room, close_up, min_keys, capacity,
  k_prime_index_of, neighbor_of,
}

-- delete_entry, one level up.
abbrev pub Rise : Type 0
Rise = (root n : Addr) → (key : ℕ) → (pointer : Addr) → Cmd Store Addr

module _ (order : ℕ) where
  unfoldable pub adjust_root : Addr → Cmd Store Addr
  adjust_root root = do
    n ← node_at root
    if ltb 0 n.num_keys
        then pure root
        else (if n.is_leaf then (do free root; pure 0) else (do
          new_root ← at_node root (get_pointer order 0)
          at_node new_root (set_parent 0)
          free root
          pure new_root))

  -- `c` entries of the inner node `n` from the j-th, appended to `neighbor` from the i-th on.
  unfoldable pub append_inner : (n neighbor : Addr) → (c i j : ℕ) → Cmd Store (Unit {0})
  append_inner n neighbor zero i j = pure tt
  append_inner n neighbor (suc c) i j = do
    k ← at_node n (get_key order j)
    at_node neighbor (set_key order i k)
    p ← at_node n (get_pointer order j)
    at_node neighbor (set_pointer order i p)
    at_node neighbor add_key
    at_node n drop_key
    append_inner n neighbor c (i + 1) (j + 1)

  -- The same for leaves, where `n` keeps its count.
  unfoldable pub append_leaf : (n neighbor : Addr) → (c i j : ℕ) → Cmd Store (Unit {0})
  append_leaf n neighbor zero i j = pure tt
  append_leaf n neighbor (suc c) i j = do
    k ← at_node n (get_key order j)
    at_node neighbor (set_key order i k)
    p ← at_node n (get_pointer order j)
    at_node neighbor (set_pointer order i p)
    at_node neighbor add_key
    append_leaf n neighbor c (i + 1) (j + 1)

  -- coalesce_nodes after the swap: `n` is the right one of the two.
  unfoldable pub coalesce_into : Rise → (root n neighbor : Addr) → (k_prime : ℕ) → Cmd Store Addr
  coalesce_into rise root n neighbor k_prime = do
    left ← node_at neighbor
    right ← node_at n
    let i = left.num_keys
    if right.is_leaf
        then (do
          append_leaf n neighbor right.num_keys i 0
          p ← at_node n (get_pointer order (order - 1))
          at_node neighbor (set_pointer order (order - 1) p))
        else (do
          at_node neighbor (set_key order i k_prime)
          at_node neighbor add_key
          append_inner n neighbor right.num_keys (i + 1) 0
          p ← at_node n (get_pointer order right.num_keys)
          at_node neighbor (set_pointer order (i + 1 + right.num_keys) p)
          joined ← node_at neighbor
          adopt order neighbor (joined.num_keys + 1) 0)
    child ← node_at n
    new_root ← rise root child.parent k_prime n
    free n
    pure new_root

  unfoldable pub coalesce_nodes :
      Rise → (root n neighbor : Addr) → Option ℕ → (k_prime : ℕ) → Cmd Store Addr
  coalesce_nodes rise root n neighbor none k_prime = coalesce_into rise root neighbor n k_prime
  coalesce_nodes rise root n neighbor (some i) k_prime = coalesce_into rise root n neighbor k_prime

  -- `neighbor->num_keys - 1` as an index: a fault of the model at 0.
  unfoldable pub last_index : Node → Cmd Store ℕ
  last_index neighbor =
      if neighbor.num_keys == 0 then (λ s. fault) else pure (neighbor.num_keys - 1)

  -- redistribute_nodes where the neighbour is on the left.
  unfoldable pub redistribute_from_left :
      (n neighbor : Addr) → (k_prime_index k_prime : ℕ) → Cmd Store (Unit {0})
  redistribute_from_left n neighbor k_prime_index k_prime = do
    small ← node_at n
    big ← node_at neighbor
    if small.is_leaf then pure tt else (do
      p ← at_node n (get_pointer order small.num_keys)
      at_node n (set_pointer order (small.num_keys + 1) p))
    at_node n (make_room order small.num_keys)
    last ← last_index big
    if small.is_leaf
        then (do
          p ← at_node neighbor (get_pointer order last)
          at_node n (set_pointer order 0 p)
          at_node neighbor (set_pointer order last 0)
          k ← at_node neighbor (get_key order last)
          at_node n (set_key order 0 k)
          at_node small.parent (set_key order k_prime_index k))
        else (do
          p ← at_node neighbor (get_pointer order big.num_keys)
          at_node n (set_pointer order 0 p)
          at_node p (set_parent n)
          at_node neighbor (set_pointer order big.num_keys 0)
          at_node n (set_key order 0 k_prime)
          k ← at_node neighbor (get_key order last)
          at_node small.parent (set_key order k_prime_index k))

  -- redistribute_nodes where `n` is the leftmost child.
  unfoldable pub redistribute_from_right :
      (n neighbor : Addr) → (k_prime_index k_prime : ℕ) → Cmd Store (Unit {0})
  redistribute_from_right n neighbor k_prime_index k_prime = do
    small ← node_at n
    big ← node_at neighbor
    if small.is_leaf
        then (do
          k ← at_node neighbor (get_key order 0)
          at_node n (set_key order small.num_keys k)
          p ← at_node neighbor (get_pointer order 0)
          at_node n (set_pointer order small.num_keys p)
          up ← at_node neighbor (get_key order 1)
          at_node small.parent (set_key order k_prime_index up))
        else (do
          at_node n (set_key order small.num_keys k_prime)
          p ← at_node neighbor (get_pointer order 0)
          at_node n (set_pointer order (small.num_keys + 1) p)
          at_node p (set_parent n)
          up ← at_node neighbor (get_key order 0)
          at_node small.parent (set_key order k_prime_index up))
    at_node neighbor (close_up order (big.num_keys - 1) 0)
    if small.is_leaf then pure tt else (do
      p ← at_node neighbor (get_pointer order (big.num_keys - 1 + 1))
      at_node neighbor (set_pointer order (big.num_keys - 1) p))

  unfoldable pub redistribute_nodes :
      (root n neighbor : Addr) → Option ℕ → (k_prime_index k_prime : ℕ) → Cmd Store Addr
  redistribute_nodes root n neighbor neighbor_index k_prime_index k_prime = do
    elim neighbor_index [
      | some i ↦ redistribute_from_left n neighbor k_prime_index k_prime
      | none ↦ redistribute_from_right n neighbor k_prime_index k_prime
    ]
    at_node n add_key
    at_node neighbor drop_key
    pure root

  -- As many levels up as `depth`.
  unfoldable pub delete_entry : ℕ → Rise
  delete_entry zero root n key pointer = λ s. starved
  delete_entry (suc depth) root n key pointer = do
    at_node n (remove_entry_from_node order key pointer)
    left ← node_at n
    if n == root
        then adjust_root root
        else (if leb (min_keys order left.is_leaf) left.num_keys then pure root else (do
          neighbor_index ← at_node left.parent (get_neighbor_index order n)
          let k_prime_index = k_prime_index_of neighbor_index
          k_prime ← at_node left.parent (get_key order k_prime_index)
          neighbor ← at_node left.parent (get_pointer order (neighbor_of neighbor_index))
          beside ← node_at neighbor
          if ltb (beside.num_keys + left.num_keys) (capacity order left.is_leaf)
              then coalesce_nodes (delete_entry depth) root n neighbor neighbor_index k_prime
              else redistribute_nodes root n neighbor neighbor_index k_prime_index k_prime))

  unfoldable pub delete : ℕ → (root : Addr) → (key : ℕ) → Cmd Store Addr
  delete depth root key = do
    (key_record, key_leaf) ← find order depth root key
    if key_record == 0 || key_leaf == 0 then pure root else (do
      new_root ← delete_entry depth root key_leaf key key_record
      free key_record
      pure new_root)

  -- `f` on `n` pointers of the node at `p` from the i-th.
  unfoldable pub for_pointers : (Addr → Cmd Store (Unit {0})) → Addr → ℕ → ℕ → Cmd Store (Unit {0})
  for_pointers f p zero i = pure tt
  for_pointers f p (suc n) i = do
    q ← at_node p (get_pointer order i)
    f q
    for_pointers f p n (i + 1)

  unfoldable pub destroy_tree_nodes : ℕ → Addr → Cmd Store (Unit {0})
  destroy_tree_nodes zero root = λ s. starved
  destroy_tree_nodes (suc depth) root = do
    n ← node_at root
    if n.is_leaf
        then for_pointers free root n.num_keys 0
        else for_pointers (destroy_tree_nodes depth) root (n.num_keys + 1) 0
    free root

  unfoldable pub destroy_tree : ℕ → Addr → Cmd Store Addr
  destroy_tree depth root = do destroy_tree_nodes depth root; pure 0
