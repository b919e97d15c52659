-- ===== src/BpTree/Insertion.antt =====
-- Insertion in bptree/main.c: the split of a leaf or of an inner node, the climb to the parent, and
-- insert.
pub mod Shape
pub mod Changed
pub mod Room
pub mod Pair
pub mod Halves
use transaction_system.Base.{ℕ, zero, suc, ◌+◌, ◌-◌, true, none, ltb, ◌==◌, if◌then◌else◌}
use transaction_system.Base.Run.{Cmd, starved, pure, ◌>>=◌, ◌>>◌}
use transaction_system.BpTree.Heap.{
  Addr, Store, a_node, blank_node, load, save, get_key, set_key, get_pointer, set_pointer, add_key,
  clear_keys, set_parent, at_node, node_at, set_value, malloc, make_record, make_node,
}
use transaction_system.BpTree.Search.{cut, find_leaf, find}
use transaction_system.BpTree.Slots.{
  get_left_index, insert_into_leaf, take_entries, overfull, keep_left, fill_right, clear_rest,
  insert_into_node, spread_pointers, spread_keys,
}

-- What a caller does with the two nodes of a split and the key between them.
abbrev pub Climb : Type 0
Climb = (root left : Addr) → (key : ℕ) → (right : Addr) → Cmd Store Addr

unfoldable pub make_leaf : Cmd Store Addr
unfolding malloc
make_leaf = malloc (a_node (blank_node true))

module _ (order : ℕ) where
  unfoldable pub insert_into_leaf_after_splitting :
      Climb → (root leaf : Addr) → (key : ℕ) → (pointer : Addr) → Cmd Store Addr
  insert_into_leaf_after_splitting climb root leaf key pointer = do
    new_leaf ← make_leaf
    (keys, pointers) ← at_node leaf (overfull order key pointer)
    at_node leaf (keep_left order keys pointers)
    at_node new_leaf (fill_right order keys pointers)
    after ← at_node leaf (get_pointer order (order - 1))
    at_node new_leaf (set_pointer order (order - 1) after)
    at_node leaf (set_pointer order (order - 1) new_leaf)
    at_node leaf (clear_rest order)
    at_node new_leaf (clear_rest order)
    n ← node_at leaf
    at_node new_leaf (set_parent n.parent)
    new_key ← at_node new_leaf (get_key order 0)
    climb root leaf new_key new_leaf

  -- `child->parent = p` for `n` children of `p` from the i-th.
  unfoldable pub adopt : Addr → ℕ → ℕ → Cmd Store (Unit {0})
  adopt p zero i = pure tt
  adopt p (suc n) i = do
    child ← at_node p (get_pointer order i)
    at_node child (set_parent p)
    adopt p n (i + 1)

  unfoldable pub insert_into_node_after_splitting :
      Climb → (root old_node : Addr) → (left_index key : ℕ) → (right : Addr) → Cmd Store Addr
  insert_into_node_after_splitting climb root old_node left_index key right = do
    old ← node_at old_node
    ps ←
        at_node old_node (spread_pointers order (left_index + 1) (old.num_keys + 1) 0 0 (λ i. none))
    ks ← at_node old_node (spread_keys order left_index old.num_keys 0 0 (λ i. none))
    pointers ← save (order + 1) ps (left_index + 1) right
    keys ← save order ks left_index key
    let split = cut order
    new_node ← make_node
    at_node old_node clear_keys
    at_node old_node (take_entries order (order + 1) keys pointers (split - 1) 0 0)
    p ← load (order + 1) pointers (split - 1)
    at_node old_node (set_pointer order (split - 1) p)
    k_prime ← load order keys (split - 1)
    at_node new_node (take_entries order (order + 1) keys pointers (order - split) split 0)
    q ← load (order + 1) pointers order
    at_node new_node (set_pointer order (order - split) q)
    at_node new_node (set_parent old.parent)
    new ← node_at new_node
    adopt new_node (new.num_keys + 1) 0
    climb root old_node k_prime new_node

-- The two children of a new root.
unfoldable pub insert_into_new_root :
    ℕ → (left : Addr) → (key : ℕ) → (right : Addr) → Cmd Store Addr
insert_into_new_root order left key right = do
  root ← make_node
  at_node root (set_key order 0 key)
  at_node root (set_pointer order 0 left)
  at_node root (set_pointer order 1 right)
  at_node root add_key
  at_node root (set_parent 0)
  at_node left (set_parent root)
  at_node right (set_parent root)
  pure root

-- As many levels up as `depth`.
unfoldable pub insert_into_parent : ℕ → ℕ → Climb
insert_into_parent order zero root left key right = λ s. starved
insert_into_parent order (suc depth) root left key right = do
  n ← node_at left
  if n.parent == 0 then insert_into_new_root order left key right else (do
    left_index ← at_node n.parent (get_left_index order left)
    parent ← node_at n.parent
    if ltb parent.num_keys (order - 1)
        then (do at_node n.parent (insert_into_node order left_index key right); pure root)
        else insert_into_node_after_splitting order (insert_into_parent order depth) root n.parent
            left_index key right)

unfoldable pub start_new_tree : ℕ → (key : ℕ) → (pointer : Addr) → Cmd Store Addr
start_new_tree order key pointer = do
  root ← make_leaf
  at_node root (set_key order 0 key)
  at_node root (set_pointer order 0 pointer)
  at_node root (set_pointer order (order - 1) 0)
  at_node root (set_parent 0)
  at_node root add_key
  pure root

-- Insertion of a value under a key: the root after it.
unfoldable pub insert : (order depth : ℕ) → (root : Addr) → (key value : ℕ) → Cmd Store Addr
insert order depth root key value = do
  (found, _) ← find order depth root key
  if found == 0
      then (do
        record_pointer ← make_record value
        if root == 0 then start_new_tree order key record_pointer else (do
          leaf ← find_leaf order depth root key
          n ← node_at leaf
          if ltb n.num_keys (order - 1)
              then (do at_node leaf (insert_into_leaf order key record_pointer); pure root)
              else insert_into_leaf_after_splitting order (insert_into_parent order depth) root leaf
                  key record_pointer))
      else (do set_value found value; pure root)
