-- ===== src/BpTree/Search.antt =====
-- Searching in bptree/main.c: find_leaf, find, find_range, cut, height, path_to_root.
pub mod Range
pub mod InRange
use transaction_system.Base.{
  ℕ, zero, suc, ◌+◌, ◌-◌, ◌/◌, ◌%◌, Bool, true, false, List, [], ◌∷◌, ◌++◌, ltb, leb, ◌==◌,
  if◌then◌else◌,
}
use transaction_system.Base.Run.{Cmd, fault, starved, pure, ◌>>=◌, ◌>>◌}
use transaction_system.BpTree.Heap.{Addr, Node, Store, get_key, get_pointer, at_node, node_at}

unfoldable pub cut : ℕ → ℕ
cut length = if length % 2 == 0 then length / 2 else length / 2 + 1

module _ (order : ℕ) where
  -- `while (i < c->num_keys) { if (key >= c->keys[i]) i++; else break; }`, `n` keys from the i-th.
  unfoldable pub child_index : ℕ → ℕ → ℕ → Cmd Node ℕ
  child_index key zero i = pure i
  child_index key (suc n) i = do
    k ← get_key order i
    if leb k key then child_index key n (i + 1) else pure i

  -- The pointer to follow from an inner node.
  unfoldable pub child_for : ℕ → ℕ → Cmd Node Addr
  child_for key n = do i ← child_index key n 0; get_pointer order i

  -- The loop of find_leaf, as many levels down as `depth`.
  unfoldable pub descend : ℕ → ℕ → Addr → Cmd Store Addr
  descend zero key c = λ s. starved
  descend (suc depth) key c = do
    n ← node_at c
    if n.is_leaf then pure c else (do p ← at_node c (child_for key n.num_keys); descend depth key p)

  unfoldable pub find_leaf : ℕ → Addr → ℕ → Cmd Store Addr
  find_leaf depth root key = if root == 0 then pure root else descend depth key root

  -- `for (i = 0; i < leaf->num_keys; i++) if (leaf->keys[i] == key) break;`
  unfoldable pub key_index : ℕ → ℕ → ℕ → Cmd Node ℕ
  key_index key zero i = pure i
  key_index key (suc n) i = do
    k ← get_key order i
    if k == key then pure i else key_index key n (i + 1)

  -- The record of the key in a leaf, NULL where there is none.
  unfoldable pub record_in : ℕ → ℕ → Cmd Node Addr
  record_in key n = do i ← key_index key n 0; if i == n then pure 0 else get_pointer order i

  -- The record, and what `*leaf_out` is set to.
  unfoldable pub find : ℕ → Addr → ℕ → Cmd Store (Addr × Addr)
  find depth root key = if root == 0 then pure (0, 0) else (do
    leaf ← find_leaf depth root key
    n ← node_at leaf
    r ← at_node leaf (record_in key n.num_keys)
    pure (r, leaf))

  -- `for (i = 0; i < n->num_keys && n->keys[i] < key; i++)`, `n` keys from the i-th.
  unfoldable pub scan_below : ℕ → ℕ → ℕ → Cmd Node ℕ
  scan_below key zero i = pure i
  scan_below key (suc n) i = do
    k ← get_key order i
    if ltb k key then scan_below key n (i + 1) else pure i

  -- The entries from the i-th on with keys up to `key_end`: the inner loop of find_range.
  unfoldable pub collect_entries : ℕ → ℕ → ℕ → Cmd Node (List (ℕ × Addr))
  collect_entries key_end zero i = pure []
  collect_entries key_end (suc n) i = do
    k ← get_key order i
    if leb k key_end
        then (do
          p ← get_pointer order i
          rest ← collect_entries key_end n (i + 1)
          pure ((k, p) ∷ rest))
        else pure []

  -- `while (n != NULL)` of find_range, over as many leaves as `leaves`, from the i-th key of `n`.
  unfoldable pub range_loop : ℕ → ℕ → Addr → ℕ → Cmd Store (List (ℕ × Addr))
  range_loop zero key_end p i = if p == 0 then pure [] else λ s. starved
  range_loop (suc leaves) key_end p i = if p == 0 then pure [] else (do
    n ← node_at p
    found ← at_node p (collect_entries key_end (n.num_keys - i) i)
    after ← at_node p (get_pointer order (order - 1))
    rest ← range_loop leaves key_end after 0
    pure (found ++ rest))

  -- The entries stored in `returned_keys` and `returned_pointers`, in order.
  unfoldable pub find_range : ℕ → ℕ → Addr → ℕ → ℕ → Cmd Store (List (ℕ × Addr))
  find_range depth leaves root key_start key_end = do
    p ← find_leaf depth root key_start
    if p == 0 then pure [] else (do
      n ← node_at p
      i ← at_node p (scan_below key_start n.num_keys 0)
      if i == n.num_keys then pure [] else range_loop leaves key_end p i)

  -- `while (!c->is_leaf) { c = c->pointers[0]; h++; }`
  unfoldable pub height : ℕ → Addr → Cmd Store ℕ
  height zero c = λ s. starved
  height (suc depth) c = do
    n ← node_at c
    if n.is_leaf
        then pure 0
        else (do p ← at_node c (get_pointer order 0); h ← height depth p; pure (h + 1))

-- `while (c != root) { c = c->parent; length++; }`
unfoldable pub path_to_root : ℕ → Addr → Addr → Cmd Store ℕ
path_to_root zero root c = λ s. starved
path_to_root (suc depth) root c =
    if c == root
    then pure 0
    else (do n ← node_at c; l ← path_to_root depth root n.parent; pure (l + 1))
