-- ===== src/BpTree/Slots.antt =====
-- Insertion in one node of bptree/main.c: get_left_index, insert_into_leaf, insert_into_node, and the
-- loops by which a full node is copied and divided.
pub mod Sorted
pub mod Cells
pub mod Leaf
pub mod Overfull
pub mod Split
use transaction_system.Base.{
  ℕ, zero, suc, ◌+◌, ◌-◌, Bool, true, false, Option, none, some, ltb, leb, ◌==◌, if◌then◌else◌,
}
use transaction_system.Base.Run.{Cmd, fault, starved, pure, ◌>>=◌, ◌>>◌}
use transaction_system.BpTree.Heap.{
  Addr, Array, Node, Store, a_node, blank_node, load, save, get_key, set_key, get_pointer,
  set_pointer, add_key, clear_keys, set_parent, at_node, node_at, set_value, malloc, make_record,
  make_node,
}
use transaction_system.BpTree.Search.{cut, scan_below, find_leaf, find}

module _ (order : ℕ) where
  -- The loop of get_left_index, `n` pointers from the i-th.
  unfoldable pub left_index_loop : Addr → ℕ → ℕ → Cmd Node ℕ
  left_index_loop left zero i = pure i
  left_index_loop left (suc n) i = do
    p ← get_pointer order i
    if p == left then pure i else left_index_loop left n (i + 1)

  unfoldable pub get_left_index : Addr → Cmd Node ℕ
  get_left_index left parent = left_index_loop left (parent.num_keys + 1) 0 parent

  -- `for (i = leaf->num_keys; i > insertion_point; i--)`: the `n` entries below the i-th move up.
  unfoldable pub move_up : ℕ → ℕ → Cmd Node (Unit {0})
  move_up zero i = pure tt
  move_up (suc n) i = do
    k ← get_key order (i - 1)
    set_key order i k
    p ← get_pointer order (i - 1)
    set_pointer order i p
    move_up n (i - 1)

  unfoldable pub insert_into_leaf : ℕ → Addr → Cmd Node (Unit {0})
  insert_into_leaf key pointer leaf =
      (do
        insertion_point ← scan_below order key leaf.num_keys 0
        move_up (leaf.num_keys - insertion_point) leaf.num_keys
        set_key order insertion_point key
        set_pointer order insertion_point pointer
        add_key)
        leaf

  -- The entries of a full leaf copied to the temporary arrays, with a gap at `insertion_index`.
  unfoldable pub spread_entries : ℕ → ℕ → ℕ → ℕ → Array → Array → Cmd Node (Array × Array)
  spread_entries insertion_index zero i j keys pointers = pure (keys, pointers)
  spread_entries insertion_index (suc n) i j keys pointers = do
    let to = if j == insertion_index then j + 1 else j
    k ← get_key order i
    keys₁ ← save order keys to k
    p ← get_pointer order i
    pointers₁ ← save order pointers to p
    spread_entries insertion_index n (i + 1) (to + 1) keys₁ pointers₁

  -- `n` entries of the temporary arrays from the i-th, stored in a node from the j-th on; the
  -- temporary pointers have `size` cells.
  unfoldable pub take_entries : ℕ → Array → Array → ℕ → ℕ → ℕ → Cmd Node (Unit {0})
  take_entries size keys pointers zero i j = pure tt
  take_entries size keys pointers (suc n) i j = do
    p ← load size pointers i
    set_pointer order j p
    k ← load order keys i
    set_key order j k
    add_key
    take_entries size keys pointers n (i + 1) (j + 1)

  -- `n` pointers from the i-th set to NULL.
  unfoldable pub clear_pointers : ℕ → ℕ → Cmd Node (Unit {0})
  clear_pointers zero i = pure tt
  clear_pointers (suc n) i = do set_pointer order i 0; clear_pointers n (i + 1)

  -- The temporary arrays of a leaf that overflows: its entries with the new one in order.
  unfoldable pub overfull : ℕ → Addr → Cmd Node (Array × Array)
  overfull key pointer leaf =
      (do
        insertion_index ← scan_below order key (order - 1) 0
        (keys, pointers) ← spread_entries insertion_index leaf.num_keys 0 0 (λ i. none) (λ i. none)
        keys₁ ← save order keys insertion_index key
        pointers₁ ← save order pointers insertion_index pointer
        pure (keys₁, pointers₁))
        leaf

  -- What the left leaf keeps: `split` entries, the pointer to the new leaf, and NULL between them.
  unfoldable pub keep_left : Array → Array → Cmd Node (Unit {0})
  keep_left keys pointers = do clear_keys; take_entries order keys pointers (cut (order - 1)) 0 0

  unfoldable pub fill_right : Array → Array → Cmd Node (Unit {0})
  fill_right keys pointers =
      take_entries order keys pointers (order - cut (order - 1)) (cut (order - 1)) 0

  unfoldable pub clear_rest : Cmd Node (Unit {0})
  clear_rest n = clear_pointers (order - 1 - n.num_keys) n.num_keys n

  -- The `n` children and keys from the i-th downwards move up by one.
  unfoldable pub move_children : ℕ → ℕ → Cmd Node (Unit {0})
  move_children zero i = pure tt
  move_children (suc n) i = do
    p ← get_pointer order i
    set_pointer order (i + 1) p
    k ← get_key order (i - 1)
    set_key order i k
    move_children n (i - 1)

  unfoldable pub insert_into_node : (left_index key : ℕ) → (right : Addr) → Cmd Node (Unit {0})
  insert_into_node left_index key right n =
      (do
        move_children (n.num_keys - left_index) n.num_keys
        set_pointer order (left_index + 1) right
        set_key order left_index key
        add_key)
        n

  -- The pointers, and the keys, of a full node copied with a gap at `gap`.
  unfoldable pub spread_pointers : ℕ → ℕ → ℕ → ℕ → Array → Cmd Node Array
  spread_pointers gap zero i j pointers = pure pointers
  spread_pointers gap (suc n) i j pointers = do
    let to = if j == gap then j + 1 else j
    p ← get_pointer order i
    pointers₁ ← save (order + 1) pointers to p
    spread_pointers gap n (i + 1) (to + 1) pointers₁

  unfoldable pub spread_keys : ℕ → ℕ → ℕ → ℕ → Array → Cmd Node Array
  spread_keys gap zero i j keys = pure keys
  spread_keys gap (suc n) i j keys = do
    let to = if j == gap then j + 1 else j
    k ← get_key order i
    keys₁ ← save order keys to k
    spread_keys gap n (i + 1) (to + 1) keys₁
