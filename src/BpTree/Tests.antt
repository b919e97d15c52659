-- ===== src/BpTree/Tests.antt =====
-- Trees of order 4, and the theorems at them.
mod Runs
mod Deleted
mod Divided
use transaction_system.Base.Lists.{length}
use transaction_system.Base.{
  ℕ, ◌≡◌, refl, List, [], ◌∷◌, ◌+◌, Option, none, some, true, false, ◌==◌, if◌then◌else◌, arith,
  ◌++◌,
}
use transaction_system.Base.Run.{Run, Returns, Cmd, ok, fault, starved, pure, ◌>>=◌}
use transaction_system.BpTree.Heap.{
  Addr, Array, Node, Store, absent, a_node, load, save, get_key, set_key, get_pointer, set_pointer,
  add_key, drop_key, clear_keys, set_parent, set_next, put, at_node, node_at, get_value, set_value,
  malloc, free, make_record, make_node,
}
use transaction_system.BpTree.Search.{
  cut, child_index, child_for, descend, find_leaf, key_index, record_in, find, scan_below,
  collect_entries, range_loop, find_range, height, path_to_root,
}
use transaction_system.BpTree.Slots.{
  left_index_loop, get_left_index, move_up, insert_into_leaf, spread_entries, take_entries,
  clear_pointers, overfull, keep_left, fill_right, clear_rest, move_children, insert_into_node,
  spread_pointers, spread_keys,
}
use transaction_system.BpTree.Insertion.{
  make_leaf, insert_into_leaf_after_splitting, adopt, insert_into_node_after_splitting,
  insert_into_new_root, insert_into_parent, start_new_tree, insert,
}
use transaction_system.BpTree.Removal.{
  before_index, k_prime_index_of, neighbor_of, neighbor_loop, get_neighbor_index, seek_key,
  seek_pointer, shift_keys, shift_pointers, tidy, remove_entry_from_node, make_room, close_up,
  min_keys, capacity,
}
use transaction_system.BpTree.Deletion.{
  adjust_root, append_inner, append_leaf, coalesce_into, coalesce_nodes, last_index,
  redistribute_from_left, redistribute_from_right, redistribute_nodes, delete_entry, delete,
  for_pointers, destroy_tree_nodes, destroy_tree,
}
use transaction_system.BpTree.Printing.{
  key_text, line_end, bar, get_queue, set_queue, last_loop, enqueue, dequeue, print_keys, leftmost,
  leaves_loop, print_leaves, enqueue_all, is_leftmost, rank_text, tree_loop, print_tree,
}
use transaction_system.BpTree.Entries.{Entry, Holds, lookup, Ascending}
use transaction_system.BpTree.Tree.{IsLeaf, IsTree, find-IsTree, descend-step}
use transaction_system.BpTree.Search.Range.{Chain}
use transaction_system.BpTree.Search.InRange.{find_range-misses, find_range-in_range}
use transaction_system.BpTree.Slots.Leaf.{
  insert_into_leaf-Holds, insert_into_leaf-record_in, insert_into_leaf-Ascending,
}
use transaction_system.BpTree.Insertion.Room.{FindsInserted, insert-find}
use transaction_system.BpTree.Removal.Neighbor.{get_neighbor_index-get_left_index}

abbrev pair_of : ℕ → ℕ → Array
pair_of a b i = if i == 0 then some a else if i == 1 then some b else none

abbrev leaf_with : Array → Array → ℕ → Node
leaf_with ks ps after = record {
  pointers = λ i. if i == 3 then some after else ps i;
  keys = ks;
  parent = 3;
  is_leaf = true;
  num_keys = 2;
  next = 0;
}

abbrev pub left_leaf : Node
left_leaf = leaf_with (pair_of 1 2) (pair_of 11 12) 2

abbrev right_leaf : Node
right_leaf = leaf_with (pair_of 5 6) (pair_of 15 16) 0

abbrev pub top : Node
top = record {
  pointers = pair_of 1 2;
  keys = λ i. if i == 0 then some 5 else none;
  parent = 0;
  is_leaf = false;
  num_keys = 1;
  next = 0;
}

-- The keys 1, 2 and 5, 6 in two leaves under a root at 3.
abbrev pub two_leaves : Store
two_leaves = record {
  object = λ p.
      if p == 1
      then a_node left_leaf
      else if p == 2
      then a_node right_leaf
      else if p == 3
      then a_node top
      else absent;
  fresh = 20;
  queue = 0;
}

abbrev pub low : List Entry
low = (1, 11) ∷ (2, 12) ∷ []

abbrev high : List Entry
high = (5, 15) ∷ (6, 16) ∷ []

low-IsLeaf : IsLeaf 4 two_leaves 1 low
low-IsLeaf = (left_leaf, refl, refl, refl, omega arith, (refl, refl, (refl, refl, tt)))

high-IsLeaf : IsLeaf 4 two_leaves 2 high
high-IsLeaf = (right_leaf, refl, refl, refl, omega arith, (refl, refl, (refl, refl, tt)))

two_leaves-IsTree : IsTree 4 two_leaves 1 3 (low ++ high)
two_leaves-IsTree = (
  top,
  refl,
  refl,
  omega arith,
  (
    5,
    1,
    low,
    high,
    refl,
    refl,
    low-IsLeaf,
    (omega arith, (omega arith, tt)),
    (omega arith, (omega arith, tt)),
    (2, refl, high-IsLeaf),
    refl,
  ),
)

find-IsTree_example : (leaf : Addr) × (find 4 2 3 5 two_leaves ≡ ok (15, leaf) two_leaves)
find-IsTree_example =
    find-IsTree 4 1 1 5 two_leaves 3 (low ++ high) (omega arith) (omega arith) (omega arith)
      two_leaves-IsTree

high-Chain : Chain 4 two_leaves 2 (high ∷ [])
high-Chain = (
  omega arith,
  right_leaf,
  refl,
  refl,
  omega arith,
  (refl, refl, (refl, refl, tt)),
  0,
  refl,
  refl,
)

low-Chain : Chain 4 two_leaves 1 (low ∷ high ∷ [])
low-Chain = (
  omega arith,
  left_leaf,
  refl,
  refl,
  omega arith,
  (refl, refl, (refl, refl, tt)),
  2,
  refl,
  high-Chain,
)

reached :
    (key : ℕ) → child_for 4 key 1 top ≡ ok 1 top → find_leaf 4 2 3 key two_leaves ≡ ok 1 two_leaves
unfolding find_leaf descend node_at
reached key goes = descend-step 4 1 key two_leaves 3 1 top refl refl goes

goes_left : (child_for 4 3 1 top ≡ ok 1 top) × (child_for 4 2 1 top ≡ ok 1 top)
unfolding child_for child_index get_key get_pointer
goes_left = (refl, refl)

-- Nothing is returned for the range from 3 to 6, where 5 and 6 are.
find_range-misses_example : find_range 4 2 3 3 3 6 two_leaves ≡ ok [] two_leaves
find_range-misses_example =
    find_range-misses 4 2 2 3 6 two_leaves 3 1 low (high ∷ []) (omega arith) (omega arith)
      (reached 3 goes_left.0) low-Chain refl

find_range-in_range_example :
    find_range 4 2 3 3 2 5 two_leaves ≡ ok ((2, 12) ∷ (5, 15) ∷ []) two_leaves
find_range-in_range_example =
    find_range-in_range 4 2 2 2 5 two_leaves 3 1 low (high ∷ []) (omega arith) (omega arith)
      (reached 2 goes_left.1) low-Chain (omega arith)
      (
        (omega arith, (omega arith, (omega arith, tt))),
        ((omega arith, (omega arith, tt)), ((omega arith, tt), (tt, tt))),
      )

-- The key 3 goes to the first leaf, its record to the address 20.
insert-find_example :
    (s' : Store) × (insert 4 2 3 3 103 two_leaves ≡ ok 3 s')
    × FindsInserted 4 1 3 3 20 (low ++ high) s'
    × (get_value 20 s' ≡ ok 103 s')
insert-find_example =
    insert-find 4 1 1 3 103 two_leaves 3 1 (low ++ high) (omega arith) (omega arith) (omega arith)
      two_leaves-IsTree refl left_leaf refl (reached 3 goes_left.0) refl (omega arith)

insert_into_leaf-Holds_example :
    Returns
      (λ _ m.
        Holds m 0 ((5, 15) ∷ (6, 16) ∷ (7, 17) ∷ [])
        × (m.num_keys ≡ 3)
        × (m.is_leaf ≡ true)
        × (m.parent ≡ 3)
        × (m.pointers 3 ≡ some 0))
      (insert_into_leaf 4 7 17 right_leaf)
insert_into_leaf-Holds_example =
    insert_into_leaf-Holds 4 7 17 high right_leaf refl (omega arith) (refl, refl, (refl, refl, tt))

insert_into_leaf-record_in_example :
    Returns
      (λ _ m. (j : ℕ) → record_in 4 j m.num_keys m ≡ ok (if 7 == j then 17 else lookup j high) m)
      (insert_into_leaf 4 7 17 right_leaf)
insert_into_leaf-record_in_example =
    insert_into_leaf-record_in 4 7 17 high right_leaf refl (omega arith)
      (refl, refl, (refl, refl, tt))

abbrev pub full_leaf : Node
full_leaf = record right_leaf {
  keys = λ i. if i == 2 then some 8 else right_leaf.keys i;
  pointers = λ i. if i == 2 then some 18 else right_leaf.pointers i;
  num_keys = 3;
}

get_neighbor_index-get_left_index_example :
    (get_left_index 4 2 top ≡ ok 1 top) × (get_neighbor_index 4 2 top ≡ ok (some 0) top)
unfolding before_index
get_neighbor_index-get_left_index_example =
    get_neighbor_index-get_left_index 4 top 2 1 (refl, λ j lt. (1, ground arith, refl))
      (omega arith) (omega arith)

insert_into_leaf-Ascending_example :
    Returns
      (λ _ m.
        (fs : List Entry) × Holds m 0 fs
        × Ascending fs
        × (m.num_keys ≡ length fs)
        × (length fs ≡ 3))
      (insert_into_leaf 4 7 17 right_leaf)
insert_into_leaf-Ascending_example =
    insert_into_leaf-Ascending 4 7 17 high right_leaf refl (omega arith)
      (refl, refl, (refl, refl, tt)) (omega arith, (omega arith, tt)) ((omega arith, tt), (tt, tt))
