-- ===== src/BpTree/Tests/Runs.antt =====
-- Runs of bptree/main.c at order 4, from no tree at all.
use transaction_system.Base.{ℕ, ◌≡◌, refl, List, [], ◌∷◌, ◌+◌, Option, none, some}
use transaction_system.Base.Run.{Run, Cmd, ok, fault, starved, pure, ◌>>=◌}
use transaction_system.BpTree.Heap.{
  Addr, Store, absent, load, save, get_key, set_key, get_pointer, set_pointer, add_key, drop_key,
  clear_keys, set_parent, set_next, put, at_node, node_at, get_value, set_value, malloc, free,
  make_record, make_node,
}
use transaction_system.BpTree.Search.{
  cut, child_index, child_for, descend, find_leaf, key_index, record_in, find, scan_below,
  collect_entries, range_loop, find_range, height, path_to_root,
}
use transaction_system.BpTree.Slots.{
  left_index_loop, get_left_index, move_up, insert_into_leaf, spread_entries, take_entries,
  clear_pointers, overfull, keep_left, fill_right, clear_rest, move_children, insert_into_node,
  spread_pointers, spread_keys,
}
use transaction_system.BpTree.Insertion.{
  make_leaf, insert_into_leaf_after_splitting, adopt, insert_into_node_after_splitting,
  insert_into_new_root, insert_into_parent, start_new_tree, insert,
}
use transaction_system.BpTree.Removal.{
  before_index, k_prime_index_of, neighbor_of, neighbor_loop, get_neighbor_index, seek_key,
  seek_pointer, shift_keys, shift_pointers, tidy, remove_entry_from_node, make_room, close_up,
  min_keys, capacity,
}
use transaction_system.BpTree.Deletion.{
  adjust_root, append_inner, append_leaf, coalesce_into, coalesce_nodes, last_index,
  redistribute_from_left, redistribute_from_right, redistribute_nodes, delete_entry, delete,
  for_pointers, destroy_tree_nodes, destroy_tree,
}
use transaction_system.BpTree.Printing.{
  key_text, line_end, bar, get_queue, set_queue, last_loop, enqueue, dequeue, print_keys, leftmost,
  leaves_loop, print_leaves, enqueue_all, is_leftmost, rank_text, tree_loop, print_tree,
}

abbrev empty_store : Store
empty_store = record { object = λ p. absent; fresh = 1; queue = 0 }

abbrev result : {A : Type 0} → Run Store A → Option A
result (ok a s) = some a
result fault = none
result starved = none

abbrev insert_all : List ℕ → Addr → Cmd Store Addr
insert_all [] root = pure root
insert_all (k ∷ ks) root = do r ← insert 4 8 root k (k + 100); insert_all ks r

abbrev delete_all : List ℕ → Addr → Cmd Store Addr
delete_all [] root = pure root
delete_all (k ∷ ks) root = do r ← delete 4 8 root k; delete_all ks r

-- Nine insertions and what print_leaves prints; twelve insertions and five deletions and what
-- print_tree prints; every key deleted, or the whole tree destroyed: the root is NULL again.
runs :
    (result (
        (insert_all (5 ∷ 1 ∷ 9 ∷ 3 ∷ 7 ∷ 2 ∷ 8 ∷ 4 ∷ 6 ∷ []) 0 >>= print_leaves 4 8 20) empty_store)
      ≡ some (
          key_text 1
          ∷ key_text 2
          ∷ bar
          ∷ key_text 3
          ∷ key_text 4
          ∷ bar
          ∷ key_text 5
          ∷ key_text 6
          ∷ key_text 7
          ∷ bar
          ∷ key_text 8
          ∷ key_text 9
          ∷ line_end
          ∷ []))
    × (result (
          (insert_all (5 ∷ 1 ∷ 9 ∷ 3 ∷ 7 ∷ 2 ∷ 8 ∷ 4 ∷ 6 ∷ 10 ∷ 11 ∷ 12 ∷ []) 0
              >>= delete_all (5 ∷ 1 ∷ 9 ∷ 3 ∷ 10 ∷ [])
              >>= print_tree 4 20 8 20)
            empty_store)
        ≡ some (
            key_text 5
            ∷ key_text 10
            ∷ bar
            ∷ line_end
            ∷ key_text 2
            ∷ key_text 4
            ∷ bar
            ∷ key_text 6
            ∷ key_text 7
            ∷ key_text 8
            ∷ bar
            ∷ key_text 11
            ∷ key_text 12
            ∷ bar
            ∷ line_end
            ∷ []))
    × (result (
          (insert_all (5 ∷ 1 ∷ 9 ∷ 3 ∷ 7 ∷ 2 ∷ 8 ∷ []) 0
              >>= delete_all (1 ∷ 2 ∷ 3 ∷ 5 ∷ 7 ∷ 8 ∷ 9 ∷ []))
            empty_store)
        ≡ some 0)
    × (result ((insert_all (5 ∷ 1 ∷ 9 ∷ 3 ∷ 7 ∷ 2 ∷ 8 ∷ []) 0 >>= destroy_tree 4 8) empty_store)
        ≡ some 0)
unfolding load save get_key set_key get_pointer set_pointer add_key drop_key clear_keys set_parent
    set_next put at_node node_at get_value set_value malloc free make_record make_node cut
    child_index child_for descend find_leaf key_index record_in find scan_below collect_entries
    range_loop find_range height path_to_root left_index_loop get_left_index move_up
    insert_into_leaf spread_entries take_entries clear_pointers overfull keep_left fill_right
    clear_rest move_children insert_into_node spread_pointers spread_keys make_leaf
    insert_into_leaf_after_splitting adopt insert_into_node_after_splitting insert_into_new_root
    insert_into_parent start_new_tree insert before_index k_prime_index_of neighbor_of neighbor_loop
    get_neighbor_index seek_key seek_pointer shift_keys shift_pointers tidy remove_entry_from_node
    make_room close_up min_keys capacity adjust_root append_inner append_leaf coalesce_into
    coalesce_nodes last_index redistribute_from_left redistribute_from_right redistribute_nodes
    delete_entry delete for_pointers destroy_tree_nodes destroy_tree get_queue set_queue last_loop
    enqueue dequeue print_keys leftmost leaves_loop print_leaves enqueue_all is_leftmost rank_text
    tree_loop print_tree
runs = (refl, refl, refl, refl)
