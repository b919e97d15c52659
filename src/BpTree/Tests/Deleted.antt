-- ===== src/BpTree/Tests/Deleted.antt =====
-- A key deleted from a tree of order 4 with a full leaf.
use transaction_system.Base.{
  ℕ, ◌≡◌, refl, List, [], ◌∷◌, some, true, ◌==◌, if◌then◌else◌, arith, ◌++◌, ◌≤◌, ◌<◌, inl,
}
use transaction_system.Base.Run.{Returns, ok}
use transaction_system.BpTree.Heap.{
  Addr, Store, absent, a_node, get_key, get_pointer, node_at, a_record,
}
use transaction_system.BpTree.Search.{cut, child_index, child_for, descend, find_leaf, find}
use transaction_system.BpTree.Removal.{remove_entry_from_node, min_keys}
use transaction_system.BpTree.Deletion.{delete}
use transaction_system.BpTree.Entries.{Entry, Holds, lookup}
use transaction_system.BpTree.Tree.{IsTree, descend-step}
use transaction_system.BpTree.Removal.Leaf.{remove_entry_from_node-Holds}
use transaction_system.BpTree.Deletion.Found.{delete-find}
use transaction_system.BpTree.Tests.{left_leaf, full_leaf, top, low, two_leaves}

-- The keys 1, 2 and 5, 6, 8 in two leaves under a root at 3, with the record of 6 at 16.
abbrev full : Store
full = record two_leaves {
  object = λ p.
      if p == 2 then a_node full_leaf else if p == 16 then a_record 106 else two_leaves.object p;
}

abbrev three : List Entry
three = (5, 15) ∷ (6, 16) ∷ (8, 18) ∷ []

full-IsTree : IsTree 4 full 1 3 (low ++ three)
full-IsTree = (
  top,
  refl,
  refl,
  omega arith,
  (
    5,
    1,
    low,
    three,
    refl,
    refl,
    (left_leaf, refl, refl, refl, omega arith, (refl, refl, (refl, refl, tt))),
    (omega arith, (omega arith, tt)),
    (omega arith, (omega arith, (omega arith, tt))),
    (
      2,
      refl,
      (full_leaf, refl, refl, refl, omega arith, (refl, refl, (refl, refl, (refl, refl, tt)))),
    ),
    refl,
  ),
)

goes_right : child_for 4 6 1 top ≡ ok 2 top
unfolding child_for child_index get_key get_pointer
goes_right = refl

reached : find_leaf 4 2 3 6 full ≡ ok 2 full
unfolding find_leaf descend node_at
reached = descend-step 4 1 6 full 3 2 top refl refl goes_right

remove_entry_from_node-Holds_example :
    Returns
      (λ _ m.
        Holds m 0 ((5, 15) ∷ (8, 18) ∷ [])
        × (m.num_keys ≡ 2)
        × (m.is_leaf ≡ true)
        × (m.parent ≡ 3)
        × (m.pointers 3 ≡ some 0)
        × ((j : ℕ) → m.num_keys ≤ j → j < 3 → m.pointers j ≡ some 0))
      (remove_entry_from_node 4 6 16 full_leaf)
remove_entry_from_node-Holds_example =
    remove_entry_from_node-Holds 4 6 16 ((5, 15) ∷ []) ((8, 18) ∷ []) full_leaf refl refl
      (omega arith) (refl, refl, (refl, refl, (refl, refl, tt))) (omega arith, tt) (omega arith, tt)

min_keys-leaf : min_keys 4 true ≡ 2
unfolding min_keys cut
min_keys-leaf = refl

delete-find_example :
    (s' : Store) × (delete 4 2 3 6 full ≡ ok 3 s')
    × ((j : ℕ)
        → (leaf : Addr) × (find 4 2 3 j s'
            ≡ ok ((if 6 == j then 0 else lookup j (low ++ three)), leaf) s'))
    × (s'.object 16 ≡ absent)
delete-find_example =
    delete-find 4 1 1 6 106 full 3 2 16 (low ++ three) ((5, 15) ∷ []) ((8, 18) ∷ []) (omega arith)
      (omega arith) (omega arith) (omega arith) (omega arith) full-IsTree full_leaf reached refl
      refl (refl, refl, (refl, refl, (refl, refl, tt))) ((omega arith, omega arith), tt)
      (omega arith, tt) refl (inl (omega arith, omega (arith, min_keys-leaf)))
