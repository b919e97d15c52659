-- ===== src/BpTree/Tests/Divided.antt =====
-- A full leaf of order 4 divided for a new key.
use transaction_system.Base.{ℕ, ◌≡◌, refl, [], ◌∷◌, some, ◌==◌, if◌then◌else◌, arith}
use transaction_system.Base.Lists.{take, drop}
use transaction_system.Base.Run.{pure}
use transaction_system.BpTree.Heap.{Node, Store, a_node}
use transaction_system.BpTree.Search.{cut}
use transaction_system.BpTree.Slots.Sorted.{insert_entry}
use transaction_system.BpTree.Insertion.{insert_into_leaf_after_splitting, Climb}
use transaction_system.BpTree.Insertion.Pair.{Stand}
use transaction_system.BpTree.Insertion.Halves.{IsHalf, insert_into_leaf_after_splitting-IsHalf}
use transaction_system.BpTree.Tests.{full_leaf, two_leaves}

-- The keys 5, 6 and 8 in the leaf at 2.
abbrev full : Store
full = record two_leaves { object = λ p. if p == 2 then a_node full_leaf else two_leaves.object p }

-- The key between the leaves, in place of the new root.
abbrev report : Climb
report root left key right = pure key

insert_into_leaf_after_splitting-IsHalf_example :
    (k : ℕ) × (s' : Store) × (l : Node) × (r : Node) × (insert_into_leaf_after_splitting 4 report 3
        2 7 17 full
      ≡ report 3 2 k 20 s')
    × Stand full 2 20 l r s'
    × IsHalf 4 l (take (cut 3) (insert_entry 7 17 ((5, 15) ∷ (6, 16) ∷ (8, 18) ∷ []))) 3 20
    × IsHalf 4 r (drop (cut 3) (insert_entry 7 17 ((5, 15) ∷ (6, 16) ∷ (8, 18) ∷ []))) 3 0
    × (r.keys 0 ≡ some k)
insert_into_leaf_after_splitting-IsHalf_example =
    insert_into_leaf_after_splitting-IsHalf 4 report 3 2 7 17 full full_leaf
      ((5, 15) ∷ (6, 16) ∷ (8, 18) ∷ []) 0 (omega arith) refl refl refl refl refl
      (refl, refl, (refl, refl, (refl, refl, tt))) refl
