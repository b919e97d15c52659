-- ===== src/KvSilo/PrimaryTree/Initial.antt =====
-- kvsilo/primary_tree.h: what a new PrimaryTree holds.
use transaction_system.Base.Lists.{All}
use transaction_system.BpTree.Entries.{Entry, lookup}
use transaction_system.BpTree.Tree.{IsTree, find-IsTree}
use transaction_system.Base.{
  ℕ, List, [], ◌∷◌, zero, suc, ◌≡◌, ◌≢◌, ◌<◌, ◌≤◌, ◌⊎◌, refl, arith, true,
}
use transaction_system.Base.Run.{Run, ok, fault, starved, Returns, returns}
use transaction_system.BpTree.Heap.{
  Addr, Store, absent, at_node, node_at, put, load, save, get_key, set_key, get_pointer,
  set_pointer, add_key, clear_keys, set_parent, malloc, make_record, make_node, set_value, a_record,
  Object, Node, a_node, blank_node,
}
use transaction_system.BpTree.Search
use transaction_system.BpTree.Search.{
  cut, child_index, child_for, descend, find_leaf, key_index, record_in, scan_below,
}
use transaction_system.BpTree.Slots.{
  left_index_loop, get_left_index, move_up, insert_into_leaf, spread_entries, take_entries,
  clear_pointers, overfull, keep_left, fill_right, clear_rest, move_children, insert_into_node,
  spread_pointers, spread_keys,
}
use transaction_system.BpTree.Insertion.{
  make_leaf, insert_into_leaf_after_splitting, adopt, insert_into_node_after_splitting,
  insert_into_new_root, insert_into_parent, start_new_tree,
}
use transaction_system.BpTree.Insertion as Ins
use transaction_system.KvSilo.PrimaryTree.{order, find, insert, insert_from, primary_tree}

abbrev pub new_store : Store
new_store = record { object = λ p. absent; fresh = 1; queue = 0 }

-- The keys with the addresses of their records.
abbrev eight : List Entry
eight = (1, 1) ∷ (2, 3) ∷ (3, 4) ∷ (4, 5) ∷ (5, 8) ∷ (6, 9) ∷ (7, 11) ∷ (8, 12) ∷ []

abbrev HoldsRecords : Store → List Entry → Type 0
HoldsRecords s = All (λ (e : Entry). s.object e.1 ≡ a_record e.0)

-- What find gives in a tree whose keys are 1 to 8.
abbrev pub FindsEight : ℕ → Addr → Store → Type 0
FindsEight turns root s =
    (k : ℕ)
    → (leaf : Addr) × (r : Addr) × (find turns root k s ≡ ok (r, leaf) s)
      × (1 ≤ k → k ≤ 8 → s.object r ≡ a_record k)
      × (k < 1 ⊎ 8 < k → r ≡ 0)

eight_found :
    (s : Store) (k : ℕ)
    → HoldsRecords s eight
    → (1 ≤ k → k ≤ 8 → s.object (lookup k eight) ≡ a_record k)
      × (k < 1 ⊎ 8 < k → lookup k eight ≡ 0)
eight_found s zero h = (λ l u. absurd (omega arith), λ o. refl)
eight_found s (suc zero) h = (λ l u. h.0, λ o. absurd (ground arith))
eight_found s (suc (suc zero)) h = (λ l u. h.1.0, λ o. absurd (ground arith))
eight_found s (suc (suc (suc zero))) h = (λ l u. h.1.1.0, λ o. absurd (ground arith))
eight_found s (suc (suc (suc (suc zero)))) h = (λ l u. h.1.1.1.0, λ o. absurd (ground arith))
eight_found s (suc (suc (suc (suc (suc zero))))) h =
    (λ l u. h.1.1.1.1.0, λ o. absurd (ground arith))
eight_found s (suc (suc (suc (suc (suc (suc zero)))))) h =
    (λ l u. h.1.1.1.1.1.0, λ o. absurd (ground arith))
eight_found s (suc (suc (suc (suc (suc (suc (suc zero))))))) h =
    (λ l u. h.1.1.1.1.1.1.0, λ o. absurd (ground arith))
eight_found s (suc (suc (suc (suc (suc (suc (suc (suc zero)))))))) h =
    (λ l u. h.1.1.1.1.1.1.1.0, λ o. absurd (ground arith))
eight_found s (suc (suc (suc (suc (suc (suc (suc (suc (suc k))))))))) h =
    (λ l u. absurd (omega arith), λ o. ground arith)

finds_eight :
    (turns : ℕ) (s : Store) (root : Addr)
    → root ≢ 0
    → IsTree order s 1 root eight
    → HoldsRecords s eight
    → FindsEight (suc (suc turns)) root s
unfolding find
finds_eight turns s root some_root tree records k =
    let (leaf, runs) =
      find-IsTree order 1 (suc turns) k s root eight (omega arith) (omega arith) some_root tree in
    let facts = eight_found s k records in (leaf, lookup k eight, runs, facts.0, facts.1)

abbrev node_of : Object → Node
node_of (a_node n) = n
node_of (a_record v) = blank_node true
node_of absent = blank_node true

abbrev store_of : {A : Type 0} → Run Store A → Store
store_of (ok a s) = s
store_of fault = new_store
store_of starved = new_store

-- What is known of the result and of the final store of a run that returns.
Returns-store_of :
    {A : Type 0} (P : A → Store → Type 0) (r : Run Store A) (a : A)
    → r ≡ ok a (store_of r)
    → P a (store_of r)
    → Returns P r
Returns-store_of P r a runs p = rw runs (returns p)

-- A new PrimaryTree holds the keys 1 to 8 and no others: its constructor returns, where each search
-- may go two levels down or more, a root under which find gives for every key its record, with the key
-- as its value, or NULL.
pub primary_tree-find :
    (turns : ℕ)
    → Returns
        (λ root s. FindsEight (suc (suc turns)) root s)
        (primary_tree (suc (suc turns)) new_store)
unfolding load save get_key set_key get_pointer set_pointer add_key clear_keys set_parent put
    at_node node_at set_value malloc make_record make_node cut child_index child_for descend
    find_leaf key_index record_in Search.find scan_below left_index_loop get_left_index move_up
    insert_into_leaf spread_entries take_entries clear_pointers overfull keep_left fill_right
    clear_rest move_children insert_into_node spread_pointers spread_keys make_leaf
    insert_into_leaf_after_splitting adopt insert_into_node_after_splitting insert_into_new_root
    insert_into_parent start_new_tree Ins.insert insert insert_from primary_tree
primary_tree-find turns =
    let s : Store = store_of (primary_tree (suc (suc turns)) new_store) in
    let leaf : Addr → Node = λ p. node_of (s.object p) in
    Returns-store_of (λ root s'. FindsEight (suc (suc turns)) root s')
      (primary_tree (suc (suc turns)) new_store) 7 refl
      (finds_eight turns s 7 (λ e. absurd (omega (arith, e)))
        (
          leaf 7,
          refl,
          refl,
          omega arith,
          (
            3,
            2,
            (1, 1) ∷ (2, 3) ∷ [],
            (3, 4) ∷ (4, 5) ∷ (5, 8) ∷ (6, 9) ∷ (7, 11) ∷ (8, 12) ∷ [],
            refl,
            refl,
            (leaf 2, refl, refl, refl, omega arith, (refl, refl, (refl, refl, tt))),
            (omega arith, (omega arith, tt)),
            (
              omega arith,
              (omega arith, (omega arith, (omega arith, (omega arith, (omega arith, tt))))),
            ),
            (
              5,
              6,
              (3, 4) ∷ (4, 5) ∷ [],
              (5, 8) ∷ (6, 9) ∷ (7, 11) ∷ (8, 12) ∷ [],
              refl,
              refl,
              (leaf 6, refl, refl, refl, omega arith, (refl, refl, (refl, refl, tt))),
              (omega arith, (omega arith, tt)),
              (omega arith, (omega arith, (omega arith, (omega arith, tt)))),
              (
                7,
                10,
                (5, 8) ∷ (6, 9) ∷ [],
                (7, 11) ∷ (8, 12) ∷ [],
                refl,
                refl,
                (leaf 10, refl, refl, refl, omega arith, (refl, refl, (refl, refl, tt))),
                (omega arith, (omega arith, tt)),
                (omega arith, (omega arith, tt)),
                (
                  13,
                  refl,
                  (leaf 13, refl, refl, refl, omega arith, (refl, refl, (refl, refl, tt))),
                ),
                refl,
              ),
              refl,
            ),
            refl,
          ),
        )
        (refl, (refl, (refl, (refl, (refl, (refl, (refl, (refl, tt)))))))))
