-- ===== src/KvSilo/PrimaryTree.antt =====
-- kvsilo/primary_tree.h and primary_tree.cpp: the class PrimaryTree is the program bptree/main.c at
-- order 4 without deletion, so its methods are those functions, over the same heap. The member `root`
-- is an argument, `queue` stands in the store. A key is a size_t and a value an int; records have
-- their TID words in KvSilo.Memory. The turns are those of bptree/main.c's loops.
pub mod Reads
pub mod Initial
mod Tests
use transaction_system.Base.{
  ℕ, zero, suc, ◌+◌, ◌-◌, Option, none, some, List, [], ◌∷◌, ◌++◌, ◌==◌, if◌then◌else◌,
}
use transaction_system.Base.Run.{Cmd, fault, pure, ◌>>=◌, ◌>>◌}
use transaction_system.BpTree.Heap.{Addr, Node, Store, make_record, make_node, get_value, set_value}
use transaction_system.BpTree.Search
use transaction_system.BpTree.Slots
use transaction_system.BpTree.Insertion
use transaction_system.BpTree.Printing
use transaction_system.BpTree.Printing.{Output, line_end}

abbrev pub order : ℕ
order = 4

unfoldable pub enqueue : ℕ → Addr → Cmd Store (Unit {0})
enqueue = Printing.enqueue

unfoldable pub dequeue : Cmd Store Addr
dequeue = Printing.dequeue

-- An empty tree prints nothing.
unfoldable pub print_leaves : (depth leaves : ℕ) → (root : Addr) → Cmd Store (List Output)
print_leaves depth leaves root = if root == 0 then pure [] else (do
  c ← Printing.leftmost order depth root
  keys ← Printing.leaves_loop order leaves c
  pure (keys ++ line_end ∷ []))

unfoldable pub path_to_root : ℕ → (root child : Addr) → Cmd Store ℕ
path_to_root = Search.path_to_root

unfoldable pub print_tree : (nodes depth turns : ℕ) → (root : Addr) → Cmd Store (List Output)
print_tree = Printing.print_tree order

unfoldable pub find_leaf : ℕ → (root : Addr) → (key : ℕ) → Cmd Store Addr
find_leaf = Search.find_leaf order

-- The record, nullptr where there is none, and what `*out_leaf` is set to.
unfoldable pub find : ℕ → (root : Addr) → (key : ℕ) → Cmd Store (Addr × Addr)
find = Search.find order

-- The value that is printed, or that the record is not found.
unfoldable pub find_and_print : ℕ → (root : Addr) → (key : ℕ) → Cmd Store (Option ℕ)
unfolding find get_value
find_and_print depth root key = do
  (r, leaf) ← find depth root key
  if r == 0 then pure none else (do v ← get_value r; pure (some v))

-- The entries that are put in the arrays, in order.
unfoldable pub find_range :
    (depth leaves : ℕ) → (root : Addr) → (key_start key_end : ℕ) → Cmd Store (List (ℕ × Addr))
find_range = Search.find_range order

-- The keys, addresses and values that are printed, for the entries found.
unfoldable pub print_found : List (ℕ × Addr) → Cmd Store (List (ℕ × Addr × ℕ))
print_found [] = pure []
print_found ((k, p) ∷ found) = do v ← get_value p; rest ← print_found found; pure ((k, p, v) ∷ rest)

unfoldable pub find_and_print_range :
    (depth leaves : ℕ) → (root : Addr) → (key_start key_end : ℕ) → Cmd Store (List (ℕ × Addr × ℕ))
unfolding find_range print_found
find_and_print_range depth leaves root key_start key_end = do
  found ← find_range depth leaves root key_start key_end
  print_found found

unfoldable pub cut : ℕ → ℕ
cut = Search.cut

unfoldable pub get_left_index : (left : Addr) → Cmd Node ℕ
get_left_index = Slots.get_left_index order

unfoldable pub insert_into_leaf : (key : ℕ) → Addr → Cmd Node (Unit {0})
insert_into_leaf = Slots.insert_into_leaf order

unfoldable pub insert_into_node : (left_index key : ℕ) → (right : Addr) → Cmd Node (Unit {0})
insert_into_node = Slots.insert_into_node order

unfoldable pub insert_into_parent :
    ℕ → (root left : Addr) → (key : ℕ) → (right : Addr) → Cmd Store Addr
insert_into_parent = Insertion.insert_into_parent order

unfoldable pub insert_into_leaf_after_splitting :
    ℕ → (root leaf : Addr) → (key : ℕ) → Addr → Cmd Store Addr
insert_into_leaf_after_splitting depth =
    Insertion.insert_into_leaf_after_splitting order (insert_into_parent depth)

unfoldable pub insert_into_node_after_splitting :
    ℕ → (root old_node : Addr) → (left_index key : ℕ) → (right : Addr) → Cmd Store Addr
insert_into_node_after_splitting depth =
    Insertion.insert_into_node_after_splitting order (insert_into_parent depth)

unfoldable pub insert_into_new_root : (left : Addr) → (key : ℕ) → (right : Addr) → Cmd Store Addr
insert_into_new_root = Insertion.insert_into_new_root order

unfoldable pub start_new_tree : (key : ℕ) → Addr → Cmd Store Addr
start_new_tree = Insertion.start_new_tree order

unfoldable pub insert : ℕ → (root : Addr) → (key value : ℕ) → Cmd Store Addr
insert = Insertion.insert order

-- `assert(r)` fails where the key is missing.
unfoldable pub read : ℕ → (root : Addr) → (key : ℕ) → Cmd Store Addr
read depth root key = do (r, leaf) ← find depth root key; if r == 0 then (λ s. fault) else pure r

unfoldable pub write : ℕ → (root : Addr) → (key value : ℕ) → Cmd Store (Unit {0})
write depth root key value = do
  (r, leaf) ← find depth root key
  if r == 0 then (λ s. fault) else set_value r value

-- `root = insert(k, k)`, for `n` keys from `k` on.
unfoldable pub insert_from : ℕ → ℕ → ℕ → (root : Addr) → Cmd Store Addr
insert_from depth zero k root = pure root
insert_from depth (suc n) k root = do r ← insert depth root k k; insert_from depth n (k + 1) r

-- `PrimaryTree()`
unfoldable pub primary_tree : ℕ → Cmd Store Addr
primary_tree depth = insert_from depth 8 1 0
