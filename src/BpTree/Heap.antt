-- ===== src/BpTree/Heap.antt =====
-- The heap of bptree/main.c: `node` and `record`, their fields and arrays, malloc and free.
use transaction_system.Base.{
  ℕ, ◌+◌, ◌-◌, Bool, false, Option, none, some, ltb, if◌then◌else◌, update, ◌==◌,
}
use transaction_system.Base.Run.{Run, Cmd, ok, fault, starved}

-- An address; 0 is NULL, and no object is ever put there.
abbrev pub Addr : Type 0
Addr = ℕ

-- An array: `none` in a cell that nothing was stored in since malloc.
abbrev pub Array : Type 0
Array = ℕ → Option ℕ

-- `node`; `keys` has `order - 1` cells and `pointers` has `order`.
pub record Node : Type 0 where
  pub pointers : Array
  pub keys : Array
  pub parent : Addr
  pub is_leaf : Bool
  pub num_keys : ℕ
  pub next : Addr

-- What stands at an address: nothing (not allocated, or freed), a `record`, a `node`.
pub data Object : Type 0 where
  absent : Object
  a_record : ℕ → Object
  a_node : Node → Object

-- The heap, the address of the next malloc, and the global `queue`.
pub record Store : Type 0 where
  pub object : Addr → Object
  pub fresh : Addr
  pub queue : Addr

-- A cell of an array of `size` cells, read and written.
module _ {S : Type 0} where
  unfoldable pub load : ℕ → Array → ℕ → Cmd S ℕ
  load size a i s = if ltb i size then elim (a i) [ none ↦ fault | some v ↦ ok v s ] else fault

  unfoldable pub save : ℕ → Array → ℕ → ℕ → Cmd S Array
  save size a i v s = if ltb i size then ok (update a i (some v)) s else fault

module _ (order : ℕ) where
  -- `n->keys[i]` and `n->pointers[i]`, for one node.
  unfoldable pub get_key : ℕ → Cmd Node ℕ
  unfolding load
  get_key i n = load (order - 1) n.keys i n

  unfoldable pub set_key : ℕ → ℕ → Cmd Node (Unit {0})
  set_key i k n =
      if ltb i (order - 1) then ok tt (record n { keys = update n.keys i (some k) }) else fault

  unfoldable pub get_pointer : ℕ → Cmd Node Addr
  unfolding load
  get_pointer i n = load order n.pointers i n

  unfoldable pub set_pointer : ℕ → Addr → Cmd Node (Unit {0})
  set_pointer i p n =
      if ltb i order then ok tt (record n { pointers = update n.pointers i (some p) }) else fault

-- `n->num_keys++`, `n->num_keys--`, `n->num_keys = 0`, `n->parent = p`, `n->next = p`.
unfoldable pub add_key : Cmd Node (Unit {0})
add_key n = ok tt (record n { num_keys = n.num_keys + 1 })

-- A count below zero is a fault of the model: no caller gets there.
unfoldable pub drop_key : Cmd Node (Unit {0})
drop_key n = if n.num_keys == 0 then fault else ok tt (record n { num_keys = n.num_keys - 1 })

unfoldable pub clear_keys : Cmd Node (Unit {0})
clear_keys n = ok tt (record n { num_keys = 0 })

unfoldable pub set_parent : Addr → Cmd Node (Unit {0})
set_parent p n = ok tt (record n { parent = p })

unfoldable pub set_next : Addr → Cmd Node (Unit {0})
set_next p n = ok tt (record n { next = p })

unfoldable pub put : {A : Type 0} → Addr → Store → Run Node A → Run Store A
put p s (ok a n) = ok a (record s { object = update s.object p (a_node n) })
put p s fault = fault
put p s starved = starved

-- What one does to the node at `p`; a fault where no node stands there.
unfoldable pub at_node : {A : Type 0} → Addr → Cmd Node A → Cmd Store A
unfolding put
at_node p f s = elim (s.object p) [ absent ↦ fault | a_record v ↦ fault | a_node n ↦ put p s (f n) ]

-- A look at the node at `p`.
unfoldable pub node_at : Addr → Cmd Store Node
node_at p s = elim (s.object p) [ absent ↦ fault | a_record v ↦ fault | a_node n ↦ ok n s ]

-- `r->value`, read and written.
unfoldable pub get_value : Addr → Cmd Store ℕ
get_value p s = elim (s.object p) [ absent ↦ fault | a_record v ↦ ok v s | a_node n ↦ fault ]

unfoldable pub set_value : Addr → ℕ → Cmd Store (Unit {0})
set_value p v s = elim (s.object p) [
  | absent ↦ fault
  | a_record w ↦ ok tt (record s { object = update s.object p (a_record v) })
  | a_node n ↦ fault
]

-- `malloc`, which does not fail here.
unfoldable pub malloc : Object → Cmd Store Addr
malloc o s = ok s.fresh (record s { object = update s.object s.fresh o; fresh = s.fresh + 1 })

-- `free`, of a node with its arrays or of a record.
unfoldable pub free : Addr → Cmd Store (Unit {0})
free p s = elim (s.object p) [
  | absent ↦ fault
  | a_record v ↦ ok tt (record s { object = update s.object p absent })
  | a_node n ↦ ok tt (record s { object = update s.object p absent })
]

unfoldable pub make_record : ℕ → Cmd Store Addr
unfolding malloc
make_record value = malloc (a_record value)

-- A node just made: nothing in its arrays.
abbrev pub blank_node : Bool → Node
blank_node leaf = record {
  pointers = λ i. none;
  keys = λ i. none;
  parent = 0;
  is_leaf = leaf;
  num_keys = 0;
  next = 0;
}

unfoldable pub make_node : Cmd Store Addr
unfolding malloc
make_node = malloc (a_node (blank_node false))
