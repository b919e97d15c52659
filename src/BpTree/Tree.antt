-- ===== src/BpTree/Tree.antt =====
-- A whole tree of bptree/main.c and the entries it stands for, in order; find looks a key up in them.
use transaction_system.Base.{
  ℕ, zero, suc, ◌+◌, ◌-◌, ◌≤◌, ◌<◌, ◌≡◌, ◌≢◌, refl, true, false, List, [], ◌∷◌, ◌++◌, some, leb,
  ◌==◌, arith, Bool-cases, inl, inr, ap, ◌∙◌, sym,
}
use transaction_system.Base.Run.{ok}
use transaction_system.Base.Lists.{length, All}
use transaction_system.BpTree.Heap.{Addr, Node, Store, a_node}
use transaction_system.BpTree.Search.{child_index, child_for, descend, find_leaf, find, record_in}
use transaction_system.BpTree.Looks.{node_at-ok, at_node-look}
use transaction_system.BpTree.Entries.{
  Entry, Holds, lookup, get_key-ok, get_pointer-ok, record_in-Holds,
}

-- The children of an inner node from the i-th on, `c` keys between them: the entries of the child
-- before a key are below it, those after it are not.
abbrev pub Children : (Addr → List Entry → Type 0) → Node → (c i : ℕ) → List Entry → Type 0
Children P n zero i es = (q : Addr) × (n.pointers i ≡ some q) × P q es
Children P n (suc c) i es =
    (k : ℕ) × (q : Addr) × (left : List Entry) × (right : List Entry) × (n.keys i ≡ some k)
    × (n.pointers i ≡ some q)
    × P q left
    × All (λ (e : Entry). e.0 < k) left
    × All (λ (e : Entry). k ≤ e.0) right
    × Children P n c (i + 1) right
    × (es ≡ left ++ right)

abbrev pub IsLeaf : ℕ → Store → Addr → List Entry → Type 0
IsLeaf order s p es =
    (n : Node) × (s.object p ≡ a_node n)
    × (n.is_leaf ≡ true)
    × (n.num_keys ≡ length es)
    × (length es ≤ order - 1)
    × Holds n 0 es

-- The tree at `p`, all of whose leaves are `depth` levels down, with its entries from left to right.
abbrev pub IsTree : ℕ → Store → ℕ → Addr → List Entry → Type 0
IsTree order s zero p es = IsLeaf order s p es
IsTree order s (suc depth) p es =
    (n : Node) × (s.object p ≡ a_node n)
    × (n.is_leaf ≡ false)
    × (n.num_keys ≤ order - 1)
    × Children (IsTree order s depth) n n.num_keys 0 es

lookup-append-right :
    (key : ℕ) (xs ys : List Entry)
    → All (λ (e : Entry). e.0 < key) xs
    → lookup key (xs ++ ys) ≡ lookup key ys
lookup-append-right key [] ys below = refl
lookup-append-right key ((k, p) ∷ xs) ys below =
    let other : (k == key) ≡ false = ground (arith, below.0) in
    rw other (lookup-append-right key xs ys below.1)

lookup-above : (key : ℕ) (ys : List Entry) → All (λ (e : Entry). key < e.0) ys → lookup key ys ≡ 0
lookup-above key [] above = refl
lookup-above key ((k, p) ∷ ys) above =
    let other : (k == key) ≡ false = ground (arith, above.0) in
    rw other (lookup-above key ys above.1)

lookup-append-left :
    (key : ℕ) (xs ys : List Entry)
    → All (λ (e : Entry). key < e.0) ys
    → lookup key (xs ++ ys) ≡ lookup key xs
lookup-append-left key [] ys above = lookup-above key ys above
lookup-append-left key ((k, p) ∷ xs) ys above = elim (Bool-cases (k == key)) [
  | inl found ↦ rw found refl
  | inr other ↦ rw other (lookup-append-left key xs ys above)
]

All-below :
    (k key : ℕ) (xs : List Entry)
    → k ≤ key
    → All (λ (e : Entry). e.0 < k) xs
    → All (λ (e : Entry). e.0 < key) xs
All-below k key [] le below = tt
All-below k key (x ∷ xs) le below = (omega (arith, below.0), All-below k key xs le below.1)

All-above :
    (k key : ℕ) (xs : List Entry)
    → key < k
    → All (λ (e : Entry). k ≤ e.0) xs
    → All (λ (e : Entry). key < e.0) xs
All-above k key [] lt above = tt
All-above k key (x ∷ xs) lt above = (omega (arith, above.0), All-above k key xs lt above.1)

module _ (order : ℕ) where
  -- The child that find_leaf goes to has the same entry under the key as the whole node.
  child_index-Children :
      (P : Addr → List Entry → Type 0) (key : ℕ) (n : Node) (c i : ℕ) (es : List Entry)
      → i + c ≤ order - 1
      → Children P n c i es
      → (j : ℕ) × (q : Addr) × (part : List Entry) × (child_index order key c i n ≡ ok j n)
        × (j ≤ i + c)
        × (n.pointers j ≡ some q)
        × P q part
        × (lookup key part ≡ lookup key es)
  unfolding child_index
  child_index-Children P key n zero i es room (q, there, tree) =
      (i, q, es, refl, omega arith, there, tree, refl)
  child_index-Children P key n (suc c) i es room
        (k, q, left, right, is, there, tree, below, above, more, both) =
      rw (get_key-ok order n i k (omega arith) is) (elim (Bool-cases (leb k key)) [
        | inl right_of ↦ rw right_of (
            let (j, q', part, runs, small, there', tree', same) =
              child_index-Children P key n c (i + 1) right (omega arith) more in
            (
              j,
              q',
              part,
              runs,
              omega arith,
              there',
              tree',
              same
                  ∙ sym (
                      lookup-append-right key left right
                        (All-below k key left (ground arith) below))
                  ∙ ap (lookup key) (sym both),
            ))
        | inr left_of ↦ rw left_of (
          i,
          q,
          left,
          refl,
          omega arith,
          there,
          tree,
          sym (lookup-append-left key left right (All-above k key right (ground arith) above))
              ∙ ap (lookup key) (sym both),
        )
      ])

  pub child_for-Children :
      (P : Addr → List Entry → Type 0) (key : ℕ) (n : Node) (es : List Entry)
      → n.num_keys ≤ order - 1
      → 1 ≤ order
      → Children P n n.num_keys 0 es
      → (q : Addr) × (part : List Entry) × (child_for order key n.num_keys n ≡ ok q n)
        × P q part
        × (lookup key part ≡ lookup key es)
  unfolding child_for
  child_for-Children P key n es room some_order children =
      let (j, q, part, runs, small, there, tree, same) =
        child_index-Children P key n n.num_keys 0 es (omega arith) children in
      (q, part, rw runs (get_pointer-ok order n j q (omega arith) there), tree, same)

  pub descend-step :
      (turns key : ℕ) (s : Store) (p q : Addr) (n : Node)
      → s.object p ≡ a_node n
      → n.is_leaf ≡ false
      → child_for order key n.num_keys n ≡ ok q n
      → descend order (suc turns) key p s ≡ descend order turns key q s
  unfolding descend
  descend-step turns key s p q n at inner runs =
      rw (node_at-ok p s n at)
        (rw inner (rw (at_node-look p (child_for order key n.num_keys) s n q at runs) refl))

  -- With more turns than the tree has levels below it, find_leaf reaches a leaf that has what the
  -- tree has under the key.
  descend-IsTree :
      (depth turns key : ℕ) (s : Store) (p : Addr) (es : List Entry)
      → 1 ≤ order
      → depth ≤ turns
      → IsTree order s depth p es
      → (leaf : Addr) × (part : List Entry) × (descend order (suc turns) key p s ≡ ok leaf s)
        × IsLeaf order s leaf part
        × (lookup key part ≡ lookup key es)
  unfolding descend
  descend-IsTree zero turns key s p es some_order enough (n, at, is_leaf, count, room, holds) = (
    p,
    es,
    rw (node_at-ok p s n at) (rw is_leaf refl),
    (n, at, is_leaf, count, room, holds),
    refl,
  )
  descend-IsTree (suc depth) zero key s p es some_order enough tree = absurd (omega arith)
  descend-IsTree (suc depth) (suc turns) key s p es some_order enough
        (n, at, inner, room, children) =
      let (q, part, runs, tree, same) =
        child_for-Children (IsTree order s depth) key n es room some_order children in
      let (leaf, part', goes, ends, same') =
        descend-IsTree depth turns key s q part some_order (omega arith) tree in
      (leaf, part', descend-step (suc turns) key s p q n at inner runs ∙ goes, ends, same' ∙ same)

  -- On a tree that is not NULL, of order at least 1, find returns the record that stands under the key
  -- among the tree's entries, or NULL, and changes nothing, with more turns than the tree has levels
  -- below its root.
  pub find-IsTree :
      (depth turns key : ℕ) (s : Store) (root : Addr) (es : List Entry)
      → 1 ≤ order
      → depth ≤ turns
      → root ≢ 0
      → IsTree order s depth root es
      → (leaf : Addr) × (find order (suc turns) root key s ≡ ok (lookup key es, leaf) s)
  unfolding find find_leaf
  find-IsTree depth turns key s root es some_order enough some_root tree =
      let (leaf, part, goes, (n, at, is_leaf, count, room, holds), same) =
        descend-IsTree depth turns key s root es some_order enough tree in
      let not_null : (root == 0) ≡ false = ground arith in
      let found : record_in order key n.num_keys n ≡ ok (lookup key es) n =
        rw (count, sym same) (record_in-Holds order key part n room holds) in
      (
        leaf,
        rw not_null (
            rw goes (
              rw (node_at-ok leaf s n at) (
                rw (at_node-look leaf (record_in order key n.num_keys) s n (lookup key es) at found)
                  refl))),
      )
