-- ===== src/BpTree/Deletion/Found.antt =====
-- delete of bptree/main.c where the leaf keeps enough keys, and what find gives afterwards in the whole
-- tree.
use transaction_system.Base.{
  ℕ, suc, ◌-◌, ◌≤◌, ◌≡◌, ◌≢◌, refl, true, false, List, ◌∷◌, Bool-cases, inl, inr, ap, ◌∙◌, sym,
  arith, ◌==◌, ltb, leb, if◌then◌else◌, update, ◌⊎◌, ◌++◌,
}
use mathlib.Core.Path.{subst}
use transaction_system.Base.Run.{ok}
use transaction_system.Base.Lists.{length, length-append, All, All-mono}
use transaction_system.BpTree.Heap.{Addr, Node, Store, absent, a_record, a_node, free}
use transaction_system.BpTree.Search.{descend, find_leaf, find, record_in}
use transaction_system.BpTree.Entries.{Entry, Holds, lookup, record_in-Holds}
use transaction_system.BpTree.Looks.{node_at-ok}
use transaction_system.BpTree.Tree.{IsTree}
use transaction_system.BpTree.Insertion.Shape.{
  SameShape, ok-value, a_node-injective, Returns-run, with_node, descend-SameShape,
}
use transaction_system.BpTree.Insertion.Changed.{at_node-set, find-at, find-changed}
use transaction_system.BpTree.Removal.{remove_entry_from_node, min_keys}
use transaction_system.BpTree.Removal.Leaf.{remove_entry_from_node-Holds}
use transaction_system.BpTree.Removal.Lookup.{lookup-here, lookup-without}
use transaction_system.BpTree.Deletion.{adjust_root, delete_entry, delete}

-- The record at `r` freed, after the node at `q` has become `m`.
abbrev removed : Store → Addr → Node → Addr → Store
removed s q m r = record (with_node s q m) { object = update (with_node s q m).object r absent }

-- A new state of a leaf and a freed record keep the shape.
removed-at :
    (s : Store) (q r v : Addr) (m x : Node) (p : Addr)
    → s.object r ≡ a_record v
    → (q == p) ≡ false
    → s.object p ≡ a_node x
    → (removed s q m r).object p ≡ a_node x
removed-at s q r v m x p at_r differs at = elim (Bool-cases (r == p)) [
  | inr other ↦ rw other (rw differs at)
  | inl same ↦
      let e : r ≡ p = ground arith in
      let clash : a_record v ≡ a_node x = sym at_r ∙ ap s.object e ∙ at in absurd cc
]

removed-there :
    (s : Store) (q r v : Addr) (n m : Node)
    → s.object r ≡ a_record v
    → s.object q ≡ a_node n
    → (r == q) ≡ false
removed-there s q r v n m at_r at = elim (Bool-cases (r == q)) [
  | inr other ↦ other
  | inl same ↦
      let e : r ≡ q = ground arith in
      let clash : a_record v ≡ a_node n = sym at_r ∙ ap s.object e ∙ at in absurd cc
]

removed-SameShape :
    (s : Store) (q r v : Addr) (nq m : Node)
    → s.object r ≡ a_record v
    → s.object q ≡ a_node nq
    → nq.is_leaf ≡ true
    → m.is_leaf ≡ true
    → SameShape s (removed s q m r)
removed-SameShape s q r v nq m at_r at_q leaf_q leaf_m = (
  λ p n at inner. elim (Bool-cases (q == p)) [
    | inl same ↦
        let e : q ≡ p = ground arith in
        let n_is : nq ≡ n = a_node-injective (sym at_q ∙ ap s.object e ∙ at) in
        let both : true ≡ false = sym leaf_q ∙ ap (λ (x : Node). x.is_leaf) n_is ∙ inner in
        absurd cc
    | inr differs ↦ removed-at s q r v m n p at_r differs at
  ],
  λ p n at is_leaf. elim (Bool-cases (q == p)) [
    | inl same ↦
        let e : q ≡ p = ground arith in
        let other : (r == p) ≡ false =
          ap (λ (x : Addr). r == x) (sym e) ∙ removed-there s q r v nq m at_r at_q in
        rw other (rw same (m, refl, leaf_m))
    | inr differs ↦ (n, removed-at s q r v m n p at_r differs at, is_leaf)
  ],
)

free-record :
    (r v : ℕ) (t : Store)
    → t.object r ≡ a_record v
    → free r t ≡ ok tt (record t { object = update t.object r absent })
unfolding free
free-record r v t at = rw (at, free) refl

-- The leaf need not be filled up: it has enough keys left, or it is the root and has a key left.
abbrev pub Keeps : ℕ → (root q : Addr) → ℕ → Type 0
Keeps order root q left = (q ≢ root) × (min_keys order true ≤ left) ⊎ (q ≡ root) × (1 ≤ left)

module _ (order turns root key : ℕ) (s : Store) (q r v : Addr) (n m : Node)
    (at : s.object q ≡ a_node n) (runs : remove_entry_from_node order key r n ≡ ok tt m)
    (leaf_m : m.is_leaf ≡ true) (keeps : Keeps order root q m.num_keys) where
  delete_entry-steps : delete_entry order (suc turns) root q key r s ≡ ok root (with_node s q m)
  unfolding delete_entry adjust_root
  delete_entry-steps =
      let s' : Store = with_node s q m in
      let here : (q == q) ≡ true = ground arith in
      let at' : s'.object q ≡ a_node m = rw here refl in
      rw (at_node-set q (remove_entry_from_node order key r) s n m tt at runs) (
        rw (node_at-ok q s' m at') (elim keeps [
          | inl (differs, enough) ↦
              let other : (q == root) ≡ false = ground (arith, differs) in
              let kept : leb (min_keys order m.is_leaf) m.num_keys ≡ true =
                ap (λ b. leb (min_keys order b) m.num_keys) leaf_m ∙ ground (arith, enough) in
              rw other (rw kept refl)
          | inr (same, some_key) ↦
              let e : (q == root) ≡ true = ground (arith, same) in
              let kept : ltb 0 m.num_keys ≡ true = ground (arith, some_key) in
              let at_root : s'.object root ≡ a_node m = ap s'.object (sym same) ∙ at' in
              rw e (rw (node_at-ok root s' m at_root) (rw kept refl))
        ]))

  -- The steps of delete where the leaf keeps enough keys.
  delete-steps :
      r ≢ 0
      → q ≢ 0
      → find order (suc turns) root key s ≡ ok (r, q) s
      → s.object r ≡ a_record v
      → delete order (suc turns) root key s ≡ ok root (removed s q m r)
  unfolding delete
  delete-steps some_record some_leaf found at_r =
      let is_record : (r == 0) ≡ false = ground (arith, some_record) in
      let is_leaf : (q == 0) ≡ false = ground (arith, some_leaf) in
      let apart : (q == r) ≡ false = elim (Bool-cases (q == r)) [
        | inr other ↦ other
        | inl same ↦
            let e : q ≡ r = ground arith in
            let clash : a_record v ≡ a_node n = sym at_r ∙ ap s.object (sym e) ∙ at in absurd cc
      ] in
      let at_r' : (with_node s q m).object r ≡ a_record v = rw apart at_r in
      rw found (
        rw is_record
          (rw is_leaf (rw delete_entry-steps (rw (free-record r v (with_node s q m) at_r') refl))))

-- Deletion in a tree of any depth, of order at least 1 and not NULL, where the leaf that find_leaf
-- reaches has the entry of `key`, no other entry with its key, none before it with its record, and
-- either as many keys left as a leaf must have, or is the root and has a key left: delete returns the
-- same root, with more turns than the tree has levels below it; afterwards find gives NULL for the key
-- and for every other key what it gave before, and the record is freed.
pub delete-find :
    (order depth turns key v : ℕ) (s : Store) (root q r : Addr) (es xs ys : List Entry)
    → 1 ≤ order
    → depth ≤ turns
    → root ≢ 0
    → q ≢ 0
    → r ≢ 0
    → IsTree order s depth root es
    → (n : Node) → find_leaf order (suc turns) root key s ≡ ok q s
    → s.object q ≡ a_node n
    → n.num_keys ≡ length (xs ++ ((key, r) ∷ ys))
    → Holds n 0 (xs ++ ((key, r) ∷ ys))
    → All (λ (f : Entry). (f.0 ≢ key) × (f.1 ≢ r)) xs
    → All (λ (f : Entry). f.0 ≢ key) ys
    → s.object r ≡ a_record v
    → Keeps order root q (length (xs ++ ys))
    → (s' : Store) × (delete order (suc turns) root key s ≡ ok root s')
      × ((j : ℕ)
          → (leaf : Addr) × (find order (suc turns) root j s'
              ≡ ok ((if key == j then 0 else lookup j es), leaf) s'))
      × (s'.object r ≡ absent)
unfolding find_leaf
delete-find order depth turns key v s root q r es xs ys some_order enough some_root some_leaf
      some_record tree n reached at count holds before after at_r keeps =
    let part : List Entry = xs ++ ((key, r) ∷ ys) in
    let not_null : (root == 0) ≡ false = ground arith in
    let goes_q : descend order (suc turns) key root s ≡ ok q s = sym (rw not_null refl) ∙ reached in
    let (l, _, goes, _, (n', at_l, is_leaf, count', small, _), _) =
      descend-SameShape order depth turns key s s root es some_order enough
        (λ p x at_p inner. at_p, λ p x at_p leaf. (x, at_p, leaf)) tree in
    let l_is : l ≡ q = ok-value (sym goes ∙ goes_q) in
    let n_is : n' ≡ n = a_node-injective (sym at_l ∙ ap s.object l_is ∙ at) in
    let leaf : n.is_leaf ≡ true = ap (λ (x : Node). x.is_leaf) (sym n_is) ∙ is_leaf in
    let room : length part ≤ order - 1 =
      omega (arith, count, count', small, ap (λ (x : Node). x.num_keys) n_is) in
    let keys : All (λ (f : Entry). f.0 ≢ key) xs = All-mono (λ f h. h.0) xs before in
    let looked : record_in order key n.num_keys n ≡ ok r n =
      ap (λ (c : ℕ). record_in order key c n) count
      ∙ record_in-Holds order key part n room holds
      ∙ ap (λ (x : ℕ). ok x n) (lookup-here key r xs ys keys) in
    let found = find-at order turns root key q r s n some_root goes_q at looked in
    let (_, m, runs, (holds_m, count_m, kind, _, _, _)) = Returns-run (
      remove_entry_from_node-Holds order key r xs ys n leaf count (omega (arith, count, room)) holds
        keys (All-mono (λ f h. h.1) xs before)) in
    let s' : Store = removed s q m r in
    let leaf_m : m.is_leaf ≡ true = kind ∙ leaf in
    let apart : (r == q) ≡ false = removed-there s q r v n m at_r at in
    let here_q : (q == q) ≡ true = ground arith in
    let here_r : (r == r) ≡ true = ground arith in
    let shorter : length (xs ++ ys) ≤ order - 1 =
      omega (arith, room, length-append xs ys, length-append xs ((key, r) ∷ ys)) in
    (
      s',
      delete-steps order turns root key s q r v n m at runs leaf_m
          (subst (λ (c : ℕ). Keeps order root q c) (sym count_m) keeps) some_record some_leaf found
          at_r,
      find-changed order depth turns s s' root q es part (xs ++ ys) some_order enough some_root tree
          (removed-SameShape s q r v n m at_r at leaf leaf_m) n m at count room holds
          (rw apart (rw here_q refl)) count_m shorter holds_m
          (λ p x differs at_p. removed-at s q r v m x p at_r differs at_p) key 0 goes_q
          (λ j. lookup-without key r j xs ys keys after),
      rw here_r refl,
    )
