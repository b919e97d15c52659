-- ===== src/BpTree/Insertion/Room.antt =====
-- insert of bptree/main.c where the leaf has room, and what find gives afterwards in the whole tree.
use transaction_system.Base.{
  ℕ, suc, ◌-◌, ◌≤◌, ◌<◌, ◌≡◌, ◌≢◌, refl, true, false, List, ap, ◌∙◌, sym, arith, ◌==◌, ltb,
  if◌then◌else◌, lt→ltb,
}
use mathlib.Core.Path.{subst}
use transaction_system.Base.Run.{ok}
use transaction_system.Base.Lists.{length}
use transaction_system.BpTree.Heap.{
  Addr, Node, Store, absent, a_record, a_node, malloc, make_record, get_value,
}
use transaction_system.BpTree.Search.{descend, find_leaf, find, record_in}
use transaction_system.BpTree.Slots.{insert_into_leaf}
use transaction_system.BpTree.Slots.Leaf.{insert_into_leaf-Holds}
use transaction_system.BpTree.Slots.Sorted.{insert_entry, lookup-insert_entry, length-insert_entry}
use transaction_system.BpTree.Insertion.{insert}
use transaction_system.BpTree.Entries.{Entry, Holds, lookup, record_in-Holds}
use transaction_system.BpTree.Looks.{node_at-ok}
use transaction_system.BpTree.Tree.{IsTree}
use transaction_system.BpTree.Insertion.Shape.{
  ok-value, a_node-injective, Returns-run, with_record, with_node, fresh-differs, with_record-at,
  with_record-SameShape, inserted-SameShape, descend-SameShape,
}
use transaction_system.BpTree.Insertion.Changed.{at_node-set, find-at, find-changed}

-- The steps of insert where the key is new and the leaf has room.
insert-steps :
    (order turns root key value q : ℕ) (s : Store) (n m : Node)
    → root ≢ 0
    → find order (suc turns) root key s ≡ ok (0, q) s
    → descend order (suc turns) key root (with_record s value) ≡ ok q (with_record s value)
    → (with_record s value).object q ≡ a_node n
    → n.num_keys < order - 1
    → insert_into_leaf order key s.fresh n ≡ ok tt m
    → insert order (suc turns) root key value s ≡ ok root (with_node (with_record s value) q m)
unfolding insert find_leaf make_record malloc
insert-steps order turns root key value q s n m some_root missing goes at room runs =
    let not_null : (root == 0) ≡ false = ground arith in
    let fits : ltb n.num_keys (order - 1) ≡ true = lt→ltb n.num_keys (order - 1) room in
    rw missing (
      rw not_null (
        rw goes (
          rw (node_at-ok q (with_record s value) n at) (
            rw fits (
              rw
                (at_node-set q (insert_into_leaf order key s.fresh) (with_record s value) n m tt at
                  runs)
                refl)))))

-- What a find gives after the insertion of the record `r` under `key`.
abbrev pub FindsInserted :
    (order turns : ℕ) → (root : Addr) → (key : ℕ) → Addr → List Entry → Store → Type 0
FindsInserted order turns root key r es s =
    (j : ℕ)
    → (leaf : Addr) × (find order (suc turns) root j s
        ≡ ok ((if key == j then r else lookup j es), leaf) s)

module _ (order depth turns key value : ℕ) (s : Store) (root q : Addr) (es : List Entry)
    (some_order : 1 ≤ order) (enough : depth ≤ turns) (some_root : root ≢ 0)
    (tree : IsTree order s depth root es) (unused : s.object s.fresh ≡ absent) where
  -- The leaf for `key` as `n`, with its entries, becomes `m`: what a find of `j` gives then.
  find-inserted :
      (n m : Node) (part : List Entry) (j : ℕ)
      → descend order (suc turns) key root s ≡ ok q s
      → s.object q ≡ a_node n
      → n.is_leaf ≡ true
      → n.num_keys ≡ length part
      → length part < order - 1
      → Holds n 0 part
      → Holds m 0 (insert_entry key s.fresh part)
      → m.num_keys ≡ length (insert_entry key s.fresh part)
      → m.is_leaf ≡ true
      → (leaf : Addr) × (find order (suc turns) root j (with_node (with_record s value) q m)
          ≡ ok
              ((if key == j then s.fresh else lookup j es), leaf)
              (with_node (with_record s value) q m))
  find-inserted n m part j goes_q at leaf_n count room holds holds_m count_m leaf_m =
      let s₂ : Store = with_node (with_record s value) q m in
      let same = inserted-SameShape s value q n m unused at leaf_n leaf_m in
      let longer = length-insert_entry key s.fresh part in
      let here : (q == q) ≡ true = ground arith in
      find-changed order depth turns s s₂ root q es part (insert_entry key s.fresh part) some_order
        enough some_root tree same n m at count (omega arith) holds (rw here refl) count_m
        (omega (arith, longer)) holds_m
        (λ p x differs at_p. rw differs (with_record-at s value p x unused at_p)) key s.fresh goes_q
        (λ j'. lookup-insert_entry key j' s.fresh part) j

  -- Insertion of a new key in a tree of any depth, of order at least 1 and not NULL, where the leaf that
  -- find_leaf reaches has room and nothing stands at the next address of malloc: insert returns the
  -- same root, with more turns than the tree has levels below it; afterwards find gives, under the key,
  -- the record at that address, which has the value, and under every other key what it gave before.
  pub insert-find :
      (n : Node)
      → lookup key es ≡ 0
      → find_leaf order (suc turns) root key s ≡ ok q s
      → s.object q ≡ a_node n
      → n.num_keys < order - 1
      → (s' : Store) × (insert order (suc turns) root key value s ≡ ok root s')
        × FindsInserted order turns root key s.fresh es s'
        × (get_value s.fresh s' ≡ ok value s')
  unfolding find_leaf get_value
  insert-find n nothing reached at room =
      let not_null : (root == 0) ≡ false = ground arith in
      let s₁ : Store = with_record s value in
      let shape = with_record-SameShape s value unused in
      let (l, part, goes, goes₁, (n', at', leaf', count, small, holds), found) =
        descend-SameShape order depth turns key s s₁ root es some_order enough shape tree in
      let reached' : descend order (suc turns) key root s ≡ ok q s =
        sym (rw not_null refl) ∙ reached in
      let l_is : l ≡ q = ok-value (sym goes ∙ reached') in
      let at_q : s.object q ≡ a_node n' = subst (λ (x : Addr). s.object x ≡ a_node n') l_is at' in
      let n_is : n ≡ n' = a_node-injective (sym at ∙ at_q) in
      let room' : n'.num_keys < order - 1 =
        subst (λ (x : Node). x.num_keys < order - 1) n_is room in
      let room_part : length part < order - 1 = omega (arith, count, room') in
      let goes₁' : descend order (suc turns) key root s₁ ≡ ok q s₁ =
        goes₁ ∙ ap (λ (x : Addr). ok x s₁) l_is in
      let empty : record_in order key n'.num_keys n' ≡ ok 0 n' =
        ap (λ (c : ℕ). record_in order key c n') count
        ∙ record_in-Holds order key part n' small holds
        ∙ ap (λ (x : ℕ). ok x n') (found ∙ nothing) in
      let missing = find-at order turns root key q 0 s n' some_root reached' at_q empty in
      let (_, m, runs, (holds_m, count_m, kind, up, next)) =
        Returns-run (insert_into_leaf-Holds order key s.fresh part n' count room_part holds) in
      let not_fresh = fresh-differs s q n' unused at_q in
      let apart : (q == s.fresh) ≡ false = ground (arith, not_fresh) in
      let here : (s.fresh == s.fresh) ≡ true = ground arith in
      let stored : (with_node s₁ q m).object s.fresh ≡ a_record value = rw apart (rw here refl) in
      (
        with_node s₁ q m,
        insert-steps order turns root key value q s n' m some_root missing goes₁'
            (with_record-at s value q n' unused at_q) room' runs,
        λ j.
            find-inserted n' m part j reached' at_q leaf' count room_part holds holds_m count_m
              (kind ∙ leaf'),
        rw (stored, get_value) refl,
      )
