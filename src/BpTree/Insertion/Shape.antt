-- ===== src/BpTree/Insertion/Shape.antt =====
-- Stores of bptree/main.c that have the same inner nodes and their leaves at the same addresses, and
-- the descent in them.
use transaction_system.Base.{
  ℕ, zero, suc, ◌+◌, ◌-◌, ◌≤◌, ◌≡◌, refl, true, false, List, Bool-cases, inl, inr, ap, ◌∙◌, sym,
  arith, ◌==◌, update,
}
use transaction_system.Base.Run.{Run, ok, Returns, returns}
use transaction_system.Base.Lists.{length}
use transaction_system.BpTree.Heap.{Addr, Node, Store, absent, a_record, a_node}
use transaction_system.BpTree.Search.{descend, record_in}
use transaction_system.BpTree.Entries.{Entry, Holds, lookup, record_in-Holds}
use transaction_system.BpTree.Looks.{node_at-ok}
use transaction_system.BpTree.Tree.{IsLeaf, IsTree, child_for-Children, descend-step}

-- `s'` has the inner nodes of `s`, and leaves where `s` has them.
abbrev pub SameShape : Store → Store → Type 0
SameShape s s' =
    ((p : Addr) (n : Node) → s.object p ≡ a_node n → n.is_leaf ≡ false → s'.object p ≡ a_node n)
    × ((p : Addr) (n : Node)
        → s.object p ≡ a_node n
        → n.is_leaf ≡ true
        → (n' : Node) × (s'.object p ≡ a_node n') × (n'.is_leaf ≡ true))

module _ (order : ℕ) where
  -- The descent in a tree and in a store of the same shape ends at one leaf.
  pub descend-SameShape :
      (depth turns key : ℕ) (s s' : Store) (p : Addr) (es : List Entry)
      → 1 ≤ order
      → depth ≤ turns
      → SameShape s s'
      → IsTree order s depth p es
      → (leaf : Addr) × (part : List Entry) × (descend order (suc turns) key p s ≡ ok leaf s)
        × (descend order (suc turns) key p s' ≡ ok leaf s')
        × IsLeaf order s leaf part
        × (lookup key part ≡ lookup key es)
  unfolding descend
  descend-SameShape zero turns key s s' p es some_order enough same
        (n, at, is_leaf, count, room, holds) =
      let (n', at', is_leaf') = same.1 p n at is_leaf in
      (
        p,
        es,
        rw (node_at-ok p s n at) (rw is_leaf refl),
        rw (node_at-ok p s' n' at') (rw is_leaf' refl),
        (n, at, is_leaf, count, room, holds),
        refl,
      )
  descend-SameShape (suc depth) zero key s s' p es some_order enough same tree =
      absurd (omega arith)
  descend-SameShape (suc depth) (suc turns) key s s' p es some_order enough same
        (n, at, inner, room, children) =
      let (q, part, runs, tree, found) =
        child_for-Children order (IsTree order s depth) key n es room some_order children in
      let (leaf, part', goes, goes', ends, found') =
        descend-SameShape depth turns key s s' q part some_order (omega arith) same tree in
      (
        leaf,
        part',
        descend-step order (suc turns) key s p q n at inner runs ∙ goes,
        descend-step order (suc turns) key s' p q n (same.0 p n at inner) inner runs ∙ goes',
        ends,
        found' ∙ found,
      )

pub ok-value : {S A : Type 0} {a b : A} {s t : S} → ok a s ≡ ok b t → a ≡ b
ok-value e = cc

pub a_node-injective : {n m : Node} → a_node n ≡ a_node m → n ≡ m
a_node-injective e = cc

pub Returns-run :
    {S A : Type 0} {P : A → S → Type 0} {r : Run S A}
    → Returns P r
    → (a : A) × (s : S) × (r ≡ ok a s) × P a s
Returns-run (returns p) = (_, _, refl, p)

-- A leaf's entries are determined as far as look-ups go.
pub lookup_unique :
    (order j : ℕ) (xs ys : List Entry) (n : Node)
    → n.num_keys ≡ length xs
    → n.num_keys ≡ length ys
    → length xs ≤ order - 1
    → Holds n 0 xs
    → Holds n 0 ys
    → lookup j xs ≡ lookup j ys
lookup_unique order j xs ys n cx cy room hx hy = ok-value (
    sym (record_in-Holds order j xs n room hx)
    ∙ ap (λ (l : ℕ). record_in order j l n) (sym cx ∙ cy)
    ∙ record_in-Holds order j ys n (omega (arith, cx, cy)) hy)

abbrev pub with_record : Store → ℕ → Store
with_record s v = record s { object = update s.object s.fresh (a_record v); fresh = s.fresh + 1 }

abbrev pub with_node : Store → Addr → Node → Store
with_node s q m = record s { object = update s.object q (a_node m) }

pub fresh-differs :
    (s : Store) (p : Addr) (n : Node)
    → s.object s.fresh ≡ absent
    → s.object p ≡ a_node n
    → (s.fresh == p) ≡ false
fresh-differs s p n unused at = elim (Bool-cases (s.fresh == p)) [
  | inr differs ↦ differs
  | inl same ↦
      let e : s.fresh ≡ p = ground arith in
      let clash : absent ≡ a_node n = sym unused ∙ ap s.object e ∙ at in absurd cc
]

pub with_record-at :
    (s : Store) (v : ℕ) (p : Addr) (n : Node)
    → s.object s.fresh ≡ absent
    → s.object p ≡ a_node n
    → (with_record s v).object p ≡ a_node n
with_record-at s v p n unused at = rw (fresh-differs s p n unused at) at

-- Storing a record at a fresh address keeps the shape, and so does a new state of a leaf.
pub with_record-SameShape :
    (s : Store) (v : ℕ) → s.object s.fresh ≡ absent → SameShape s (with_record s v)
with_record-SameShape s v unused = (
  λ p n at inner. with_record-at s v p n unused at,
  λ p n at is_leaf. (n, with_record-at s v p n unused at, is_leaf),
)

pub inserted-SameShape :
    (s : Store) (v : ℕ) (q : Addr) (nq m : Node)
    → s.object s.fresh ≡ absent
    → s.object q ≡ a_node nq
    → nq.is_leaf ≡ true
    → m.is_leaf ≡ true
    → SameShape s (with_node (with_record s v) q m)
inserted-SameShape s v q nq m unused at_q leaf_q leaf_m = (
  λ p n at inner. elim (Bool-cases (q == p)) [
    | inl same ↦
        let e : q ≡ p = ground arith in
        let n_is : nq ≡ n = a_node-injective (sym at_q ∙ ap s.object e ∙ at) in
        let both : true ≡ false = sym leaf_q ∙ ap (λ (x : Node). x.is_leaf) n_is ∙ inner in
        absurd cc
    | inr differs ↦ rw differs (with_record-at s v p n unused at)
  ],
  λ p n at is_leaf. elim (Bool-cases (q == p)) [
    | inl same ↦ rw same (m, refl, leaf_m)
    | inr differs ↦ rw differs (n, with_record-at s v p n unused at, is_leaf)
  ],
)
