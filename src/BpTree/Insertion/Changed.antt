-- ===== src/BpTree/Insertion/Changed.antt =====
-- One leaf of a tree of bptree/main.c changed: what find gives then.
use transaction_system.Base.{
  ℕ, suc, ◌-◌, ◌≤◌, ◌≡◌, ◌≢◌, refl, false, List, Bool-cases, inl, inr, ap, ◌∙◌, sym, arith, ◌==◌,
  if◌then◌else◌,
}
use mathlib.Core.Path.{subst}
use transaction_system.Base.Run.{Cmd, ok}
use transaction_system.Base.Lists.{length}
use transaction_system.BpTree.Heap.{Addr, Node, Store, a_node, at_node, put}
use transaction_system.BpTree.Search.{descend, find_leaf, find, record_in}
use transaction_system.BpTree.Entries.{Entry, Holds, lookup, record_in-Holds}
use transaction_system.BpTree.Looks.{node_at-ok, at_node-look}
use transaction_system.BpTree.Tree.{IsTree}
use transaction_system.BpTree.Insertion.Shape.{
  ok-value, a_node-injective, lookup_unique, with_node, descend-SameShape, SameShape,
}

pub at_node-set :
    {A : Type 0} (p : Addr) (f : Cmd Node A) (s : Store) (n m : Node) (a : A)
    → s.object p ≡ a_node n
    → f n ≡ ok a m
    → at_node p f s ≡ ok a (with_node s p m)
unfolding at_node put
at_node-set p f s n m a is runs = rw (is, at_node) (rw runs refl)

pub find-at :
    (order turns root j l r : ℕ) (s : Store) (n : Node)
    → root ≢ 0
    → descend order (suc turns) j root s ≡ ok l s
    → s.object l ≡ a_node n
    → record_in order j n.num_keys n ≡ ok r n
    → find order (suc turns) root j s ≡ ok (r, l) s
unfolding find find_leaf
find-at order turns root j l r s n some_root goes at is =
    let not_null : (root == 0) ≡ false = ground arith in
    rw not_null (
      rw goes (
        rw (node_at-ok l s n at)
          (rw (at_node-look l (record_in order j n.num_keys) s n r at is) refl)))

module _ (order depth turns : ℕ) (s s' : Store) (root q : Addr) (es part part' : List Entry)
    (some_order : 1 ≤ order) (enough : depth ≤ turns) (some_root : root ≢ 0)
    (tree : IsTree order s depth root es) (same : SameShape s s') (n m : Node)
    (at : s.object q ≡ a_node n) (count : n.num_keys ≡ length part) (room : length part ≤ order - 1)
    (holds : Holds n 0 part) (at' : s'.object q ≡ a_node m) (count' : m.num_keys ≡ length part')
    (room' : length part' ≤ order - 1) (holds' : Holds m 0 part')
    (others : (p : Addr) (x : Node)
      → (q == p) ≡ false
      → s.object p ≡ a_node x
      → s'.object p ≡ a_node x)
    (key v : ℕ) (goes_q : descend order (suc turns) key root s ≡ ok q s)
    (changed : (j : ℕ) → lookup j part' ≡ (if key == j then v else lookup j part)) where
  -- The leaf for `key` has other entries, where only the look-up of `key` differs: so does find.
  pub find-changed :
      (j : ℕ)
      → (leaf : Addr) × (find order (suc turns) root j s'
          ≡ ok ((if key == j then v else lookup j es), leaf) s')
  find-changed j =
      let (l, part_j, goes, goes', (n_j, at_j, leaf_j, count_j, room_j, holds_j), found) =
        descend-SameShape order depth turns j s s' root es some_order enough same tree in
      (
        l,
        elim (Bool-cases (q == l)) [
          | inl here ↦
              let e : q ≡ l = ground arith in
              let n_is : n ≡ n_j = a_node-injective (sym at ∙ ap s.object e ∙ at_j) in
              let at_l : s'.object l ≡ a_node m = ap s'.object (sym e) ∙ at' in
              let unique : lookup j part ≡ lookup j part_j =
                lookup_unique order j part part_j n_j
                  (ap (λ (x : Node). x.num_keys) (sym n_is) ∙ count) count_j room
                  (subst (λ (x : Node). Holds x 0 part) n_is holds) holds_j in
              let value_is : lookup j part' ≡ (if key == j then v else lookup j es) =
                changed j ∙ ap (λ (x : ℕ). if key == j then v else x) (unique ∙ found) in
              let looked : record_in order j m.num_keys m
                  ≡ ok (if key == j then v else lookup j es) m =
                ap (λ (c : ℕ). record_in order j c m) count'
                ∙ record_in-Holds order j part' m room' holds'
                ∙ ap (λ (x : ℕ). ok x m) value_is in
              find-at order turns root j l _ s' m some_root goes' at_l looked
          | inr there ↦
              let at_l : s'.object l ≡ a_node n_j = others l n_j there at_j in
              let other : (key == j) ≡ false = elim (Bool-cases (key == j)) [
                | inr differs ↦ differs
                | inl equal ↦
                    let e : key ≡ j = ground arith in
                    let q_is_l : q ≡ l =
                      ok-value (
                        sym goes_q ∙ ap (λ (k : ℕ). descend order (suc turns) k root s) e ∙ goes) in
                    absurd (ground (arith, q_is_l))
              ] in
              let looked : record_in order j n_j.num_keys n_j ≡ ok (lookup j es) n_j =
                ap (λ (c : ℕ). record_in order j c n_j) count_j
                ∙ record_in-Holds order j part_j n_j room_j holds_j
                ∙ ap (λ (x : ℕ). ok x n_j) found in
              rw other
                (find-at order turns root j l (lookup j es) s' n_j some_root goes' at_l looked)
        ],
      )
