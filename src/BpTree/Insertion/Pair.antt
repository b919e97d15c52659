-- ===== src/BpTree/Insertion/Pair.antt =====
-- Two nodes in the heap of bptree/main.c that a routine changes in turns.
use transaction_system.Base.{◌≡◌, refl, true, false, ◌==◌, arith}
use transaction_system.Base.Run.{Run, Cmd, ok, and_then}
use transaction_system.BpTree.Heap.{Addr, Node, Store, a_node, at_node}
use transaction_system.BpTree.Insertion.Shape.{with_node}
use transaction_system.BpTree.Insertion.Changed.{at_node-set}

-- `l` and `r` stand at the two addresses, and all else is as in `s`.
abbrev pub Stand : Store → (leaf new : Addr) → Node → Node → Store → Type 0
Stand s leaf new l r t =
    (t.object leaf ≡ a_node l)
    × (t.object new ≡ a_node r)
    × ((q : Addr) → (leaf == q) ≡ false → (new == q) ≡ false → t.object q ≡ s.object q)

module _ (s : Store) (leaf new : Addr) (apart : (leaf == new) ≡ false) where
  pub on_left :
      {A B : Type 0} (Q : Run Store B → Type 0) (f : Cmd Node A) (k : A → Cmd Store B) (t : Store)
      {a : A} {l l' r : Node}
      → Stand s leaf new l r t
      → f l ≡ ok a l'
      → ((t' : Store) → Stand s leaf new l' r t' → Q (k a t'))
      → Q (and_then (at_node leaf f t) k)
  on_left Q f k t {a = a} {l = l} {l' = l'} {r = r} (at_l, at_r, rest) runs next =
      let here : (leaf == leaf) ≡ true = ground arith in
      rw (at_node-set leaf f t l l' a at_l runs) (
        next (with_node t leaf l')
          (rw here refl, rw apart at_r, λ q other other'. rw other (rest q other other')))

  pub on_right :
      {A B : Type 0} (Q : Run Store B → Type 0) (f : Cmd Node A) (k : A → Cmd Store B) (t : Store)
      {a : A} {l r r' : Node}
      → Stand s leaf new l r t
      → f r ≡ ok a r'
      → ((t' : Store) → Stand s leaf new l r' t' → Q (k a t'))
      → Q (and_then (at_node new f t) k)
  on_right Q f k t {a = a} {l = l} {r = r} {r' = r'} (at_l, at_r, rest) runs next =
      let here : (new == new) ≡ true = ground arith in
      let apart' : (new == leaf) ≡ false = ground (arith, apart) in
      rw (at_node-set new f t r r' a at_r runs) (
        next (with_node t new r')
          (rw apart' at_l, rw here refl, λ q other other'. rw other' (rest q other other')))
