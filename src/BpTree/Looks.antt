-- ===== src/BpTree/Looks.antt =====
-- A command on a node that only looks leaves the whole heap as it is.
use transaction_system.Base.{ℕ, ◌≡◌, refl, Bool-cases, inl, inr, ap, ◌∙◌, sym, update, ◌==◌, ==_iff}
use transaction_system.Base.Run.{Cmd, ok}
use transaction_system.BpTree.Heap.{Addr, Node, Object, Store, a_node, at_node, node_at, put}
use mathlib.Core.Path.{fun_ext}

update-same : {A : Type 0} (f : ℕ → A) (i : ℕ) (v : A) → f i ≡ v → update f i v ≡ f
update-same f i v is = fun_ext λ j. elim (Bool-cases (i == j)) [
  | inl here ↦ rw here (sym is ∙ ap f ((==_iff i j).0 here))
  | inr there ↦ rw there refl
]

pub node_at-ok : (p : Addr) (s : Store) (n : Node) → s.object p ≡ a_node n → node_at p s ≡ ok n s
unfolding node_at
node_at-ok p s n is = rw (is, node_at) refl

pub at_node-look :
    {A : Type 0} (p : Addr) (f : Cmd Node A) (s : Store) (n : Node) (a : A)
    → s.object p ≡ a_node n
    → f n ≡ ok a n
    → at_node p f s ≡ ok a s
unfolding at_node put
at_node-look p f s n a is runs =
    rw (is, at_node)
      (rw runs (
        ap (λ (o : Addr → Object). ok a (record s { object = o }))
          (update-same s.object p (a_node n) is)))
