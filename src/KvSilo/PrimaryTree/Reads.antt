-- ===== src/KvSilo/PrimaryTree/Reads.antt =====
-- kvsilo/primary_tree.cpp: what read gives after write.
use transaction_system.Base.{
  ℕ, zero, suc, ◌≤◌, ◌≡◌, ◌≢◌, refl, sym, ap, ◌∙◌, false, inl, inr, List, arith, update, ◌==◌,
  ==_iff, Bool-cases, ◌+◌,
}
use transaction_system.Base.Run.{ok, fault}
use transaction_system.BpTree.Heap.{Addr, Node, Store, Object, a_node, a_record, set_value}
use transaction_system.BpTree.Entries.{Entry, lookup}
use transaction_system.BpTree.Tree.{Children, IsTree, find-IsTree}
use transaction_system.KvSilo.PrimaryTree.{order, find, read, write}

-- Every node of `s` stands in `s'` as it was.
abbrev KeepsNodes : Store → Store → Type 0
KeepsNodes s s' = (p : Addr) (n : Node) → s.object p ≡ a_node n → s'.object p ≡ a_node n

Children-mono :
    (P Q : Addr → List Entry → Type 0) (n : Node) (c i : ℕ) (es : List Entry)
    → ((q : Addr) (part : List Entry) → P q part → Q q part)
    → Children P n c i es
    → Children Q n c i es
Children-mono P Q n zero i es f (q, there, tree) = (q, there, f q es tree)
Children-mono P Q n (suc c) i es f (k, q, left, right, is, there, tree, below, above, more, both) =
    (
      k,
      q,
      left,
      right,
      is,
      there,
      f q left tree,
      below,
      above,
      Children-mono P Q n c (i + 1) right f more,
      both,
    )

IsTree-KeepsNodes :
    (depth : ℕ) (s s' : Store) (p : Addr) (es : List Entry)
    → KeepsNodes s s'
    → IsTree order s depth p es
    → IsTree order s' depth p es
IsTree-KeepsNodes zero s s' p es keeps (n, at, leaf, count, room, holds) =
    (n, keeps p n at, leaf, count, room, holds)
IsTree-KeepsNodes (suc depth) s s' p es keeps (n, at, inner, room, children) = (
  n,
  keeps p n at,
  inner,
  room,
  Children-mono (IsTree order s depth) (IsTree order s' depth) n n.num_keys 0 es
      (λ q part tree. IsTree-KeepsNodes depth s s' q part keeps tree) children,
)

abbrev pub with_value : Store → Addr → ℕ → Store
with_value s r v = record s { object = update s.object r (a_record v) }

with_value-KeepsNodes :
    (s : Store) (r v v₀ : ℕ) → s.object r ≡ a_record v₀ → KeepsNodes s (with_value s r v)
with_value-KeepsNodes s r v v₀ is p n at = elim (Bool-cases (r == p)) [
  | inl same ↦
      let clash : a_record v₀ ≡ a_node n = sym is ∙ ap s.object ((==_iff r p).0 same) ∙ at in
      absurd (cc)
  | inr other ↦ rw other at
]

module _ (depth turns : ℕ) (s : Store) (root : Addr) (es : List Entry) (enough : depth ≤ turns)
    (some_root : root ≢ 0) (tree : IsTree order s depth root es) where
  read-IsTree : (j : ℕ) → lookup j es ≢ 0 → read (suc turns) root j s ≡ ok (lookup j es) s
  unfolding read find
  read-IsTree j held =
      let (leaf, runs) =
        find-IsTree order depth turns j s root es (omega arith) enough some_root tree in
      let there : (lookup j es == 0) ≡ false = ground (arith, ==_iff (lookup j es) 0) in
      rw runs (rw there refl)

  read-missing : (j : ℕ) → lookup j es ≡ 0 → read (suc turns) root j s ≡ fault
  unfolding read find
  read-missing j none =
      let (leaf, runs) =
        find-IsTree order depth turns j s root es (omega arith) enough some_root tree in
      rw runs (rw ((==_iff (lookup j es) 0).1 none) refl)

  write-IsTree :
      (key v v₀ : ℕ)
      → lookup key es ≢ 0
      → s.object (lookup key es) ≡ a_record v₀
      → write (suc turns) root key v s ≡ ok tt (with_value s (lookup key es) v)
  unfolding write find set_value
  write-IsTree key v v₀ held is =
      let (leaf, runs) =
        find-IsTree order depth turns key s root es (omega arith) enough some_root tree in
      let there : (lookup key es == 0) ≡ false = ground (arith, ==_iff (lookup key es) 0) in
      rw runs (rw there (rw (is, set_value) refl))

update_self : (f : Addr → Object) (i : Addr) (o : Object) → update f i o i ≡ o
update_self f i o = rw ((==_iff i i).1 refl) refl

update_other : (f : Addr → Object) (i j : Addr) (o : Object) → j ≢ i → update f i o j ≡ f j
update_other f i j o ne = ground (arith, ==_iff i j)

-- Where a tree that is not NULL holds a record under `key`, write returns, given more turns than the
-- tree has levels below its root, and the record then has the new value. Every key is read as before:
-- read gives the record that stands under it, or fails on its assertion where there is none; and no
-- other object has changed.
pub write-read :
    (depth turns key v v₀ : ℕ) (s : Store) (root : Addr) (es : List Entry)
    → depth ≤ turns
    → root ≢ 0
    → IsTree order s depth root es
    → lookup key es ≢ 0
    → s.object (lookup key es) ≡ a_record v₀
    → (s' : Store) × (write (suc turns) root key v s ≡ ok tt s')
      × (s'.object (lookup key es) ≡ a_record v)
      × ((j : ℕ) → lookup j es ≢ 0 → read (suc turns) root j s' ≡ ok (lookup j es) s')
      × ((j : ℕ) → lookup j es ≡ 0 → read (suc turns) root j s' ≡ fault)
      × ((p : Addr) → p ≢ lookup key es → s'.object p ≡ s.object p)
write-read depth turns key v v₀ s root es enough some_root tree held is =
    let r : Addr = lookup key es in
    let s' : Store = with_value s r v in
    let tree' : IsTree order s' depth root es =
      IsTree-KeepsNodes depth s s' root es (with_value-KeepsNodes s r v v₀ is) tree in
    (
      s',
      write-IsTree depth turns s root es enough some_root tree key v v₀ held is,
      update_self s.object r (a_record v),
      read-IsTree depth turns s' root es enough some_root tree',
      read-missing depth turns s' root es enough some_root tree',
      λ p ne. update_other s.object r p (a_record v) ne,
    )
