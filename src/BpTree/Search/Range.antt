-- ===== src/BpTree/Search/Range.antt =====
-- What find_range of bptree/main.c returns over a chain of leaves.
use transaction_system.Base.{
  ℕ, zero, suc, ◌+◌, ◌-◌, ◌≤◌, ◌≡◌, ◌≢◌, refl, true, false, List, [], ◌∷◌, ◌++◌, some, leb, ◌==◌,
  if◌then◌else◌, arith, Bool-cases, inl, inr, ap, ◌∙◌,
}
use transaction_system.Base.Run.{ok}
use transaction_system.Base.Lists.{length}
use transaction_system.BpTree.Heap.{Addr, Node, Store, a_node, get_pointer}
use transaction_system.BpTree.Search.{collect_entries, range_loop}
use transaction_system.BpTree.Entries.{Entry, Holds, get_key-ok, get_pointer-ok}
use transaction_system.BpTree.Looks.{node_at-ok, at_node-look}

-- The entries from the first on while their keys are at most `key_end`.
abbrev pub up_to : ℕ → List Entry → List Entry
up_to key_end [] = []
up_to key_end ((k, p) ∷ es) = if leb k key_end then (k, p) ∷ up_to key_end es else []

-- The leaves from `p` on, each with its entries, linked by their last pointers; the last has NULL.
abbrev pub Chain : ℕ → Store → Addr → List (List Entry) → Type 0
Chain order s p [] = p ≡ 0
Chain order s p (es ∷ rest) =
    (p ≢ 0)
    × (n : Node) × (s.object p ≡ a_node n)
    × (n.num_keys ≡ length es)
    × (length es ≤ order - 1)
    × Holds n 0 es
    × (q : Addr) × (n.pointers (order - 1) ≡ some q)
    × Chain order s q rest

-- What the loop of find_range gives over leaves.
abbrev pub gathered : ℕ → List (List Entry) → List Entry
gathered key_end [] = []
gathered key_end (es ∷ rest) = up_to key_end es ++ gathered key_end rest

module _ (order : ℕ) where
  pub collect_entries-Holds :
      (key_end i : ℕ) (es : List Entry) (n : Node)
      → i + length es ≤ order - 1
      → Holds n i es
      → collect_entries order key_end (length es) i n ≡ ok (up_to key_end es) n
  unfolding collect_entries
  collect_entries-Holds key_end i [] n room h = refl
  collect_entries-Holds key_end i ((k, p) ∷ es) n room h =
      rw (get_key-ok order n i k (omega arith) h.0) (elim (Bool-cases (leb k key_end)) [
        | inl inside ↦ rw inside (
            rw (get_pointer-ok order n i p (omega arith) h.1)
              (rw (collect_entries-Holds key_end (i + 1) es n (omega arith) h.2) refl))
        | inr beyond ↦ rw beyond refl
      ])

  -- From the first key of a leaf on, the loop gathers every leaf's entries up to `key_end`.
  pub range_loop-Chain :
      (turns key_end : ℕ) (s : Store) (p : Addr) (leaves : List (List Entry))
      → 1 ≤ order
      → length leaves ≤ turns
      → Chain order s p leaves
      → range_loop order turns key_end p 0 s ≡ ok (gathered key_end leaves) s
  unfolding range_loop
  range_loop-Chain zero key_end s p [] some_order enough is =
      let null : (p == 0) ≡ true = ground (arith, is) in rw null refl
  range_loop-Chain (suc turns) key_end s p [] some_order enough is =
      let null : (p == 0) ≡ true = ground (arith, is) in rw null refl
  range_loop-Chain zero key_end s p (es ∷ rest) some_order enough chain = absurd (omega arith)
  range_loop-Chain (suc turns) key_end s p (es ∷ rest) some_order enough
        (not_null, n, at, count, room, h, q, next, chain) =
      let other : (p == 0) ≡ false = ground arith in
      let all : collect_entries order key_end (n.num_keys - 0) 0 n ≡ ok (up_to key_end es) n =
        ap (λ (l : ℕ). collect_entries order key_end l 0 n) (omega (arith, count))
        ∙ collect_entries-Holds key_end 0 es n (omega arith) h in
      rw other (
        rw (node_at-ok p s n at) (
          rw
            (at_node-look p (collect_entries order key_end (n.num_keys - 0) 0) s n
              (up_to key_end es) at all)
            (rw
              (at_node-look p (get_pointer order (order - 1)) s n q at
                (get_pointer-ok order n (order - 1) q (omega arith) next))
              (rw (range_loop-Chain turns key_end s q rest some_order (omega arith) chain) refl))))
