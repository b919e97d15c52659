-- ===== src/BpTree/Slots/Split.antt =====
-- How bptree/main.c divides the entries of a full leaf and a new one among two leaves.
use transaction_system.Base.{
  ℕ, ◌+◌, ◌-◌, ◌*◌, ◌≤◌, ◌<◌, ◌≡◌, refl, true, false, List, [], ◌∷◌, some, ◌==◌, arith, ◌∙◌, update,
}
use transaction_system.Base.Run.{Returns, returns, Returns-mono, ok}
use transaction_system.Base.Lists.{length, take, drop}
use transaction_system.BpTree.Heap.{Addr, Array, Node, add_key, clear_keys, blank_node}
use transaction_system.BpTree.Search.{cut}
use transaction_system.BpTree.Slots.{take_entries, overfull, keep_left, fill_right}
use transaction_system.BpTree.Slots.Cells.{with_arrays, set_key-ok, set_pointer-ok}
use transaction_system.BpTree.Slots.Sorted.{insert_entry, length-insert_entry}
use mathlib.Core.Path.{subst}
use transaction_system.BpTree.Removal.{min_keys}
use transaction_system.BpTree.Entries.{Entry, Holds, take-Holds, drop-Holds}
use transaction_system.BpTree.Slots.Overfull.{load-ok, overfull-Holds}

module _ (order : ℕ) where
  -- `m'` is `m` with `cnt` entries more, which stand from the `j`-th cell on.
  abbrev Taken : Node → ℕ → List Entry → ℕ → Unit {0} → Node → Type 0
  Taken m j es cnt _ m' =
      Holds m' j es
      × (m'.num_keys ≡ m.num_keys + cnt)
      × ((t : ℕ) → t < j → (m'.keys t ≡ m.keys t) × (m'.pointers t ≡ m.pointers t))
      × (m'.pointers (order - 1) ≡ m.pointers (order - 1))
      × (m'.is_leaf ≡ m.is_leaf)
      × (m'.parent ≡ m.parent)

  -- Entries of temporary arrays, taken over by a node.
  take_entries-Holds :
      (size i j : ℕ) (es : List Entry) (a m : Node)
      → i + length es ≤ order
      → i + length es ≤ size
      → j + length es ≤ order - 1
      → Holds a i es
      → Returns
          (Taken m j es (length es))
          (take_entries order size a.keys a.pointers (length es) i j m)
  unfolding take_entries add_key
  take_entries-Holds size i j [] a m fits sized room h =
      returns (tt, omega arith, λ t lt. (refl, refl), refl, refl, refl)
  take_entries-Holds size i j ((k, p) ∷ es) a m fits sized room h =
      let m₁ : Node = record m { pointers = update m.pointers j (some p) } in
      let m₂ : Node = record m₁ { keys = update m.keys j (some k) } in
      rw (load-ok size i p a.pointers m (omega arith) h.1) (
        rw (set_pointer-ok order m j p (omega arith)) (
          rw (load-ok order i k a.keys m₁ (omega arith) h.0) (
            rw (set_key-ok order m₁ j k (omega arith)) (
              Returns-mono
                (take_entries-Holds size (i + 1) (j + 1) es a
                  (record m₂ { num_keys = m.num_keys + 1 }) (omega arith) (omega arith)
                  (omega arith) h.2)
                λ _ m' (holds, count, kept, next, kind, up).
                  let (k_is, p_is) = kept j (omega arith) in
                  (
                    (k_is ∙ ground arith, p_is ∙ ground arith, holds),
                    omega (arith, count),
                    λ t lt.
                        let miss : (j == t) ≡ false = ground arith in
                        let (k_was, p_was) = kept t (omega arith) in
                        (k_was ∙ rw miss refl, p_was ∙ rw miss refl),
                    next ∙ ground (arith, room),
                    kind,
                    up,
                  )))))

  take_entries-count :
      (size i j cnt : ℕ) (es : List Entry) (a m : Node)
      → length es ≡ cnt
      → i + cnt ≤ order
      → i + cnt ≤ size
      → j + cnt ≤ order - 1
      → Holds a i es
      → Returns (Taken m j es cnt) (take_entries order size a.keys a.pointers cnt i j m)
  take_entries-count size i j cnt es a m is fits sized room h =
      subst
        (λ (l : ℕ). Returns (Taken m j es l) (take_entries order size a.keys a.pointers l i j m)) is
        (take_entries-Holds size i j es a m (omega arith) (omega arith) (omega arith) h)

  pub cut-bounds : (x : ℕ) → (x ≤ 2 * cut x) × (2 * cut x ≤ x + 1)
  unfolding cut
  cut-bounds x = ground arith

  -- What the split of the leaf `n` with the entries `es` and a new one comes to.
  abbrev pub Halves : ℕ → Addr → List Entry → Node → Type 0
  Halves key p es n =
      (ks : Array) × (ps : Array) × (overfull order key p n ≡ ok (ks, ps) n)
      × Returns
          (λ _ m.
            Holds m 0 (take (cut (order - 1)) (insert_entry key p es))
            × (m.num_keys ≡ length (take (cut (order - 1)) (insert_entry key p es)))
            × (min_keys order true ≤ m.num_keys)
            × (m.num_keys ≤ order - 1)
            × (m.pointers (order - 1) ≡ n.pointers (order - 1))
            × (m.is_leaf ≡ n.is_leaf)
            × (m.parent ≡ n.parent))
          (keep_left order ks ps n)
      × Returns
          (λ _ m.
            Holds m 0 (drop (cut (order - 1)) (insert_entry key p es))
            × (m.num_keys ≡ length (drop (cut (order - 1)) (insert_entry key p es)))
            × (min_keys order true ≤ m.num_keys)
            × (m.num_keys ≤ order - 1)
            × (m.is_leaf ≡ true))
          (fill_right order ks ps (blank_node true))

  -- What keep_left and fill_right make of the temporary arrays of a full leaf.
  pub split-Halves :
      (key : ℕ) (p : Addr) (es : List Entry) (n : Node)
      → 3 ≤ order
      → n.num_keys ≡ length es
      → length es ≡ order - 1
      → Holds n 0 es
      → Halves key p es n
  unfolding keep_left fill_right clear_keys min_keys
  split-Halves key p es n three count full h =
      let (ks, ps, runs, holds) = overfull-Holds order key p es n (omega arith) count full h in
      let all : List Entry = insert_entry key p es in
      let len : length all ≡ order = omega (arith, length-insert_entry key p es, full) in
      let c : ℕ = cut (order - 1) in
      let (low, high) = cut-bounds (order - 1) in
      let a : Node = with_arrays n ks ps in
      let (left, left_len) = take-Holds c 0 all a (omega arith) holds in
      let (right, right_len) = drop-Holds c 0 all a (omega arith) holds in
      (
        ks,
        ps,
        runs,
        Returns-mono
            (take_entries-count order 0 0 c (take c all) a (record n { num_keys = 0 }) left_len
              (omega arith) (omega arith) (omega arith) left)
            λ _ m (h', cnt, kept, next, kind, up). (
              h',
              omega (arith, cnt, left_len),
              omega (arith, cnt),
              omega (arith, cnt),
              next,
              kind,
              up,
            ),
        Returns-mono
            (take_entries-count order c 0 (order - c) (drop c all) a (blank_node true)
              (omega (arith, right_len)) (omega arith) (omega arith) (omega arith)
              (subst (λ (j : ℕ). Holds a j (drop c all)) (omega arith) right))
            λ _ m (h', cnt, kept, next, kind, up).
              (h', omega (arith, cnt, right_len), omega (arith, cnt), omega (arith, cnt), kind),
      )
