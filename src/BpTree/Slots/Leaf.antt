-- ===== src/BpTree/Slots/Leaf.antt =====
-- insert_into_leaf of bptree/main.c puts the new entry where a list of entries would have it.
use transaction_system.Base.{
  ℕ, ◌+◌, ◌-◌, ◌≤◌, ◌<◌, ◌≡◌, ◌≢◌, refl, List, some, ◌==◌, if◌then◌else◌, arith, ap, ◌∙◌, update,
}
use transaction_system.Base.Run.{Returns, returns, Returns-mono, ok}
use transaction_system.Base.Lists.{length, All}
use transaction_system.BpTree.Heap.{Addr, Node, add_key}
use transaction_system.BpTree.Search.{record_in, scan_below}
use transaction_system.BpTree.Slots.{insert_into_leaf}
use transaction_system.BpTree.Entries.{
  Entry, Holds, Ascending, lookup, count_below, scan_below-Holds, record_in-Holds, count_below-le,
}
use transaction_system.BpTree.Slots.Sorted.{
  insert_entry, lookup-insert_entry, length-insert_entry, Ascending-insert_entry,
}
use transaction_system.BpTree.Slots.Cells.{
  Present, Holds-Present, shifted, with_arrays, set_key-ok, set_pointer-ok, move_up-ok,
  Holds-insert_entry,
}

module _ (order : ℕ) where
  -- What insert_into_leaf does to a leaf that has room for one more key: it returns, the entries are
  -- those before with the new one before the first whose key is not smaller, the count is one more,
  -- and the parent, the kind of the node and the pointer to the next leaf stay.
  pub insert_into_leaf-Holds :
      (key : ℕ) (p : Addr) (es : List Entry) (n : Node)
      → n.num_keys ≡ length es
      → length es < order - 1
      → Holds n 0 es
      → Returns
          (λ _ m.
            Holds m 0 (insert_entry key p es)
            × (m.num_keys ≡ length (insert_entry key p es))
            × (m.is_leaf ≡ n.is_leaf)
            × (m.parent ≡ n.parent)
            × (m.pointers (order - 1) ≡ n.pointers (order - 1)))
          (insert_into_leaf order key p n)
  unfolding insert_into_leaf add_key
  insert_into_leaf-Holds key p es n count room h =
      let c : ℕ = count_below key es in
      let small : c ≤ length es = count_below-le key es in
      let scan : scan_below order key n.num_keys 0 n ≡ ok c n =
        ap (λ (l : ℕ). scan_below order key l 0 n) count
        ∙ scan_below-Holds order key 0 es n (omega arith) h
        ∙ ap (λ (a : ℕ). ok a n) (omega arith) in
      let there : (j : ℕ) → j < n.num_keys → Present n j =
        λ j lt. Holds-Present 0 j es n h (omega arith) (omega (arith, count)) in
      let ks = shifted n.keys (n.num_keys - c) n.num_keys in
      let ps = shifted n.pointers (n.num_keys - c) n.num_keys in
      let m₁ : Node = with_arrays n ks ps in
      let m₂ : Node = record m₁ { keys = update ks c (some key) } in
      rw scan (
        rw
          (move_up-ok order (n.num_keys - c) n.num_keys n (omega arith) (omega (arith, count))
            there)
          (rw (set_key-ok order m₁ c key (omega arith)) (
            rw (set_pointer-ok order m₂ c p (omega arith)) (
              let facts : c ≤ n.num_keys = omega (arith, count) in
              let longer : n.num_keys + 1 ≡ length (insert_entry key p es) =
                omega (arith, count, length-insert_entry key p es) in
              returns (
                Holds-insert_entry key p 0 c es n
                    (record m₂ { pointers = update ps c (some p); num_keys = n.num_keys + 1 })
                    (omega arith) (λ j lt. (ground (arith, facts), ground (arith, facts)))
                    (ground arith, ground arith)
                    (λ j lo hi. (ground (arith, facts, count), ground (arith, facts, count))) h,
                longer,
                refl,
                refl,
                ground (arith, facts, count, room),
              )))))

  -- After insert_into_leaf in a leaf that has room, the search of find in it gives the new record under
  -- the new key, and under every other key the record that stood there before, or NULL.
  pub insert_into_leaf-record_in :
      (key : ℕ) (p : Addr) (es : List Entry) (n : Node)
      → n.num_keys ≡ length es
      → length es < order - 1
      → Holds n 0 es
      → Returns
          (λ _ m.
            (j : ℕ) → record_in order j m.num_keys m ≡ ok (if key == j then p else lookup j es) m)
          (insert_into_leaf order key p n)
  insert_into_leaf-record_in key p es n count room h =
      let longer = length-insert_entry key p es in
      Returns-mono (insert_into_leaf-Holds key p es n count room h)
        λ _ m (holds, count', kind, up, next) j.
          ap (λ (l : ℕ). record_in order j l m) count'
          ∙ record_in-Holds order j (insert_entry key p es) m (omega (arith, longer)) holds
          ∙ ap (λ (q : Addr). ok q m) (lookup-insert_entry key j p es)

  -- Where the keys of a leaf that has room go up strictly and the new key is none of them, they go up
  -- strictly after insert_into_leaf, which returns, and there is one more.
  pub insert_into_leaf-Ascending :
      (key : ℕ) (p : Addr) (es : List Entry) (n : Node)
      → n.num_keys ≡ length es
      → length es < order - 1
      → Holds n 0 es
      → All (λ (f : Entry). f.0 ≢ key) es
      → Ascending es
      → Returns
          (λ _ m.
            (fs : List Entry) × Holds m 0 fs
            × Ascending fs
            × (m.num_keys ≡ length fs)
            × (length fs ≡ length es + 1))
          (insert_into_leaf order key p n)
  insert_into_leaf-Ascending key p es n count room h new up =
      Returns-mono (insert_into_leaf-Holds key p es n count room h)
        λ _ m (holds, count', kind, parent, next). (
          insert_entry key p es,
          holds,
          Ascending-insert_entry key p es new up,
          count',
          omega (arith, length-insert_entry key p es),
        )
