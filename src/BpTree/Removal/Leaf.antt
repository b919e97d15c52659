-- ===== src/BpTree/Removal/Leaf.antt =====
-- remove_entry_from_node of bptree/main.c in a leaf: the entry goes, those after it move down, and the
-- cells left over are NULL.
use transaction_system.Base.{
  ℕ, suc, ◌+◌, ◌-◌, ◌≤◌, ◌<◌, ◌≡◌, ◌≢◌, refl, true, false, List, [], ◌∷◌, some, ◌==◌, ◌++◌,
  if◌then◌else◌, arith, ap, ◌∙◌,
}
use transaction_system.Base.Run.{Returns, returns, ok}
use transaction_system.Base.Lists.{length, length-append, All}
use transaction_system.BpTree.Heap.{Addr, Array, Node, drop_key}
use transaction_system.BpTree.Entries.{Entry, Holds}
use transaction_system.BpTree.Slots.Cells.{Present, Holds-Present}
use transaction_system.BpTree.Removal.{seek_key, seek_pointer, remove_entry_from_node}
use transaction_system.BpTree.Removal.Shift.{
  pulled, cleared, with_keys, with_pointers, seek_key-Holds, seek_pointer-Holds, shift_keys-ok,
  shift_pointers-ok, tidy-leaf,
}

-- The entries around a removed one, at the places they have afterwards.
Holds-after :
    (i : ℕ) (es : List Entry) (n m : Node)
    → ((j : ℕ)
        → i ≤ j
        → j < i + length es
        → (m.keys j ≡ n.keys (j + 1)) × (m.pointers j ≡ n.pointers (j + 1)))
    → Holds n (i + 1) es
    → Holds m i es
Holds-after i [] n m down h = tt
Holds-after i ((k, p) ∷ es) n m down h =
    let (ek, ep) = down i (omega arith) (omega arith) in
    (
      ek ∙ h.0,
      ep ∙ h.1,
      Holds-after (i + 1) es n m (λ j lo hi. down j (omega arith) (omega arith)) h.2,
    )

Holds-removed :
    (key p i at : ℕ) (xs ys : List Entry) (n m : Node)
    → at ≡ i + length xs
    → ((j : ℕ) → j < at → (m.keys j ≡ n.keys j) × (m.pointers j ≡ n.pointers j))
    → ((j : ℕ)
        → at ≤ j
        → j < at + length ys
        → (m.keys j ≡ n.keys (j + 1)) × (m.pointers j ≡ n.pointers (j + 1)))
    → Holds n i (xs ++ ((key, p) ∷ ys))
    → Holds m i (xs ++ ys)
Holds-removed key p i at [] ys n m is same down h =
    Holds-after i ys n m (λ j lo hi. down j (omega arith) (omega arith)) h.2
Holds-removed key p i at ((k, q) ∷ xs) ys n m is same down h =
    let (ek, ep) = same i (omega arith) in
    (ek ∙ h.0, ep ∙ h.1, Holds-removed key p (i + 1) at xs ys n m (omega arith) same down h.2)

module _ (order : ℕ) where
  -- What remove_entry_from_node does to a leaf that has the entry of `key` and `p` after entries with
  -- other keys and other pointers: it returns, the entries are the others in their order, the count is
  -- one less, the cells from the count to the last but one are NULL, and the kind of the node, its
  -- parent and the pointer to the next leaf stay.
  pub remove_entry_from_node-Holds :
      (key : ℕ) (p : Addr) (xs ys : List Entry) (n : Node)
      → n.is_leaf ≡ true
      → n.num_keys ≡ length (xs ++ ((key, p) ∷ ys))
      → n.num_keys ≤ order - 1
      → Holds n 0 (xs ++ ((key, p) ∷ ys))
      → All (λ (f : Entry). f.0 ≢ key) xs
      → All (λ (f : Entry). f.1 ≢ p) xs
      → Returns
          (λ _ m.
            Holds m 0 (xs ++ ys)
            × (m.num_keys ≡ length (xs ++ ys))
            × (m.is_leaf ≡ n.is_leaf)
            × (m.parent ≡ n.parent)
            × (m.pointers (order - 1) ≡ n.pointers (order - 1))
            × ((j : ℕ) → m.num_keys ≤ j → j < order - 1 → m.pointers j ≡ some 0))
          (remove_entry_from_node order key p n)
  unfolding remove_entry_from_node drop_key
  remove_entry_from_node-Holds key p xs ys n leaf count room h keys pointers =
      let a : ℕ = length xs in
      let total : n.num_keys ≡ a + suc (length ys) = count ∙ length-append xs ((key, p) ∷ ys) in
      let left : length (xs ++ ys) ≡ a + length ys = length-append xs ys in
      let c : ℕ = n.num_keys - (a + 1) in
      let there : (j : ℕ) → a + 1 ≤ j → j < (a + 1) + c → Present n j = λ j lo hi.
        Holds-Present 0 j (xs ++ ((key, p) ∷ ys)) n h (omega arith) (omega (arith, count, total)) in
      let ks : Array = pulled n.keys c (a + 1) in
      let ps : Array = pulled n.pointers c (a + 1) in
      let m₁ : Node = with_keys n ks in
      let m₂ : Node = with_pointers m₁ ps in
      let m₃ : Node = record m₂ { num_keys = n.num_keys - 1 } in
      let d : ℕ = order - 1 - (n.num_keys - 1) in
      let at_key : seek_key order key (order - 1) 0 n ≡ ok a n =
        seek_key-Holds order key p (order - 1) 0 xs ys n (omega (arith, total, room))
          (omega (arith, total, room)) keys h
        ∙ ap (λ (i : ℕ). ok i n) (omega arith) in
      let at_pointer : seek_pointer order p order 0 m₁ ≡ ok a m₁ =
        seek_pointer-Holds order key p order 0 xs ys n ks (omega (arith, total, room))
          (omega (arith, total, room)) pointers h
        ∙ ap (λ (i : ℕ). ok i m₁) (omega arith) in
      let some_key : (n.num_keys == 0) ≡ false = ground (arith, total) in
      let all_pointers : (if n.is_leaf then n.num_keys else n.num_keys + 1) ≡ n.num_keys =
        rw leaf refl in
      rw at_key (
        rw (shift_keys-ok order c (a + 1) n (omega arith) (omega (arith, total, room)) there) (
          rw all_pointers (
            rw at_pointer (
              rw
                (shift_pointers-ok order c (a + 1) m₁ (omega arith) (omega (arith, total, room))
                  (λ j lo hi. let (k, q, has_k, has_q) = there j lo hi in (q, has_q)))
                (rw some_key (
                  rw (tidy-leaf order m₃ leaf (omega (arith, total, room))) (
                    let m : Node = with_pointers m₃ (cleared ps d (n.num_keys - 1)) in
                    returns (
                      Holds-removed key p 0 a xs ys n m (omega arith)
                          (λ j lt. (ground (arith, total), ground (arith, total)))
                          (λ j lo hi. (ground (arith, total), ground (arith, total))) h,
                      omega (arith, total, left),
                      refl,
                      refl,
                      ground (arith, total, room),
                      λ j lo hi. ground (arith, total, room),
                    ))))))))
