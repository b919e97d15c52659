-- ===== src/BpTree/Search/InRange.antt =====
-- Over ascending entries, what find_range of bptree/main.c gathers is what lies in the range.
use transaction_system.Base.{
  ℕ, suc, ◌-◌, ◌≤◌, ◌<◌, ◌≡◌, refl, true, false, List, [], ◌∷◌, ◌++◌, ltb, leb, ◌==◌, ◌&&◌,
  if◌then◌else◌, arith, Bool-cases, inl, inr, ap, ◌∙◌, sym,
}
use transaction_system.Base.Run.{ok}
use transaction_system.Base.Lists.{length, All, drop}
use transaction_system.BpTree.Heap.{Addr, Node, Store, get_pointer}
use transaction_system.BpTree.Search.{
  scan_below, collect_entries, range_loop, find_leaf, find_range,
}
use transaction_system.BpTree.Entries.{
  Entry, Holds, Ascending, drop-Holds, count_below, get_pointer-ok, scan_below-Holds,
}
use transaction_system.BpTree.Looks.{node_at-ok, at_node-look}
use transaction_system.BpTree.Search.Range.{
  Chain, up_to, gathered, collect_entries-Holds, range_loop-Chain,
}
use mathlib.Core.Path.{subst}

-- The entries with keys from `a` to `b`.
abbrev pub in_range : (a b : ℕ) → List Entry → List Entry
in_range a b [] = []
in_range a b ((k, p) ∷ es) =
    if leb a k && leb k b then (k, p) ∷ in_range a b es else in_range a b es

abbrev pub flatten : List (List Entry) → List Entry
flatten [] = []
flatten (es ∷ rest) = es ++ flatten rest

abbrev From : ℕ → List Entry → Type 0
From a es = All (λ (e : Entry). a ≤ e.0) es

in_range-beyond :
    (a b k : ℕ) (es : List Entry) → b < k → All (λ (f : Entry). k < f.0) es → in_range a b es ≡ []
in_range-beyond a b k [] lt above = refl
in_range-beyond a b k ((j, p) ∷ es) lt above =
    let out : (leb a j && leb j b) ≡ false = ground (arith, above.0) in
    rw out (in_range-beyond a b k es lt above.1)

split-Ascending : (xs ys : List Entry) → Ascending (xs ++ ys) → Ascending ys
split-Ascending [] ys up = up
split-Ascending (x ∷ xs) ys up = split-Ascending xs ys up.1

split-All : (P : Entry → Type 0) (xs ys : List Entry) → All P (xs ++ ys) → All P ys
split-All P [] ys all = all
split-All P (x ∷ xs) ys all = split-All P xs ys all.1

-- One leaf and what comes after it, with all keys from `a` on.
up_to-in_range :
    (a b : ℕ) (es ys : List Entry)
    → Ascending (es ++ ys)
    → From a (es ++ ys)
    → up_to b es ++ in_range a b ys ≡ in_range a b (es ++ ys)
up_to-in_range a b [] ys up from = refl
up_to-in_range a b ((k, p) ∷ es) ys up from = elim (Bool-cases (leb k b)) [
  | inl inside ↦
      let low : leb a k ≡ true = ground (arith, from.0) in
      rw inside
        (rw low (ap (λ (l : List Entry). (k, p) ∷ l) (up_to-in_range a b es ys up.1 from.1)))
  | inr beyond ↦
      let low : leb a k ≡ true = ground (arith, from.0) in
      let lt : b < k = ground arith in
      rw beyond (
        rw low (
          in_range-beyond a b k ys lt (split-All (λ (f : Entry). k < f.0) es ys up.0)
          ∙ sym (in_range-beyond a b k (es ++ ys) lt up.0)))
]

gathered-in_range :
    (a b : ℕ) (leaves : List (List Entry))
    → Ascending (flatten leaves)
    → From a (flatten leaves)
    → gathered b leaves ≡ in_range a b (flatten leaves)
gathered-in_range a b [] up from = refl
gathered-in_range a b (es ∷ rest) up from =
    rw
      (gathered-in_range a b rest (split-Ascending es (flatten rest) up)
        (split-All (λ (e : Entry). a ≤ e.0) es (flatten rest) from))
      (up_to-in_range a b es (flatten rest) up from)

From-lower : (a k : ℕ) (es : List Entry) → a ≤ k → All (λ (f : Entry). k < f.0) es → From a es
From-lower a k [] le above = tt
From-lower a k (e ∷ es) le above = (omega (arith, above.0), From-lower a k es le above.1)

-- Past the keys below `a` of a leaf that has others.
drop-in_range :
    (a b : ℕ) (es ys : List Entry)
    → Ascending (es ++ ys)
    → count_below a es < length es
    → Ascending (drop (count_below a es) es ++ ys)
      × From a (drop (count_below a es) es ++ ys)
      × (in_range a b (drop (count_below a es) es ++ ys) ≡ in_range a b (es ++ ys))
drop-in_range a b [] ys up some_left = absurd (omega arith)
drop-in_range a b ((k, p) ∷ es) ys up some_left = elim (Bool-cases (ltb k a)) [
  | inl below ↦
      let out : leb a k ≡ false = ground arith in
      rw below (rw out (drop-in_range a b es ys up.1 (ground (arith, below, some_left))))
  | inr from ↦ rw from (up, (ground arith, From-lower a k (es ++ ys) (ground arith) up.0), refl)
]

module _ (order depth turns key_start key_end : ℕ) (s : Store) (root p : Addr) (es : List Entry)
    (rest : List (List Entry)) (some_order : 1 ≤ order) (enough : length rest ≤ turns)
    (reached : find_leaf order depth root key_start s ≡ ok p s)
    (chain : Chain order s p (es ∷ rest)) where
  scan-Chain :
      (n : Node)
      → n.num_keys ≡ length es
      → length es ≤ order - 1
      → Holds n 0 es
      → scan_below order key_start n.num_keys 0 n ≡ ok (count_below key_start es) n
  scan-Chain n count room h =
      ap (λ (l : ℕ). scan_below order key_start l 0 n) count
      ∙ scan_below-Holds order key_start 0 es n (omega arith) h
      ∙ ap (λ (a : ℕ). ok a n) (omega arith)

  -- The loop from the `c`-th entry of the first leaf.
  range_loop-from :
      (c : ℕ)
      → c ≤ length es
      → range_loop order (suc turns) key_end p c s
        ≡ ok (up_to key_end (drop c es) ++ gathered key_end rest) s
  unfolding range_loop
  range_loop-from c small =
      let (not_null, n, at, count, room, h, q, next, more) = chain in
      let other : (p == 0) ≡ false = ground arith in
      let (holds, left) = drop-Holds c 0 es n small h in
      let here : collect_entries order key_end (n.num_keys - c) c n
          ≡ ok (up_to key_end (drop c es)) n =
        ap (λ (l : ℕ). collect_entries order key_end l c n) (omega (arith, left, count))
        ∙ collect_entries-Holds order key_end c (drop c es) n (omega (arith, left, small))
            (subst (λ (j : ℕ). Holds n j (drop c es)) (omega arith) holds) in
      rw other (
        rw (node_at-ok p s n at) (
          rw
            (at_node-look p (collect_entries order key_end (n.num_keys - c) c) s n
              (up_to key_end (drop c es)) at here)
            (rw
              (at_node-look p (get_pointer order (order - 1)) s n q at
                (get_pointer-ok order n (order - 1) q (omega arith) next))
              (rw (range_loop-Chain order turns key_end s q rest some_order enough more) refl))))

  -- find_range returns nothing where the leaf that find_leaf reaches has only smaller keys, whatever
  -- the leaves after it have.
  pub find_range-misses :
      count_below key_start es ≡ length es
      → find_range order depth (suc turns) root key_start key_end s ≡ ok [] s
  unfolding find_range
  find_range-misses all =
      let (not_null, n, at, count, room, h, q, next, more) = chain in
      let other : (p == 0) ≡ false = ground arith in
      let last : (count_below key_start es == n.num_keys) ≡ true = ground (arith, all, count) in
      rw reached (
        rw other (
          rw (node_at-ok p s n at) (
            rw
              (at_node-look p (scan_below order key_start n.num_keys 0) s n
                (count_below key_start es) at (scan-Chain n count room h))
              (rw last refl))))

  -- Where that leaf has a key that is not smaller, and the entries go up strictly along the leaves
  -- from it on, find_range returns those entries whose keys lie in the range, in order.
  pub find_range-in_range :
      count_below key_start es < length es
      → Ascending (es ++ flatten rest)
      → find_range order depth (suc turns) root key_start key_end s
        ≡ ok (in_range key_start key_end (es ++ flatten rest)) s
  unfolding find_range
  find_range-in_range some_left up =
      let (not_null, n, at, count, room, h, q, next, more) = chain in
      let c : ℕ = count_below key_start es in
      let other : (p == 0) ≡ false = ground arith in
      let inside : (c == n.num_keys) ≡ false = ground (arith, some_left, count) in
      let (up', from, same) = drop-in_range key_start key_end es (flatten rest) up some_left in
      rw reached (
        rw other (
          rw (node_at-ok p s n at) (
            rw
              (at_node-look p (scan_below order key_start n.num_keys 0) s n c at
                (scan-Chain n count room h))
              (rw inside (
                range_loop-from c (omega (arith, some_left))
                ∙ ap (λ (l : List Entry). ok l s)
                    (gathered-in_range key_start key_end (drop c es ∷ rest) up' from ∙ same))))))
