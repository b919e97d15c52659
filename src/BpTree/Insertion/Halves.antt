-- ===== src/BpTree/Insertion/Halves.antt =====
-- insert_into_leaf_after_splitting of bptree/main.c up to its call of insert_into_parent: the two leaves
-- that it makes of a full one.
use transaction_system.Base.{
  ℕ, ◌+◌, ◌-◌, ◌≤◌, ◌<◌, ◌≡◌, refl, true, false, List, [], ◌∷◌, some, ◌==◌, arith, ◌∙◌, update,
}
use mathlib.Core.Path.{subst}
use transaction_system.Base.Run.{Run, ok}
use transaction_system.Base.Lists.{length, take, drop}
use transaction_system.BpTree.Heap.{
  Addr, Node, Store, absent, a_node, malloc, set_parent, get_key, get_pointer, set_pointer, Array,
  blank_node,
}
use transaction_system.BpTree.Search.{cut}
use transaction_system.BpTree.Slots.{overfull, keep_left, fill_right, clear_rest}
use transaction_system.BpTree.Slots.Cells.{set_pointer-ok}
use transaction_system.BpTree.Slots.Sorted.{insert_entry}
use transaction_system.BpTree.Slots.Split.{split-Halves, cut-bounds}
use transaction_system.BpTree.Removal.{min_keys}
use transaction_system.BpTree.Removal.Shift.{cleared, with_pointers, clear_pointers-ok}
use transaction_system.BpTree.Entries.{Entry, Holds, get_key-ok, get_pointer-ok}
use transaction_system.BpTree.Looks.{node_at-ok}
use transaction_system.BpTree.Insertion.{make_leaf, insert_into_leaf_after_splitting, Climb}
use transaction_system.BpTree.Insertion.Shape.{Returns-run, fresh-differs}
use transaction_system.BpTree.Insertion.Pair.{Stand, on_left, on_right}

Holds-kept :
    (i : ℕ) (es : List Entry) (n m : Node)
    → ((j : ℕ) → j < i + length es → (m.keys j ≡ n.keys j) × (m.pointers j ≡ n.pointers j))
    → Holds n i es
    → Holds m i es
Holds-kept i [] n m same h = tt
Holds-kept i ((k, p) ∷ es) n m same h =
    let (ek, ep) = same i (omega arith) in
    (ek ∙ h.0, ep ∙ h.1, Holds-kept (i + 1) es n m (λ j lt. same j (omega arith)) h.2)

-- The leaf `m` has the entries `es`, as many as a leaf may have, with NULL after them, its parent and
-- the pointer to the next leaf.
abbrev pub IsHalf : ℕ → Node → List Entry → (parent next : Addr) → Type 0
IsHalf order m es parent next =
    Holds m 0 es
    × (m.num_keys ≡ length es)
    × (min_keys order true ≤ m.num_keys)
    × (m.num_keys ≤ order - 1)
    × (m.is_leaf ≡ true)
    × (m.parent ≡ parent)
    × (m.pointers (order - 1) ≡ some next)
    × ((j : ℕ) → m.num_keys ≤ j → j < order - 1 → m.pointers j ≡ some 0)

first_key :
    (es : List Entry) (m : Node) → 1 ≤ length es → Holds m 0 es → (k : ℕ) × (m.keys 0 ≡ some k)
first_key [] m long h = absurd (omega arith)
first_key ((k, p) ∷ es) m long h = (k, h.0)

module _ (order : ℕ) where
  -- A leaf's link set and the cells after its entries cleared.
  abbrev linked : Node → Addr → Node
  linked m next =
      let m' : Node = record m { pointers = update m.pointers (order - 1) (some next) } in
      with_pointers m' (cleared m'.pointers (order - 1 - m.num_keys) m.num_keys)

  linked-IsHalf :
      (m : Node) (es : List Entry) (next : Addr)
      → 3 ≤ order
      → Holds m 0 es
      → m.num_keys ≡ length es
      → min_keys order true ≤ m.num_keys
      → m.num_keys ≤ order - 1
      → m.is_leaf ≡ true
      → (parent : Addr) → IsHalf order (record (linked m next) { parent = parent }) es parent next
  linked-IsHalf m es next three h count low high kind parent = (
    Holds-kept 0 es m (record (linked m next) { parent = parent })
        (λ j lt. (refl, ground (arith, count, high))) h,
    count,
    low,
    high,
    kind,
    refl,
    ground (arith, high, three),
    λ j lo hi. ground (arith, lo, hi),
  )

  clear_rest-ok :
      (m : Node)
      → m.num_keys ≤ order - 1
      → clear_rest order m
        ≡ ok tt (with_pointers m (cleared m.pointers (order - 1 - m.num_keys) m.num_keys))
  unfolding clear_rest
  clear_rest-ok m high = clear_pointers-ok order (order - 1 - m.num_keys) m.num_keys m (omega arith)

  some_keys : 3 ≤ order → 1 ≤ min_keys order true
  unfolding min_keys
  some_keys three = omega (arith, cut-bounds order (order - 1))

  -- The new leaf in the end.
  abbrev right_of : Node → Node → Addr → Node
  right_of l₁ r₁ next = record (linked r₁ next) { parent = l₁.parent }

  -- The steps, given what keep_left and fill_right make of the two leaves.
  splitting-steps :
      (climb : Climb) (root leaf : Addr) (key : ℕ) (p : Addr) (s : Store) (n l₁ r₁ : Node)
      (ks ps : Array) (next k : ℕ)
      → 3 ≤ order
      → s.object s.fresh ≡ absent
      → s.object leaf ≡ a_node n
      → overfull order key p n ≡ ok (ks, ps) n
      → keep_left order ks ps n ≡ ok tt l₁
      → fill_right order ks ps (blank_node true) ≡ ok tt r₁
      → l₁.num_keys ≤ order - 1
      → r₁.num_keys ≤ order - 1
      → l₁.pointers (order - 1) ≡ some next
      → r₁.keys 0 ≡ some k
      → (s' : Store) × (insert_into_leaf_after_splitting order climb root leaf key p s
          ≡ climb root leaf k s.fresh s')
        × Stand s leaf s.fresh (linked l₁ s.fresh) (right_of l₁ r₁ next) s'
  unfolding insert_into_leaf_after_splitting make_leaf malloc set_parent
  splitting-steps climb root leaf key p s n l₁ r₁ ks ps next k three unused at runs runs_l runs_r
        high_l high_r link key_is =
      let new : Addr = s.fresh in
      let apart' : (new == leaf) ≡ false = fresh-differs s leaf n unused at in
      let apart : (leaf == new) ≡ false = ground (arith, apart') in
      let here : (new == new) ≡ true = ground arith in
      let r₂ : Node = record r₁ { pointers = update r₁.pointers (order - 1) (some next) } in
      let l₂ : Node = record l₁ { pointers = update l₁.pointers (order - 1) (some new) } in
      let l₃ : Node = linked l₁ new in
      let Q : Run Store Addr → Type 0 = λ run.
        (s' : Store) × (run ≡ climb root leaf k new s')
        × Stand s leaf new l₃ (right_of l₁ r₁ next) s' in
      on_left s leaf new apart Q (overfull order key p) _ _
        (rw apart' at, rw here refl, λ q other other'. rw other' refl) runs
        λ t₁ st₁. on_left s leaf new apart Q (keep_left order ks ps) _ t₁ st₁ runs_l λ t₂ st₂.
          on_right s leaf new apart Q (fill_right order ks ps) _ t₂ st₂ runs_r λ t₃ st₃.
            on_left s leaf new apart Q (get_pointer order (order - 1)) _ t₃ st₃
              (get_pointer-ok order l₁ (order - 1) next (omega arith) link)
              λ t₄ st₄.
                on_right s leaf new apart Q (set_pointer order (order - 1) next) _ t₄ st₄
                  (set_pointer-ok order r₁ (order - 1) next (omega arith))
                  λ t₅ st₅.
                    on_left s leaf new apart Q (set_pointer order (order - 1) new) _ t₅ st₅
                      (set_pointer-ok order l₁ (order - 1) new (omega arith))
                      λ t₆ st₆.
                        on_left s leaf new apart Q (clear_rest order) _ t₆ st₆
                          (clear_rest-ok l₂ high_l)
                          λ t₇ st₇.
                            on_right s leaf new apart Q (clear_rest order) _ t₇ st₇
                              (clear_rest-ok r₂ high_r)
                              λ t₈ st₈. rw (node_at-ok leaf t₈ l₃ st₈.0) (
                                on_right s leaf new apart Q (set_parent l₁.parent) _ t₈ st₈ refl
                                  λ t₉ st₉.
                                    on_right s leaf new apart Q (get_key order 0) _ t₉ st₉
                                      (get_key-ok order (right_of l₁ r₁ next) 0 k (omega arith)
                                        key_is)
                                      λ t₁₀ st₁₀. (t₁₀, refl, st₁₀))

  -- On a full leaf with a next pointer, for an order of at least 3, where nothing stands at the next
  -- address of malloc, insert_into_leaf_after_splitting goes on with insert_into_parent, or whatever
  -- takes its place, on a new leaf at that address and on the new leaf's first key. The old leaf has
  -- the first `cut(order - 1)` of its entries with the new one before the first whose key is not
  -- smaller, the new leaf the others; each has at least `min_keys` keys and at most `order - 1`, NULL
  -- after them, and the old leaf's parent; the old leaf's last pointer leads to the new leaf, and the
  -- new leaf's to the leaf that came next. Nothing else has changed.
  pub insert_into_leaf_after_splitting-IsHalf :
      (climb : Climb) (root leaf : Addr) (key : ℕ) (p : Addr) (s : Store) (n : Node)
      (es : List Entry) (next : Addr)
      → 3 ≤ order
      → s.object s.fresh ≡ absent
      → s.object leaf ≡ a_node n
      → n.is_leaf ≡ true
      → n.num_keys ≡ length es
      → length es ≡ order - 1
      → Holds n 0 es
      → n.pointers (order - 1) ≡ some next
      → (k : ℕ) × (s' : Store) × (l : Node) × (r : Node) × (insert_into_leaf_after_splitting order
            climb root leaf key p s
          ≡ climb root leaf k s.fresh s')
        × Stand s leaf s.fresh l r s'
        × IsHalf order l (take (cut (order - 1)) (insert_entry key p es)) n.parent s.fresh
        × IsHalf order r (drop (cut (order - 1)) (insert_entry key p es)) n.parent next
        × (r.keys 0 ≡ some k)
  insert_into_leaf_after_splitting-IsHalf climb root leaf key p s n es next three unused at kind
        count full h link =
      let all : List Entry = insert_entry key p es in
      let c : ℕ = cut (order - 1) in
      let (ks, ps, runs, left, right) = split-Halves order key p es n three count full h in
      let (_, l₁, runs_l, (holds_l, count_l, low_l, high_l, link_l, kind_l, up_l)) =
        Returns-run left in
      let (_, r₁, runs_r, (holds_r, count_r, low_r, high_r, kind_r)) = Returns-run right in
      let some_key : 1 ≤ length (drop c all) = omega (arith, some_keys three, low_r, count_r) in
      let (k, key_is) = first_key (drop c all) r₁ some_key holds_r in
      let (s', goes, stand) =
        splitting-steps climb root leaf key p s n l₁ r₁ ks ps next k three unused at runs runs_l
          runs_r high_l high_r (link_l ∙ link) key_is in
      (
        k,
        s',
        linked l₁ s.fresh,
        right_of l₁ r₁ next,
        goes,
        stand,
        subst (λ (q : Addr). IsHalf order (linked l₁ s.fresh) (take c all) q s.fresh) up_l
            (linked-IsHalf l₁ (take c all) s.fresh three holds_l count_l low_l high_l
              (kind_l ∙ kind) l₁.parent),
        subst (λ (q : Addr). IsHalf order (right_of l₁ r₁ next) (drop c all) q next) up_l
            (linked-IsHalf r₁ (drop c all) next three holds_r count_r low_r high_r kind_r
              l₁.parent),
        key_is,
      )
