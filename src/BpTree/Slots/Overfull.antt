-- ===== src/BpTree/Slots/Overfull.antt =====
-- The temporary arrays of insert_into_leaf_after_splitting of bptree/main.c: the entries of a full leaf
-- with the new one in order.
use transaction_system.Base.{
  ℕ, ◌+◌, ◌-◌, ◌≤◌, ◌<◌, ◌≡◌, refl, true, false, List, [], ◌∷◌, none, some, ltb, leb, ◌==◌,
  if◌then◌else◌, arith, Bool-cases, inl, inr, ap, ◌∙◌, sym, update, lt→ltb,
}
use transaction_system.Base.Run.{ok}
use transaction_system.Base.Lists.{length}
use transaction_system.BpTree.Heap.{Addr, Array, Node, load, save}
use transaction_system.BpTree.Search.{scan_below}
use transaction_system.BpTree.Slots.{spread_entries, overfull}
use transaction_system.BpTree.Slots.Cells.{Holds-insert_entry, with_arrays}
use transaction_system.BpTree.Slots.Sorted.{insert_entry}
use transaction_system.BpTree.Entries.{
  Entry, Holds, count_below, count_below-le, get_key-ok, get_pointer-ok, scan_below-Holds,
}

pub load-ok :
    (size i v : ℕ) (a : Array) (n : Node) → i < size → a i ≡ some v → load size a i n ≡ ok v n
unfolding load
load-ok size i v a n small is = rw (lt→ltb i size small, is) refl

pub save-ok :
    (size i v : ℕ) (a : Array) (n : Node)
    → i < size
    → save size a i v n ≡ ok (update a i (some v)) n
unfolding save
save-ok size i v a n small = rw (lt→ltb i size small) refl

-- Where the entry of the leaf's `t`-th cell goes, with a gap at `c`.
abbrev place : ℕ → ℕ → ℕ
place c t = if ltb t c then t else t + 1

module _ (order : ℕ) (c : ℕ) where
  spread_entries-ok :
      (es : List Entry) (i : ℕ) (ks ps : Array) (n : Node)
      → i + length es ≤ order - 1
      → Holds n i es
      → (ks' : Array) × (ps' : Array) × (spread_entries order c
            (length es)
            i
            (if leb i c then i else i + 1)
            ks
            ps
            n
          ≡ ok (ks', ps') n)
        × ((t : ℕ)
            → i ≤ t
            → t < i + length es
            → (ks' (place c t) ≡ n.keys t) × (ps' (place c t) ≡ n.pointers t))
        × ((t : ℕ)
            → t < i
            → (ks' (place c t) ≡ ks (place c t)) × (ps' (place c t) ≡ ps (place c t)))
  unfolding spread_entries
  spread_entries-ok [] i ks ps n room h =
      (ks, ps, refl, λ t lo hi. absurd (omega arith), λ t lt. (refl, refl))
  spread_entries-ok ((k, p) ∷ es) i ks ps n room h =
      let j : ℕ = if leb i c then i else i + 1 in
      let to : ℕ = if j == c then j + 1 else j in
      let here : to ≡ place c i = ground arith in
      let step : to + 1 ≡ (if leb (i + 1) c then i + 1 else (i + 1) + 1) = ground arith in
      let room' : to < order = ground (arith, room) in
      let hit : (to == place c i) ≡ true = ground (arith, here) in
      let (ks', ps', runs, now, kept) =
        spread_entries-ok es (i + 1) (update ks to (some k)) (update ps to (some p)) n (omega arith)
          h.2 in
      let first = kept i (omega arith) in
      (
        ks',
        ps',
        rw (get_key-ok order n i k (omega arith) h.0) (
            rw (save-ok order to k ks n room') (
              rw (get_pointer-ok order n i p (omega arith) h.1) (
                rw (save-ok order to p ps n room') (
                  ap
                    (λ (b : ℕ).
                      spread_entries order c (length es) (i + 1) b (update ks to (some k))
                        (update ps to (some p)) n)
                    step
                  ∙ runs)))),
        λ t lo hi. elim (Bool-cases (i == t)) [
          | inl same ↦
              let e : i ≡ t = ground arith in
              (
                ap (λ (x : ℕ). ks' (place c x)) (sym e) ∙ first.0 ∙ rw hit (sym h.0) ∙ ap n.keys e,
                ap (λ (x : ℕ). ps' (place c x)) (sym e)
                    ∙ first.1
                    ∙ rw hit (sym h.1)
                    ∙ ap n.pointers e,
              )
          | inr later ↦ now t (ground arith) (omega arith)
        ],
        λ t lt.
            let miss : (to == place c t) ≡ false = ground (arith, here) in
            let (k_is, p_is) = kept t (omega arith) in (k_is ∙ rw miss refl, p_is ∙ rw miss refl),
      )

module _ (order : ℕ) where
  -- The temporary arrays of a full leaf hold its entries with the new one before the first whose key is
  -- not smaller.
  pub overfull-Holds :
      (key : ℕ) (p : Addr) (es : List Entry) (n : Node)
      → 1 ≤ order
      → n.num_keys ≡ length es
      → length es ≡ order - 1
      → Holds n 0 es
      → (ks : Array) × (ps : Array) × (overfull order key p n ≡ ok (ks, ps) n)
        × Holds (with_arrays n ks ps) 0 (insert_entry key p es)
  unfolding overfull
  overfull-Holds key p es n some_order count full h =
      let c : ℕ = count_below key es in
      let small : c ≤ length es = count_below-le key es in
      let scan : scan_below order key (order - 1) 0 n ≡ ok c n =
        ap (λ (l : ℕ). scan_below order key l 0 n) (sym full)
        ∙ scan_below-Holds order key 0 es n (omega arith) h
        ∙ ap (λ (a : ℕ). ok a n) (omega arith) in
      let (ks, ps, runs, now, kept) =
        spread_entries-ok order c es 0 (λ i. none) (λ i. none) n (omega arith) h in
      let start : ◌≡◌ {A = ℕ} 0 (if leb 0 c then 0 else 0 + 1) = ground arith in
      let spread : spread_entries order c n.num_keys 0 0 (λ i. none) (λ i. none) n ≡ ok (ks, ps) n =
        ap (λ (l : ℕ). spread_entries order c l 0 0 (λ i. none) (λ i. none) n) count
        ∙ ap (λ (j : ℕ). spread_entries order c (length es) 0 j (λ i. none) (λ i. none) n) start
        ∙ runs in
      let c_small : c < order = omega arith in
      (
        update ks c (some key),
        update ps c (some p),
        rw scan (
            rw spread
              (rw (save-ok order c key ks n c_small) (rw (save-ok order c p ps n c_small) refl))),
        Holds-insert_entry key p 0 c es n
            (with_arrays n (update ks c (some key)) (update ps c (some p))) (omega arith)
            (λ j lt.
              let e : place c j ≡ j = ground arith in
              let miss : (c == j) ≡ false = ground arith in
              let (k_is, p_is) = now j (omega arith) (omega arith) in
              (rw miss (ap ks (sym e) ∙ k_is), rw miss (ap ps (sym e) ∙ p_is)))
            (ground arith, ground arith)
            (λ j lo hi.
              let e : place c j ≡ j + 1 = ground arith in
              let miss : (c == j + 1) ≡ false = ground arith in
              let (k_is, p_is) = now j (omega arith) (omega arith) in
              (rw miss (ap ks (sym e) ∙ k_is), rw miss (ap ps (sym e) ∙ p_is)))
            h,
      )
