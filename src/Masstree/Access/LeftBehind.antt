-- ===== src/Masstree/Access/LeftBehind.antt =====
-- masstree/bptree.h: insert_into_border moves entries up and leaves their suffixes behind.
use transaction_system.Base.{
  ℕ, suc, ◌+◌, ◌-◌, ◌≤◌, ◌<◌, ◌≡◌, ◌≢◌, refl, sym, ap, ◌∙◌, inl, inr, List, [], ◌∷◌, arith, ◌==◌,
  ==_iff, Bool-cases, ltb, ltb→lt,
}
use transaction_system.Base.Run.{ok, Returns, returns, Returns-mono}
use transaction_system.Masstree.Key.{KeySlice, Key}
use transaction_system.Masstree.Key.Rest.{
  HasRest, AreSlices, get_current_slice-HasRest, has_next-more, slice_at-next,
}
use transaction_system.Masstree.Heap.{Heap, Addr, BorderNode, border}
use transaction_system.Masstree.Alone.{alone, world}
use transaction_system.Masstree.Search.{nothing_found, extract_suffix, extract_with_index}
use transaction_system.Masstree.Access.{get}
use transaction_system.Masstree.Access.Found.{extract_more-suffix}
use transaction_system.Masstree.Access.AfterInsert.{
  NoneBefore, ==_false, extract_more-at, get_loop-root, get_loop-SlotHas,
}
use transaction_system.Masstree.Entry.{insert_into_border}
use transaction_system.Masstree.Entry.Stores.{load_suffix-ok}
use transaction_system.Masstree.Entry.Contents.{root_version, SlotHas}
use transaction_system.Masstree.Entry.Shift.{HasKeys}
use transaction_system.Masstree.Entry.Inserted.{Inserted, insert_into_border-Inserted}

-- Another suffix than the one that is looked for ends the extraction.
extract_suffix-other :
    (p : Addr) (m : Heap) (t i : ℕ) (b : BorderNode) (k : Key) (s u : KeySlice)
    → m.object p ≡ border b
    → i < 15
    → HasRest k (s ∷ u ∷ [])
    → (b.key_suffixes i).slice ≢ u.slice
    → extract_suffix alone p k i (world m t) ≡ ok nothing_found (world m (t + 1))
unfolding extract_suffix
extract_suffix-other p m t i b k s u at h rest other = rw (load_suffix-ok p m t b at i h) (
    rw (has_next-more k s u [] rest) (
      rw (slice_at-next k s u [] rest (world m (t + 1)))
        (rw (==_false (b.key_suffixes i).slice u.slice other) refl)))

get_loop-other :
    (spin turns p : Addr) (k : Key) (m : Heap) (b : BorderNode) (s u : KeySlice) (i after t : ℕ)
    → m.object p ≡ border b
    → b.version ≡ root_version
    → i + suc after ≡ 15
    → NoneBefore b s.slice 0 i
    → HasRest k (s ∷ u ∷ [])
    → b.key_slice i ≡ s.slice
    → b.key_len i ≡ 8
    → (b.key_suffixes i).slice ≢ u.slice
    → Returns
        (λ r w. (r ≡ 0) × (w.memory ≡ m))
        (get alone (suc spin) (suc (suc (suc turns))) p k (world m t))
unfolding get extract_with_index
get_loop-other spin turns p k m b s u i after t at root room none rest is_s is_len other =
    get_loop-root spin turns p k m b t (λ e. e ≡ nothing_found) (λ r w. (r ≡ 0) × (w.memory ≡ m)) at
      root
      (rw (get_current_slice-HasRest k s (u ∷ []) rest (world m (t + 1 + 1))) (
        rw (has_next-more k s u [] rest) (
          extract_more-at p m b at s i after _ k 15 0 (t + 1 + 1) (omega arith) (sym room)
            (omega arith) none
            (λ t'. rw (extract_more-suffix p m t' b at 0 i after (omega arith) s is_s k is_len) (
              rw (extract_suffix-other p m (t' + 1 + 1) i b k s u at (omega arith) rest other)
                (returns (refl, refl)))))))
      (λ e t' is. rw is (returns (refl, refl)))

SlotHas-slice :
    (m : Heap) (b : BorderNode) (i : ℕ) (s : KeySlice) (ss : List KeySlice) (x : Addr)
    → SlotHas m b i (s ∷ ss) x
    → b.key_slice i ≡ s.slice
SlotHas-slice m b i s [] x has = has.0
SlotHas-slice m b i s (s' ∷ []) x has = has.0
SlotHas-slice m b i s (s' ∷ s'' ∷ ss) x has = has.0

-- An entry with a greater slice moves.
greater-moves :
    (b : BorderNode) (n : ℕ) (s : KeySlice) (ss : List KeySlice) (x p : Addr) (m m' : Heap)
    (d : Inserted b n s ss x p m m') (j : ℕ)
    → s.slice < b.key_slice j
    → d.place ≤ j
greater-moves b n s ss x p m m' d j less = elim (Bool-cases (ltb j d.place)) [
  | inl before ↦ absurd (omega (arith, d.is_place.2 j (omega arith) (ltb→lt j d.place before)))
  | inr after ↦ ground arith
]

module _ (b : BorderNode) (n : ℕ) (s : KeySlice) (ss : List KeySlice) (x p : Addr) (m m' : Heap)
    (d : Inserted b n s ss x p m m') (s' : KeySlice) (j : ℕ) (moves : d.place ≤ j) (used : j < n)
    (none : NoneBefore b s'.slice 0 j) (apart : s.slice ≢ s'.slice) where
  NoneBefore-moved : NoneBefore d.after s'.slice 0 (j + 1)
  NoneBefore-moved i low high e = elim (Bool-cases (ltb i d.place)) [
    | inl before ↦
        let h : i < d.place = ltb→lt i d.place before in
        none i low (omega arith) (sym (d.lower i h).0 ∙ e)
    | inr rest ↦ elim (Bool-cases (i == d.place)) [
      | inl here ↦ apart (
          sym (SlotHas-slice m' d.after d.place s ss x d.entry)
          ∙ ap d.after.key_slice (sym ((==_iff i d.place).0 here))
          ∙ e)
      | inr later ↦
          let up : d.place < i = ground arith in
          let e' : i - 1 + 1 ≡ i = omega arith in
          none (i - 1) (omega arith) (omega arith)
            (sym (d.upper (i - 1) (omega arith) (omega arith)).0 ∙ ap d.after.key_slice e' ∙ e)
    ]
  ]

-- With no other thread about: let a root border node with room for one more key, fewer than 15, hold a
-- key of two slices, found by get, at a slot before which no slot has its first slice. Then
-- insert_into_border of a key whose first slice is less returns, and get no longer finds the former
-- key, unless the suffix at the slot after its own equals its suffix.
pub insert_into_border-loses :
    (spin turns p x : Addr) (k : Key) (s : KeySlice) (ss : List KeySlice) (k' : Key)
    (s' u : KeySlice) (m : Heap) (b : BorderNode) (n j t : ℕ)
    → HasRest k (s ∷ ss)
    → AreSlices (s ∷ ss)
    → HasRest k' (s' ∷ u ∷ [])
    → m.object p ≡ border b
    → b.version ≡ root_version
    → HasKeys b n
    → p < m.fresh
    → j < n
    → NoneBefore b s'.slice 0 j
    → SlotHas m b j (s' ∷ u ∷ []) (b.lv j)
    → s.slice < s'.slice
    → (b.key_suffixes (j + 1)).slice ≢ u.slice
    → Returns
        (λ r w. (r ≡ b.lv j) × (w.memory ≡ m))
        (get alone (suc spin) (suc (suc (suc (suc (suc turns))))) p k' (world m t))
      × Returns
          (λ _ w.
            Returns
              (λ r w'. r ≡ 0)
              (get alone (suc spin) (suc (suc (suc (suc (suc turns))))) p k' w))
          (insert_into_border alone p k x (world m t))
unfolding get
insert_into_border-loses spin turns p x k s ss k' s' u m b n j t rest slices rest' at root has below
      used none held less other =
    (
      get_loop-SlotHas spin (suc (suc turns)) p (b.lv j) k' m b s' (u ∷ []) j (14 - j) t at root
          (omega (arith, has.0)) none rest' held (omega arith),
      Returns-mono (insert_into_border-Inserted x p k s ss m b n rest slices at has below t)
          (λ v w d.
            let moves : d.place ≤ j =
              greater-moves b n s ss x p m w.memory d j (omega (arith, held.0)) in
            let up = d.upper j moves used in
            Returns-mono
              (get_loop-other spin (suc (suc turns)) p k' w.memory d.after s' u (j + 1) (13 - j)
                w.turn d.at (d.version ∙ root) (omega (arith, has.0))
                (NoneBefore-moved b n s ss x p m w.memory d s' j moves used none (λ e. omega arith))
                rest' (up.0 ∙ held.0) (up.1 ∙ held.1)
                (λ e. other (
                  sym (ap (λ (z : KeySlice). z.slice) (d.suffixes (j + 1) (λ e. omega arith)))
                  ∙ e)))
              (λ r w' f. f.0)),
    )
