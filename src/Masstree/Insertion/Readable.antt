-- ===== src/Masstree/Insertion/Readable.antt =====
-- masstree/bptree.h: get reads what insert has put in, with no other thread about.
use transaction_system.Base.{
  ℕ, zero, suc, ◌+◌, ◌*◌, ◌≤◌, ◌<◌, ◌≡◌, ◌≢◌, ◌⊎◌, refl, sym, ap, ◌∙◌, inl, inr, true, false, List,
  [], ◌∷◌, arith, ◌==◌, ==_iff, Bool-cases,
}
use transaction_system.Base.Lists.{length}
use transaction_system.Base.Run.{Returns, returns, Returns-bind}
use transaction_system.Masstree.Key.{KeySlice, Key}
use transaction_system.Masstree.Key.Rest.{
  HasRest, AreSlices, get_current_slice-HasRest, has_next-one, has_next-more,
}
use transaction_system.Masstree.Heap.{Heap, World, Addr, BorderNode, border}
use transaction_system.Masstree.Alone.{alone, world}
use transaction_system.Masstree.Search.{
  nothing_found, extract_last, extract_more, extract_with_index,
}
use transaction_system.Masstree.Access.{write, get}
use transaction_system.Masstree.Access.Found.{find_border-root}
use transaction_system.Masstree.Access.RoundTrip.{start_new_tree-get}
use transaction_system.Masstree.Access.AfterInsert.{
  NoneBefore, ==_false, get_loop-SlotHas, insert_into_border-get,
}
use transaction_system.Masstree.Access.AfterWrite.{write_loop-root, write_loop-SlotHas}
use transaction_system.Masstree.Entry.{has_space}
use transaction_system.Masstree.Entry.Stores.{load_slice-ok, load_len-ok}
use transaction_system.Masstree.Entry.Contents.{root_version, SlotHas}
use transaction_system.Masstree.Entry.Shift.{HasKeys}
use transaction_system.Masstree.Insertion.{insert}

-- No slot in use has the slice.
abbrev pub IsAbsent : BorderNode → KeySlice → Type 0
IsAbsent b s = (j : ℕ) → j < 15 → (b.key_slice j ≢ s.slice) ⊎ (b.key_len j ≡ 0)

module _ (p : Addr) (m : Heap) (b : BorderNode) (at : m.object p ≡ border b) (s : KeySlice)
    (absent : IsAbsent b s) where
  extract_last-IsAbsent :
      (n i t : ℕ)
      → 1 ≤ s.size
      → i + n ≤ 15
      → Returns
          (λ e w. (w.memory ≡ m) × (e ≡ nothing_found))
          (extract_last alone p s n i (world m t))
  unfolding extract_last
  extract_last-IsAbsent zero i t some_bytes top = returns (refl, refl)
  extract_last-IsAbsent (suc n) i t some_bytes top =
      rw (load_slice-ok p m t b at i (omega arith)) (elim (Bool-cases (b.key_slice i == s.slice)) [
        | inl same ↦ rw same (
            rw (load_len-ok p m (t + 1) b at i (omega arith)) (
              rw (==_false (b.key_len i) s.size (other same))
                (extract_last-IsAbsent n (i + 1) (t + 1 + 1) some_bytes (omega arith))))
        | inr differs ↦
            rw differs (extract_last-IsAbsent n (i + 1) (t + 1) some_bytes (omega arith))
      ])
    where
      other : (b.key_slice i == s.slice) ≡ true → b.key_len i ≢ s.size
      other same = elim (absent i (omega arith)) [
        | inl ne ↦ absurd (ne ((==_iff (b.key_slice i) s.slice).0 same))
        | inr none ↦ λ e. absurd (omega arith)
      ]

  extract_more-IsAbsent :
      (k : Key) (n i t : ℕ)
      → i + n ≤ 15
      → Returns
          (λ e w. (w.memory ≡ m) × (e ≡ nothing_found))
          (extract_more alone p k s n i (world m t))
  unfolding extract_more
  extract_more-IsAbsent k zero i t top = returns (refl, refl)
  extract_more-IsAbsent k (suc n) i t top =
      rw (load_slice-ok p m t b at i (omega arith)) (elim (Bool-cases (b.key_slice i == s.slice)) [
        | inl same ↦
            let none : b.key_len i ≡ 0 = free same in
            rw same (
              rw (load_len-ok p m (t + 1) b at i (omega arith)) (
                rw (==_false (b.key_len i) 8 (λ e. absurd (omega arith))) (
                  rw (load_len-ok p m (t + 1 + 1) b at i (omega arith)) (
                    rw (==_false (b.key_len i) 255 (λ e. absurd (omega arith))) (
                      rw (load_len-ok p m (t + 1 + 1 + 1) b at i (omega arith)) (
                        rw (==_false (b.key_len i) 254 (λ e. absurd (omega arith))) (
                          extract_more-IsAbsent k n (i + 1) (t + 1 + 1 + 1 + 1) (omega arith))))))))
        | inr differs ↦ rw differs (extract_more-IsAbsent k n (i + 1) (t + 1) (omega arith))
      ])
    where
      free : (b.key_slice i == s.slice) ≡ true → b.key_len i ≡ 0
      free same = elim (absent i (omega arith)) [
        | inl ne ↦ absurd (ne ((==_iff (b.key_slice i) s.slice).0 same))
        | inr none ↦ none
      ]

  extract_with_index-IsAbsent :
      (k : Key) (ss : List KeySlice) (t : ℕ)
      → HasRest k (s ∷ ss)
      → AreSlices (s ∷ ss)
      → Returns
          (λ e w. (w.memory ≡ m) × (e ≡ nothing_found))
          (extract_with_index alone p k (world m t))
  unfolding extract_with_index
  extract_with_index-IsAbsent k [] t rest slices =
      rw (get_current_slice-HasRest k s [] rest (world m t))
        (rw (has_next-one k s rest) (extract_last-IsAbsent 15 0 t slices.0 (omega arith)))
  extract_with_index-IsAbsent k (s' ∷ ss) t rest slices =
      rw (get_current_slice-HasRest k s (s' ∷ ss) rest (world m t))
        (rw (has_next-more k s s' ss rest) (extract_more-IsAbsent k 15 0 t (omega arith)))

-- What insert may find at `root` for a key with the slices `s ∷ ss`: no tree; a root border node that
-- holds the key, at the first slot with its first slice; one with room and no such slot.
pub data Accepts (m : Heap) (root : Addr) (s : KeySlice) (ss : List KeySlice) : Type 0 where
  no_tree : root ≡ 0 → Accepts m root s ss
  holds :
      (b : BorderNode) (place after x : ℕ)
      → root ≢ 0
      → m.object root ≡ border b
      → b.version ≡ root_version
      → place + suc after ≡ 15
      → NoneBefore b s.slice 0 place
      → SlotHas m b place (s ∷ ss) x
      → Accepts m root s ss
  has_room :
      (b : BorderNode) (n : ℕ)
      → root ≢ 0
      → m.object root ≡ border b
      → b.version ≡ root_version
      → root < m.fresh
      → HasKeys b n
      → b.key_len 14 ≡ 0
      → IsAbsent b s
      → Accepts m root s ss

abbrev Reads : ℕ → ℕ → Key → Addr → Addr → World → Type 0
Reads spin turns k x root w =
    Returns (λ r w'. (r ≡ x) × (w'.memory ≡ w.memory)) (get alone (suc spin) turns root k w)

module _ (spin turns levels : ℕ) (k : Key) (s : KeySlice) (ss : List KeySlice) (x : Addr) (m : Heap)
    (rest : HasRest k (s ∷ ss)) (slices : AreSlices (s ∷ ss)) (enough : 2 * length ss ≤ turns) where
  abbrev many : ℕ
  many = suc (suc (suc turns))

  insert-held :
      (root : Addr) (b : BorderNode) (place after x₀ t : ℕ)
      → root ≢ 0
      → m.object root ≡ border b
      → b.version ≡ root_version
      → place + suc after ≡ 15
      → NoneBefore b s.slice 0 place
      → SlotHas m b place (s ∷ ss) x₀
      → Returns (Reads spin many k x) (insert alone (suc spin) many levels root k x (world m t))
  unfolding insert write get
  insert-held root b place after x₀ t ne at is_root room none has = rw (==_false root 0 ne) (
      Returns-bind
        (write_loop-SlotHas ss turns spin root x₀ x k m b s place after t at is_root room none rest
          slices has enough)
        (λ r w d. rw d.0 (
          returns (
            get_loop-SlotHas spin turns root x k w.memory d.2.0 s ss place after w.turn d.2.1 d.2.2
              room (λ j low high e. none j low high (sym (ap (λ (f : ℕ → ℕ). f j) d.2.3) ∙ e)) rest
              d.2.4 enough))))

  insert-room :
      (root : Addr) (b : BorderNode) (n t : ℕ)
      → root ≢ 0
      → m.object root ≡ border b
      → b.version ≡ root_version
      → root < m.fresh
      → HasKeys b n
      → b.key_len 14 ≡ 0
      → IsAbsent b s
      → Returns (Reads spin many k x) (insert alone (suc spin) many levels root k x (world m t))
  unfolding insert write has_space
  insert-room root b n t ne at is_root below has free absent = rw (==_false root 0 ne) (
      Returns-bind
        (write_loop-root spin turns root k x m b t (λ e. e ≡ nothing_found)
          (λ r w. (r ≡ false) × (w.memory ≡ m)) at is_root
          (extract_with_index-IsAbsent root m b at s absent k ss (t + 1 + 1) rest slices)
          (λ e t' is. rw is (returns (refl, refl))))
        (λ r w d.
          let at' : w.memory.object root ≡ border b = ap (λ (h : Heap). h.object root) d.1 ∙ at in
          rw d.0 (
            rw (find_border-root spin (suc turns) root k w.memory w.turn b at' is_root) (
              rw (load_len-ok root w.memory (w.turn + 1 + 1) b at' 14 (omega arith)) (
                rw ((==_iff (b.key_len 14) 0).1 free) (
                  Returns-bind
                    (insert_into_border-get spin turns root x k s ss w.memory b n
                      (w.turn + 1 + 1 + 1) rest slices at' is_root has
                      (omega (arith, ap (λ (h : Heap). h.fresh) d.1)) enough)
                    (λ u w' f. returns f)))))))

  insert-new :
      (root : Addr) (t : ℕ)
      → root ≡ 0
      → Returns (Reads spin many k x) (insert alone (suc spin) many levels root k x (world m t))
  unfolding insert
  insert-new root t none =
      rw ((==_iff root 0).1 none)
        (start_new_tree-get spin many k (s ∷ ss) x m t rest slices (omega arith))

  -- With no other thread about: where insert is given no tree, or a root border node that holds the
  -- key or has room for it and no slot with its first slice, it returns a root from which get reads
  -- the key's value, and changes nothing by that; the key may have any number of slices, given more
  -- than two turns for each.
  pub insert-get :
      (root : Addr) (t : ℕ)
      → Accepts m root s ss
      → Returns
          (λ root' w.
            Returns
              (λ r w'. (r ≡ x) × (w'.memory ≡ w.memory))
              (get alone (suc spin) (suc (suc (suc turns))) root' k w))
          (insert alone (suc spin) (suc (suc (suc turns))) levels root k x (world m t))
  insert-get root t (no_tree none) = insert-new root t none
  insert-get root t (holds b place after x₀ ne at is_root room none has) =
      insert-held root b place after x₀ t ne at is_root room none has
  insert-get root t (has_room b n ne at is_root below has free absent) =
      insert-room root b n t ne at is_root below has free absent
