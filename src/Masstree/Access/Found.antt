-- ===== src/Masstree/Access/Found.antt =====
-- masstree/: get finds what the layers hold, with no other thread about.
use transaction_system.Base.{
  ℕ, zero, suc, ◌+◌, ◌*◌, ◌<◌, ◌≡◌, refl, ap, false, List, [], ◌∷◌, arith, ◌==◌, ==_iff,
}
use transaction_system.Base.Lists.{length}
use transaction_system.Base.Run.{ok, Returns, returns}
use transaction_system.Masstree.Version.{unchanged, body, low_body}
use transaction_system.Masstree.Key.{KeySlice, Key}
use transaction_system.Masstree.Key.Rest.{
  HasRest, moved, get_current_slice-HasRest, moved-HasRest, has_next-one, has_next-more,
  slice_at-next, next-HasRest,
}
use transaction_system.Masstree.Heap.{Heap, Addr, BorderNode, border, key_len_layer}
use transaction_system.Masstree.Alone.{alone, world, look-version}
use transaction_system.Masstree.Search.{
  ExtractResult, load_version, extract_last, extract_suffix, extract_more, extract_with_index,
}
use transaction_system.Masstree.Access.{retry, find_border, get_loop}
use transaction_system.Masstree.Entry.Stores.{
  load_slice-ok, load_len-ok, load_lv-ok, load_suffix-ok,
}
use transaction_system.Masstree.Entry.Contents.{root_version, SlotHas}

-- The layer at `p` has it in its first slot.
abbrev pub LayerHas : Heap → Addr → List KeySlice → Addr → Type 0
LayerHas m p ss x =
    (b : BorderNode) × (m.object p ≡ border b) × (b.version ≡ root_version) × SlotHas m b 0 ss x

-- The root of a layer is a border node that nobody changes.
pub find_border-root :
    (spin turns : ℕ) (p : Addr) (k : Key) (m : Heap) (t : ℕ) (b : BorderNode)
    → m.object p ≡ border b
    → b.version ≡ root_version
    → find_border alone (suc spin) (suc (suc turns)) p k (world m t)
      ≡ ok (p, root_version) (world m (t + 1 + 1))
unfolding find_border
find_border-root spin turns p k m t b at root =
    rw (look-version p m t b at) (rw root (rw (look-version p m (t + 1) b at) (rw root refl)))

not_eight : (n : ℕ) → n ≡ key_len_layer → (n == 8) ≡ false
not_eight n h = ground arith

-- One round of an extraction's loop that finds the key in the i-th slot.
module _ (p : Addr) (m : Heap) (t : ℕ) (b : BorderNode) (at : m.object p ≡ border b) (x : Addr)
    (i n : ℕ) (h : i < 15) (s : KeySlice) (is_s : b.key_slice i ≡ s.slice) where
  pub extract_last-found :
      b.key_len i ≡ s.size
      → extract_last alone p s (suc n) i (world m t)
        ≡ ok
            (record { result = ExtractResult.value; lv = b.lv i; index = i })
            (world m (t + 1 + 1 + 1))
  unfolding extract_last
  extract_last-found is_len = rw (load_slice-ok p m t b at i h) (
      rw ((==_iff (b.key_slice i) s.slice).1 is_s) (
        rw (load_len-ok p m (t + 1) b at i h) (
          rw ((==_iff (b.key_len i) s.size).1 is_len)
            (rw (load_lv-ok p m (t + 1 + 1) b at i h) refl))))

  pub extract_more-layer :
      (k : Key)
      → b.key_len i ≡ key_len_layer
      → extract_more alone p k s (suc n) i (world m t)
        ≡ ok
            (record { result = ExtractResult.layer; lv = b.lv i; index = i })
            (world m (t + 1 + 1 + 1 + 1))
  unfolding extract_more
  extract_more-layer k is_len = rw (load_slice-ok p m t b at i h) (
      rw ((==_iff (b.key_slice i) s.slice).1 is_s) (
        rw (load_len-ok p m (t + 1) b at i h) (
          rw (not_eight (b.key_len i) is_len) (
            rw (load_len-ok p m (t + 1 + 1) b at i h) (
              rw ((==_iff (b.key_len i) key_len_layer).1 is_len)
                (rw (load_lv-ok p m (t + 1 + 1 + 1) b at i h) refl))))))

  pub extract_more-suffix :
      (k : Key)
      → b.key_len i ≡ 8
      → extract_more alone p k s (suc n) i (world m t)
        ≡ extract_suffix alone p k i (world m (t + 1 + 1))
  unfolding extract_more
  extract_more-suffix k is_len = rw (load_slice-ok p m t b at i h) (
      rw ((==_iff (b.key_slice i) s.slice).1 is_s)
        (rw (load_len-ok p m (t + 1) b at i h) (rw ((==_iff (b.key_len i) 8).1 is_len) refl)))

-- A suffix with the slice that is looked for.
pub extract_suffix-found :
    (p : Addr) (m : Heap) (t i : ℕ) (b : BorderNode) (k : Key) (s s' : KeySlice)
    → m.object p ≡ border b
    → i < 15
    → HasRest k (s ∷ s' ∷ [])
    → b.key_suffixes i ≡ s'
    → extract_suffix alone p k i (world m t)
      ≡ ok (record { result = ExtractResult.value; lv = b.lv i; index = i }) (world m (t + 1 + 1))
unfolding extract_suffix
extract_suffix-found p m t i b k s s' at h rest is_s' = rw (load_suffix-ok p m t b at i h) (
    rw (has_next-more k s s' [] rest) (
      rw (slice_at-next k s s' [] rest (world m (t + 1))) (
        rw ((==_iff (b.key_suffixes i).slice s'.slice).1 (ap (λ (z : KeySlice). z.slice) is_s'))
          (rw (load_lv-ok p m (t + 1) b at i h) refl))))

-- Two rounds for each layer, and one more for findBorder in the last.
pub get_loop-LayerHas :
    (spin turns : ℕ) (p : Addr) (k : Key) (ss : List KeySlice) (x : Addr) (m : Heap) (t : ℕ)
    → LayerHas m p ss x
    → HasRest k ss
    → 2 * length ss < turns
    → Returns
        (λ r w. (r ≡ x) × (w.memory ≡ m))
        (get_loop alone (suc spin) turns p k retry (world m t))
unfolding get_loop extract_with_index load_version unchanged body low_body
get_loop-LayerHas spin zero p k ss x m t has rest enough = absurd (omega arith)
get_loop-LayerHas spin (suc zero) p k [] x m t (b, at, root, has) rest enough = elim has [ ]
get_loop-LayerHas spin (suc zero) p k (s ∷ ss) x m t has rest enough = absurd (omega arith)
get_loop-LayerHas spin (suc (suc zero)) p k [] x m t (b, at, root, has) rest enough = elim has [ ]
get_loop-LayerHas spin (suc (suc zero)) p k (s ∷ ss) x m t has rest enough = absurd (omega arith)
get_loop-LayerHas spin (suc (suc (suc turns))) p k [] x m t (b, at, root, has) rest enough =
    elim has [ ]
get_loop-LayerHas spin (suc (suc (suc turns))) p k (s ∷ []) x m t (b, at, root, has) rest enough =
    let t₁ : ℕ = t + 1 + 1 in
    rw (find_border-root spin turns p k m t b at root) (
      rw (get_current_slice-HasRest k s [] rest (world m t₁)) (
        rw (has_next-one k s rest) (
          rw (extract_last-found p m t₁ b at x 0 14 (omega arith) s has.0 has.1)
            (rw (look-version p m (t₁ + 1 + 1 + 1) b at) (rw root (returns (has.2, refl)))))))
get_loop-LayerHas spin (suc (suc (suc turns))) p k (s ∷ s' ∷ []) x m t (b, at, root, has) rest
      enough =
    let t₁ : ℕ = t + 1 + 1 in
    rw (find_border-root spin turns p k m t b at root) (
      rw (get_current_slice-HasRest k s (s' ∷ []) rest (world m t₁)) (
        rw (has_next-more k s s' [] rest) (
          rw (extract_more-suffix p m t₁ b at x 0 14 (omega arith) s has.0 k has.1) (
            rw (extract_suffix-found p m (t₁ + 1 + 1) 0 b k s s' at (omega arith) rest has.2) (
              rw (look-version p m (t₁ + 1 + 1 + 1 + 1) b at) (rw root (returns (has.3, refl))))))))
get_loop-LayerHas spin (suc (suc (suc turns))) p k (s ∷ s' ∷ s'' ∷ ss) x m t (b, at, root, has) rest
      enough =
    let t₁ : ℕ = t + 1 + 1 in
    rw (find_border-root spin turns p k m t b at root) (
      rw (get_current_slice-HasRest k s (s' ∷ s'' ∷ ss) rest (world m t₁)) (
        rw (has_next-more k s s' (s'' ∷ ss) rest) (
          rw (extract_more-layer p m t₁ b at x 0 14 (omega arith) s has.0 k has.1) (
            rw (look-version p m (t₁ + 1 + 1 + 1 + 1) b at) (
              rw root (
                rw (next-HasRest k s s' (s'' ∷ ss) rest (world m (t₁ + 1 + 1 + 1 + 1 + 1))) (
                  get_loop-LayerHas spin (suc turns) (b.lv 0) (moved k) (s' ∷ s'' ∷ ss) x m
                    (t₁ + 1 + 1 + 1 + 1 + 1) has.2 (moved-HasRest k s (s' ∷ s'' ∷ ss) rest)
                    (omega arith))))))))
