-- ===== src/Masstree/Entry/Layers.antt =====
-- Putting a key of more slices in a slot of a border node, in layers of its own, and so a key of any
-- length, with no other thread about.
use transaction_system.Base.{
  ℕ, zero, suc, ◌+◌, ◌-◌, ◌≤◌, ◌<◌, ◌≡◌, ◌≢◌, refl, ap, ◌∙◌, true, List, [], ◌∷◌, arith, update,
  Bool,
}
use transaction_system.Base.Lists.{length}
use transaction_system.Base.Run.{ok, Returns, Returns-mono, Cmd}
use transaction_system.Masstree.Version.{Version}
use transaction_system.Masstree.Key.{KeySlice, Key}
use transaction_system.Masstree.Key.Rest.{
  HasRest, AreSlices, moved, get_current_slice-HasRest, moved-HasRest, has_next-more, slice_at-next,
}
use transaction_system.Masstree.Heap.{
  Heap, World, Addr, BorderNode, border, blank_border, key_len_layer,
}
use transaction_system.Masstree.Alone.{alone, world, put, grown, put_self, put_other, look-version}
use transaction_system.Masstree.Entry.Stores.{
  update_self, update_other, store_slice-ok, store_lv-ok, store_len-put,
}
use transaction_system.Masstree.Entry.{layer_loop, put_entry, put_with, assert}
use transaction_system.Masstree.Entry.Contents.{root_version, Done, new_root_border-ok}
use transaction_system.Masstree.Entry.Suffixes.{==_true, long_test, put_with-one, put_with-two}

-- More slices after this one and the next.
module _ (further : Addr → Key → Cmd World (Unit {0})) (x : Addr) (p : Addr) (k : Key) (m : Heap)
    (t i : ℕ) (b : BorderNode) (at : m.object p ≡ border b) (h : i < 15) where
  -- What is asked of the function that puts the other slices in a next layer.
  abbrev PutsRest : List KeySlice → Type 0
  PutsRest ss =
      (q : Addr) (m' : Heap) (t' : ℕ) (c : BorderNode)
      → m'.object q ≡ border c
      → c.version ≡ root_version
      → q < m'.fresh
      → Returns (Done q c 0 m' ss x) (further q (moved k) (world m' t'))

  put_with-more :
      (s s' s'' : KeySlice) (ss : List KeySlice)
      → HasRest k (s ∷ s' ∷ s'' ∷ ss)
      → AreSlices (s ∷ s' ∷ s'' ∷ ss)
      → p < m.fresh
      → PutsRest (s' ∷ s'' ∷ ss)
      → Returns (Done p b i m (s ∷ s' ∷ s'' ∷ ss) x) (put_with alone further p i k x (world m t))
  unfolding put_with
  put_with-more s s' s'' ss rest (full, more) below puts =
      let b₁ : BorderNode = record b { key_slice = update b.key_slice i s.slice } in
      let b₂ : BorderNode = record b₁ { key_len = update b.key_len i key_len_layer } in
      let q : Addr = m.fresh in
      let b₃ : BorderNode = record b₂ { lv = update b.lv i q } in
      let c : BorderNode = record blank_border { version = root_version } in
      let m₁ : Heap = put p (border b₁) m in
      let m₂ : Heap = put p (border b₂) m in
      let m₃ : Heap = put q (border c) (grown m₂) in
      let m₄ : Heap = put p (border b₃) m₃ in
      let apart : p ≢ q = λ e. omega arith in
      let apart' : q ≢ p = λ e. omega arith in
      let rest' : HasRest (moved k) (s' ∷ s'' ∷ ss) = moved-HasRest k s (s' ∷ s'' ∷ ss) rest in
      let at₃ : m₃.object p ≡ border b₂ =
        put_other q p (border c) (grown m₂) apart' ∙ put_self p (border b₂) m in
      let at_q : m₄.object q ≡ border c =
        put_other p q (border b₃) m₃ apart ∙ put_self q (border c) (grown m₂) in
      rw (get_current_slice-HasRest k s (s' ∷ s'' ∷ ss) rest (world m t)) (
        rw (long_test s.size full) (
          rw (==_true s.size 8 full) (
            rw (has_next-more k s s' (s'' ∷ ss) rest) (
              rw (store_slice-ok p m t i b at h s.slice) (
                rw (slice_at-next k s s' (s'' ∷ ss) rest (world m₁ (t + 1))) (
                  rw (has_next-more (moved k) s' s'' ss rest') (
                    rw (store_len-put p m (t + 1) i b₁ h key_len_layer) (
                      rw (new_root_border-ok m₂ (t + 1 + 1)) (
                        rw (store_lv-ok p m₃ (t + 1 + 1 + 1 + 1 + 1) i b₂ at₃ h q) (
                          Returns-mono
                            (puts q m₄ (t + 1 + 1 + 1 + 1 + 1 + 1) c at_q refl (omega arith))
                            (λ u w d.
                              let at_p : w.memory.object p ≡ border b₃ =
                                d.1.1 p (omega arith) apart' ∙ put_self p (border b₃) m₃ in
                              (
                                (
                                  b₃,
                                  at_p,
                                  refl,
                                  (
                                    update_self b.key_slice i s.slice,
                                    update_self b.key_len i key_len_layer,
                                    (
                                      d.0.0,
                                      ap w.memory.object (update_self b.lv i q) ∙ d.0.1,
                                      d.0.2,
                                      d.0.3,
                                    ),
                                  ),
                                  λ j ne. (
                                    update_other b.key_slice i j s.slice ne,
                                    update_other b.key_len i j key_len_layer ne,
                                    update_other b.lv i j q ne,
                                    refl,
                                  ),
                                ),
                                (
                                  omega (arith, d.1.0),
                                  λ r under ne.
                                      let ne_q : q ≢ r = λ e. omega arith in
                                      d.1.1 r (omega arith) ne_q
                                      ∙ put_other p r (border b₃) m₃ ne
                                      ∙ put_other q r (border c) (grown m₂) ne_q
                                      ∙ put_other p r (border b₂) m ne,
                                ),
                              ))))))))))))

layer_loop-Done :
    (layers : ℕ) (x p : Addr) (k : Key) (ss : List KeySlice) (m : Heap) (t : ℕ) (b : BorderNode)
    → HasRest k ss
    → AreSlices ss
    → length ss ≤ layers
    → m.object p ≡ border b
    → p < m.fresh
    → Returns (Done p b 0 m ss x) (layer_loop alone layers p k x (world m t))
unfolding layer_loop
layer_loop-Done layers x p k [] m t b rest ok_ss enough at below = elim ok_ss [ ]
layer_loop-Done zero x p k (s ∷ ss) m t b rest ok_ss enough at below = absurd (omega arith)
layer_loop-Done (suc layers) x p k (s ∷ []) m t b rest ok_ss enough at below =
    put_with-one _ x p k m t 0 b at (omega arith) s rest ok_ss
layer_loop-Done (suc layers) x p k (s ∷ s' ∷ []) m t b rest ok_ss enough at below =
    put_with-two _ x p k m t 0 b at (omega arith) s s' rest ok_ss
layer_loop-Done (suc layers) x p k (s ∷ s' ∷ s'' ∷ ss) m t b rest ok_ss enough at below =
    put_with-more _ x p k m t 0 b at (omega arith) s s' s'' ss rest ok_ss below
      (λ q m' t' c at_q root under.
        layer_loop-Done layers x q (moved k) (s' ∷ s'' ∷ ss) m' t' c
          (moved-HasRest k s (s' ∷ s'' ∷ ss) rest) ok_ss.1 (omega arith) at_q under)

assert-true : {S : Type 0} (b : Bool) → b ≡ true → (w : S) → assert b w ≡ ok tt w
assert-true b h w = rw h refl

-- The entry of a key put at the i-th slot of a node, whatever the length of the key.
pub put_entry-Done :
    (x p : Addr) (k : Key) (ss : List KeySlice) (m : Heap) (t i : ℕ) (b : BorderNode)
    → HasRest k ss
    → AreSlices ss
    → m.object p ≡ border b
    → i < 15
    → p < m.fresh
    → Returns (Done p b i m ss x) (put_entry alone p i k x (world m t))
unfolding put_entry
put_entry-Done x p k [] m t i b rest ok_ss at h below = elim ok_ss [ ]
put_entry-Done x p k (s ∷ []) m t i b rest ok_ss at h below =
    put_with-one _ x p k m t i b at h s rest ok_ss
put_entry-Done x p k (s ∷ s' ∷ []) m t i b rest ok_ss at h below =
    put_with-two _ x p k m t i b at h s s' rest ok_ss
put_entry-Done x p k (s ∷ s' ∷ s'' ∷ ss) m t i b rest ok_ss at h below =
    put_with-more _ x p k m t i b at h s s' s'' ss rest ok_ss below (λ q m' t' c at_q root under.
      let rest' : HasRest (moved k) (s' ∷ s'' ∷ ss) = moved-HasRest k s (s' ∷ s'' ∷ ss) rest in
      rw (look-version q m' t' c at_q) (
        rw
          (assert-true c.version.is_root (ap (λ (v : Version). v.is_root) root) (world m' (t' + 1)))
          (rw (has_next-more (moved k) s' s'' ss rest') (
            layer_loop-Done (k.size - (k.cursor + 1)) x q (moved k) (s' ∷ s'' ∷ ss) m' (t' + 1) c
              rest' ok_ss.1 (omega (arith, rest.1)) at_q under))))
