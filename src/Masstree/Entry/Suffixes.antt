-- ===== src/Masstree/Entry/Suffixes.antt =====
-- Putting a key of one slice, or of two, in a slot of a border node: key_insert_after_new_layer,
-- insert_into_border of masstree/bptree.h with no other thread about.
use transaction_system.Base.{
  ℕ, ◌+◌, ◌≤◌, ◌<◌, ◌≡◌, refl, true, false, [], ◌∷◌, arith, update, ◌==◌, ==_iff, leb, ◌&&◌,
  Bool-cases, inl, inr,
}
use mathlib.Core.Path.{subst}
use transaction_system.Base.Run.{ok, ◌>>◌, Returns, returns, Cmd, ◌>>=◌}
use transaction_system.Masstree.Key.{KeySlice, Key, get_current_slice}
use transaction_system.Masstree.Key.Rest.{
  HasRest, AreSlices, moved, get_current_slice-HasRest, moved-HasRest, has_next-one, has_next-more,
  slice_at-next,
}
use transaction_system.Masstree.Heap.{Heap, World, Addr, BorderNode, border}
use transaction_system.Masstree.Alone.{alone, world, put, put_self}
use transaction_system.Masstree.Search.{store_lv}
use transaction_system.Masstree.Entry.Stores.{
  update_self, update_same, update_other, store_len-ok, store_slice-ok, store_len-put,
  store_slice-put, store_lv-put, store_suffix-put,
}
use transaction_system.Masstree.Entry.{store_slice, store_len, store_suffix, put_with}
use transaction_system.Masstree.Entry.Contents.{Done, SameBut-put}

pub le→leb : (a b : ℕ) → a ≤ b → leb a b ≡ true
le→leb a b h = ground arith

pub ==_true : (a b : ℕ) → a ≡ b → (a == b) ≡ true
==_true a b h = (==_iff a b).1 h

-- A slice of eight bytes is no short one.
pub long_test : (n : ℕ) → n ≡ 8 → (leb 1 n && leb n 7) ≡ false
long_test n h = ground arith

-- The stores for a key that ends here.
short_block :
    (p : Addr) (m : Heap) (t i : ℕ) (b : BorderNode) (s : KeySlice) (x : Addr)
    → m.object p ≡ border b
    → i < 15
    → Returns (Done p b i m (s ∷ []) x) (
        (store_len alone p i s.size >> (store_slice alone p i s.slice >> store_lv alone p i x))
          (world m t))
short_block p m t i b s x at h =
    let b₁ : BorderNode = record b { key_len = update b.key_len i s.size } in
    let b₂ : BorderNode = record b₁ { key_slice = update b.key_slice i s.slice } in
    let b₃ : BorderNode = record b₂ { lv = update b.lv i x } in
    rw (store_len-ok p m t i b at h s.size) (
      rw (store_slice-put p m (t + 1) i b₁ h s.slice) (
        rw (store_lv-put p m (t + 1 + 1) i b₂ h x) (
          returns (
            (
              b₃,
              put_self p (border b₃) m,
              refl,
              (
                update_self b.key_slice i s.slice,
                update_self b.key_len i s.size,
                update_self b.lv i x,
              ),
              λ j ne. (
                update_other b.key_slice i j s.slice ne,
                update_other b.key_len i j s.size ne,
                update_other b.lv i j x ne,
                refl,
              ),
            ),
            SameBut-put p m b₃,
          ))))

-- The stores for a key with one more slice, which becomes the suffix.
suffix_block :
    (p : Addr) (m : Heap) (t i : ℕ) (b : BorderNode) (s s' : KeySlice) (x : Addr)
    → i < 15
    → (current : Cmd World KeySlice) → ((w : World) → current w ≡ ok s' w)
    → Returns (Done p b i m (s ∷ s' ∷ []) x) (
        (store_len alone p i 8
            >> (current >>= λ y. store_suffix alone p i y >> store_lv alone p i x))
          (world (put p (border (record b { key_slice = update b.key_slice i s.slice })) m) t))
suffix_block p m t i b s s' x h current is =
    let b₁ : BorderNode = record b { key_slice = update b.key_slice i s.slice } in
    let b₂ : BorderNode = record b₁ { key_len = update b.key_len i 8 } in
    let b₃ : BorderNode = record b₂ { key_suffixes = update b.key_suffixes i s' } in
    let b₄ : BorderNode = record b₃ { lv = update b.lv i x } in
    rw (store_len-put p m t i b₁ h 8) (
      rw (is (world (put p (border b₂) m) (t + 1))) (
        rw (store_suffix-put p m (t + 1) i b₂ h s') (
          rw (store_lv-put p m (t + 1 + 1) i b₃ h x) (
            returns (
              (
                b₄,
                put_self p (border b₄) m,
                refl,
                (
                  update_self b.key_slice i s.slice,
                  update_self b.key_len i 8,
                  update_same b.key_suffixes i s',
                  update_self b.lv i x,
                ),
                λ j ne. (
                  update_other b.key_slice i j s.slice ne,
                  update_other b.key_len i j 8 ne,
                  update_other b.lv i j x ne,
                  update_other b.key_suffixes i j s' ne,
                ),
              ),
              SameBut-put p m b₄,
            )))))

-- A slice that ends the key, or two slices that do.
module _ (further : Addr → Key → Cmd World (Unit {0})) (x : Addr) (p : Addr) (k : Key) (m : Heap)
    (t i : ℕ) (b : BorderNode) (at : m.object p ≡ border b) (h : i < 15) where
  pub put_with-one :
      (s : KeySlice)
      → HasRest k (s ∷ [])
      → AreSlices (s ∷ [])
      → Returns (Done p b i m (s ∷ []) x) (put_with alone further p i k x (world m t))
  unfolding put_with
  put_with-one s rest (low, high) = rw (get_current_slice-HasRest k s [] rest (world m t)) (
      rw (le→leb 1 s.size low) (elim (Bool-cases (leb s.size 7)) [
        | inl short ↦ rw short (short_block p m t i b s x at h)
        | inr long ↦
            let e : s.size ≡ 8 = ground arith in
            rw long (
              rw (==_true s.size 8 e) (
                rw (has_next-one k s rest) (
                  subst
                    (λ n. Returns (Done p b i m (s ∷ []) x) (
                      (store_len alone p i n
                          >> (store_slice alone p i s.slice >> store_lv alone p i x))
                        (world m t)))
                    e (short_block p m t i b s x at h))))
      ]))

  pub put_with-two :
      (s s' : KeySlice)
      → HasRest k (s ∷ s' ∷ [])
      → AreSlices (s ∷ s' ∷ [])
      → Returns (Done p b i m (s ∷ s' ∷ []) x) (put_with alone further p i k x (world m t))
  unfolding put_with
  put_with-two s s' rest (full, last) =
      let b₁ : BorderNode = record b { key_slice = update b.key_slice i s.slice } in
      let w₁ : World = world (put p (border b₁) m) (t + 1) in
      let rest' : HasRest (moved k) (s' ∷ []) = moved-HasRest k s (s' ∷ []) rest in
      rw (get_current_slice-HasRest k s (s' ∷ []) rest (world m t)) (
        rw (long_test s.size full) (
          rw (==_true s.size 8 full) (
            rw (has_next-more k s s' [] rest) (
              rw (store_slice-ok p m t i b at h s.slice) (
                rw (slice_at-next k s s' [] rest w₁) (
                  rw (has_next-one (moved k) s' rest') (
                    suffix_block p m (t + 1) i b s s' x h (get_current_slice (moved k))
                      (get_current_slice-HasRest (moved k) s' [] rest'))))))))
