-- ===== src/Masstree/Entry/Stores.antt =====
-- The loads and stores of a slot of a border node of masstree/, with no other thread about.
use transaction_system.Base.{ℕ, ◌+◌, ◌<◌, ◌≡◌, ◌≢◌, refl, arith, update, ==_iff, lt→ltb}
use transaction_system.Base.Run.{ok}
use transaction_system.Masstree.Key.{KeySlice}
use transaction_system.Masstree.Heap.{Heap, Addr, BorderNode, border}
use transaction_system.Masstree.Alone.{alone, world, put, look-border, change-border, change-put}
use transaction_system.Masstree.Search.{load_slice, load_len, load_lv, load_suffix, store_lv}
use transaction_system.Masstree.Entry.{store_slice, store_len, store_suffix}

pub update_same : (f : ℕ → KeySlice) (i : ℕ) (v : KeySlice) → update f i v i ≡ v
update_same f i v = rw ((==_iff i i).1 refl) refl

pub update_self : (f : ℕ → ℕ) (i v : ℕ) → update f i v i ≡ v
update_self f i v = rw ((==_iff i i).1 refl) refl

pub update_other : {A : Type 0} (f : ℕ → A) (i j : ℕ) (v : A) → j ≢ i → update f i v j ≡ f j
update_other f i j v ne = ground (arith, ==_iff i j)

module _ (p : Addr) (m : Heap) (t : ℕ) (b : BorderNode) (at : m.object p ≡ border b) where
  pub load_slice-ok :
      (i : ℕ) → i < 15 → load_slice alone p i (world m t) ≡ ok (b.key_slice i) (world m (t + 1))
  unfolding load_slice
  load_slice-ok i h = rw (lt→ltb i 15 h) (look-border p m t b at _)

  pub load_len-ok :
      (i : ℕ) → i < 15 → load_len alone p i (world m t) ≡ ok (b.key_len i) (world m (t + 1))
  unfolding load_len
  load_len-ok i h = rw (lt→ltb i 15 h) (look-border p m t b at _)

  pub load_lv-ok : (i : ℕ) → i < 15 → load_lv alone p i (world m t) ≡ ok (b.lv i) (world m (t + 1))
  unfolding load_lv
  load_lv-ok i h = rw (lt→ltb i 15 h) (look-border p m t b at _)

  pub load_suffix-ok :
      (i : ℕ) → i < 15 → load_suffix alone p i (world m t) ≡ ok (b.key_suffixes i) (world m (t + 1))
  unfolding load_suffix
  load_suffix-ok i h = rw (lt→ltb i 15 h) (look-border p m t b at _)

-- Stores to the i-th slot of the node at `p`.
module _ (p : Addr) (m : Heap) (t i : ℕ) (b : BorderNode) (at : m.object p ≡ border b)
    (h : i < 15) where
  pub store_len-ok :
      (l : ℕ)
      → store_len alone p i l (world m t)
        ≡ ok tt (world (put p (border (record b { key_len = update b.key_len i l })) m) (t + 1))
  unfolding store_len
  store_len-ok l = rw (lt→ltb i 15 h) (change-border p m t b at _)

  pub store_slice-ok :
      (l : ℕ)
      → store_slice alone p i l (world m t)
        ≡ ok tt (world (put p (border (record b { key_slice = update b.key_slice i l })) m) (t + 1))
  unfolding store_slice
  store_slice-ok l = rw (lt→ltb i 15 h) (change-border p m t b at _)

  pub store_lv-ok :
      (l : ℕ)
      → store_lv alone p i l (world m t)
        ≡ ok tt (world (put p (border (record b { lv = update b.lv i l })) m) (t + 1))
  unfolding store_lv
  store_lv-ok l = rw (lt→ltb i 15 h) (change-border p m t b at _)

  pub store_suffix-ok :
      (l : KeySlice)
      → store_suffix alone p i l (world m t)
        ≡ ok tt (
            world
              (put p (border (record b { key_suffixes = update b.key_suffixes i l })) m)
              (t + 1))
  unfolding store_suffix
  store_suffix-ok l = rw (lt→ltb i 15 h) (change-border p m t b at _)

-- The same where the node at `p` was just stored.
module _ (p : Addr) (m : Heap) (t i : ℕ) (b : BorderNode) (h : i < 15) where
  pub store_len-put :
      (l : ℕ)
      → store_len alone p i l (world (put p (border b) m) t)
        ≡ ok tt (world (put p (border (record b { key_len = update b.key_len i l })) m) (t + 1))
  unfolding store_len
  store_len-put l = rw (lt→ltb i 15 h) (change-put p m t b _)

  pub store_slice-put :
      (l : ℕ)
      → store_slice alone p i l (world (put p (border b) m) t)
        ≡ ok tt (world (put p (border (record b { key_slice = update b.key_slice i l })) m) (t + 1))
  unfolding store_slice
  store_slice-put l = rw (lt→ltb i 15 h) (change-put p m t b _)

  pub store_lv-put :
      (l : ℕ)
      → store_lv alone p i l (world (put p (border b) m) t)
        ≡ ok tt (world (put p (border (record b { lv = update b.lv i l })) m) (t + 1))
  unfolding store_lv
  store_lv-put l = rw (lt→ltb i 15 h) (change-put p m t b _)

  pub store_suffix-put :
      (l : KeySlice)
      → store_suffix alone p i l (world (put p (border b) m) t)
        ≡ ok tt (
            world
              (put p (border (record b { key_suffixes = update b.key_suffixes i l })) m)
              (t + 1))
  unfolding store_suffix
  store_suffix-put l = rw (lt→ltb i 15 h) (change-put p m t b _)
