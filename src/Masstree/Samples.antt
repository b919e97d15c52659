-- ===== src/Masstree/Samples.antt =====
-- masstree/sample.h: trees put together by hand. A value is the number that its `int` holds.
use transaction_system.Base.{ℕ, ◌+◌, true, List, [], ◌∷◌}
use transaction_system.Base.Run.{Cmd, pure, ◌>>=◌, ◌>>◌}
use transaction_system.Masstree.Version.{blank_version}
use transaction_system.Masstree.Heap.{
  Addr, Others, World, border, interior, blank_border, blank_interior, key_len_layer, in_interior,
  with_parent, change, allocate,
}
use transaction_system.Masstree.Search.{load_version, store_version, store_lv}
use transaction_system.Masstree.Entry.{store_slice, store_len, store_suffix}
use transaction_system.Masstree.Split.{store_separator, store_child}

module _ (others : Others) where
  -- `p->key_slice[i] = s; p->key_len[i] = l; p->lv[i].value = v;`
  unfoldable pub fill : (p i slice len v : ℕ) → Cmd World (Unit {0})
  unfolding store_slice store_len store_lv
  fill p i slice len v = do
    store_slice others p i slice
    store_len others p i len
    store_lv others p i v

  -- `p->version.is_root = true`
  unfoldable pub mark_root : Addr → Cmd World (Unit {0})
  unfolding load_version store_version
  mark_root p = do v ← load_version others p; store_version others p (record v { is_root = true })

  unfoldable pub sample1 : Cmd World Addr
  unfolding allocate fill store_version
  sample1 = do
    root ← allocate others (border blank_border)
    fill root 0 0x01020304 4 1
    fill root 1 0x0102030405060708 8 2
    store_version others root (record blank_version { is_root = true; is_border = true })
    pure root

  unfoldable pub sample2 : Cmd World Addr
  unfolding allocate store_slice store_len store_suffix store_lv store_version
  sample2 = do
    root ← allocate others (border blank_border)
    store_slice others root 0 0x0001020304050607
    store_len others root 0 8
    store_suffix others root 0 (record { slice = 0x0A0B; size = 2 })
    store_lv others root 0 1
    store_version others root (record blank_version { is_root = true; is_border = true })
    pure root

  unfoldable pub sample3 : Cmd World Addr
  unfolding allocate fill mark_root
  sample3 = do
    l1_root ← allocate others (border blank_border)
    l2_root ← allocate others (border blank_border)
    fill l1_root 0 0x0001020304050607 key_len_layer l2_root
    mark_root l1_root
    fill l2_root 0 0x0A0B 2 1
    fill l2_root 1 0x0C0D 2 2
    mark_root l2_root
    pure l1_root

  -- `root->key_slice[i] = …`, one after the other from the i-th on.
  unfoldable pub store_separators : Addr → List ℕ → ℕ → Cmd World (Unit {0})
  unfolding store_separator
  store_separators p [] i = pure tt
  store_separators p (k ∷ ks) i = do store_separator others p i k; store_separators p ks (i + 1)

  unfoldable pub sample4 : Cmd World Addr
  unfolding allocate mark_root change store_separators store_child fill
  sample4 = do
    root ← allocate others (interior blank_interior)
    b_9 ← allocate others (border blank_border)
    b_11 ← allocate others (border blank_border)
    b_160 ← allocate others (border blank_border)
    mark_root root
    change others (in_interior λ n. record n { n_keys = 15 }) root
    store_separators root
        (0x0100 ∷ 0x0200 ∷ 0x0300 ∷ 0x0400 ∷ 0x0500 ∷ 0x0600 ∷ 0x0700 ∷ 0x0800 ∷ 0x0900 ∷ 0x010000
          ∷ 0x010100 ∷ 0x010200 ∷ 0x010300 ∷ 0x010400 ∷ 0x010500 ∷ [])
        0
    store_child others root 0 b_9
    store_child others root 1 b_11
    store_child others root 15 b_160
    fill b_9 0 0x09 1 18
    change others (with_parent root) b_9
    fill b_11 0 0x0101 2 22
    change others (with_parent root) b_11
    fill b_160 0 0x010600 3 320
    change others (with_parent root) b_160
    pure root
