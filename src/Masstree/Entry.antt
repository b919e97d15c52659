-- ===== src/Masstree/Entry.antt =====
-- masstree/bptree.h: how the entry of a key is put in a border node, with the layers for its further
-- slices: key_insert_after_new_layer, start_new_tree, insert_into_border.
pub mod Stores
pub mod Contents
pub mod Suffixes
pub mod Layers
pub mod Shift
pub mod Inserted
use transaction_system.Base.{
  ℕ, zero, suc, ◌+◌, ◌-◌, Bool, true, false, ltb, leb, ◌&&◌, ◌==◌, if◌then◌else◌, update,
}
use transaction_system.Base.Run.{Cmd, fault, starved, pure, ◌>>=◌, ◌>>◌}
use transaction_system.Masstree.Key.{KeySlice, Key, has_next, get_current_slice, next}
use transaction_system.Masstree.Heap.{
  Addr, Others, World, BorderNode, border, blank_border, order, key_len_layer, in_border, within,
  change, allocate,
}
use transaction_system.Masstree.Search.{
  load_version, store_version, load_slice, load_len, load_lv, load_suffix, store_lv,
}

-- `assert(b)`
abbrev pub assert : {S : Type 0} → Bool → Cmd S (Unit {0})
assert b = if b then pure tt else λ s. fault

module _ (others : Others) where
  unfoldable pub store_slice : Addr → ℕ → ℕ → Cmd World (Unit {0})
  unfolding change
  store_slice p i v =
      within (order - 1) i
        (change others (in_border λ b. record b { key_slice = update b.key_slice i v }) p)

  unfoldable pub store_len : Addr → ℕ → ℕ → Cmd World (Unit {0})
  unfolding change
  store_len p i v =
      within (order - 1) i
        (change others (in_border λ b. record b { key_len = update b.key_len i v }) p)

  unfoldable pub store_suffix : Addr → ℕ → KeySlice → Cmd World (Unit {0})
  unfolding change
  store_suffix p i v =
      within (order - 1) i
        (change others (in_border λ b. record b { key_suffixes = update b.key_suffixes i v }) p)

  -- `new BorderNode; next->version.is_root = true`
  unfoldable pub new_root_border : Cmd World Addr
  unfolding allocate load_version store_version
  new_root_border = do
    p ← allocate others (border blank_border)
    v ← load_version others p
    store_version others p (record v { is_root = true })
    pure p

  -- The entry of `key` put at the i-th slot of a border node, as the source does it in three places.
  -- `further` puts what is left of the key in the next layer.
  unfoldable pub put_with :
      (Addr → Key → Cmd World (Unit {0})) → Addr → ℕ → Key → Addr → Cmd World (Unit {0})
  unfolding get_current_slice has_next next store_len store_slice store_lv store_suffix
      new_root_border
  put_with further node i key x = do
    current ← get_current_slice key
    if leb 1 current.size && leb current.size 7
        then (do
          store_len node i current.size
          store_slice node i current.slice
          store_lv others node i x)
        else (do
          assert (current.size == 8)
          if has_next key
              then (do
                store_slice node i current.slice
                (s, key₁) ← next key
                if has_next key₁
                    then (do
                      store_len node i key_len_layer
                      p ← new_root_border
                      store_lv others node i p
                      further p key₁)
                    else (do
                      store_len node i 8
                      t ← get_current_slice key₁
                      store_suffix node i t
                      store_lv others node i x))
              else (do
                store_len node i 8
                store_slice node i current.slice
                store_lv others node i x))

  -- From `next_layer` on, for as many layers as `layers`.
  unfoldable pub layer_loop : ℕ → Addr → Key → Addr → Cmd World (Unit {0})
  unfolding put_with
  layer_loop zero root k x = λ w. starved
  layer_loop (suc layers) root k x = put_with (λ p k₁. layer_loop layers p k₁ x) root 0 k x

  -- Each layer takes one slice of the key.
  unfoldable pub key_insert_after_new_layer : Addr → Key → Addr → Cmd World (Unit {0})
  unfolding load_version has_next layer_loop
  key_insert_after_new_layer root k x = do
    v ← load_version others root
    assert v.is_root
    assert (has_next k)
    layer_loop (k.size - k.cursor) root k x

  -- The entry of `key` as start_new_tree (at the slot 0) and insert_into_border put it.
  unfoldable pub put_entry : Addr → ℕ → Key → Addr → Cmd World (Unit {0})
  unfolding put_with key_insert_after_new_layer
  put_entry node i key x = put_with (λ p k₁. key_insert_after_new_layer p k₁ x) node i key x

  unfoldable pub start_new_tree : Key → Addr → Cmd World Addr
  unfolding new_root_border put_entry
  start_new_tree key x = do root ← new_root_border; put_entry root 0 key x; pure root

  -- `numberOfKeys`: its loop from the i-th slot on, `n` slots.
  unfoldable pub count_keys : Addr → ℕ → ℕ → Cmd World ℕ
  unfolding load_len
  count_keys p zero i = pure i
  count_keys p (suc n) i = do
    l ← load_len others p i
    if ltb 0 l then count_keys p n (i + 1) else pure i

  unfoldable pub number_of_keys : Addr → Cmd World ℕ
  unfolding count_keys
  number_of_keys p = count_keys p (order - 1) 0

  unfoldable pub has_space : Addr → Cmd World Bool
  unfolding load_len
  has_space p = do l ← load_len others p (order - 2); pure (l == 0)

  -- `while (i < num_keys && border->key_slice[i] < current.slice)`, `n` keys from the i-th.
  unfoldable pub scan_slices : Addr → ℕ → ℕ → ℕ → Cmd World ℕ
  unfolding load_slice
  scan_slices p slice zero i = pure i
  scan_slices p slice (suc n) i = do
    s ← load_slice others p i
    if ltb s slice then scan_slices p slice n (i + 1) else pure i

  -- `for(size_t i = num_keys; i > insertion_point; --i)`, `n` entries below the i-th slot.
  unfoldable pub move_up : Addr → ℕ → ℕ → Cmd World (Unit {0})
  unfolding load_len load_slice load_lv store_len store_slice store_lv
  move_up p zero i = pure tt
  move_up p (suc n) i = do
    l ← load_len others p (i - 1)
    store_len p i l
    s ← load_slice others p (i - 1)
    store_slice p i s
    v ← load_lv others p (i - 1)
    store_lv others p i v
    move_up p n (i - 1)

  unfoldable pub insert_into_border : Addr → Key → Addr → Cmd World (Unit {0})
  insert_into_border p key x = do
    num_keys ← number_of_keys p
    current ← get_current_slice key
    insertion_point ← scan_slices p current.slice num_keys 0
    move_up p (num_keys - insertion_point) num_keys
    put_entry p insertion_point key x
