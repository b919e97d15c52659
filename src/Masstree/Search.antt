-- ===== src/Masstree/Search.antt =====
-- The readers of masstree/masstree.h: stableVersion, lock, unlock, lockedParent, findChild,
-- findBorder, extractLinkOrValueFor, get and write. A loop that may wait for another thread, or start
-- again, takes a number of turns.
pub mod Gives
pub mod Reads
use transaction_system.Base.{
  ℕ, zero, suc, ◌+◌, ◌-◌, true, ◌&&◌, ◌||◌, not, ltb, ◌==◌, if◌then◌else◌, update,
}
use transaction_system.Base.Run.{Cmd, fault, starved, pure, ◌>>=◌, ◌>>◌}
use transaction_system.Masstree.Version.{Version, unlocked}
use transaction_system.Masstree.Key.{KeySlice, Key, has_next, get_current_slice, next}
use transaction_system.Masstree.Heap.{
  Addr, Others, World, order, key_len_layer, key_len_unstable, version_of, parent_of, with_version,
  border_part, interior_part, in_border, within, look, change,
}

pub data ExtractResult : Type 0 where
  not_found : ExtractResult
  value : ExtractResult
  layer : ExtractResult
  unstable : ExtractResult

-- What extractLinkOrValueWithIndexFor returns.
pub record Extract : Type 0 where
  pub result : ExtractResult
  pub lv : Addr
  pub index : ℕ

abbrev pub nothing_found : Extract
nothing_found = record { result = not_found; lv = 0; index = 0 }

module _ (others : Others) where
  unfoldable pub load_version : Addr → Cmd World Version
  unfolding look
  load_version p = look others version_of p

  unfoldable pub store_version : Addr → Version → Cmd World (Unit {0})
  unfolding change
  store_version p v = change others (with_version v) p

  unfoldable pub load_parent : Addr → Cmd World Addr
  unfolding look
  load_parent p = look others parent_of p

  unfoldable pub stable_version : ℕ → Addr → Cmd World Version
  unfolding load_version
  stable_version zero n = λ w. starved
  stable_version (suc turns) n = do
    v ← load_version n
    if v.inserting || v.splitting then stable_version turns n else pure v

  unfoldable pub lock : Addr → Cmd World (Unit {0})
  unfolding load_version store_version
  lock n =
      if n == 0
      then pure tt
      else (do v ← load_version n; store_version n (record v { locked = true }))

  unfoldable pub unlock : Addr → Cmd World (Unit {0})
  unfolding load_version store_version unlocked
  unlock n = do v ← load_version n; store_version n (unlocked v)

  unfoldable pub locked_parent : ℕ → Addr → Cmd World Addr
  unfolding load_parent lock unlock
  locked_parent zero n = λ w. starved
  locked_parent (suc turns) n = do
    p ← load_parent n
    lock p
    q ← load_parent n
    if not (p == q) then (do unlock p; locked_parent turns n) else pure p

  -- `key_slice[i]`, `key_len[i]`, `lv[i]`, `key_suffixes.get(i)` of the border node at `p`.
  unfoldable pub load_slice : Addr → ℕ → Cmd World ℕ
  unfolding look
  load_slice p i = within (order - 1) i (look others (border_part λ b. b.key_slice i) p)

  unfoldable pub load_len : Addr → ℕ → Cmd World ℕ
  unfolding look
  load_len p i = within (order - 1) i (look others (border_part λ b. b.key_len i) p)

  unfoldable pub load_lv : Addr → ℕ → Cmd World Addr
  unfolding look
  load_lv p i = within (order - 1) i (look others (border_part λ b. b.lv i) p)

  unfoldable pub load_suffix : Addr → ℕ → Cmd World KeySlice
  unfolding look
  load_suffix p i = within (order - 1) i (look others (border_part λ b. b.key_suffixes i) p)

  unfoldable pub load_next : Addr → Cmd World Addr
  unfolding look
  load_next p = look others (border_part λ b. b.next) p

  unfoldable pub store_lv : Addr → ℕ → Addr → Cmd World (Unit {0})
  unfolding change
  store_lv p i v =
      within (order - 1) i (change others (in_border λ b. record b { lv = update b.lv i v }) p)

  unfoldable pub load_n_keys : Addr → Cmd World ℕ
  unfolding look
  load_n_keys p = look others (interior_part λ n. n.n_keys) p

  unfoldable pub load_separator : Addr → ℕ → Cmd World ℕ
  unfolding look
  load_separator p i = within (order - 1) i (look others (interior_part λ n. n.key_slice i) p)

  unfoldable pub load_child : Addr → ℕ → Cmd World Addr
  unfolding look
  load_child p i = within order i (look others (interior_part λ n. n.child i) p)

  -- The loop of findChild from the i-th key on. A node has fewer than `order` keys.
  unfoldable pub find_child_loop : ℕ → Addr → KeySlice → ℕ → Cmd World Addr
  unfolding load_n_keys load_separator load_child
  find_child_loop zero p slice i = λ w. fault
  find_child_loop (suc rest) p slice i = do
    n_keys ← load_n_keys p
    if ltb i n_keys
        then (do
          k ← load_separator p i
          if ltb slice.slice k then load_child p i else find_child_loop rest p slice (i + 1))
        else load_child p n_keys

  unfoldable pub find_child : Addr → KeySlice → Cmd World Addr
  unfolding find_child_loop
  find_child p slice = find_child_loop order p slice 0

  -- `for(size_t i = 0; i < ORDER - 1; ++i)` where the key has no next slice, `n` rounds from `i`.
  unfoldable pub extract_last : Addr → KeySlice → ℕ → ℕ → Cmd World Extract
  unfolding load_slice load_len load_lv
  extract_last p current zero i = pure nothing_found
  extract_last p current (suc n) i = do
    s ← load_slice p i
    l ← (if s == current.slice then load_len p i else pure 0)
    if s == current.slice && l == current.size
        then (do v ← load_lv p i; pure (record { result = value; lv = v; index = i }))
        else extract_last p current n (i + 1)

  -- The slot of a key of length 8: its suffix is compared with the next slice.
  unfoldable pub extract_suffix : Addr → Key → ℕ → Cmd World Extract
  unfolding load_suffix load_lv next
  extract_suffix p key i = do
    x ← load_suffix p i
    (y, moved) ← next key
    if x.slice == y.slice
        then (do v ← load_lv p i; pure (record { result = value; lv = v; index = i }))
        else pure nothing_found

  -- The same loop where the key has a next slice.
  unfoldable pub extract_more : Addr → Key → KeySlice → ℕ → ℕ → Cmd World Extract
  unfolding load_slice load_len load_lv extract_suffix
  extract_more p key current zero i = pure nothing_found
  extract_more p key current (suc n) i = do
    s ← load_slice p i
    if not (s == current.slice) then extract_more p key current n (i + 1) else (do
      l₁ ← load_len p i
      if l₁ == 8 then extract_suffix p key i else (do
        l₂ ← load_len p i
        if l₂ == key_len_layer
            then (do v ← load_lv p i; pure (record { result = layer; lv = v; index = i }))
            else (do
              l₃ ← load_len p i
              if l₃ == key_len_unstable
                  then pure (record { result = unstable; lv = 0; index = 0 })
                  else extract_more p key current n (i + 1))))

  unfoldable pub extract_with_index : Addr → Key → Cmd World Extract
  unfolding get_current_slice has_next
  extract_with_index p key = do
    current ← get_current_slice key
    if not (has_next key)
        then extract_last p current (order - 1) 0
        else extract_more p key current (order - 1) 0
