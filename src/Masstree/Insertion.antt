-- ===== src/Masstree/Insertion.antt =====
-- masstree/bptree.h: create_root_with_children, insert_into_parent, split, insert.
pub mod Readable
use transaction_system.Base.{
  ℕ, zero, suc, ◌+◌, ◌-◌, Bool, true, false, ltb, not, ◌==◌, if◌then◌else◌,
}
use transaction_system.Base.Run.{Cmd, starved, pure, ◌>>=◌, ◌>>◌}
use transaction_system.Masstree.Key.{KeySlice, Key, get_current_slice}
use transaction_system.Masstree.Heap.{
  Addr, Others, World, border, interior, blank_border, blank_interior, order, in_interior,
  with_parent, change, allocate,
}
use transaction_system.Masstree.Search.{
  load_version, store_version, lock, unlock, locked_parent, load_n_keys, load_separator, load_child,
}
use transaction_system.Masstree.Access.{find_border, write}
use transaction_system.Masstree.Entry.{assert, start_new_tree, has_space, insert_into_border}
use transaction_system.Masstree.Split.{
  split_border, split_interior, store_separator, store_child, count_up,
}

module _ (others : Others) where
  unfoldable pub create_root_with_children :
      (left : Addr) → KeySlice → (right : Addr) → Cmd World Addr
  unfolding allocate load_version store_version change store_separator store_child
  create_root_with_children left slice right = do
    root ← allocate others (interior blank_interior)
    v ← load_version others root
    store_version others root (record v { is_root = true })
    change others (in_interior λ n. record n { n_keys = 1 }) root
    store_separator others root 0 slice.slice
    store_child others root 0 left
    store_child others root 1 right
    change others (with_parent root) left
    change others (with_parent root) right
    pure root

  -- `while(i < p->n_keys && p->key_slice[i] < slice.slice)`; `n_keys` is loaded each round.
  unfoldable pub find_place : ℕ → Addr → ℕ → ℕ → Cmd World ℕ
  unfolding load_n_keys load_separator
  find_place zero p slice i = pure i
  find_place (suc rest) p slice i = do
    n_keys ← load_n_keys others p
    if ltb i n_keys
        then (do
          k ← load_separator others p i
          if ltb k slice then find_place rest p slice (i + 1) else pure i)
        else pure i

  -- `for(size_t i = p->n_keys; i > insertion_index; --i)`, `n` rounds.
  unfoldable pub move_right : Addr → ℕ → ℕ → Cmd World (Unit {0})
  unfolding load_child load_separator store_child store_separator
  move_right p zero i = pure tt
  move_right p (suc n) i = do
    c ← load_child others p i
    store_child others p (i + 1) c
    k ← load_separator others p (i - 1)
    store_separator others p i k
    move_right p n (i - 1)

  unfoldable pub insert_into_parent : (p n1 : Addr) → KeySlice → Cmd World (Unit {0})
  unfolding find_place load_n_keys move_right store_child store_separator count_up
  insert_into_parent p n1 slice = do
    insertion_index ← find_place order p slice.slice 0
    n_keys ← load_n_keys others p
    move_right p (n_keys - insertion_index) n_keys
    store_child others p (insertion_index + 1) n1
    store_separator others p insertion_index slice.slice
    count_up others p

  unfoldable pub is_not_full : Addr → Cmd World Bool
  unfolding load_n_keys
  is_not_full p = do n_keys ← load_n_keys others p; pure (not (n_keys == order - 1))

module _ (others : Others) (spin : ℕ) where
  -- From `ascend` on; 0 stands for the nullptr that split returns where the root stays.
  unfoldable pub ascend : ℕ → (n n1 : Addr) → KeySlice → Cmd World Addr
  unfolding locked_parent create_root_with_children unlock is_not_full load_version store_version
      insert_into_parent allocate split_interior
  ascend zero n n1 slice = λ w. starved
  ascend (suc levels) n n1 slice = do
    p ← locked_parent others spin n
    if p == 0
        then (do
          root ← create_root_with_children others n slice n1
          unlock others n
          unlock others n1
          pure root)
        else (do
          room ← is_not_full others p
          if room
              then (do
                v ← load_version others p
                store_version others p (record v { inserting = true })
                insert_into_parent others p n1 slice
                unlock others n
                unlock others n1
                unlock others p
                pure 0)
              else (do
                v ← load_version others p
                store_version others p (record v { splitting = true })
                unlock others n
                p1 ← allocate others (interior blank_interior)
                u ← load_version others p
                store_version others p1 u
                split_interior others p p1 slice n1
                unlock others n1
                ascend levels p p1 slice))

  unfoldable pub split : ℕ → Addr → Key → Addr → Cmd World Addr
  unfolding load_version allocate store_version get_current_slice split_border ascend
  split levels n k x = do
    v ← load_version others n
    assert v.locked
    n1 ← allocate others (border blank_border)
    v₁ ← load_version others n
    store_version others n (record v₁ { is_root = false })
    v₂ ← load_version others n
    store_version others n (record v₂ { splitting = true })
    v₃ ← load_version others n
    store_version others n1 v₃
    slice ← get_current_slice k
    split_border others n n1 k x
    ascend levels n n1 slice

  -- `turns` for each search, `levels` for the ascent; the root to use from then on.
  unfoldable pub insert : (turns levels : ℕ) → Addr → Key → Addr → Cmd World Addr
  insert turns levels root key x = if root == 0 then start_new_tree others key x else (do
    found ← write others spin turns root key x
    if found then pure root else (do
      (p, v) ← find_border others spin turns root key
      room ← has_space others p
      if room then (do insert_into_border others p key x; pure root) else (do
        lock others p
        new_root ← split levels p key x
        pure (if new_root == 0 then root else new_root))))
