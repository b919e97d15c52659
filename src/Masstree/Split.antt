-- ===== src/Masstree/Split.antt =====
-- masstree/bptree.h: split_keys_among, for a border and for an interior node.
use transaction_system.Base.{
  ℕ, zero, suc, ◌+◌, ◌-◌, ◌%◌, ◌^◌, none, ltb, leb, ◌&&◌, ◌==◌, if◌then◌else◌, update,
}
use transaction_system.Base.Run.{Cmd, fault, pure, ◌>>=◌, ◌>>◌}
use transaction_system.BpTree.Heap.{Array, load, save}
use transaction_system.BpTree.Search.{cut}
use transaction_system.Masstree.Key.{KeySlice, no_slice, Key, has_next, get_current_slice, next}
use transaction_system.Masstree.Heap.{
  Addr, Others, World, order, key_len_layer, in_border, in_interior, with_parent, within, change,
}
use transaction_system.Masstree.Search.{
  load_parent, load_slice, load_len, load_lv, load_suffix, load_next, store_lv, load_n_keys,
  load_separator, load_child,
}
use transaction_system.Masstree.Entry.{
  assert, store_slice, store_len, store_suffix, new_root_border, key_insert_after_new_layer,
  number_of_keys, scan_slices,
}

-- The temporary arrays of a border node that overflows, each of `order` cells.
pub record Temps : Type 0 where
  pub len : ℕ → ℕ
  pub slice : ℕ → ℕ
  pub lv : ℕ → Addr
  pub suffix : ℕ → KeySlice

-- They are initialised.
abbrev pub no_entries : Temps
no_entries = record { len = λ i. 0; slice = λ i. 0; lv = λ i. 0; suffix = λ i. no_slice }

module _ (others : Others) where
  -- `for(size_t i = 0, j = 0; i < n->numberOfKeys(); ++i, ++j)`; the count is taken each round.
  unfoldable pub copy_entries : ℕ → Addr → ℕ → ℕ → ℕ → Temps → Cmd World Temps
  unfolding number_of_keys load_len load_slice load_lv load_suffix
  copy_entries zero n insertion_index i j t = λ w. fault
  copy_entries (suc rest) n insertion_index i j t = do
    count ← number_of_keys others n
    if ltb i count
        then (do
          let to = if j == insertion_index then j + 1 else j
          l ← load_len others n i
          s ← load_slice others n i
          v ← load_lv others n i
          x ← load_suffix others n i
          t₁ ← within order to (
              pure (record {
                len = update t.len to l;
                slice = update t.slice to s;
                lv = update t.lv to v;
                suffix = update t.suffix to x;
              }))
          copy_entries rest n insertion_index (i + 1) (to + 1) t₁)
        else pure t

  -- The entry of `k` put in the temporary arrays at the i-th place.
  unfoldable pub add_entry : ℕ → Key → Addr → Temps → Cmd World Temps
  unfolding get_current_slice has_next next new_root_border key_insert_after_new_layer
  add_entry i k x t = do
    current ← get_current_slice k
    if leb 1 current.size && leb current.size 7
        then pure (record t {
          len = update t.len i current.size;
          slice = update t.slice i current.slice;
          lv = update t.lv i x;
        })
        else (do
          assert (current.size == 8)
          if has_next k
              then (do
                let t₁ : Temps = record t { slice = update t.slice i current.slice }
                (s, k₁) ← next k
                if has_next k₁
                    then (do
                      p ← new_root_border others
                      key_insert_after_new_layer others p k₁ x
                      pure (record t₁ { len = update t.len i key_len_layer; lv = update t.lv i p }))
                    else (do
                      y ← get_current_slice k₁
                      pure (record t₁ {
                        len = update t.len i 8;
                        suffix = update t.suffix i y;
                        lv = update t.lv i x;
                      })))
              else pure (record t {
                len = update t.len i 8;
                slice = update t.slice i current.slice;
                lv = update t.lv i x;
              }))

  -- The four `std::fill` of one node.
  unfoldable pub clear_border : Addr → Cmd World (Unit {0})
  unfolding change
  clear_border p = do
    change others (in_border λ b. record b { key_len = λ i. 0 }) p
    change others (in_border λ b. record b { key_slice = λ i. 0 }) p
    change others (in_border λ b. record b { lv = λ i. 0 }) p
    change others (in_border λ b. record b { key_suffixes = λ i. no_slice }) p

  -- `n` entries of the temporary arrays from the i-th, stored in a node from the j-th slot on.
  unfoldable pub store_entries : Addr → Temps → ℕ → ℕ → ℕ → Cmd World (Unit {0})
  unfolding store_len store_slice store_lv store_suffix
  store_entries p t zero i j = pure tt
  store_entries p t (suc n) i j = do
    store_len others p j (t.len i)
    store_slice others p j (t.slice i)
    store_lv others p j (t.lv i)
    store_suffix others p j (t.suffix i)
    store_entries p t n (i + 1) (j + 1)

  unfoldable pub split_border : (n n1 : Addr) → Key → Addr → Cmd World (Unit {0})
  unfolding get_current_slice scan_slices copy_entries add_entry clear_border cut store_entries
      load_next load_parent change
  split_border n n1 k x = do
    current ← get_current_slice k
    insertion_index ← scan_slices others n current.slice (order - 1) 0
    t ← copy_entries (order + 1) n insertion_index 0 0 no_entries
    t₁ ← add_entry insertion_index k x t
    clear_border n
    clear_border n1
    let split = cut (order - 1)
    store_entries n t₁ split 0 0
    store_entries n1 t₁ (order - split) split 0
    after ← load_next others n
    change others (in_border λ b. record b { next = after }) n1
    change others (in_border λ b. record b { next = n1 }) n
    change others (in_border λ b. record b { prev = n }) n1
    p ← load_parent others n
    change others (with_parent p) n1

  unfoldable pub store_separator : Addr → ℕ → ℕ → Cmd World (Unit {0})
  unfolding change
  store_separator p i v =
      within (order - 1) i
        (change others (in_interior λ n. record n { key_slice = update n.key_slice i v }) p)

  unfoldable pub store_child : Addr → ℕ → Addr → Cmd World (Unit {0})
  unfolding change
  store_child p i c =
      within order i (change others (in_interior λ n. record n { child = update n.child i c }) p)

  -- `++p->n_keys`, in eight bits
  unfoldable pub count_up : Addr → Cmd World (Unit {0})
  unfolding change
  count_up p = change others (in_interior λ n. record n { n_keys = (n.n_keys + 1) % 2 ^ 8 }) p

  -- `for(size_t i = 0, j = 0; i < p->n_keys + 1; ++i, ++j)`, and the loop over the keys.
  unfoldable pub copy_children : ℕ → Addr → ℕ → ℕ → ℕ → Array → Cmd World Array
  unfolding load_n_keys load_child save
  copy_children zero p insertion_index i j temp = λ w. fault
  copy_children (suc rest) p insertion_index i j temp = do
    n_keys ← load_n_keys others p
    if ltb i (n_keys + 1)
        then (do
          let to = if j == insertion_index + 1 then j + 1 else j
          c ← load_child others p i
          temp₁ ← save (order + 1) temp to c
          copy_children rest p insertion_index (i + 1) (to + 1) temp₁)
        else pure temp

  unfoldable pub copy_separators : ℕ → Addr → ℕ → ℕ → ℕ → Array → Cmd World Array
  unfolding load_n_keys load_separator save
  copy_separators zero p insertion_index i j temp = λ w. fault
  copy_separators (suc rest) p insertion_index i j temp = do
    n_keys ← load_n_keys others p
    if ltb i n_keys
        then (do
          let to = if j == insertion_index then j + 1 else j
          k ← load_separator others p i
          temp₁ ← save order temp to k
          copy_separators rest p insertion_index (i + 1) (to + 1) temp₁)
        else pure temp

  -- `n` children and keys of the temporary arrays from the i-th, stored from the j-th on and counted.
  unfoldable pub store_children : Addr → Array → Array → ℕ → ℕ → ℕ → Cmd World (Unit {0})
  unfolding load store_child store_separator count_up
  store_children p children keys zero i j = pure tt
  store_children p children keys (suc n) i j = do
    c ← load (order + 1) children i
    store_child p j c
    k ← load order keys i
    store_separator p j k
    count_up p
    store_children p children keys n (i + 1) (j + 1)

  -- `for(i = 0; i <= p1->n_keys; ++i) p1->child[i]->parent = p1;`
  unfoldable pub adopt_children : ℕ → Addr → ℕ → Cmd World (Unit {0})
  unfolding load_n_keys load_child change
  adopt_children zero p1 i = λ w. fault
  adopt_children (suc rest) p1 i = do
    n_keys ← load_n_keys others p1
    if leb i n_keys
        then (do
          c ← load_child others p1 i
          change others (with_parent p1) c
          adopt_children rest p1 (i + 1))
        else pure tt

  -- `while (i < n && p->key_slice[i] < slice)`, `n` keys of an interior node from the i-th.
  unfoldable pub scan_separators : Addr → ℕ → ℕ → ℕ → Cmd World ℕ
  unfolding load_separator
  scan_separators p slice zero i = pure i
  scan_separators p slice (suc n) i = do
    k ← load_separator others p i
    if ltb k slice then scan_separators p slice n (i + 1) else pure i

  unfoldable pub split_interior : (p p1 : Addr) → KeySlice → Addr → Cmd World (Unit {0})
  unfolding scan_separators copy_children copy_separators save load cut store_children store_child
      load_parent change adopt_children
  split_interior p p1 slice n1 = do
    insertion_index ← scan_separators p slice.slice (order - 1) 0
    children ← copy_children (order + 1) p insertion_index 0 0 (λ i. none)
    keys ← copy_separators (order + 1) p insertion_index 0 0 (λ i. none)
    children₁ ← save (order + 1) children (insertion_index + 1) n1
    keys₁ ← save order keys insertion_index slice.slice
    change others (in_interior λ n. record n { n_keys = 0 }) p
    let split = cut order
    store_children p children₁ keys₁ (split - 1) 0 0
    c ← load (order + 1) children₁ (split - 1)
    store_child p (split - 1) c
    store_children p1 children₁ keys₁ (order - split) split 0
    d ← load (order + 1) children₁ order
    store_child p1 (order - split) d
    q ← load_parent others p
    change others (with_parent q) p1
    adopt_children (order + 1) p1 0
