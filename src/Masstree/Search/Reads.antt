-- ===== src/Masstree/Search/Reads.antt =====
-- The loads of the readers of masstree/masstree.h and how they are put together: they store nothing,
-- whatever the other threads do.
use transaction_system.Base.{
  ℕ, zero, suc, ◌+◌, refl, ◌||◌, not, ◌==◌, Bool-cases, inl, inr, ltb, Option, ◌&&◌, ◌-◌,
}
use transaction_system.Base.Lists.{get_elem?}
use transaction_system.Base.Run.{Cmd, when, when_fault}
use transaction_system.Masstree.Key.{KeySlice, Key, has_next, slice_at, get_current_slice, next}
use transaction_system.Masstree.Heap.{
  Addr, Object, Others, World, order, within, look, version_of, parent_of, border_part,
  interior_part, key_len_layer, key_len_unstable,
}
use transaction_system.Masstree.Search.{
  load_version, load_parent, stable_version, load_slice, load_len, load_lv, load_suffix, load_next,
  load_n_keys, load_separator, load_child, find_child_loop, find_child, extract_last,
  extract_suffix, extract_more, extract_with_index,
}
use transaction_system.Masstree.Search.Gives.{
  Gives, Reads, IsStable, Option-cases, or-false, followed_by, either, gives, waits, fails,
}

module _ (others : Others) where
  look-Reads : {A : Type 0} (f : Object → Option A) (p : Addr) → Reads others (look others f p)
  unfolding look
  look-Reads f p = record {
    run = λ w. elim (Option-cases (f ((others w.turn w.memory).object p))) [
      | inl gone ↦ rw (gone, look) when_fault
      | inr (a, there) ↦ rw (there, look) (when (tt, (1, refl)))
    ];
  }

  within-Reads :
      {A : Type 0} {f : Cmd World A} (size i : ℕ) → Reads others f → Reads others (within size i f)
  within-Reads size i g = record {
    run = λ w. elim (Bool-cases (ltb i size)) [
      | inl inside ↦ rw inside (g.run w)
      | inr outside ↦ rw outside when_fault
    ];
  }

  slice_at-Reads : (k : Key) (i : ℕ) → Reads others (slice_at k i)
  unfolding slice_at
  slice_at-Reads k i = record {
    run = λ w. elim (Option-cases (get_elem? k.body i)) [
      | inl gone ↦ rw (gone, slice_at) when_fault
      | inr (a, there) ↦ rw (there, slice_at) (when (tt, (zero, refl)))
    ];
  }

  pub get_current_slice-Reads : (k : Key) → Reads others (get_current_slice k)
  unfolding get_current_slice
  get_current_slice-Reads k = slice_at-Reads k k.cursor

  pub next-Reads : (k : Key) → Reads others (next k)
  unfolding next
  next-Reads k =
      either others (has_next k)
        (λ _.
          followed_by others (slice_at-Reads (record k { cursor = k.cursor + 1 }) (k.cursor + 1))
            λ s _. gives others _ tt)
        (λ _. fails others)

  pub load_version-Reads : (p : Addr) → Reads others (load_version others p)
  unfolding load_version
  load_version-Reads p = look-Reads version_of p

  pub load_parent-Reads : (p : Addr) → Reads others (load_parent others p)
  unfolding load_parent
  load_parent-Reads p = look-Reads parent_of p

  pub load_next-Reads : (p : Addr) → Reads others (load_next others p)
  unfolding load_next
  load_next-Reads p = look-Reads (border_part λ b. b.next) p

  load_lv-Reads : (p : Addr) (i : ℕ) → Reads others (load_lv others p i)
  unfolding load_lv
  load_lv-Reads p i = within-Reads (order - 1) i (look-Reads (border_part λ b. b.lv i) p)

  load_len-Reads : (p : Addr) (i : ℕ) → Reads others (load_len others p i)
  unfolding load_len
  load_len-Reads p i = within-Reads (order - 1) i (look-Reads (border_part λ b. b.key_len i) p)

  load_slice-Reads : (p : Addr) (i : ℕ) → Reads others (load_slice others p i)
  unfolding load_slice
  load_slice-Reads p i = within-Reads (order - 1) i (look-Reads (border_part λ b. b.key_slice i) p)

  load_suffix-Reads : (p : Addr) (i : ℕ) → Reads others (load_suffix others p i)
  unfolding load_suffix
  load_suffix-Reads p i =
      within-Reads (order - 1) i (look-Reads (border_part λ b. b.key_suffixes i) p)

  load_child-Reads : (p : Addr) (i : ℕ) → Reads others (load_child others p i)
  unfolding load_child
  load_child-Reads p i = within-Reads order i (look-Reads (interior_part λ n. n.child i) p)

  load_separator-Reads : (p : Addr) (i : ℕ) → Reads others (load_separator others p i)
  unfolding load_separator
  load_separator-Reads p i =
      within-Reads (order - 1) i (look-Reads (interior_part λ n. n.key_slice i) p)

  load_n_keys-Reads : (p : Addr) → Reads others (load_n_keys others p)
  unfolding load_n_keys
  load_n_keys-Reads p = look-Reads (interior_part λ n. n.n_keys) p

  pub stable_version-IsStable :
      (turns : ℕ) (p : Addr) → Gives others IsStable (stable_version others turns p)
  unfolding stable_version
  stable_version-IsStable zero p = waits others
  stable_version-IsStable (suc turns) p = followed_by others (load_version-Reads p) λ v _.
      either others (v.inserting || v.splitting) (λ _. stable_version-IsStable turns p)
        (λ free. gives others v (or-false v.inserting v.splitting free))

  find_child_loop-Reads :
      (rest : ℕ) (p : Addr) (s : KeySlice) (i : ℕ)
      → Reads others (find_child_loop others rest p s i)
  unfolding find_child_loop
  find_child_loop-Reads zero p s i = fails others
  find_child_loop-Reads (suc rest) p s i = followed_by others (load_n_keys-Reads p) λ n _.
      either others (ltb i n)
        (λ _. followed_by others (load_separator-Reads p i) λ k _.
          either others (ltb s.slice k) (λ _. load_child-Reads p i)
            (λ _. find_child_loop-Reads rest p s (i + 1)))
        (λ _. load_child-Reads p n)

  pub find_child-Reads : (p : Addr) (s : KeySlice) → Reads others (find_child others p s)
  unfolding find_child
  find_child-Reads p s = find_child_loop-Reads order p s 0

  extract_last-Reads :
      (p : Addr) (s : KeySlice) (n i : ℕ) → Reads others (extract_last others p s n i)
  unfolding extract_last
  extract_last-Reads p s zero i = gives others _ tt
  extract_last-Reads p s (suc n) i = followed_by others (load_slice-Reads p i) λ x _.
      followed_by others
        (either others (x == s.slice) (λ _. load_len-Reads p i) (λ _. gives others 0 tt))
        λ l _.
          either others (x == s.slice && l == s.size)
            (λ _. followed_by others (load_lv-Reads p i) λ v _. gives others _ tt)
            (λ _. extract_last-Reads p s n (i + 1))

  extract_suffix-Reads : (p : Addr) (k : Key) (i : ℕ) → Reads others (extract_suffix others p k i)
  unfolding extract_suffix
  extract_suffix-Reads p k i = followed_by others (load_suffix-Reads p i) λ x _.
      followed_by others (next-Reads k) λ y _.
        either others (x.slice == y.0.slice)
          (λ _. followed_by others (load_lv-Reads p i) λ v _. gives others _ tt)
          (λ _. gives others _ tt)

  extract_more-Reads :
      (p : Addr) (k : Key) (s : KeySlice) (n i : ℕ) → Reads others (extract_more others p k s n i)
  unfolding extract_more
  extract_more-Reads p k s zero i = gives others _ tt
  extract_more-Reads p k s (suc n) i = followed_by others (load_slice-Reads p i) λ x _.
      either others (not (x == s.slice)) (λ _. extract_more-Reads p k s n (i + 1))
        (λ _. followed_by others (load_len-Reads p i) λ l₁ _.
          either others (l₁ == 8) (λ _. extract_suffix-Reads p k i)
            (λ _. followed_by others (load_len-Reads p i) λ l₂ _.
              either others (l₂ == key_len_layer)
                (λ _. followed_by others (load_lv-Reads p i) λ v _. gives others _ tt)
                (λ _. followed_by others (load_len-Reads p i) λ l₃ _.
                  either others (l₃ == key_len_unstable) (λ _. gives others _ tt)
                    (λ _. extract_more-Reads p k s n (i + 1)))))

  pub extract_with_index-Reads : (p : Addr) (k : Key) → Reads others (extract_with_index others p k)
  unfolding extract_with_index
  extract_with_index-Reads p k = followed_by others (get_current_slice-Reads k) λ s _.
      either others (not (has_next k)) (λ _. extract_last-Reads p s (order - 1) 0)
        (λ _. extract_more-Reads p k s (order - 1) 0)
