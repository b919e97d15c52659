-- ===== src/Masstree/Tests.antt =====
-- Runs of masstree/ at concrete keys by one thread alone, and the theorems at concrete nodes.
mod Among
use transaction_system.Masstree.Entry.Inserted.{Inserted, insert_into_border-Inserted}
use transaction_system.Masstree.Insertion.Readable.{insert-get, has_room}
use transaction_system.Base.{
  ℕ, ◌+◌, ◌≡◌, refl, true, List, [], ◌∷◌, arith, update, ltb, if◌then◌else◌, Bool-cases, inl, inr,
}
use transaction_system.Base.Lists.{length}
use transaction_system.Base.Run.{Run, Cmd, ok, fault, starved, pure, ◌>>=◌, Returns}
use transaction_system.Masstree.Version.{blank_version, body, low_body, unchanged}
use transaction_system.Masstree.Version.Check.{unchanged-locked_alike}
use transaction_system.Masstree.Key.{KeySlice, Key}
use transaction_system.Masstree.Heap.{Heap, World, Addr, BorderNode, border, absent, blank_border}
use transaction_system.Masstree.Alone.{alone, world}
use transaction_system.Masstree.Search.{
  load_version, extract_last, extract_more, extract_with_index, store_lv, lock,
}
use transaction_system.Masstree.Access.{find_border, walk_on, get_loop, get, write_loop, write}
use transaction_system.Masstree.Access.LeftBehind.{insert_into_border-loses}
use transaction_system.Masstree.Entry.{
  number_of_keys, scan_slices, move_up, put_entry, start_new_tree, has_space, insert_into_border,
}
use transaction_system.Masstree.Entry.Contents.{root_version}
use transaction_system.Masstree.Insertion.{split, insert}
use transaction_system.Masstree.Samples.{sample1, sample2, sample3, sample4}

abbrev nothing : World
nothing = world (record { object = λ p. absent; fresh = 1 }) 0

abbrev empty : Heap
empty = record { object = λ p. absent; fresh = 1 }

-- The result of a run that returns.
abbrev result : Run World ℕ → ℕ
result (ok a w) = a
result fault = 1_000_000
result starved = 2_000_000

abbrev pub sl : ℕ → ℕ → KeySlice
sl s n = record { slice = s; size = n }

abbrev pub key_of : List KeySlice → Key
key_of ss = record { body = ss; size = length ss; cursor = 0 }

abbrev short : ℕ → Key
short s = key_of (sl s 1 ∷ [])

read_it : Key → Addr → Cmd World Addr
unfolding get get_loop find_border unchanged body low_body walk_on load_version extract_with_index
    extract_last extract_more
read_it k r = get alone 2 9 r k

put_it : Key → Addr → Addr → Cmd World Addr
unfolding insert start_new_tree write write_loop find_border unchanged body low_body walk_on
    load_version extract_with_index extract_last extract_more store_lv has_space insert_into_border
    number_of_keys scan_slices move_up put_entry lock split
put_it k x r = insert alone 2 9 9 r k x

put_all : List (Key × Addr) → Addr → Cmd World Addr
unfolding put_it
put_all [] r = pure r
put_all ((k, x) ∷ ks) r = do r₁ ← put_it k x r; put_all ks r₁

read_sample1 :
    result ((do r ← sample1 alone; read_it (key_of (sl 0x0102030405060708 8 ∷ [])) r) nothing) ≡ 2
unfolding sample1 read_it
read_sample1 = refl

read_sample2 :
    result (
      (do r ← sample2 alone; read_it (key_of (sl 0x0001020304050607 8 ∷ sl 0x0A0B 2 ∷ [])) r)
        nothing)
    ≡ 1
unfolding sample2 read_it
read_sample2 = refl

read_sample3 :
    result (
      (do r ← sample3 alone; read_it (key_of (sl 0x0001020304050607 8 ∷ sl 0x0C0D 2 ∷ [])) r)
        nothing)
    ≡ 2
unfolding sample3 read_it
read_sample3 = refl

read_sample4 :
    result ((do r ← sample4 alone; read_it (key_of (sl 0x010600 3 ∷ [])) r) nothing) ≡ 320
unfolding sample4 read_it
read_sample4 = refl

-- Inserted in any order, found again; a second insertion overwrites.
read_overwritten :
    result (
      (do
        r ← put_all ((short 5, 50) ∷ (short 3, 30) ∷ (short 8, 80) ∷ (short 5, 51) ∷ []) 0
        read_it (short 5) r)
        nothing)
    ≡ 51
unfolding put_all read_it
read_overwritten = refl

-- Two keys with one first slice: the second hides the first.
read_hidden :
    result (
      (do
        r ←
            put_all
              ((key_of (sl 7 8 ∷ sl 1 2 ∷ []), 21) ∷ (key_of (sl 7 8 ∷ sl 3 2 ∷ []), 22) ∷ [])
              0
        read_it (key_of (sl 7 8 ∷ sl 1 2 ∷ [])) r)
        nothing)
    ≡ 0
unfolding put_all read_it
read_hidden = refl

-- The keys of a range, from the least on.
abbrev keys_from : ℕ → ℕ → List (Key × Addr)
keys_from first Prim.Native.Nat.zero = []
keys_from first (Prim.Native.Nat.suc n) = (short first, first) ∷ keys_from (first + 1) n

-- Sixteen keys in order: the node splits at the last one's slice, and the keys between are lost.
read_after_split : result ((do r ← put_all (keys_from 1 16) 0; read_it (short 9) r) nothing) ≡ 0
unfolding put_all read_it
read_after_split = refl

read_last_after_split :
    result ((do r ← put_all (keys_from 1 16) 0; read_it (short 16) r) nothing) ≡ 16
unfolding put_all read_it
read_last_after_split = refl

-- The node was split in between.
unchanged-locked_alike_example :
    unchanged
      (record blank_version { is_border = true; v_split = 1 })
      (record blank_version { is_border = true })
    ≡ true
unchanged-locked_alike_example =
    unchanged-locked_alike (record blank_version { is_border = true; v_split = 1 })
      (record blank_version { is_border = true }) (omega arith, omega arith)
      (omega arith, omega arith) refl

-- A root border node with the key (7, 1) of two slices.
abbrev pub one_key : BorderNode
one_key = record blank_border {
  version = root_version;
  key_len = λ i. if ltb i 1 then 8 else 0;
  key_slice = λ i. if ltb i 1 then 7 else 0;
  lv = λ i. if ltb i 1 then 70 else 0;
  key_suffixes = λ i. if ltb i 1 then sl 1 2 else sl 0 0;
}

abbrev pub one_node : Heap
one_node = record { object = update (λ q. absent) 1 (border one_key); fresh = 2 }

insert_into_border-Inserted_example :
    Returns
      (λ _ w. Inserted one_key 1 (sl 3 8) (sl 4 2 ∷ []) 30 1 one_node w.memory)
      (insert_into_border alone 1 (key_of (sl 3 8 ∷ sl 4 2 ∷ [])) 30 (world one_node 0))
insert_into_border-Inserted_example =
    insert_into_border-Inserted 30 1 (key_of (sl 3 8 ∷ sl 4 2 ∷ [])) (sl 3 8) (sl 4 2 ∷ []) one_node
      one_key 1 (refl, refl) (refl, (omega arith, omega arith)) refl
      (omega arith, λ j h. ground arith, refl) (omega arith) 0

insert_into_border-loses_example :
    Returns
      (λ r w. (r ≡ 70) × (w.memory ≡ one_node))
      (get alone 1 5 1 (key_of (sl 7 8 ∷ sl 1 2 ∷ [])) (world one_node 0))
    × Returns
        (λ _ w. Returns (λ r w'. r ≡ 0) (get alone 1 5 1 (key_of (sl 7 8 ∷ sl 1 2 ∷ [])) w))
        (insert_into_border alone 1 (short 3) 30 (world one_node 0))
insert_into_border-loses_example =
    insert_into_border-loses 0 0 1 30 (short 3) (sl 3 1) [] (key_of (sl 7 8 ∷ sl 1 2 ∷ [])) (sl 7 8)
      (sl 1 2) one_node one_key 1 0 0 (refl, refl) (omega arith, omega arith) (refl, refl) refl refl
      (omega arith, λ j h. ground arith, refl) (omega arith) (omega arith)
      (λ j low high e. absurd (omega arith)) (refl, refl, refl, refl) (omega arith)
      (λ e. absurd (omega (arith, e)))

-- Room for a key with another first slice, and the key that is held.
insert-get_example :
    Returns
      (λ root' w.
        Returns
          (λ r w'. (r ≡ 30) × (w'.memory ≡ w.memory))
          (get alone 1 5 root' (key_of (sl 3 8 ∷ sl 4 2 ∷ [])) w))
      (insert alone 1 5 9 1 (key_of (sl 3 8 ∷ sl 4 2 ∷ [])) 30 (world one_node 0))
insert-get_example =
    insert-get 0 2 9 (key_of (sl 3 8 ∷ sl 4 2 ∷ [])) (sl 3 8) (sl 4 2 ∷ []) 30 one_node (refl, refl)
      (refl, (omega arith, omega arith)) (omega arith) 1 0
      (has_room one_key 1 (λ e. absurd (omega (arith, e))) refl refl (omega arith)
        (omega arith, λ j h. ground arith, refl) refl
        (λ j h. elim (Bool-cases (ltb j 1)) [
          | inl first ↦ inl (λ e. ground (arith, e))
          | inr later ↦ inr (ground arith)
        ]))
