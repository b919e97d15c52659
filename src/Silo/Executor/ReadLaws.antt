-- ===== src/Silo/Executor/ReadLaws.antt =====
-- What TxnExecutor::read records, whatever the other threads do.
use transaction_system.Base.{
  ℕ, zero, suc, ◌+◌, ◌≡◌, refl, true, false, ◌||◌, List, [], ◌∷◌, ◌++◌, ◌==◌, arith, inl, inr,
  Bool-cases, ap,
}
use transaction_system.Base.Run.{Whenever, when, when_starved, Whenever-bind, ok}
use transaction_system.Base.Lists.{length}
use transaction_system.TidWord.{TidWord, lock}
use transaction_system.Silo.Memory.{Others, World, value_size, load_tid_word}
use transaction_system.Silo.Executor.{
  ReadElement, TxnExecutor, search_read_set, search_write_set, copy_out, read_loop, read,
}
use transaction_system.Silo.Executor.Search.{IsDistinct, DistinctReads-append, reads, writes}

module _ (others : Others) where
  copy_out-length :
      (k n i : ℕ) (w : World) → Whenever (λ bytes _. length bytes ≡ n) (copy_out others k n i w)
  unfolding copy_out
  copy_out-length k zero i w = when refl
  copy_out-length k (suc n) i w =
      Whenever-bind (copy_out-length k n (i + 1) _) (λ bs w' e. when (ap suc e))

  -- The word that ends the loop is unlocked and still is the record's word, and all bytes were read.
  abbrev pub Observed : ℕ → TidWord × List ℕ → World → Type 0
  Observed k (word, bytes) w =
      (lock word ≡ false) × (w.memory.tid_word k ≡ word) × (length bytes ≡ value_size)

  pub read_loop-Observed :
      (turns k : ℕ) (expected : TidWord) (w : World)
      → Whenever (Observed k) (read_loop others turns k expected w)
  unfolding read_loop load_tid_word
  read_loop-Observed zero k expected w = when_starved
  read_loop-Observed (suc turns) k expected w = elim (Bool-cases (lock expected)) [
    | inl locked ↦ rw locked (read_loop-Observed turns k _ _)
    | inr free ↦ rw free (
        Whenever-bind (copy_out-length k value_size 0 w) λ bytes w' all.
          elim (Bool-cases (expected == (others w'.turn w'.memory).tid_word k)) [
            | inl same ↦ rw same (when (free, ground arith, all))
            | inr changed ↦ rw changed (read_loop-Observed turns k _ _)
          ])
  ]

  -- The element that `read` of a key in neither set appends, and what the memory says of it.
  abbrev pub Recorded : TxnExecutor → ℕ → TxnExecutor → World → Type 0
  Recorded t k t' w' =
      (e : ReadElement) × (t'.read_set ≡ t.read_set ++ e ∷ [])
      × (e.key ≡ k)
      × (lock e.tid_word ≡ false)
      × (w'.memory.tid_word k ≡ e.tid_word)
      × (length e.value ≡ value_size)
      × (t'.return_value ≡ e.value)
      × (t'.write_set ≡ t.write_set)

  module _ (turns : ℕ) (t : TxnExecutor) (k : ℕ) (w : World) where
    -- Whatever the other threads do, a `read` of a key in neither set, if it returns, appends one
    -- element: the word in it is unlocked and is the record's word at the last access, the value has
    -- all its bytes and is the returned one, and the write set stays.
    pub read-Recorded :
        reads k t.read_set ≡ false
        → writes k t.write_set ≡ false
        → Whenever (Recorded t k) (read others turns t k w)
    unfolding read search_read_set search_write_set
    read-Recorded fresh unwritten =
        rw (fresh, unwritten)
          (Whenever-bind (read_loop-Observed turns k _ _) λ (word, bytes) w' (free, now, all).
            when (
              record { key = k; tid_word = word; value = bytes },
              refl,
              refl,
              free,
              now,
              all,
              refl,
              refl,
            ))

    -- `read` of a key in either set does nothing.
    pub read-again :
        reads k t.read_set || writes k t.write_set ≡ true → read others turns t k w ≡ ok t w
    unfolding read search_read_set search_write_set
    read-again known = rw known

    -- Whatever the other threads do, `read` keeps the sets free of duplicates.
    pub read-IsDistinct : IsDistinct t → Whenever (λ t' _. IsDistinct t') (read others turns t k w)
    unfolding read search_read_set search_write_set
    read-IsDistinct d = elim (Bool-cases (reads k t.read_set || writes k t.write_set)) [
      | inl known ↦ rw known (when d)
      | inr fresh ↦ rw fresh (
          Whenever-bind (read_loop-Observed turns k _ _) λ (word, bytes) w' _.
            let e : ReadElement = record { key = k; tid_word = word; value = bytes } in
            when (record {
              reads_once = DistinctReads-append t.read_set e d.reads_once (ground arith);
              writes_once = d.writes_once;
            }))
    ]
