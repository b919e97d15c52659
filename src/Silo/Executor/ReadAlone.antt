-- ===== src/Silo/Executor/ReadAlone.antt =====
-- TxnExecutor::read of a record that the other threads leave alone.
use transaction_system.Base.{
  ℕ, zero, suc, ◌+◌, ◌≡◌, refl, true, false, List, [], ◌∷◌, ◌++◌, ◌==◌, arith, ap, ◌∙◌,
}
use transaction_system.Base.Run.{Returns, returns, Returns-bind}
use transaction_system.TidWord.{lock}
use transaction_system.Silo.Memory.{Memory, Others, World, value_size, load_tid_word, load_byte}
use transaction_system.Silo.Executor.{
  ReadElement, TxnExecutor, search_read_set, search_write_set, copy_out, read_loop, read,
}
use transaction_system.Silo.Executor.Search.{reads, writes}
use transaction_system.Silo.Commit.Spared.{SameRecord}

-- `n` bytes of a value from the i-th.
abbrev pub bytes_from : (ℕ → ℕ) → ℕ → ℕ → List ℕ
bytes_from value zero i = []
bytes_from value (suc n) i = value i ∷ bytes_from value n (i + 1)

-- The other threads leave the record `k` alone.
abbrev pub LeavesRecord : ℕ → Others → Type 0
LeavesRecord k others = (n : ℕ) (m : Memory) → SameRecord k m (others n m)

SameRecord-trans : (k : ℕ) (a b c : Memory) → SameRecord k a b → SameRecord k b c → SameRecord k a c
SameRecord-trans k a b c p q = (q.0 ∙ p.0, q.1 ∙ p.1)

-- What a read of the record `k` then appends.
abbrev pub element_of : ℕ → Memory → ReadElement
element_of k m = record {
  key = k;
  tid_word = m.tid_word k;
  value = bytes_from (m.value k) value_size 0;
}

module _ (others : Others) (k : ℕ) (alone : LeavesRecord k others) where
  copy_out-bytes :
      (n i : ℕ) (w : World)
      → Returns
          (λ bytes w'.
            (bytes ≡ bytes_from (w.memory.value k) n i) × SameRecord k w.memory w'.memory)
          (copy_out others k n i w)
  unfolding copy_out load_byte
  copy_out-bytes zero i w = returns (refl, (refl, refl))
  copy_out-bytes (suc n) i w =
      let m₁ = others w.turn w.memory in
      let (word, bytes) = alone w.turn w.memory in
      Returns-bind (copy_out-bytes n (i + 1) (record { memory = m₁; turn = w.turn + 1 }))
        λ bs w' (is, same).
          let head : m₁.value k i ≡ w.memory.value k i = ap (λ (f : ℕ → ℕ). f i) bytes in
          let tail : bs ≡ bytes_from (w.memory.value k) n (i + 1) =
            is ∙ ap (λ (f : ℕ → ℕ). bytes_from f n (i + 1)) bytes in
          returns (
            ap (λ (x : ℕ). x ∷ bs) head ∙ ap (λ (l : List ℕ). w.memory.value k i ∷ l) tail,
            SameRecord-trans k w.memory m₁ w'.memory (word, bytes) same,
          )

  read_loop-alone :
      (turns : ℕ) (w : World)
      → lock (w.memory.tid_word k) ≡ false
      → Returns
          (λ r w'.
            (r.0 ≡ w.memory.tid_word k)
            × (r.1 ≡ bytes_from (w.memory.value k) value_size 0)
            × SameRecord k w.memory w'.memory)
          (read_loop others (suc turns) k (w.memory.tid_word k) w)
  unfolding read_loop load_tid_word
  read_loop-alone turns w free = rw free (
      Returns-bind (copy_out-bytes value_size 0 w) λ bytes w₂ (is, same).
        let m₃ = others w₂.turn w₂.memory in
        let still = SameRecord-trans k w.memory w₂.memory m₃ same (alone w₂.turn w₂.memory) in
        let test : (w.memory.tid_word k == m₃.tid_word k) ≡ true = ground (arith, still.0) in
        rw test (returns (refl, is, still)))

  -- Where the other threads leave a record alone and it is not locked, the read of its key, in neither
  -- set, returns with one turn or more, and appends one element with the record's word and bytes, which
  -- are also what it returns; the write set and the record stay.
  pub read-alone :
      (turns : ℕ) (t : TxnExecutor) (w : World)
      → lock (w.memory.tid_word k) ≡ false
      → reads k t.read_set ≡ false
      → writes k t.write_set ≡ false
      → Returns
          (λ t' w'.
            (t'.read_set ≡ t.read_set ++ element_of k w.memory ∷ [])
            × (t'.return_value ≡ bytes_from (w.memory.value k) value_size 0)
            × (t'.write_set ≡ t.write_set)
            × SameRecord k w.memory w'.memory)
          (read others (suc turns) t k w)
  unfolding read search_read_set search_write_set load_tid_word
  read-alone turns t w free fresh unwritten =
      let m₁ = others w.turn w.memory in
      let (word, bytes) = alone w.turn w.memory in
      let w₁ : World = record { memory = m₁; turn = w.turn + 1 } in
      rw (fresh, unwritten)
        (Returns-bind (read_loop-alone turns w₁ (ap lock word ∙ free)) λ r w₂ (is, all, same).
          let value : r.1 ≡ bytes_from (w.memory.value k) value_size 0 =
            all ∙ ap (λ (f : ℕ → ℕ). bytes_from f value_size 0) bytes in
          let word_is : r.0 ≡ w.memory.tid_word k = is ∙ word in
          let appended : t.read_set ++ record { key = k; tid_word = r.0; value = r.1 } ∷ []
              ≡ t.read_set ++ element_of k w.memory ∷ [] =
            λ x. t.read_set ++ record { key = k; tid_word = word_is x; value = value x } ∷ [] in
          returns
            (appended, value, refl, SameRecord-trans k w.memory m₁ w₂.memory (word, bytes) same))
