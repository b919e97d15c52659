-- ===== src/Silo/Commit/Install.antt =====
-- The loop of writePhase over the write set, while the other threads leave the records `mine` alone.
use transaction_system.Base.{
  ℕ, zero, suc, ◌+◌, ◌≤◌, ◌<◌, ◌≡◌, refl, ◌≢◌, Bool, true, false, List, [], ◌∷◌, arith, ◌∙◌, ap,
  Bool-cases, inl, inr,
}
use transaction_system.Base.Lists.{get_or}
use transaction_system.Base.Run.{Returns, returns, Returns-bind, Returns-mono}
use transaction_system.TidWord.{TidWord}
use transaction_system.Silo.Memory.{Memory, Others, World, value_size, store_byte, store_tid_word}
use transaction_system.Silo.Executor.{WriteElement, search_write}
use transaction_system.Silo.Executor.Search.{writes, DistinctWrites}
use transaction_system.Silo.Commit.{copy_in, install_all}
use transaction_system.Silo.Commit.Spared.{SameRecord, Spares, Within}

-- The record `k` holds the first bytes of `bytes` and the word `w`.
abbrev pub Holds : List ℕ → TidWord → ℕ → Memory → Type 0
Holds bytes w k m = (m.tid_word k ≡ w) × ((i : ℕ) → i < value_size → m.value k i ≡ get_or bytes i 0)

module _ (others : Others) (mine : ℕ → Bool) (spares : Spares mine others) where
  copy_in-bytes :
      (k : ℕ) (bytes : List ℕ) (n i : ℕ) (w : World)
      → mine k ≡ true
      → Returns
          (λ _ w'.
            ((j : ℕ) → mine j ≡ true → w'.memory.tid_word j ≡ w.memory.tid_word j)
            × ((j : ℕ) → mine j ≡ true → j ≢ k → w'.memory.value j ≡ w.memory.value j)
            × ((x : ℕ) → i ≤ x → x < i + n → w'.memory.value k x ≡ get_or bytes x 0)
            × ((x : ℕ) → x < i → w'.memory.value k x ≡ w.memory.value k x))
          (copy_in others k bytes n i w)
  unfolding copy_in store_byte
  copy_in-bytes k bytes zero i w own =
      returns (λ j h. refl, λ j h e. refl, λ x a b. absurd (omega arith), λ x h. refl)
  copy_in-bytes k bytes (suc n) i w own =
      let same = spares w.turn w.memory k own in
      let byte = λ (x : ℕ). ap (λ (f : ℕ → ℕ). f x) same.1 in
      Returns-mono (copy_in-bytes k bytes n (i + 1) _ own) λ _ w' (words, off, copied, before). (
        λ j h. words j h ∙ (spares w.turn w.memory j h).0,
        λ j h e. let kept = (spares w.turn w.memory j h).1 in ground (arith, off j h e),
        λ x a b. ground (arith, copied x, before x),
        λ x l. ground (arith, before x, byte x),
      )

  pub install_all-Holds :
      (bytes : List ℕ) (tid : TidWord) (ops : List WriteElement) (w : World)
      → Within mine ops
      → DistinctWrites ops
      → Returns
          (λ _ w'.
            (k : ℕ)
            → mine k ≡ true
            → (writes k ops ≡ true → Holds bytes tid k w'.memory)
              × (writes k ops ≡ false → SameRecord k w.memory w'.memory))
          (install_all others bytes tid ops w)
  unfolding install_all store_tid_word search_write
  install_all-Holds bytes tid [] w own once = returns (λ k h. (λ e. cc, λ e. (refl, refl)))
  install_all-Holds bytes tid (op ∷ ops) w own once =
      Returns-bind (copy_in-bytes op.key bytes value_size 0 w (own op.key (ground arith)))
        λ _ w₁ (words, off, copied, _).
          let m₂ = others w₁.turn w₁.memory in
          Returns-mono (install_all-Holds bytes tid ops _ (λ k h. own k (ground arith)) once.1)
            λ _ w' rest. λ k h.
              let (now, kept) = rest k h in
              let same = spares w₁.turn w₁.memory k h in
              (
                λ found. elim (Bool-cases (writes k ops)) [
                  | inl later ↦ now later
                  | inr last ↦
                      let (word, value) = kept last in
                      let bytes_kept = value ∙ same.1 in
                      (
                        ground arith,
                        λ i l. ground (arith, copied i, ap (λ (f : ℕ → ℕ). f i) bytes_kept),
                      )
                ],
                λ out.
                    let (word, value) = kept (ground arith) in
                    (ground (arith, words k h), value ∙ same.1 ∙ off k h (ground arith)),
              )
