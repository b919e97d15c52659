-- ===== src/Silo/Commit/Phases.antt =====
-- validationPhase as a whole, while the other threads leave the records of the write set alone.
use transaction_system.Base.{
  ℕ, suc, ◌+◌, ◌≡◌, refl, Bool, true, false, List, [], ◌∷◌, sym, ◌∙◌, Bool-cases, inl, inr,
}
use transaction_system.Base.Run.{Returns, returns, Returns-bind, Returns-mono}
use transaction_system.TidWord.{TidWord, lock, with_lock}
use transaction_system.TidWord.Order.{with_lock_self, with_lock-with_lock}
use transaction_system.Silo.Memory.{
  Memory, Others, World, load_tid_word, load_global_epoch, store_thread_local_epoch,
}
use transaction_system.Silo.Executor.{ReadElement, TxnExecutor, TxnStatus}
use transaction_system.Silo.Executor.Search.{writes, DistinctWrites}
use transaction_system.Silo.Commit.{
  sort_by_key, lock_write_set, unlock_write_set, validate_all, is_stale, validation_phase,
}
use transaction_system.Silo.Commit.Sorted.{writes-sort_by_key, DistinctWrites-sort_by_key}
use transaction_system.Silo.Commit.Spared.{
  SameRecord, Spares, Changed, Unlocked, greatest, lock_all-Changed, unlock_all-Changed,
}

SameRecord-trans : (k : ℕ) (a b c : Memory) → SameRecord k a b → SameRecord k b c → SameRecord k a c
SameRecord-trans k a b c p q = (q.0 ∙ p.0, q.1 ∙ p.1)

-- What validationPhase leaves of the write set's records: on success they are locked and the words
-- under the locks are accounted for; on failure they are as they were.
abbrev pub Prepared : TxnExecutor → Memory → Bool × TxnExecutor → World → Type 0
Prepared t m (true, t') w' =
    (t'.write_set ≡ sort_by_key t.write_set)
    × (t'.read_set ≡ t.read_set)
    × (t'.status ≡ TxnStatus.committed)
    × (t'.write_value ≡ t.write_value)
    × (t'.most_recently_chosen_tid ≡ t.most_recently_chosen_tid)
    × (t'.thread_id ≡ t.thread_id)
    × (t'.max_write_tid ≡ greatest m (sort_by_key t.write_set) t.max_write_tid)
    × ((k : ℕ)
        → writes k t.write_set ≡ true
        → (w'.memory.tid_word k ≡ with_lock (m.tid_word k) true) × (w'.memory.value k ≡ m.value k))
Prepared t m (false, t') w' =
    (t'.status ≡ TxnStatus.aborted)
    × ((k : ℕ) → writes k t.write_set ≡ true → SameRecord k m w'.memory)

module _ (others : Others) (t : TxnExecutor)
    (spares : Spares (λ k. writes k t.write_set) others) where
  abbrev mine : ℕ → Bool
  mine k = writes k t.write_set

  validate_all-SameRecord :
      (t' : TxnExecutor) (ops : List ReadElement) (acc : TidWord) (w : World)
      → Returns
          (λ _ w'. (k : ℕ) → mine k ≡ true → SameRecord k w.memory w'.memory)
          (validate_all others t' ops acc w)
  unfolding validate_all load_tid_word
  validate_all-SameRecord t' [] acc w = returns (λ k h. (refl, refl))
  validate_all-SameRecord t' (op ∷ ops) acc w =
      let m₁ = others w.turn w.memory in
      elim (Bool-cases (is_stale t' op (m₁.tid_word op.key))) [
        | inl stale ↦ rw stale (returns (λ k h. spares w.turn w.memory k h))
        | inr fresh ↦ rw fresh (
            Returns-mono (validate_all-SameRecord t' ops _ _) λ _ w' same k h.
              SameRecord-trans k w.memory m₁ w'.memory (spares w.turn w.memory k h) (same k h))
      ]

  sorted-mine : (k : ℕ) → writes k (sort_by_key t.write_set) ≡ true → mine k ≡ true
  sorted-mine k h = sym (writes-sort_by_key k t.write_set) ∙ h

  abbrev sorted : TxnExecutor
  sorted = record t { write_set = sort_by_key t.write_set }

  -- What the lock phase leaves.
  abbrev Locked : Memory → TxnExecutor → World → Type 0
  Locked m t' w' =
      (t' ≡ record sorted { max_write_tid = greatest m sorted.write_set t.max_write_tid })
      × Changed mine (λ w. with_lock w true) sorted.write_set m w'.memory

  lock_write_set-Locked :
      (turns : ℕ) (w : World)
      → DistinctWrites t.write_set
      → Unlocked t.write_set w.memory
      → Returns (Locked w.memory) (lock_write_set others (suc turns) sorted w)
  unfolding lock_write_set
  lock_write_set-Locked turns w once free =
      Returns-bind
        (lock_all-Changed others mine spares turns sorted.write_set t.max_write_tid w sorted-mine
          (DistinctWrites-sort_by_key t.write_set once) (λ k h. free k (sorted-mine k h)))
        λ e w' (is, changed). returns (rw is refl, changed)

  abbrev locked_executor : Memory → TxnExecutor
  locked_executor m = record sorted { max_write_tid = greatest m sorted.write_set t.max_write_tid }

  locked_record :
      (k : ℕ) (w w₁ w' : World)
      → mine k ≡ true
      → Changed mine (λ w. with_lock w true) sorted.write_set w.memory w₁.memory
      → SameRecord k w₁.memory w'.memory
      → (w'.memory.tid_word k ≡ with_lock (w.memory.tid_word k) true)
        × (w'.memory.value k ≡ w.memory.value k)
  locked_record k w w₁ w' h locked kept =
      let now = locked k h in
      let wrote : writes k sorted.write_set ≡ true = writes-sort_by_key k t.write_set ∙ h in
      (kept.0 ∙ rw wrote at (now.0), kept.1 ∙ now.1)

  restored :
      (k : ℕ) (w w₁ w' : World)
      → mine k ≡ true
      → lock (w.memory.tid_word k) ≡ false
      → (w₁.memory.tid_word k ≡ with_lock (w.memory.tid_word k) true)
        × (w₁.memory.value k ≡ w.memory.value k)
      → Changed mine (λ w. with_lock w false) sorted.write_set w₁.memory w'.memory
      → SameRecord k w.memory w'.memory
  restored k w w₁ w' h free held unlocked =
      let now = unlocked k h in
      let wrote : writes k sorted.write_set ≡ true = writes-sort_by_key k t.write_set ∙ h in
      let word = w.memory.tid_word k in
      (
        (rw wrote at (now.0))
            ∙ rw (held.0, with_lock-with_lock word true false) (with_lock_self word free),
        now.1 ∙ held.1,
      )

  pub validation_phase-Prepared :
      (turns : ℕ) (w : World)
      → DistinctWrites t.write_set
      → Unlocked t.write_set w.memory
      → Returns (Prepared t w.memory) (validation_phase others (suc turns) t w)
  unfolding validation_phase unlock_write_set load_global_epoch store_thread_local_epoch
  validation_phase-Prepared turns w once free =
      Returns-bind (lock_write_set-Locked turns w once free) λ t' w₁ (is, locked). rw is (
        Returns-bind
          (validate_all-SameRecord (locked_executor w.memory) t.read_set t.max_read_tid _)
          λ (passed, m) w₄ same.
            let kept = λ (k : ℕ) (h : mine k ≡ true).
              let same₁ = spares w₁.turn w₁.memory k h in
              let same₂ = spares (w₁.turn + 1) (others w₁.turn w₁.memory) k h in
              SameRecord-trans k w₁.memory (others (w₁.turn + 1) (others w₁.turn w₁.memory))
                w₄.memory
                (SameRecord-trans k w₁.memory (others w₁.turn w₁.memory)
                  (others (w₁.turn + 1) (others w₁.turn w₁.memory)) same₁ same₂)
                (same k h) in
            let under =
              λ (k : ℕ) (h : mine k ≡ true). locked_record k w w₁ w₄ h locked (kept k h) in
            elim (Bool-cases passed) [
              | inl yes_passed ↦
                  let done = record (locked_executor w.memory) {
                    max_read_tid = m;
                    status = TxnStatus.committed;
                  } in
                  let facts : Prepared t w.memory (true, done) w₄ =
                    (refl, refl, refl, refl, refl, refl, refl, under) in
                  rw yes_passed (returns facts)
              | inr failed ↦ rw failed (
                  Returns-bind
                    (unlock_all-Changed others mine spares sorted.write_set w₄ sorted-mine
                      (DistinctWrites-sort_by_key t.write_set once))
                    λ _ w₅ unlocked.
                      let gone = record (locked_executor w.memory) {
                        max_read_tid = m;
                        status = TxnStatus.aborted;
                      } in
                      let facts : Prepared t w.memory (false, gone) w₅ =
                        (refl, λ k h. restored k w w₄ w₅ h (free k h) (under k h) unlocked) in
                      returns facts)
            ])
