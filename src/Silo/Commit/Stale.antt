-- ===== src/Silo/Commit/Stale.antt =====
-- What phase 2 of validationPhase detects.
use transaction_system.Base.{
  ℕ, ◌+◌, ◌^◌, ◌<◌, ◌≡◌, ◌↔◌, true, false, arith, max, not, ◌&&◌, Bool-cases, inl, inr,
}
use transaction_system.TidWord.{TidWord, lock, tid, epoch, commit_tid}
use transaction_system.TidWord.Order.{stamp, HasNext, stamp_parts}
use transaction_system.TidWord.Commit.{commit_tid_bounds, commit_tid-lt}
use transaction_system.Silo.Executor.{ReadElement, TxnExecutor, search_write_set}
use transaction_system.Silo.Executor.Search.{writes}
use transaction_system.Silo.Commit.{is_stale}

-- An element passes exactly when its record's word has the tid and the epoch that were read, and is
-- unlocked or locked by this transaction itself.
pub is_stale_iff :
    (t : TxnExecutor) (op : ReadElement) (check : TidWord)
    → (is_stale t op check ≡ false) ↔ (
        (tid op.tid_word ≡ tid check)
        × (epoch op.tid_word ≡ epoch check)
        × ((lock check && not (writes op.key t.write_set)) ≡ false))
unfolding is_stale search_write_set
is_stale_iff t op check = (λ h. ground arith, λ h. ground arith)

-- A read is found stale once another transaction has committed to its record: the word that the
-- other one stored, at least the one read being among those it locked, never passes.
pub overwritten-is_stale :
    (t : TxnExecutor) (op : ReadElement) (max_write max_read recent : TidWord) (e : ℕ)
    → stamp op.tid_word < stamp max_write + 1
    → HasNext (max max_write max_read)
    → HasNext recent
    → e < 2 ^ 32
    → op.tid_word < 2 ^ 64
    → max_write < 2 ^ 64
    → max_read < 2 ^ 64
    → recent < 2 ^ 64
    → is_stale t op (commit_tid 0 max_write max_read recent e) ≡ true
overwritten-is_stale t op max_write max_read recent e before next_w next_r small old_lt mw mr r =
    let new = commit_tid 0 max_write max_read recent e in
    let above = commit_tid_bounds 0 max_write max_read recent e next_w next_r small in
    let new_lt = commit_tid-lt 0 max_write max_read recent e mw mr r in
    let passes_not : ¬ (is_stale t op new ≡ false) = λ h.
      let (same_tid, same_epoch, _) = (is_stale_iff t op new).0 h in
      omega (arith, stamp_parts op.tid_word old_lt, stamp_parts new new_lt, above.0) in
    elim (Bool-cases (is_stale t op new)) [
      | inl stale ↦ stale
      | inr fresh ↦ absurd (passes_not fresh)
    ]
