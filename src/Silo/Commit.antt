-- ===== src/Silo/Commit.antt =====
-- The commit of silo/txn_executor.cpp: lockWriteSet, unlockWriteSet, validationPhase, writePhase.
pub mod Install
pub mod Phases
pub mod Sorted
pub mod Spared
pub mod Stale
use transaction_system.Base.{
  ℕ, zero, suc, ◌+◌, Bool, true, false, ◌||◌, ◌&&◌, not, List, [], ◌∷◌, ◌==◌, leb, max,
  if◌then◌else◌,
}
use transaction_system.Base.Run.{Cmd, starved, pure, ◌>>=◌, ◌>>◌}
use transaction_system.Base.Lists.{get_or}
use transaction_system.TidWord.{TidWord, lock, tid, epoch, with_lock, commit_tid}
use transaction_system.Silo.Memory.{
  Others, World, value_size, load_tid_word, store_tid_word, compare_exchange, store_byte,
  load_global_epoch, store_thread_local_epoch, load_thread_local_epoch,
}
use transaction_system.Silo.Executor.{
  TxnExecutor, TxnStatus, ReadElement, WriteElement, search_write_set, is_some,
}

-- `std::sort(writeSet.begin(), writeSet.end())` under `WriteElement::operator<`, which compares keys.
unfoldable pub insert_by_key : WriteElement → List WriteElement → List WriteElement
insert_by_key x [] = x ∷ []
insert_by_key x (y ∷ ys) = if leb x.key y.key then x ∷ y ∷ ys else y ∷ insert_by_key x ys

unfoldable pub sort_by_key : List WriteElement → List WriteElement
unfolding insert_by_key
sort_by_key [] = []
sort_by_key (x ∷ xs) = insert_by_key x (sort_by_key xs)

-- The test of phase 2 on one element of the read set, `check` its record's word now.
unfoldable pub is_stale : TxnExecutor → ReadElement → TidWord → Bool
unfolding search_write_set
is_stale t op check =
    not (tid op.tid_word == tid check)
    || (lock check && not (is_some (search_write_set t op.key)))
    || not (epoch op.tid_word == epoch check)

module _ (others : Others) where
  -- The inner `for(;;)` of lockWriteSet: the word as it was when this thread locked it.
  unfoldable pub lock_loop : ℕ → ℕ → TidWord → Cmd World TidWord
  unfolding load_tid_word compare_exchange
  lock_loop zero k expected = λ w. starved
  lock_loop (suc turns) k expected =
      if lock expected then (do e ← load_tid_word others k; lock_loop turns k e) else (do
        (done, seen) ← compare_exchange others k expected (with_lock expected true)
        if done then pure seen else lock_loop turns k seen)

  -- The loop over the write set, with `maxWriteTid` as it goes.
  unfoldable pub lock_all : ℕ → List WriteElement → TidWord → Cmd World TidWord
  unfolding load_tid_word
  lock_all turns [] max_write_tid = pure max_write_tid
  lock_all turns (op ∷ ops) max_write_tid = do
    first ← load_tid_word others op.key
    expected ← lock_loop turns op.key first
    lock_all turns ops (max max_write_tid expected)

  unfoldable pub lock_write_set : ℕ → TxnExecutor → Cmd World TxnExecutor
  lock_write_set turns t = do
    m ← lock_all turns t.write_set t.max_write_tid
    pure (record t { max_write_tid = m })

  unfoldable pub unlock_all : List WriteElement → Cmd World (Unit {0})
  unfolding load_tid_word store_tid_word
  unlock_all [] = pure tt
  unlock_all (op ∷ ops) = do
    expected ← load_tid_word others op.key
    store_tid_word others op.key (with_lock expected false)
    unlock_all ops

  unfoldable pub unlock_write_set : TxnExecutor → Cmd World (Unit {0})
  unlock_write_set t = unlock_all t.write_set

  -- Phase 2 over the read set: whether all passed, with `maxReadTid` as it goes.
  unfoldable pub validate_all :
      TxnExecutor → List ReadElement → TidWord → Cmd World (Bool × TidWord)
  unfolding load_tid_word
  validate_all t [] max_read_tid = pure (true, max_read_tid)
  validate_all t (op ∷ ops) max_read_tid = do
    check ← load_tid_word others op.key
    if is_stale t op check
        then pure (false, max_read_tid)
        else validate_all t ops (max max_read_tid check)

  unfoldable pub validation_phase : ℕ → TxnExecutor → Cmd World (Bool × TxnExecutor)
  unfolding load_global_epoch store_thread_local_epoch
  validation_phase turns t₀ = do
    t ← lock_write_set turns (record t₀ { write_set = sort_by_key t₀.write_set })
    e ← load_global_epoch others
    store_thread_local_epoch others t.thread_id e
    (passed, m) ← validate_all t t.read_set t.max_read_tid
    if passed then pure (true, record t { max_read_tid = m; status = TxnStatus.committed }) else (do
      unlock_write_set t
      pure (false, record t { max_read_tid = m; status = TxnStatus.aborted }))

  -- `memcpy(op.recordPtr->value, writeValue, VALUE_SIZE)`, `n` bytes from the i-th.
  unfoldable pub copy_in : ℕ → List ℕ → ℕ → ℕ → Cmd World (Unit {0})
  unfolding store_byte
  copy_in k bytes zero i = pure tt
  copy_in k bytes (suc n) i = do store_byte others k i (get_or bytes i 0); copy_in k bytes n (i + 1)

  unfoldable pub install_all : List ℕ → TidWord → List WriteElement → Cmd World (Unit {0})
  unfolding store_tid_word
  install_all bytes max_tid [] = pure tt
  install_all bytes max_tid (op ∷ ops) = do
    copy_in op.key bytes value_size 0
    store_tid_word others op.key max_tid
    install_all bytes max_tid ops

  unfoldable pub write_phase : TxnExecutor → Cmd World TxnExecutor
  unfolding load_thread_local_epoch
  write_phase t = do
    e ← load_thread_local_epoch others t.thread_id
    let max_tid = commit_tid 0 t.max_write_tid t.max_read_tid t.most_recently_chosen_tid e
    install_all t.write_value max_tid t.write_set
    pure (record t { most_recently_chosen_tid = max_tid; read_set = []; write_set = [] })
