-- ===== src/Silo/Memory.antt =====
-- The shared memory of silo/consts.h and silo/tuple.h, and the atomic accesses to it
-- (common/atomic_wrapper.h) as one thread makes them among others.
use transaction_system.Base.{ℕ, Bool, true, false, ◌==◌, if◌then◌else◌, update}
use transaction_system.Base.Run.{Cmd}
use transaction_system.Base.Shared.{Interference, Shared, access}
use transaction_system.TidWord.{TidWord}

abbrev pub value_size : ℕ
value_size = 4

abbrev pub thread_num : ℕ
thread_num = 8

-- `Table`, a record's TID word and bytes by its key, `GlobalEpoch` and `ThreadLocalEpochs`.
pub record Memory : Type 0 where
  pub tid_word : ℕ → TidWord
  pub value : ℕ → ℕ → ℕ
  pub global_epoch : ℕ
  pub thread_local_epochs : ℕ → ℕ

abbrev pub Others : Type 0
Others = Interference Memory

abbrev pub World : Type 0
World = Shared Memory

module _ (others : Others) where
  -- `loadAcquire(tuple->tidWord.body)`
  unfoldable pub load_tid_word : ℕ → Cmd World TidWord
  load_tid_word k = access others λ m. (m.tid_word k, m)

  -- `storeRelease(tuple->tidWord.body, v)`
  unfoldable pub store_tid_word : ℕ → TidWord → Cmd World (Unit {0})
  store_tid_word k v = access others λ m. (tt, record m { tid_word = update m.tid_word k v })

  -- `compareExchange(tuple->tidWord.body, before, after)`: whether it was done, and `before` after it.
  unfoldable pub compare_exchange : ℕ → TidWord → TidWord → Cmd World (Bool × TidWord)
  compare_exchange k before after = access others λ m.
      if m.tid_word k == before
      then ((true, before), record m { tid_word = update m.tid_word k after })
      else ((false, m.tid_word k), m)

  -- A byte of a record, read or written by `memcpy`.
  unfoldable pub load_byte : ℕ → ℕ → Cmd World ℕ
  load_byte k i = access others λ m. (m.value k i, m)

  unfoldable pub store_byte : ℕ → ℕ → ℕ → Cmd World (Unit {0})
  store_byte k i b =
      access others λ m. (tt, record m { value = update m.value k (update (m.value k) i b) })

  unfoldable pub load_global_epoch : Cmd World ℕ
  load_global_epoch = access others λ m. (m.global_epoch, m)

  unfoldable pub store_thread_local_epoch : ℕ → ℕ → Cmd World (Unit {0})
  store_thread_local_epoch i e =
      access others λ m. (tt, record m { thread_local_epochs = update m.thread_local_epochs i e })

  unfoldable pub load_thread_local_epoch : ℕ → Cmd World ℕ
  load_thread_local_epoch i = access others λ m. (m.thread_local_epochs i, m)
