-- ===== src/KvSilo/Memory.antt =====
-- The records (kvsilo/record.h) and the environment (kvsilo/silo_env.h) that the workers share.
use transaction_system.Base.{ℕ, Bool, true, false, ◌==◌, if◌then◌else◌, update}
use transaction_system.Base.Run.{Cmd}
use transaction_system.Base.Shared.{Interference, Shared, access}
use transaction_system.TidWord.{TidWord}

-- `Record*`, an address; the null pointer is `none` where one may stand.
abbrev pub Pointer : Type 0
Pointer = ℕ

-- `TidWord()`: latest, and all other fields 0.
abbrev pub fresh_word : TidWord
fresh_word = 2

-- `value` is a std::atomic_int, read and written whole.
pub record Memory : Type 0 where
  pub tid_word : Pointer → TidWord
  pub value : Pointer → ℕ
  pub global_epoch : ℕ

abbrev pub Others : Type 0
Others = Interference Memory

abbrev pub World : Type 0
World = Shared Memory

module _ (others : Others) where
  unfoldable pub load_tid_word : Pointer → Cmd World TidWord
  load_tid_word p = access others λ m. (m.tid_word p, m)

  unfoldable pub store_tid_word : Pointer → TidWord → Cmd World (Unit {0})
  store_tid_word p v = access others λ m. (tt, record m { tid_word = update m.tid_word p v })

  -- `compare_exchange_weak`, without spurious failures: whether it was done, and `expected` after it.
  unfoldable pub compare_exchange : Pointer → TidWord → TidWord → Cmd World (Bool × TidWord)
  compare_exchange p before after = access others λ m.
      if m.tid_word p == before
      then ((true, before), record m { tid_word = update m.tid_word p after })
      else ((false, m.tid_word p), m)

  unfoldable pub load_value : Pointer → Cmd World ℕ
  load_value p = access others λ m. (m.value p, m)

  unfoldable pub store_value : Pointer → ℕ → Cmd World (Unit {0})
  store_value p v = access others λ m. (tt, record m { value = update m.value p v })

  unfoldable pub load_epoch : Cmd World ℕ
  load_epoch = access others λ m. (m.global_epoch, m)
