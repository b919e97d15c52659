-- ===== src/Cicada/Leader.antt =====
-- cicada/leader_work.h: the global minima of the threads' timestamps.
pub mod Minima
use transaction_system.Base.{ℕ, zero, suc, ◌+◌, Bool, true, false, ◌==◌, if◌then◌else◌, update, min}
use transaction_system.Base.Run.{Cmd, pure, ◌>>=◌, ◌>>◌}
use transaction_system.Base.Shared.{access}
use transaction_system.Cicada.Memory.{Others, World}

-- THREAD_NUM of cicada/consts.h
abbrev pub thread_num : ℕ
thread_num = 2

module _ (others : Others) where
  unfoldable pub load_thread_wts : ℕ → Cmd World ℕ
  load_thread_wts i = access others λ m. (m.thread_wts i, m)

  unfoldable pub load_thread_rts : ℕ → Cmd World ℕ
  load_thread_rts i = access others λ m. (m.thread_rts i, m)

  -- Whether the flags of `n` threads from the i-th are set.
  unfoldable pub all_flags : ℕ → ℕ → Cmd World Bool
  all_flags zero i = pure true
  all_flags (suc n) i = do
    f ← access others λ m. (m.gc_flag i, m)
    if f == 0 then pure false else all_flags n (i + 1)

  -- The minima over `n` threads from the i-th.
  unfoldable pub minima : ℕ → ℕ → (min_write min_read : ℕ) → Cmd World (ℕ × ℕ)
  minima zero i min_write min_read = pure (min_write, min_read)
  minima (suc n) i min_write min_read = do
    w ← load_thread_wts i
    r ← load_thread_rts i
    minima n (i + 1) (min min_write w) (min min_read r)

  unfoldable pub reset_flags : ℕ → ℕ → Cmd World (Unit {0})
  reset_flags zero i = pure tt
  reset_flags (suc n) i = do
    access others λ m. (tt, record m { gc_flag = update m.gc_flag i 0 })
    access others λ m. (tt, record m { gc_execute_flag = update m.gc_execute_flag i 1 })
    reset_flags n (i + 1)

  unfoldable pub leader_work : Cmd World (Unit {0})
  leader_work = do
    gc_update ← all_flags thread_num 0
    if gc_update
        then (do
          first_write ← load_thread_wts 0
          first_read ← load_thread_rts 1
          (min_write, min_read) ← minima 1 1 first_write first_read
          access others λ m. (tt, record m { min_wts = min_write })
          access others λ m. (tt, record m { min_rts = min_read })
          reset_flags thread_num 0)
        else pure tt
