-- ===== src/KvSilo/Database.antt =====
-- The leader thread of kvsilo/database.cpp among the other threads, and the totals of kvsilo/result.h.
pub mod Drift
use transaction_system.Base.{
  ℕ, zero, suc, ◌+◌, ◌-◌, ◌/◌, ◌%◌, ◌^◌, Bool, true, false, List, [], ◌∷◌, ◌==◌, ltb, if◌then◌else◌,
  not,
}
use transaction_system.Base.Run.{Cmd, pure, ◌>>=◌, ◌>>◌}
use transaction_system.Base.Shared.{Interference, Shared, access}
use transaction_system.KvSilo.Transaction.{Result}

-- `E`, `workerE` and `stop` of kvsilo/silo_env.h; epochs are uint32_t.
pub record SiloEnv : Type 0 where
  pub epoch : ℕ
  pub worker_epochs : ℕ → ℕ
  pub stop : Bool

abbrev pub EnvOthers : Type 0
EnvOthers = Interference SiloEnv

abbrev pub EnvWorld : Type 0
EnvWorld = Shared SiloEnv

module _ (others : EnvOthers) where
  unfoldable pub load_epoch : Cmd EnvWorld ℕ
  load_epoch = access others λ m. (m.epoch, m)

  unfoldable pub load_worker_epoch : ℕ → Cmd EnvWorld ℕ
  load_worker_epoch i = access others λ m. (m.worker_epochs i, m)

  unfoldable pub load_stop : Cmd EnvWorld Bool
  load_stop = access others λ m. (m.stop, m)

  -- `env.E.fetch_add(1)`
  unfoldable pub advance_epoch : Cmd EnvWorld (Unit {0})
  advance_epoch = access others λ m. (tt, record m { epoch = (m.epoch + 1) % 2 ^ 32 })

  -- The loop over `env.workerE`, `n` workers from the i-th: `continue` goes on with the next one.
  unfoldable pub wait_for_workers : ℕ → ℕ → ℕ → Cmd EnvWorld (Unit {0})
  unfolding load_worker_epoch
  wait_for_workers e zero i = pure tt
  wait_for_workers e (suc n) i = do
    ew ← load_worker_epoch i
    if not (ew == e) then wait_for_workers e n (i + 1) else wait_for_workers e n (i + 1)

  -- The loop's body after the clock is read, `ms` after the last advance: whether the epoch advanced.
  unfoldable pub leader_round : (workers ms : ℕ) → Cmd EnvWorld Bool
  unfolding load_epoch wait_for_workers advance_epoch
  leader_round workers ms =
      if ltb ms 40
      then pure false
      else (do e ← load_epoch; wait_for_workers e workers 0; advance_epoch; pure true)

  -- leaderWork for as many rounds as there are readings of the clock, in nanoseconds; the clock gives
  -- `start` first.
  unfoldable pub leader_work :
      (workers : ℕ) → (checks : List ℕ) → (start : ℕ) → Cmd EnvWorld (Unit {0})
  unfolding load_stop leader_round
  leader_work workers [] start = pure tt
  leader_work workers (check ∷ checks) start = do
    stop ← load_stop
    if stop then pure tt else (do
      advanced ← leader_round workers ((check - start) / 1_000_000)
      leader_work workers checks (if advanced then check else start))

-- `collect`
unfoldable pub collect : Result → Result → Result
collect r other = record {
  aborts = (r.aborts + other.aborts) % 2 ^ 64;
  commits = (r.commits + other.commits) % 2 ^ 64;
}
