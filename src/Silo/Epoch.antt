-- ===== src/Silo/Epoch.antt =====
-- silo/epoch.h: how the leader thread advances the global epoch.
pub mod Drift
use transaction_system.Base.{
  ℕ, zero, suc, ◌+◌, ◌*◌, ◌%◌, ◌^◌, Bool, true, false, ◌==◌, if◌then◌else◌, not,
}
use transaction_system.Base.Run.{Cmd, starved, pure, ◌>>=◌, ◌>>◌}
use transaction_system.Base.Shared.{access}
use transaction_system.Common.{check_clock_span}
use transaction_system.Silo.Memory.{
  Others, World, thread_num, load_global_epoch, load_thread_local_epoch,
}

abbrev pub epoch_time : ℕ
epoch_time = 40

abbrev pub clocks_per_us : ℕ
clocks_per_us = 2100

module _ (others : Others) where
  -- The compare-exchange on `GlobalEpoch`: whether it was done, and `expected` after it.
  unfoldable pub exchange_global_epoch : ℕ → ℕ → Cmd World (Bool × ℕ)
  exchange_global_epoch expected desired = access others λ m.
      if m.global_epoch == expected
      then ((true, expected), record m { global_epoch = desired })
      else ((false, m.global_epoch), m)

  unfoldable pub add_loop : ℕ → ℕ → Cmd World (Unit {0})
  unfolding exchange_global_epoch
  add_loop zero expected = λ w. starved
  add_loop (suc turns) expected = do
    (done, seen) ← exchange_global_epoch expected ((expected + 1) % 2 ^ 64)
    if done then pure tt else add_loop turns seen

  unfoldable pub atomic_add_global_epoch : ℕ → Cmd World (Unit {0})
  unfolding load_global_epoch
  atomic_add_global_epoch turns = do expected ← load_global_epoch others; add_loop turns expected

  -- The loop of checkEpochLoaded over `n` threads from the i-th.
  unfoldable pub loaded_loop : ℕ → ℕ → ℕ → Cmd World Bool
  unfolding load_thread_local_epoch
  loaded_loop now_epoch zero i = pure true
  loaded_loop now_epoch (suc n) i = do
    e ← load_thread_local_epoch others i
    if e == now_epoch then loaded_loop now_epoch n (i + 1) else pure false

  unfoldable pub check_epoch_loaded : Cmd World Bool
  unfolding load_global_epoch
  check_epoch_loaded = do now_epoch ← load_global_epoch others; loaded_loop now_epoch 7 1

  -- `stop` is what `rdtscp` returned; the result is `epochTimerStart` after the call.
  unfoldable pub step_epoch_time : ℕ → (start stop : ℕ) → Cmd World ℕ
  step_epoch_time turns start stop =
      if check_clock_span start stop (epoch_time * clocks_per_us * 1000)
      then (do
        loaded ← check_epoch_loaded
        if loaded then (do atomic_add_global_epoch turns; pure stop) else pure start)
      else pure start
