-- ===== src/Silo/Worker.antt =====
-- The transaction loop of silo/main.cpp's worker.
pub mod Atomic
use transaction_system.Base.{ℕ, zero, suc, Bool, true, false, List, [], ◌∷◌, ◌==◌, if◌then◌else◌}
use transaction_system.Base.Run.{Cmd, fault, starved, pure, ◌>>=◌}
use transaction_system.Common.{Result, add_commit, add_abort}
use transaction_system.Common.Steps.{Step, Operation}
use transaction_system.Silo.Memory.{Others, World}
use transaction_system.Silo.Epoch.{step_epoch_time}
use transaction_system.Silo.Executor.{TxnExecutor, begin, abort, read, write}
use transaction_system.Silo.Commit.{validation_phase, write_phase}

module _ (others : Others) where
  -- `switch(op.operation)`; its default case is ERR.
  unfoldable pub perform : ℕ → TxnExecutor → Operation → ℕ → Cmd World TxnExecutor
  perform turns t Operation.read k = read others turns t k
  perform turns t Operation.write k = pure (write t k)
  perform turns t Operation.rmw k = λ w. fault

  unfoldable pub perform_all : ℕ → List Step → TxnExecutor → Cmd World TxnExecutor
  perform_all turns [] t = pure t
  perform_all turns (op ∷ ops) t = do
    t' ← perform turns t op.operation op.key
    perform_all turns ops t'

  -- The two branches on the outcome of validationPhase.
  unfoldable pub conclude : Result → Bool × TxnExecutor → Cmd World (Bool × TxnExecutor × Result)
  conclude result (true, t₂) = do t₃ ← write_phase others t₂; pure (true, t₃, add_commit result)
  conclude result (false, t₂) = pure (false, abort t₂, add_abort result)

  -- Validation, and the commit or the abort: whether it committed.
  unfoldable pub finish : ℕ → TxnExecutor → Result → Cmd World (Bool × TxnExecutor × Result)
  finish turns t₁ result = validation_phase others turns t₁ >>= conclude result

  -- One pass from `RETRY`.
  unfoldable pub attempt :
      ℕ → List Step → TxnExecutor → Result → Cmd World (Bool × TxnExecutor × Result)
  attempt turns steps t₀ result = do t₁ ← perform_all turns steps (begin t₀); finish turns t₁ result

  -- From `RETRY`, with `goto RETRY` until the transaction commits. Thread 0 steps the epoch before each
  -- attempt; `seen` has, for each attempt, what `rdtscp` returns then and the flag `quit`, which breaks
  -- out of the worker's loop. The result: whether it quit, and `epochTimerStart`.
  unfoldable pub run_transaction :
      ℕ
      → (thread_id : ℕ) → (seen : List (ℕ × Bool)) → (start : ℕ) → List Step
      → TxnExecutor
      → Result
      → Cmd World (Bool × ℕ × TxnExecutor × Result)
  run_transaction turns thread_id [] start steps t result = λ w. starved
  run_transaction turns thread_id ((stop, quit) ∷ seen) start steps t result = do
    start' ← (if thread_id == 0 then step_epoch_time others turns start stop else pure start)
    if quit then pure (true, start', t, result) else (do
      (committed, t', result') ← attempt turns steps t result
      if committed
          then pure (false, start', t', result')
          else run_transaction turns thread_id seen start' steps t' result')
