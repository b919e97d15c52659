-- ===== src/Silo/Tests.antt =====
-- Runs of silo's executor on a small table, and the theorems at them.
use transaction_system.Base.Lists.{All}
use transaction_system.Common.StepLaws.{IsReadStep, make_steps-All}
use transaction_system.Silo.Executor.ReadAlone.{element_of, read-alone}
use transaction_system.Base.{
  ℕ, ◌+◌, ◌^◌, ◌*◌, ◌≤◌, ◌<◌, ◌≡◌, refl, ◌⊎◌, Bool, true, false, [], ◌∷◌, arith, update, ◌==◌,
  if◌then◌else◌, max,
}
use transaction_system.Base.Run.{Returns, Whenever, ok}
use transaction_system.TidWord.{TidWord, lock, tid, epoch, commit_tid}
use transaction_system.TidWord.Order.{stamp}
use transaction_system.TidWord.Commit.{commit_tid_bounds}
use transaction_system.Common.{check_clock_span, Result, add_commit}
use transaction_system.Common.Steps.{
  Operation, step, make_steps, draw_steps, read_only_flag, write_only_flag,
}
use transaction_system.Silo.Memory.{Memory, Others, World}
use transaction_system.Silo.Executor.{
  TxnExecutor, TxnStatus, copy_out, read_loop, read, write, search_write, search_read,
  search_read_set, search_write_set, begin,
}
use transaction_system.Silo.Executor.Search.{IsDistinct, writes, write-IsDistinct}
use transaction_system.Silo.Executor.ReadLaws.{Recorded, read-Recorded, read-IsDistinct}
use transaction_system.Silo.Commit.{
  is_stale, sort_by_key, lock_loop, lock_all, lock_write_set, unlock_write_set, validate_all,
  validation_phase, copy_in, install_all, write_phase,
}
use transaction_system.Silo.Commit.Spared.{Spares, SameRecord}
use transaction_system.Silo.Commit.Stale.{overwritten-is_stale}
use transaction_system.Silo.Worker.{
  perform, perform_all, conclude, finish, attempt, run_transaction,
}
use transaction_system.Silo.Worker.Atomic.{Outcome, finish_atomic}
use transaction_system.Silo.Epoch.{step_epoch_time}
use transaction_system.Silo.Epoch.Drift.{Follow, IsWithinOne, step_epoch_time-IsWithinOne}

-- Epoch 1, latest, unlocked, as `init` leaves every record.
abbrev initial : TidWord
initial = 0x1_0000_0002

abbrev table : Memory
table = record {
  tid_word = λ k. initial;
  value = λ k i. if i == 0 then b'a' else 0;
  global_epoch = 1;
  thread_local_epochs = λ i. 1;
}

abbrev start : World
start = record { memory = table; turn = 0 }

abbrev quiet : Others
quiet n m = m

-- Another thread that keeps overwriting record 9.
abbrev busy : Others
busy n m = record m { tid_word = update m.tid_word 9 (0x1_0000_0002 + n * 8) }

abbrev idle : TxnExecutor
idle = record {
  thread_id = 2;
  read_set = [];
  write_set = [];
  status = TxnStatus.active;
  most_recently_chosen_tid = 0;
  max_read_tid = 0;
  max_write_tid = 0;
  write_value = b'2' ∷ b'0' ∷ 0 ∷ 0 ∷ [];
  return_value = [];
}

abbrev no_result : Result
no_result = record {
  local_abort_counts = 0;
  local_commit_counts = 0;
  total_abort_counts = 0;
  total_commit_counts = 0;
}

-- Two reads and two writes, all alone: the commit stores TID 1 of epoch 1 in both records.
whole_transaction : Bool × ℕ × ℕ × ℕ
unfolding attempt perform_all perform begin read search_read_set search_write_set read_loop copy_out
    write finish validation_phase sort_by_key lock_write_set lock_all lock_loop unlock_write_set
    validate_all is_stale conclude write_phase install_all copy_in commit_tid lock epoch add_commit
whole_transaction =
    let steps =
      step Operation.read 5
      ∷ step Operation.write 7
      ∷ step Operation.read 7
      ∷ step Operation.write 5
      ∷ [] in
    elim (attempt quiet 2 steps idle no_result start) [
      | ok r w ↦ (r.0, w.memory.tid_word 5, w.memory.value 7 0, r.2.local_commit_counts)
      | _ ↦ (false, 0, 0, 0)
    ]

whole_transaction_result : whole_transaction ≡ (true, 0x1_0000_000a, b'2', 1)
unfolding whole_transaction
whole_transaction_result = refl

-- Thread 0 in the worker's loop: with `quit` unset it commits, with `quit` set it stops before it begins.
loop_of : Bool → Bool × ℕ
unfolding run_transaction step_epoch_time check_clock_span attempt perform_all perform begin read
    search_read_set search_write_set read_loop copy_out write finish validation_phase sort_by_key
    lock_write_set lock_all lock_loop unlock_write_set validate_all is_stale conclude write_phase
    install_all copy_in commit_tid lock epoch add_commit
loop_of quit =
    elim (run_transaction quiet 2 0 ((7, quit) ∷ []) 5 (step Operation.write 7 ∷ []) idle no_result
      start) [ ok r w ↦ (r.0, r.3.local_commit_counts) | _ ↦ (false, 9) ]

loop_of_result : (loop_of false ≡ (false, 1)) × (loop_of true ≡ (true, 0))
unfolding loop_of
loop_of_result = (refl, refl)

abbrev two_writes : TxnExecutor
two_writes = record idle { write_set = record { key = 3 } ∷ record { key = 1 } ∷ [] }

two_writes-Spares : Spares (λ k. writes k two_writes.write_set) busy
unfolding search_write
two_writes-Spares n m k own = ground arith

two_writes-distinct : writes 3 (record { key = 1 } ∷ []) ≡ false
unfolding search_write
two_writes-distinct = refl

finish_atomic_example :
    Returns (Outcome two_writes no_result table) (finish busy 1 two_writes no_result start)
unfolding search_write lock
finish_atomic_example =
    finish_atomic busy two_writes two_writes-Spares 0 no_result start
      (two_writes-distinct, (refl, tt)) (λ k h. refl)

read-Recorded_example : Whenever (Recorded busy idle 9) (read busy 3 idle 9 start)
unfolding search_read search_write
read-Recorded_example = read-Recorded busy 3 idle 9 start refl refl

read-IsDistinct_example : Whenever (λ t _. IsDistinct t) (read busy 3 idle 9 start)
read-IsDistinct_example =
    read-IsDistinct busy 3 idle 9 start (record { reads_once = tt; writes_once = tt })

write-IsDistinct_example : IsDistinct (write two_writes 1)
unfolding search_write
write-IsDistinct_example =
    write-IsDistinct two_writes 1 (record { reads_once = tt; writes_once = (refl, (refl, tt)) })

overwritten-is_stale_example :
    is_stale idle (record { key = 7; tid_word = initial; value = [] }) (commit_tid 0 initial 0 0 1)
    ≡ true
unfolding tid
overwritten-is_stale_example =
    overwritten-is_stale idle (record { key = 7; tid_word = initial; value = [] }) initial 0 0 1
      (omega arith) (omega arith) (omega arith) (omega arith) (omega arith) (omega arith)
      (omega arith) (omega arith)

commit_tid_bounds_example :
    let new = commit_tid 0 initial 0 0 1 in
    (stamp initial < stamp new)
    × (stamp 0 < stamp new)
    × (stamp 0 < stamp new)
    × (1 * 2 ^ 29 ≤ stamp new)
unfolding tid
commit_tid_bounds_example =
    commit_tid_bounds 0 initial 0 0 1 (omega arith) (omega arith) (omega arith)

-- Worker 3 loads the epoch as soon as it can.
abbrev follower : Others
follower n m = record m {
  thread_local_epochs =
      update m.thread_local_epochs 3 (max (m.thread_local_epochs 3) m.global_epoch);
}

follower-Follow : Follow follower
follower-Follow n m = record { global = refl; up = λ i. ground arith; capped = λ i. ground arith }

step_epoch_time-IsWithinOne_example :
    Returns
      (λ _ w'.
        IsWithinOne w'.memory × ((w'.memory.global_epoch ≡ 1) ⊎ (w'.memory.global_epoch ≡ 1 + 1)))
      (step_epoch_time follower 1 0 100_000_000 start)
step_epoch_time-IsWithinOne_example =
    step_epoch_time-IsWithinOne follower follower-Follow 0 0 100_000_000 start
      (λ i lo hi. omega arith) (omega arith)

-- Another thread keeps overwriting record 9; record 5 is read at once.
read-alone_example :
    Returns
      (λ t w.
        (t.read_set ≡ element_of 5 table ∷ [])
        × (t.return_value ≡ b'a' ∷ 0 ∷ 0 ∷ 0 ∷ [])
        × (t.write_set ≡ [])
        × SameRecord 5 table w.memory)
      (read busy 1 idle 5 start)
unfolding lock search_read search_write
read-alone_example = read-alone busy 5 (λ n m. (refl, refl)) 0 idle start refl refl refl

make_steps-All_example : All IsReadStep (make_steps 8 50 ((3, 10) ∷ (13, 120) ∷ []))
unfolding make_steps draw_steps read_only_flag write_only_flag
make_steps-All_example = make_steps-All 8 50 ((3, 10) ∷ (13, 120) ∷ []) refl
