-- ===== src/KvSilo/Tests.antt =====
-- Runs of kvsilo's transactions on a few records, and the theorems at them.
use transaction_system.Base.{
  ℕ, List, ◌==◌, ◌+◌, ◌≡◌, refl, false, ◌&&◌, Option, none, some, [], ◌∷◌, arith, update, ltb,
  if◌then◌else◌, ◌-◌,
}
use transaction_system.Base.Run.{ok, starved, Returns}
use transaction_system.TidWord.{lock, latest, tid, epoch, with_lock, commit_tid}
use transaction_system.KvSilo.Memory.{Memory, Pointer, fresh_word, Others, World}
use transaction_system.KvSilo.Transaction.{
  Transaction, Result, new_transaction, read, write, commit, sort_pairs, lock_w_set, lock_all,
  lock_loop, read_loop, validate_all, is_stale, conclude, install_all, search_w_set, add_commit,
}
use transaction_system.KvSilo.Transaction.Spared.{Spares}
use transaction_system.KvSilo.Transaction.Stale.{overwritten-passes}
use transaction_system.KvSilo.Transaction.Twice.{write_twice-starved}
use transaction_system.KvSilo.Transaction.Atomic.{Outcome, commit_atomic}
use transaction_system.KvSilo.Database.{SiloEnv, EnvOthers, leader_work}
use transaction_system.KvSilo.Database.Drift.{due_rounds, leader_work-drifts}

-- The record of key k stands at address 100 + k, for the keys 1 to 8 that the tree starts with.
abbrev find : ℕ → Option Pointer
find k = if ltb 0 k && ltb k 9 then some (100 + k) else none

abbrev records : Memory
records = record { tid_word = λ p. fresh_word; value = λ p. p - 100; global_epoch = 3 }

abbrev start : World
start = record { memory = records; turn = 0 }

abbrev quiet : Others
quiet n m = m

-- Another thread that keeps changing the record of key 8.
abbrev busy : Others
busy n m = record m { value = update m.value 108 n }

abbrev no_result : Result
no_result = record { aborts = 0; commits = 0 }

-- The first client of kvsilo/main.cpp, all alone: 5 loses one and 6 gains one.
transfer : ℕ × ℕ × ℕ
unfolding read read_loop lock latest write commit sort_pairs lock_w_set lock_all lock_loop
    validate_all is_stale tid conclude commit_tid install_all add_commit with_lock
transfer = elim (read find quiet 1 new_transaction 5 start) [
  | ok r w ↦ elim (write find r.1 5 (r.0 - 1)) [
    | some t ↦ elim (read find quiet 1 t 6 w) [
      | ok r₂ w₂ ↦ elim (write find r₂.1 6 (r₂.0 + 1)) [
        | some t₂ ↦ elim (commit quiet 2 t₂ no_result w₂) [
          | ok end w₃ ↦ (w₃.memory.value 105, w₃.memory.value 106, end.1.commits)
          | _ ↦ (0, 0, 0)
        ]
        | none ↦ (0, 0, 0)
      ]
      | _ ↦ (0, 0, 0)
    ]
    | none ↦ (0, 0, 0)
  ]
  | _ ↦ (0, 0, 0)
]

transfer_result : transfer ≡ (4, 7, 1)
unfolding transfer
transfer_result = refl

abbrev two_writes : Transaction
two_writes = record new_transaction { w_set = (106, 7) ∷ (105, 4) ∷ [] }

two_writes-Spares : Spares (λ p. search_w_set p two_writes.w_set) busy
unfolding search_w_set
two_writes-Spares n m p own = ground arith

commit_atomic_example :
    Returns (Outcome two_writes no_result records) (commit busy 1 two_writes no_result start)
unfolding search_w_set lock
commit_atomic_example =
    commit_atomic busy two_writes two_writes-Spares (refl, (refl, tt)) 0 no_result start
      (λ p h. refl)

-- The keys 5 and 6 read and written, then 5 again, and 7.
abbrev once : Transaction
once = record new_transaction { r_set = (105, fresh_word) ∷ []; w_set = (105, 1) ∷ (106, 3) ∷ [] }

abbrev twice : Transaction
twice = record once { w_set = (105, 1) ∷ (106, 3) ∷ (105, 2) ∷ [] }

abbrev and_more : Transaction
and_more = record once { w_set = (105, 1) ∷ (106, 3) ∷ (105, 2) ∷ (107, 0) ∷ [] }

write_twice-starved_example : commit busy 1_000_000 and_more no_result start ≡ starved
unfolding write search_w_set
write_twice-starved_example =
    write_twice-starved busy 105 (λ n m. refl) find 1_000_000 5 2 once twice and_more
      ((107, 0) ∷ []) no_result start refl refl refl refl

-- Record 105 was read as created; another transaction then committed to it in epoch 3.
overwritten-passes_example :
    is_stale [] (105, fresh_word) (commit_tid fresh_word fresh_word fresh_word fresh_word 3) ≡ false
unfolding tid epoch
overwritten-passes_example =
    overwritten-passes [] 105 fresh_word fresh_word fresh_word 3 refl (omega arith) (omega arith)
      (omega arith) (omega arith) (omega arith)

-- Two workers at epoch 0, of which the first loads the epoch 3 before the leader's second access.
abbrev env : SiloEnv
env = record { epoch = 1; worker_epochs = λ i. 0; stop = false }

abbrev first_works : EnvOthers
first_works n m = if n == 1 then record m { worker_epochs = update m.worker_epochs 0 1 } else m

abbrev readings : List ℕ
readings = 10_000_000 ∷ 40_000_000 ∷ 70_000_000 ∷ 80_000_000 ∷ 120_000_000 ∷ []

leader_work-drifts_example :
    Returns
      (λ _ w'. (w'.memory.epoch ≡ 1 + due_rounds readings 0) × (w'.memory.worker_epochs 1 ≡ 0))
      (leader_work first_works 2 readings 0 (record { memory = env; turn = 0 }))
leader_work-drifts_example =
    leader_work-drifts first_works 2 1 (λ n m. ground arith) readings 0
      (record { memory = env; turn = 0 }) refl (omega arith)

rounds : due_rounds readings 0 ≡ 3
rounds = refl
