-- ===== src/Cicada/Tests.antt =====
-- Runs of cicada, and the theorems at them.
use transaction_system.Cicada.Executor.Found.{read-finds}
use transaction_system.Base.{
  ℕ, ◌+◌, ◌*◌, ◌<◌, ◌≡◌, ◌≢◌, refl, inl, inr, true, [], ◌∷◌, none, some, arith, Bool-cases, ◌==◌,
  if◌then◌else◌, ap,
}
use transaction_system.Base.Run.{Returns, Whenever}
use transaction_system.Common.Steps.{Operation, step}
use transaction_system.Cicada.TimeStamp.{TimeStamp, generate_time_stamp}
use transaction_system.Cicada.TimeStamp.Order.{generate_time_stamp-up, generate_time_stamp-distinct}
use transaction_system.Cicada.Memory.{Memory, World, Version, committed, aborted, pending}
use transaction_system.Cicada.Executor.{
  TxExecutor, TxStatus, ReadElement, in_read_set, in_write_set, read,
}
use transaction_system.Cicada.Executor.Visible.{IsOrdered, IsVisible, Respects, read-Visible}
use transaction_system.Cicada.Collector.{maintain}
use transaction_system.Cicada.Collector.Lock.{maintain-keeps_lock}
use transaction_system.Cicada.Memory.Alone.{alone}
use transaction_system.Cicada.Leader.{leader_work}
use transaction_system.Cicada.Leader.Minima.{
  Advances, IsMinimum, leader_work-IsMinimum, leader_work-ignores_leader,
}

abbrev stamp : TimeStamp
stamp = record { body = 10 * 256 + 3; local_clock = 10; clock_boost = 0; thread_id = 3 }

generate_time_stamp-up_example :
    (stamp.body < (generate_time_stamp 12 3 stamp).body)
    × ((generate_time_stamp 12 3 stamp).body
        ≡ (generate_time_stamp 12 3 stamp).local_clock * 256 + 3)
generate_time_stamp-up_example =
    generate_time_stamp-up 12 3 stamp (omega arith) refl (omega arith) (inl (omega arith))

generate_time_stamp-distinct_example :
    (generate_time_stamp 12 3 stamp).body ≢ (generate_time_stamp 12 4 stamp).body
generate_time_stamp-distinct_example =
    generate_time_stamp-distinct 12 12 3 4 stamp stamp (omega arith) (omega arith) (omega arith)

abbrev old_version : Version
old_version = record { rts = 0; wts = 5; next = 0; status = committed; value = b'a' ∷ [] }

abbrev failed_version : Version
failed_version = record { rts = 0; wts = 9; next = 1; status = aborted; value = b'b' ∷ [] }

-- Record 0 has an aborted version at 2 and a committed one at 1 after it.
abbrev two_versions : Memory
two_versions = record {
  version = λ p. if p == 1 then some old_version else if p == 2 then some failed_version else none;
  fresh = 3;
  latest = λ k. 2;
  record_min_wts = λ k. 5;
  continuing_commit = λ k. 0;
  gc_lock = λ k. 0;
  min_wts = 4;
  min_rts = 3;
  thread_wts = λ i. if i == 0 then 6 else 8;
  thread_rts = λ i. if i == 0 then 3 else 7;
  gc_flag = λ i. 1;
  gc_execute_flag = λ i. 0;
}

abbrev start : World
start = record { memory = two_versions; turn = 0 }

next_is : (p : ℕ) (v : Version) → two_versions.version p ≡ some v → (p == 2) ≡ true → v.next ≡ 1
next_is p v at second = ground arith

two_versions-IsOrdered : IsOrdered two_versions
two_versions-IsOrdered = record {
  null_absent = refl;
  next_older = λ p v at. elim (Bool-cases (p == 1)) [
    | inl first ↦ inl (ground arith)
    | inr other ↦ elim (Bool-cases (p == 2)) [
      | inl second ↦
          inr (old_version, ap two_versions.version (next_is p v at second), ground arith)
      | inr none_there ↦ absurd (ground arith)
    ]
  ];
}

alone-Respects : Respects alone
alone-Respects n m o = (λ p v at. (v, at, refl, refl, λ e. e), o)

abbrev transaction : TxExecutor
transaction = record {
  status = TxStatus.in_flight;
  wts = stamp;
  read_set = [];
  write_set = [];
  steps = step Operation.read 0 ∷ [];
  return_value = [];
  thread_id = 3;
  rts = 3;
}

read-Visible_example :
    Whenever
      (λ t' w'.
        (op : ReadElement) × (t'.read_set ≡ op ∷ [])
        × (op.key ≡ 0)
        × IsVisible 2563 w'.memory op.ver t'.return_value
        × (t'.write_set ≡ []))
      (read alone 5 transaction 0 start)
unfolding in_read_set in_write_set
read-Visible_example =
    read-Visible alone alone-Respects 5 0 transaction (step Operation.read 0) [] start
      two_versions-IsOrdered refl refl refl

alone-Advances : Advances alone
alone-Advances n m = record { wts_up = λ i. omega arith; min_wts_stays = refl }

leader_work-IsMinimum_example : Returns (λ _ w'. IsMinimum w'.memory) (leader_work alone start)
leader_work-IsMinimum_example =
    leader_work-IsMinimum alone alone-Advances start (omega arith, omega arith)

-- Thread 0 has the read timestamp 3, and 7 is stored.
leader_work-ignores_leader_example :
    Returns
      (λ _ w'.
        (w'.memory.min_rts ≡ 7)
        × (w'.memory.min_wts ≡ 6)
        × (w'.memory.gc_flag 0 ≡ 0)
        × (w'.memory.gc_flag 1 ≡ 0))
      (leader_work alone start)
leader_work-ignores_leader_example = leader_work-ignores_leader start (omega arith) (omega arith)

abbrev collectable : World
collectable = record {
  memory = record two_versions { gc_execute_flag = λ i. 1; min_rts = 12; record_min_wts = λ k. 4 };
  turn = 0;
}

-- Thread 3 keeps the lock of record 0.
maintain-keeps_lock_example :
    Returns
      (λ queue w'.
        (queue ≡ [])
        × (w'.memory.gc_lock 0 ≡ 4)
        × (w'.memory.record_min_wts 0 ≡ 9)
        × (w'.memory.version 2 ≡ some (record failed_version { next = 0 })))
      (maintain alone 3 1 3 (record { key = 0; version = 2; wts = 9 } ∷ []) collectable)
maintain-keeps_lock_example =
    maintain-keeps_lock 3 (record { key = 0; version = 2; wts = 9 }) failed_version collectable refl
      (omega arith) (omega arith) refl (omega arith) refl

abbrev later_version : Version
later_version = record { rts = 0; wts = 3000; next = 2; status = pending; value = b'c' ∷ [] }

-- A later, pending version at 3 before the two.
abbrev three_versions : World
three_versions = record {
  memory = record two_versions {
    version = λ p. if p == 3 then some later_version else two_versions.version p;
    latest = λ k. 3;
  };
  turn = 0;
}

read-finds_example :
    Returns
      (λ t' w'.
        (t'.read_set ≡ record { key = 0; later_ver = 3; ver = 1 } ∷ [])
        × (t'.return_value ≡ b'a' ∷ [])
        × (t'.write_set ≡ [])
        × (w'.memory ≡ three_versions.memory))
      (read alone 2 transaction 0 three_versions)
unfolding in_read_set in_write_set
read-finds_example =
    read-finds 2 0 transaction (step Operation.read 0) [] three_versions 2 1 (3 ∷ []) (2 ∷ [])
      failed_version old_version refl refl refl (omega arith) (omega arith)
      (refl, (later_version, refl, omega arith, refl)) refl (omega arith)
      (refl, (failed_version, refl, refl, refl)) refl refl
