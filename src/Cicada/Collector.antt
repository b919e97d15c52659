-- ===== src/Cicada/Collector.antt =====
-- Garbage collection in cicada/tx_executor.cpp: maintain, as far as it is written.
pub mod Lock
use transaction_system.Base.{
  ℕ, zero, suc, ◌+◌, Bool, List, [], ◌∷◌, some, ◌==◌, leb, if◌then◌else◌, update,
}
use transaction_system.Base.Run.{Cmd, starved, pure, ◌>>=◌, ◌>>◌}
use transaction_system.Base.Shared.{access}
use transaction_system.Cicada.Memory.{
  Others, World, load_version, change_version, get_gc_right, return_gc_right,
}

pub record GcElement : Type 0 where
  pub key : ℕ
  pub version : ℕ
  pub wts : ℕ

module _ (others : Others) where
  unfoldable pub load_min_rts : Cmd World ℕ
  load_min_rts = access others λ m. (m.min_rts, m)

  unfoldable pub load_record_min_wts : ℕ → Cmd World ℕ
  load_record_min_wts k = access others λ m. (m.record_min_wts k, m)

  unfoldable pub store_record_min_wts : ℕ → ℕ → Cmd World (Unit {0})
  store_record_min_wts k x =
      access others λ m. (tt, record m { record_min_wts = update m.record_min_wts k x })

  -- `version->next.store(nullptr)`
  unfoldable pub cut_next : ℕ → Cmd World (Unit {0})
  unfolding change_version
  cut_next p = change_version others p λ v. record v { next = 0 }

  -- `while (!GCQueue.empty())`: the queue after it. The element in front is taken off where the lock is
  -- held or the version too old; after the work on a version it stays in front.
  unfoldable pub collect_loop :
      ℕ → (lock_turns thread_id : ℕ) → List GcElement → Cmd World (List GcElement)
  collect_loop zero lock_turns thread_id queue = λ w. starved
  collect_loop (suc turns) lock_turns thread_id [] = pure []
  collect_loop (suc turns) lock_turns thread_id (e ∷ queue) = do
    min_rts ← load_min_rts
    if leb min_rts e.wts then pure (e ∷ queue) else (do
      right ← get_gc_right others lock_turns e.key (thread_id + 1)
      if right
          then (do
            min_wts ← load_record_min_wts e.key
            if leb e.wts min_wts
                then (do
                  return_gc_right others e.key
                  collect_loop turns lock_turns thread_id queue)
                else (do
                  del_target ← load_version others e.version
                  cut_next e.version
                  v ← load_version others e.version
                  store_record_min_wts e.key v.wts
                  collect_loop turns lock_turns thread_id (e ∷ queue)))
          else collect_loop turns lock_turns thread_id queue)

  unfoldable pub maintain :
      ℕ → (lock_turns thread_id : ℕ) → List GcElement → Cmd World (List GcElement)
  maintain turns lock_turns thread_id queue = do
    flag ← access others λ m. (m.gc_execute_flag thread_id, m)
    if flag == 1 then collect_loop turns lock_turns thread_id queue else pure queue
