-- ===== src/Silo/Worker/Atomic.antt =====
-- A transaction's end is atomic on the records of its write set, while the other threads leave
-- those alone: all are installed under one new TID, or all are as before.
use transaction_system.Base.{ℕ, suc, ◌≡◌, refl, Bool, true, false, [], sym, ◌∙◌}
use transaction_system.Base.Run.{Returns, returns, Returns-bind}
use transaction_system.TidWord.{lock, commit_tid}
use transaction_system.TidWord.Commit.{lock-commit_tid}
use transaction_system.Common.{Result, add_commit, add_abort}
use transaction_system.Silo.Memory.{Memory, Others, World, load_thread_local_epoch}
use transaction_system.Silo.Executor.{TxnExecutor, abort}
use transaction_system.Silo.Executor.Search.{writes, DistinctWrites}
use transaction_system.Silo.Commit.{write_phase}
use transaction_system.Silo.Commit.Sorted.{writes-sort_by_key, DistinctWrites-sort_by_key}
use transaction_system.Silo.Commit.Spared.{SameRecord, Spares, Within, Unlocked}
use transaction_system.Silo.Commit.Install.{Holds, install_all-Holds}
use transaction_system.Silo.Commit.Phases.{Prepared, validation_phase-Prepared}
use transaction_system.Silo.Worker.{finish, conclude}

-- What writePhase leaves: every record of the write set holds the value under the chosen TID.
record Written (mine : ℕ → Bool) (t : TxnExecutor) (e : ℕ) (t' : TxnExecutor) (w' : World)
    : Type 0 where
  reads_cleared : t'.read_set ≡ []
  writes_cleared : t'.write_set ≡ []
  chosen :
      t'.most_recently_chosen_tid
      ≡ commit_tid 0 t.max_write_tid t.max_read_tid t.most_recently_chosen_tid e
  installed :
      (k : ℕ)
      → mine k ≡ true
      → writes k t.write_set ≡ true
      → Holds t.write_value t'.most_recently_chosen_tid k w'.memory

module _ (others : Others) (mine : ℕ → Bool) (spares : Spares mine others) where
  write_phase-Written :
      (t : TxnExecutor) (w : World)
      → Within mine t.write_set
      → DistinctWrites t.write_set
      → Returns
          (Written mine t ((others w.turn w.memory).thread_local_epochs t.thread_id))
          (write_phase others t w)
  unfolding write_phase load_thread_local_epoch
  write_phase-Written t w own once =
      let e = (others w.turn w.memory).thread_local_epochs t.thread_id in
      let new = commit_tid 0 t.max_write_tid t.max_read_tid t.most_recently_chosen_tid e in
      Returns-bind (install_all-Holds others mine spares t.write_value new t.write_set _ own once)
        λ _ w' held. returns (record {
          reads_cleared = refl;
          writes_cleared = refl;
          chosen = refl;
          installed = λ k h found. (held k h).0 found;
        })

-- What the end of a transaction leaves of the records that it writes.
abbrev pub Outcome : TxnExecutor → Result → Memory → Bool × TxnExecutor × Result → World → Type 0
Outcome t result m (true, t', result') w' =
    (result' ≡ add_commit result)
    × (t'.read_set ≡ [])
    × (t'.write_set ≡ [])
    × (lock t'.most_recently_chosen_tid ≡ false)
    × ((k : ℕ)
        → writes k t.write_set ≡ true
        → Holds t.write_value t'.most_recently_chosen_tid k w'.memory)
Outcome t result m (false, t', result') w' =
    (result' ≡ add_abort result)
    × (t'.read_set ≡ [])
    × (t'.write_set ≡ [])
    × ((k : ℕ) → writes k t.write_set ≡ true → SameRecord k m w'.memory)

module _ (others : Others) (t : TxnExecutor)
    (spares : Spares (λ k. writes k t.write_set) others) where
  conclude-Outcome :
      (result : Result) (m : Memory) (r : Bool × TxnExecutor) (w₁ : World)
      → DistinctWrites t.write_set
      → Prepared t m r w₁
      → Returns (Outcome t result m) (conclude others result r w₁)
  unfolding conclude abort
  conclude-Outcome result m (false, t₂) w₁ once (_, same) =
      let facts : Outcome t result m
          (false, record t₂ { read_set = []; write_set = [] }, add_abort result) w₁ =
        (refl, refl, refl, same) in
      returns facts
  conclude-Outcome result m (true, t₂) w₁ once (ws, rs, st, wv, recent, id, mw, under) =
      let own : Within (λ k. writes k t.write_set) t₂.write_set =
        λ k h. sym (writes-sort_by_key k t.write_set) ∙ (rw ws at h) in
      let once₂ : DistinctWrites t₂.write_set =
        rw ws (DistinctWrites-sort_by_key t.write_set once) in
      Returns-bind (write_phase-Written others (λ k. writes k t.write_set) spares t₂ w₁ own once₂)
        λ t₃ w₂ held.
          let facts : Outcome t result m (true, t₃, add_commit result) w₂ = (
            refl,
            held.reads_cleared,
            held.writes_cleared,
            rw held.chosen (lock-commit_tid 0 _ _ _ _),
            λ k h. rw wv at (held.installed k h (rw ws (writes-sort_by_key k t.write_set ∙ h))),
          ) in
          returns facts

  -- While the other threads leave the records of the write set alone, and these are distinct and
  -- unlocked at first, the end of a transaction returns, and either all of those records hold the
  -- transaction's value under its new and unlocked TID, or all have their old word and value; the
  -- sets are empty and the counter of commits or of aborts is one more.
  pub finish_atomic :
      (turns : ℕ) (result : Result) (w : World)
      → DistinctWrites t.write_set
      → Unlocked t.write_set w.memory
      → Returns (Outcome t result w.memory) (finish others (suc turns) t result w)
  unfolding finish
  finish_atomic turns result w once free =
      Returns-bind (validation_phase-Prepared others t spares turns w once free)
        λ r w₁ prepared. conclude-Outcome result w.memory r w₁ once prepared
