-- ===== src/Cicada/Executor.antt =====
-- TXExecutor of cicada/tx_executor.cpp: begin, read, write, earlyAbort; validation and the write phase
-- are not written there yet.
pub mod Visible
pub mod Found
use transaction_system.Base.{
  ℕ, zero, suc, ◌+◌, Bool, true, false, Option, none, some, List, [], ◌∷◌, ◌++◌, ◌==◌, ◌||◌, ◌&&◌,
  ltb, if◌then◌else◌, not, update,
}
use transaction_system.Base.Run.{Cmd, fault, starved, pure, ◌>>=◌, ◌>>◌}
use transaction_system.Base.Shared.{access}
use transaction_system.Common.{Result, add_abort}
use transaction_system.Common.Steps.{Step}
use transaction_system.Cicada.TimeStamp.{TimeStamp, generate_time_stamp, set_clock_boost}
use transaction_system.Cicada.Memory.{
  Others, World, Version, VersionStatus, committed, pending, aborted, deleted, unused, new_version,
  load_version, store_status, allocate, delete_version, load_latest, store_continuing_commit,
}

-- CLOCKS_PER_US of cicada/consts.h
abbrev pub clocks_per_us : ℕ
clocks_per_us = 2100

pub data TxStatus : Type 0 where
  in_valid : TxStatus
  in_flight : TxStatus
  commit : TxStatus
  abort : TxStatus

-- An element's record is `Table[key]`.
pub record ReadElement : Type 0 where
  pub key : ℕ
  pub later_ver : ℕ
  pub ver : ℕ

pub record WriteElement : Type 0 where
  pub key : ℕ
  pub later_ver : ℕ
  pub new_ver : ℕ
  pub rmw : Bool
  pub finish_version_install : Bool

pub record TxExecutor : Type 0 where
  pub status : TxStatus
  pub wts : TimeStamp
  pub read_set : List ReadElement
  pub write_set : List WriteElement
  pub steps : List Step
  pub return_value : List ℕ
  pub thread_id : ℕ
  pub rts : ℕ

unfoldable pub in_read_set : ℕ → List ReadElement → Bool
in_read_set k [] = false
in_read_set k (op ∷ ops) = op.key == k || in_read_set k ops

unfoldable pub in_write_set : ℕ → List WriteElement → Bool
in_write_set k [] = false
in_write_set k (op ∷ ops) = op.key == k || in_write_set k ops

unfoldable pub is_committed : VersionStatus → Bool
is_committed committed = true
is_committed pending = false
is_committed aborted = false
is_committed deleted = false
is_committed unused = false

unfoldable pub is_pending : VersionStatus → Bool
is_pending pending = true
is_pending committed = false
is_pending aborted = false
is_pending deleted = false
is_pending unused = false

unfoldable pub is_aborted : VersionStatus → Bool
is_aborted aborted = true
is_aborted committed = false
is_aborted pending = false
is_aborted deleted = false
is_aborted unused = false

-- `this->steps.begin()->readOnly`
unfoldable pub first_read_only : List Step → Cmd World Bool
first_read_only [] = λ w. fault
first_read_only (s ∷ ss) = pure s.read_only

module _ (others : Others) where
  -- `now` is what `rdtscp` returned.
  unfoldable pub begin : ℕ → TxExecutor → Cmd World TxExecutor
  begin now t = do
    let ts = generate_time_stamp now t.thread_id t.wts
    access others λ m. (tt, record m { thread_wts = update m.thread_wts t.thread_id ts.body })
    r ← access others λ m. (m.min_wts, m)
    access others λ m. (tt, record m { thread_rts = update m.thread_rts t.thread_id r })
    pure (record t { status = TxStatus.in_flight; wts = ts; rts = r })

  -- `while (ver->wts > ts) { laterVer = ver; ver = ver->next; }`: `laterVer` and `ver` after it.
  unfoldable pub skip_later : ℕ → (ts later_ver ver : ℕ) → Cmd World (ℕ × ℕ)
  skip_later zero ts later_ver ver = λ w. starved
  skip_later (suc turns) ts later_ver ver = do
    v ← load_version others ver
    if ltb ts v.wts
        then (do n ← load_version others ver; skip_later turns ts ver n.next)
        else pure (later_ver, ver)

  -- `while (ver->status == Pending) { }`
  unfoldable pub wait_pending : ℕ → ℕ → Cmd World (Unit {0})
  wait_pending zero ver = λ w. starved
  wait_pending (suc turns) ver = do
    v ← load_version others ver
    if is_pending v.status then wait_pending turns ver else pure tt

  -- The loop up to a committed version: a pending one is waited for, an aborted one passed over.
  unfoldable pub find_committed : ℕ → ℕ → Cmd World ℕ
  find_committed zero ver = λ w. starved
  find_committed (suc turns) ver = do
    v ← load_version others ver
    if is_committed v.status then pure ver else (do
      wait_pending turns ver
      a ← load_version others ver
      if is_aborted a.status
          then (do n ← load_version others ver; find_committed turns n.next)
          else find_committed turns ver)

  unfoldable pub read : ℕ → TxExecutor → ℕ → Cmd World TxExecutor
  read turns t k = if in_write_set k t.write_set || in_read_set k t.read_set then pure t else (do
    read_only ← first_read_only t.steps
    latest ← load_latest others k
    (later_ver, visible) ← skip_later turns (if read_only then t.rts else t.wts.body) 0 latest
    ver ← find_committed turns visible
    v ← load_version others ver
    pure (record t {
      return_value = v.value;
      read_set =
          if read_only
          then t.read_set
          else t.read_set ++ record { key = k; later_ver = later_ver; ver = ver } ∷ [];
    }))

  -- The new version, and its element of the write set.
  unfoldable pub install_write :
      TxExecutor → (k : ℕ) → Bool → (later_ver : ℕ) → Cmd World TxExecutor
  install_write t k rmw later_ver = do
    new_ver ← allocate others (new_version 0 t.wts.body)
    pure (record t {
      write_set =
          t.write_set
          ++ record {
            key = k;
            later_ver = later_ver;
            new_ver = new_ver;
            rmw = rmw;
            finish_version_install = false;
          }
            ∷ [];
    })

  -- From the version to write after: the early abort, or the new version.
  unfoldable pub add_write :
      TxExecutor → (k : ℕ) → Bool → (later_ver ver : ℕ) → Cmd World TxExecutor
  add_write t k rmw later_ver ver = do
    v ← load_version others ver
    if ltb t.wts.body v.rts
        then (do
          u ← load_version others ver
          if is_committed u.status
              then pure (record t { status = TxStatus.abort })
              else install_write t k rmw later_ver)
        else install_write t k rmw later_ver

  unfoldable pub write : ℕ → TxExecutor → ℕ → Cmd World TxExecutor
  write turns t k = if in_write_set k t.write_set then pure t else (do
    latest ← load_latest others k
    if in_read_set k t.read_set
        then (do
          v ← load_version others latest
          if ltb t.wts.body v.wts
              then pure (record t { status = TxStatus.abort })
              else add_write t k true 0 latest)
        else (do
          (later_ver, ver) ← skip_later turns t.wts.body 0 latest
          add_write t k false later_ver ver))

  unfoldable pub write_set_clean : List WriteElement → Cmd World (Unit {0})
  write_set_clean [] = pure tt
  write_set_clean (op ∷ ops) = do
    store_continuing_commit others op.key 0
    if op.finish_version_install
        then store_status others op.new_ver aborted
        else delete_version others op.new_ver
    write_set_clean ops

  unfoldable pub early_abort : TxExecutor → Result → Cmd World (TxExecutor × Result)
  early_abort t result = do
    write_set_clean t.write_set
    pure (
      record t {
        write_set = [];
        read_set = [];
        wts = set_clock_boost clocks_per_us t.wts;
        status = TxStatus.abort;
      },
      add_abort result,
    )
