-- ===== src/Cicada/Memory.antt =====
-- What cicada's threads share: versions (cicada/version.h), tuples (cicada/tuple.h) and the global
-- variables (cicada/consts.h).
pub mod Alone
use transaction_system.Base.{
  ℕ, zero, suc, ◌+◌, ◌%◌, ◌^◌, Bool, true, false, Option, none, some, List, [], ◌==◌, if◌then◌else◌,
  not, update,
}
use transaction_system.Base.Run.{Cmd, fault, starved, pure, ◌>>=◌}
use transaction_system.Base.Shared.{Interference, Shared, access}

pub data VersionStatus : Type 0 where
  pending : VersionStatus
  aborted : VersionStatus
  committed : VersionStatus
  deleted : VersionStatus
  unused : VersionStatus

-- `next` is an address, 0 for nullptr. The bytes of a version are not written once it is in a list.
pub record Version : Type 0 where
  pub rts : ℕ
  pub wts : ℕ
  pub next : ℕ
  pub status : VersionStatus
  pub value : List ℕ

-- Versions by address, the address of the next `new`; the fields of `Table[key]`; the globals.
pub record Memory : Type 0 where
  pub version : ℕ → Option Version
  pub fresh : ℕ
  pub latest : ℕ → ℕ
  pub record_min_wts : ℕ → ℕ
  pub continuing_commit : ℕ → ℕ
  pub gc_lock : ℕ → ℕ
  pub min_wts : ℕ
  pub min_rts : ℕ
  pub thread_wts : ℕ → ℕ
  pub thread_rts : ℕ → ℕ
  pub gc_flag : ℕ → ℕ
  pub gc_execute_flag : ℕ → ℕ

abbrev pub Others : Type 0
Others = Interference Memory

abbrev pub World : Type 0
World = Shared Memory

-- `Version(rts, wts)`: pending, with no next version.
abbrev pub new_version : (rts wts : ℕ) → Version
new_version rts wts = record { rts = rts; wts = wts; next = 0; status = pending; value = [] }

module _ (others : Others) where
  -- The version at an address, for one load of one of its fields; a fault at nullptr or after `delete`.
  unfoldable pub load_version : ℕ → Cmd World Version
  load_version p = do
    v ← access others λ m. (m.version p, m)
    elim v [ none ↦ λ w. fault | some x ↦ pure x ]

  -- A store to one field of the version at an address; a fault at nullptr or after `delete`.
  unfoldable pub change_version : ℕ → (Version → Version) → Cmd World (Unit {0})
  change_version p f = do
    done ← access others λ m. elim (m.version p) [
      | none ↦ (false, m)
      | some v ↦ (true, record m { version = update m.version p (some (f v)) })
    ]
    if done then pure tt else λ w. fault

  -- `version->status.store(s)`
  unfoldable pub store_status : ℕ → VersionStatus → Cmd World (Unit {0})
  unfolding change_version
  store_status p s = change_version p λ v. record v { status = s }

  -- `new Version(rts, wts)` and `delete version`
  unfoldable pub allocate : Version → Cmd World ℕ
  allocate v =
      access others λ m.
        (m.fresh, record m { version = update m.version m.fresh (some v); fresh = m.fresh + 1 })

  unfoldable pub delete_version : ℕ → Cmd World (Unit {0})
  delete_version p = access others λ m. (tt, record m { version = update m.version p none })

  unfoldable pub load_latest : ℕ → Cmd World ℕ
  load_latest k = access others λ m. (m.latest k, m)

  unfoldable pub store_continuing_commit : ℕ → ℕ → Cmd World (Unit {0})
  store_continuing_commit k c =
      access others λ m. (tt, record m { continuing_commit = update m.continuing_commit k c })

  -- `gcLock.compare_exchange_strong(expected, desired)`: whether it was done, and `expected` after it.
  unfoldable pub exchange_gc_lock : (k expected desired : ℕ) → Cmd World (Bool × ℕ)
  exchange_gc_lock k expected desired = access others λ m.
      if m.gc_lock k == expected
      then ((true, expected), record m { gc_lock = update m.gc_lock k desired })
      else ((false, m.gc_lock k), m)

  -- The loop of getGCRight.
  unfoldable pub gc_right_loop : ℕ → (k desired expected : ℕ) → Cmd World Bool
  gc_right_loop zero k desired expected = λ w. starved
  gc_right_loop (suc turns) k desired expected = if not (expected == 0) then pure false else (do
    (done, seen) ← exchange_gc_lock k expected desired
    if done then pure true else gc_right_loop turns k desired seen)

  unfoldable pub get_gc_right : ℕ → (k thread_id : ℕ) → Cmd World Bool
  get_gc_right turns k thread_id = do
    expected ← access others λ m. (m.gc_lock k, m)
    gc_right_loop turns k (thread_id % 2 ^ 8) expected

  unfoldable pub return_gc_right : ℕ → Cmd World (Unit {0})
  return_gc_right k = access others λ m. (tt, record m { gc_lock = update m.gc_lock k 0 })
