-- ===== src/TidWord/Commit.antt =====
-- What the TID of a committing transaction exceeds (writePhase of silo, phase 3 of kvsilo's commit).
use transaction_system.Base.{ℕ, ◌^◌, ◌≤◌, ◌<◌, ◌≡◌, false, true, max, arith, ◌*◌}
use transaction_system.TidWord.{
  TidWord, lock, latest, with_lock, next_tid, with_epoch, commit_tid, tid, with_latest,
}
use transaction_system.TidWord.Order.{
  stamp, HasNext, stamp-with_lock, stamp-with_latest, stamp-next_tid,
}

stamp-max : (a b : TidWord) → stamp (max a b) ≡ max (stamp a) (stamp b)
stamp-max a b = omega arith

stamp-with_epoch : (w : TidWord) (e : ℕ) → e < 2 ^ 32 → e * 2 ^ 29 ≤ stamp (with_epoch w e)
unfolding with_epoch
stamp-with_epoch w e h = omega arith

module _ (blank max_write max_read recent : TidWord) (e : ℕ) where
  abbrev chosen : TidWord
  chosen = commit_tid blank max_write max_read recent e

  stamp-commit_tid :
      stamp chosen
      ≡ max
          (max (stamp (next_tid (max max_write max_read))) (stamp (next_tid recent)))
          (stamp (with_epoch blank e))
  unfolding commit_tid
  stamp-commit_tid = omega (
    arith,
    stamp-with_latest
        (with_lock
          (max (max (next_tid (max max_write max_read)) (next_tid recent)) (with_epoch blank e))
          false)
        true,
    stamp-with_lock
        (max (max (next_tid (max max_write max_read)) (next_tid recent)) (with_epoch blank e))
        false,
  )

  pub lock-commit_tid : lock chosen ≡ false
  unfolding commit_tid lock
  lock-commit_tid = ground arith

  pub latest-commit_tid : latest chosen ≡ true
  unfolding commit_tid latest
  latest-commit_tid = ground arith

  -- The three requirements on a new TID: above every version read or written, above the most
  -- recent one, and not below the epoch.
  pub commit_tid_bounds :
      HasNext (max max_write max_read)
      → HasNext recent
      → e < 2 ^ 32
      → (stamp max_write < stamp chosen)
        × (stamp max_read < stamp chosen)
        × (stamp recent < stamp chosen)
        × (e * 2 ^ 29 ≤ stamp chosen)
  commit_tid_bounds h k small = omega (
    arith,
    stamp-commit_tid,
    stamp-next_tid (max max_write max_read) h,
    stamp-next_tid recent k,
    stamp-max max_write max_read,
    stamp-with_epoch blank e small,
  )

next_tid-lt : (w : TidWord) → w < 2 ^ 64 → next_tid w < 2 ^ 64
unfolding next_tid tid
next_tid-lt w h = omega arith

with_epoch-lt : (w : TidWord) (e : ℕ) → with_epoch w e < 2 ^ 64
unfolding with_epoch
with_epoch-lt w e = omega arith

clean-lt : (w : TidWord) → w < 2 ^ 64 → with_latest (with_lock w false) true < 2 ^ 64
unfolding with_latest with_lock
clean-lt w h = omega arith

pub commit_tid-lt :
    (blank max_write max_read recent : TidWord) (e : ℕ)
    → max_write < 2 ^ 64
    → max_read < 2 ^ 64
    → recent < 2 ^ 64
    → commit_tid blank max_write max_read recent e < 2 ^ 64
unfolding commit_tid
commit_tid-lt blank max_write max_read recent e h k r = clean-lt _ (
    omega (
      arith,
      next_tid-lt (max max_write max_read) (omega arith),
      next_tid-lt recent r,
      with_epoch-lt blank e,
    ))
