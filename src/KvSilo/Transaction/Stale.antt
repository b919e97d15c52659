-- ===== src/KvSilo/Transaction/Stale.antt =====
-- What phase 2 of kvsilo's commit detects, and what it lets through.
use transaction_system.Base.{
  ℕ, ◌^◌, ◌<◌, ◌≡◌, refl, ◌↔◌, true, false, ◌&&◌, not, List, arith, max, ◌+◌, ◌*◌, ◌%◌, ◌∙◌, sym,
}
use transaction_system.TidWord.{
  TidWord, lock, latest, tid, epoch, commit_tid, next_tid, with_epoch, with_lock, with_latest,
}
use transaction_system.TidWord.Commit.{lock-commit_tid, latest-commit_tid}
use transaction_system.KvSilo.Memory.{Pointer, fresh_word}
use transaction_system.KvSilo.Transaction.{is_stale, search_w_set}

-- An element passes exactly when its record's word has the tid that was read, is the latest, and is
-- unlocked or locked by this transaction itself; the epoch is not compared.
pub is_stale_iff :
    (ws : List (Pointer × ℕ)) (p : Pointer) (read_tid now : TidWord)
    → (is_stale ws (p, read_tid) now ≡ false) ↔ (
        (tid read_tid ≡ tid now)
        × (latest now ≡ true)
        × ((lock now && not (search_w_set p ws)) ≡ false))
unfolding is_stale
is_stale_iff ws p read_tid now = (λ h. ground arith, λ h. ground arith)

next_tid-fresh : next_tid fresh_word ≡ 10
unfolding next_tid
next_tid-fresh = refl

tid-new_epoch : (e : ℕ) → tid (2 + e * 2 ^ 32) ≡ 0
unfolding tid
tid-new_epoch e = omega arith

max-older : (a b : TidWord) (e : ℕ) → epoch a < e → epoch b < e → epoch (max a b) < e
max-older a b e ha hb = grind arith

next_tid-lt-epoch :
    (w : TidWord) (e : ℕ) → epoch w < e → w < 2 ^ 64 → e < 2 ^ 32 → next_tid w < e * 2 ^ 32
unfolding next_tid tid epoch
next_tid-lt-epoch w e older bound small = omega arith

clean-new_epoch : (e : ℕ) → with_latest (with_lock (2 + e * 2 ^ 32) false) true ≡ 2 + e * 2 ^ 32
unfolding with_latest with_lock
clean-new_epoch e = omega arith

-- The first TID chosen in an epoch, over words of earlier epochs, has tid 0.
commit_tid-new_epoch :
    (max_write max_read : TidWord) (e : ℕ)
    → epoch max_write < e
    → epoch max_read < e
    → e < 2 ^ 32
    → max_write < 2 ^ 64
    → max_read < 2 ^ 64
    → commit_tid fresh_word max_write max_read fresh_word e ≡ 2 + e * 2 ^ 32
unfolding commit_tid with_epoch
commit_tid-new_epoch max_write max_read e older_w older_r small w r =
    let one : epoch (max max_write max_read) < e = max-older max_write max_read e older_w older_r in
    let mine = next_tid-lt-epoch (max max_write max_read) e one (omega arith) small in
    let fresh : next_tid fresh_word ≡ 10 = next_tid-fresh in
    let greatest : max (max (next_tid (max max_write max_read)) (next_tid fresh_word))
          (fresh_word % 2 ^ 32 + e % 2 ^ 32 * 2 ^ 32)
        ≡ 2 + e * 2 ^ 32 =
      omega (arith, fresh, mine) in
    rw greatest (clean-new_epoch e)

-- The epoch is not compared: a record whose word has tid 0, as every record starts and as the first
-- commit of an epoch leaves it, was read; another transaction, the first of a later epoch to touch
-- it, commits a new value to it; and the read still passes.
pub overwritten-passes :
    (ws : List (Pointer × ℕ)) (p : Pointer) (read_tid max_write max_read : TidWord) (e : ℕ)
    → tid read_tid ≡ 0
    → epoch max_write < e
    → epoch max_read < e
    → e < 2 ^ 32
    → max_write < 2 ^ 64
    → max_read < 2 ^ 64
    → is_stale ws (p, read_tid) (commit_tid fresh_word max_write max_read fresh_word e) ≡ false
overwritten-passes ws p read_tid max_write max_read e zero_tid older_w older_r small w r =
    let new = commit_tid fresh_word max_write max_read fresh_word e in
    (is_stale_iff ws p read_tid new).1 (
      zero_tid
          ∙ rw (commit_tid-new_epoch max_write max_read e older_w older_r small w r)
              (sym (tid-new_epoch e)),
      latest-commit_tid fresh_word max_write max_read fresh_word e,
      rw (lock-commit_tid fresh_word max_write max_read fresh_word e),
    )
