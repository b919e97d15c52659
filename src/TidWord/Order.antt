-- ===== src/TidWord/Order.antt =====
-- How TID words are ordered, and what a committing transaction's TID exceeds.
use transaction_system.Base.{ℕ, ◌+◌, ◌*◌, ◌/◌, ◌^◌, ◌<◌, ◌≡◌, Bool, false, arith}
use transaction_system.TidWord.{TidWord, lock, tid, epoch, with_lock, with_latest, next_tid}

-- The version that a word names: epoch and tid, without the three status bits.
abbrev pub stamp : TidWord → ℕ
stamp w = w / 8

-- The tid field is not at its last value.
abbrev pub HasNext : TidWord → Type 0
HasNext w = tid w + 1 < 2 ^ 29

pub lock-with_lock : (w : TidWord) (b : Bool) → lock (with_lock w b) ≡ b
unfolding lock with_lock
lock-with_lock w b = ground arith

pub with_lock_self : (w : TidWord) → lock w ≡ false → with_lock w false ≡ w
unfolding lock with_lock
with_lock_self w h = ground arith

-- Releasing a lock that was taken on an unlocked word gives the word back.
pub with_lock-with_lock : (w : TidWord) (b c : Bool) → with_lock (with_lock w b) c ≡ with_lock w c
unfolding with_lock
with_lock-with_lock w b c = ground arith

pub stamp-with_lock : (w : TidWord) (b : Bool) → stamp (with_lock w b) ≡ stamp w
unfolding with_lock
stamp-with_lock w b = ground arith

pub stamp-with_latest : (w : TidWord) (b : Bool) → stamp (with_latest w b) ≡ stamp w
unfolding with_latest
stamp-with_latest w b = ground arith

pub tid-with_lock : (w : TidWord) (b : Bool) → tid (with_lock w b) ≡ tid w
unfolding with_lock tid
tid-with_lock w b = ground arith

pub epoch-with_lock : (w : TidWord) (b : Bool) → epoch (with_lock w b) ≡ epoch w
unfolding with_lock epoch
epoch-with_lock w b = ground arith

pub stamp-next_tid : (w : TidWord) → HasNext w → stamp (next_tid w) ≡ stamp w + 1
unfolding next_tid tid
stamp-next_tid w h = omega arith

-- Within 64 bits the stamp is the pair of epoch and tid.
pub stamp_parts : (w : TidWord) → w < 2 ^ 64 → stamp w ≡ epoch w * 2 ^ 29 + tid w
unfolding epoch tid
stamp_parts w h = omega arith
