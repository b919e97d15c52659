-- ===== src/TidWord.antt =====
-- The TID word of silo/tuple.h and kvsilo/record.h: a union of the 64-bit `body` with the bit
-- fields lock, latest, absent (a bit each), tid (29 bits) and epoch (32 bits), the first in the
-- lowest bit, as gcc and clang lay them out on x86-64. A word is its body.
pub mod Order
pub mod Commit
use transaction_system.Base.{
  ℕ, ◌+◌, ◌-◌, ◌*◌, ◌/◌, ◌%◌, ◌^◌, ◌≡◌, refl, Bool, true, false, ◌==◌, if◌then◌else◌, max,
}

abbrev pub TidWord : Type 0
TidWord = ℕ

abbrev pub bit : Bool → ℕ
bit b = if b then 1 else 0

unfoldable pub lock : TidWord → Bool
lock w = w % 2 == 1

unfoldable pub latest : TidWord → Bool
latest w = w / 2 % 2 == 1

unfoldable pub tid : TidWord → ℕ
tid w = w / 8 % 2 ^ 29

unfoldable pub epoch : TidWord → ℕ
epoch w = w / 2 ^ 32 % 2 ^ 32

-- `w.lock = b`
unfoldable pub with_lock : TidWord → Bool → TidWord
with_lock w b = w - w % 2 + bit b

-- `w.latest = b`
unfoldable pub with_latest : TidWord → Bool → TidWord
with_latest w b = w - w / 2 % 2 * 2 + bit b * 2

-- `w.tid++`, which wraps within its 29 bits
unfoldable pub next_tid : TidWord → TidWord
unfolding tid
next_tid w = w - tid w * 8 + (tid w + 1) % 2 ^ 29 * 8

-- `w.epoch = e`
unfoldable pub with_epoch : TidWord → ℕ → TidWord
with_epoch w e = w % 2 ^ 32 + e % 2 ^ 32 * 2 ^ 32

-- The TID that a committing transaction stores: over the greatest words written and read, over the
-- worker's most recent one, and at least at the epoch; `blank` is a default-constructed word.
unfoldable pub commit_tid :
    (blank max_write_tid max_read_tid most_recently_chosen_tid : TidWord) → ℕ → TidWord
unfolding next_tid with_epoch with_lock with_latest
commit_tid blank max_write_tid max_read_tid most_recently_chosen_tid e =
    let tid_a = next_tid (max max_write_tid max_read_tid) in
    let tid_b = next_tid most_recently_chosen_tid in
    let tid_c = with_epoch blank e in
    with_latest (with_lock (max (max tid_a tid_b) tid_c) false) true

-- Epoch 1, tid 5, latest and locked.
fields_of_word :
    let w : TidWord = 0x1_0000_002b in
    (lock w ≡ true) × (latest w ≡ true) × (tid w ≡ 5) × (epoch w ≡ 1) × (tid (next_tid w) ≡ 6)
unfolding lock latest tid epoch next_tid
fields_of_word = (refl, refl, refl, refl, refl)
