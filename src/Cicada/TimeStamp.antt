-- ===== src/Cicada/TimeStamp.antt =====
-- cicada/time_stamp.h: timestamps from a local clock, a clock boost and the thread's id.
pub mod Order
use transaction_system.Base.{ℕ, ◌+◌, ◌-◌, ◌*◌, ◌%◌, ◌^◌, ltb, if◌then◌else◌}

pub record TimeStamp : Type 0 where
  pub body : ℕ
  pub local_clock : ℕ
  pub clock_boost : ℕ
  pub thread_id : ℕ

-- `(localClock << (sizeof(threadId_) * 8)) | threadId_`: the shift leaves the low 8 bits clear, and the
-- id has 8 bits.
unfoldable pub body_of : (clock thread_id : ℕ) → ℕ
body_of clock thread_id = clock * 2 ^ 8 % 2 ^ 64 + thread_id % 2 ^ 8

-- `now` is what `rdtscp` returned.
unfoldable pub generate_time_stamp_first : (now thread_id : ℕ) → TimeStamp → TimeStamp
unfolding body_of
generate_time_stamp_first now thread_id t = record t {
  local_clock = now;
  body = body_of now thread_id;
  thread_id = thread_id % 2 ^ 8;
}

-- `elapsedTime`, 0 where the clock has gone back; then the boost.
unfoldable pub next_clock : (now local_clock clock_boost : ℕ) → ℕ
next_clock now local_clock clock_boost =
    let elapsed = if ltb now local_clock then 0 else now - local_clock in
    ((local_clock + elapsed) % 2 ^ 64 + clock_boost) % 2 ^ 64

unfoldable pub generate_time_stamp : (now thread_id : ℕ) → TimeStamp → TimeStamp
unfolding body_of next_clock
generate_time_stamp now thread_id t =
    let clock = next_clock now t.local_clock t.clock_boost in
    record t { local_clock = clock; body = body_of clock thread_id }

unfoldable pub set_clock_boost : ℕ → TimeStamp → TimeStamp
set_clock_boost clock_per_us t = record t { clock_boost = clock_per_us }
