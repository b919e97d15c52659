-- ===== src/Cicada/TimeStamp/Order.antt =====
-- Timestamps of cicada go up in one thread, and those of two threads differ.
use transaction_system.Base.{ℕ, ◌+◌, ◌*◌, ◌^◌, ◌<◌, ◌≡◌, ◌≢◌, ◌⊎◌, arith, max}
use transaction_system.Cicada.TimeStamp.{TimeStamp, body_of, next_clock, generate_time_stamp}

next_clock-is :
    (now local boost : ℕ)
    → max now local + boost < 2 ^ 56
    → next_clock now local boost ≡ max now local + boost
unfolding next_clock
next_clock-is now local boost small = ground arith

-- A thread's next timestamp is above its last one, where the clock has gone on or there is a boost and
-- the clock with the boost fits 56 bits; its last 8 bits are the thread's id.
pub generate_time_stamp-up :
    (now thread_id : ℕ) (t : TimeStamp)
    → thread_id < 256
    → t.body ≡ t.local_clock * 256 + thread_id
    → max now t.local_clock + t.clock_boost < 2 ^ 56
    → (t.local_clock < now) ⊎ (0 < t.clock_boost)
    → (t.body < (generate_time_stamp now thread_id t).body)
      × ((generate_time_stamp now thread_id t).body
          ≡ (generate_time_stamp now thread_id t).local_clock * 256 + thread_id)
unfolding generate_time_stamp body_of
generate_time_stamp-up now thread_id t small is room on =
    ground (arith, next_clock-is now t.local_clock t.clock_boost room)

-- Two threads with different ids below 256 never have the same timestamp, whatever their clocks.
pub generate_time_stamp-distinct :
    (now now' a b : ℕ) (t t' : TimeStamp)
    → a < 256
    → b < 256
    → a ≢ b
    → (generate_time_stamp now a t).body ≢ (generate_time_stamp now' b t').body
unfolding generate_time_stamp body_of
generate_time_stamp-distinct now now' a b t t' small small' other same = other (omega (arith, same))
