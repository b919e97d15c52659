-- ===== src/Common.antt =====
-- common/step.h, common/result.h and common/helper.h, which the silo and cicada programs share.
pub mod Steps
pub mod StepLaws
use transaction_system.Base.{ℕ, ◌+◌, ◌-◌, ◌%◌, ◌^◌, Bool, ltb}

-- common/result.h; the counters are uint64_t.
pub record Result : Type 0 where
  pub local_abort_counts : ℕ
  pub local_commit_counts : ℕ
  pub total_abort_counts : ℕ
  pub total_commit_counts : ℕ

abbrev u64 : ℕ → ℕ
u64 n = n % 2 ^ 64

unfoldable pub add_local_all_result : Result → Result → Result
add_local_all_result r other = record r {
  total_abort_counts = u64 (r.total_abort_counts + other.local_abort_counts);
  total_commit_counts = u64 (r.total_commit_counts + other.local_commit_counts);
}

unfoldable pub add_commit : Result → Result
add_commit r = record r { local_commit_counts = u64 (r.local_commit_counts + 1) }

unfoldable pub add_abort : Result → Result
add_abort r = record r { local_abort_counts = u64 (r.local_abort_counts + 1) }

-- `stop - start` on uint64_t wraps.
unfoldable pub check_clock_span : (start stop threshold : ℕ) → Bool
check_clock_span start stop threshold = ltb threshold ((stop + 2 ^ 64 - start) % 2 ^ 64)
