-- ===== src/Cicada/Leader/Minima.antt =====
-- The minima that cicada's leader stores.
use transaction_system.Base.{
  ℕ, zero, suc, ◌+◌, ◌≤◌, ◌≡◌, ◌≢◌, refl, false, arith, Bool-cases, inl, inr, min, ◌==◌, update,
}
use transaction_system.Base.Run.{Returns, returns, Returns-bind}
use transaction_system.Cicada.Memory.{Memory, Others, World}
use transaction_system.Cicada.Memory.Alone.{alone}
use transaction_system.Cicada.Leader.{
  load_thread_wts, load_thread_rts, all_flags, minima, reset_flags, leader_work,
}

-- The workers' timestamps only go up, and no worker stores the global minima.
pub record Advance (m m' : Memory) : Type 0 where
  pub wts_up : (i : ℕ) → m.thread_wts i ≤ m'.thread_wts i
  pub min_wts_stays : m'.min_wts ≡ m.min_wts

abbrev pub Advances : Others → Type 0
Advances others = (n : ℕ) (m : Memory) → Advance m (others n m)

-- `MinWts` is not above the timestamp of any of the two threads.
abbrev pub IsMinimum : Memory → Type 0
IsMinimum m = (m.min_wts ≤ m.thread_wts 0) × (m.min_wts ≤ m.thread_wts 1)

module _ (others : Others) (advances : Advances others) where
  all_flags-IsMinimum :
      (n i : ℕ) (w : World)
      → IsMinimum w.memory
      → Returns (λ _ w'. IsMinimum w'.memory) (all_flags others n i w)
  unfolding all_flags
  all_flags-IsMinimum zero i w v = returns v
  all_flags-IsMinimum (suc n) i w v =
      let m₁ = others w.turn w.memory in
      let a = advances w.turn w.memory in
      let v₁ : IsMinimum m₁ = (
        omega (arith, v.0, a.wts_up 0, a.min_wts_stays),
        omega (arith, v.1, a.wts_up 1, a.min_wts_stays),
      ) in
      elim (Bool-cases (m₁.gc_flag i == 0)) [
        | inl unset ↦ rw unset (returns v₁)
        | inr is_set ↦ rw is_set (all_flags-IsMinimum n (i + 1) _ v₁)
      ]

  reset_flags-IsMinimum :
      (n i : ℕ) (w : World)
      → IsMinimum w.memory
      → Returns (λ _ w'. IsMinimum w'.memory) (reset_flags others n i w)
  unfolding reset_flags
  reset_flags-IsMinimum zero i w v = returns v
  reset_flags-IsMinimum (suc n) i w v =
      let m₁ = others w.turn w.memory in
      let a = advances w.turn w.memory in
      let m₁' : Memory = record m₁ { gc_flag = update m₁.gc_flag i 0 } in
      let b = advances (w.turn + 1) m₁' in
      reset_flags-IsMinimum n (i + 1) _ (
        omega (arith, v.0, a.wts_up 0, a.min_wts_stays, b.wts_up 0, b.min_wts_stays),
        omega (arith, v.1, a.wts_up 1, a.min_wts_stays, b.wts_up 1, b.min_wts_stays),
      )

  -- While the workers' timestamps only go up and no worker stores `MinWts`, the leader's work returns
  -- and keeps `MinWts` at or below the timestamps of both threads.
  pub leader_work-IsMinimum :
      (w : World)
      → IsMinimum w.memory
      → Returns (λ _ w'. IsMinimum w'.memory) (leader_work others w)
  unfolding leader_work load_thread_wts load_thread_rts minima
  leader_work-IsMinimum w v = Returns-bind (all_flags-IsMinimum 2 0 w v) λ b w₁ v₁.
      elim (Bool-cases b) [
        | inr unset ↦ rw unset (returns v₁)
        | inl all_set ↦
            let m₂ = others w₁.turn w₁.memory in
            let a = advances w₁.turn w₁.memory in
            let m₃ = others (w₁.turn + 1) m₂ in
            let m₄ = others (w₁.turn + 1 + 1) m₃ in
            let m₅ = others (w₁.turn + 1 + 1 + 1) m₄ in
            let m₆ = others (w₁.turn + 1 + 1 + 1 + 1) m₅ in
            let stored : Memory = record m₆ { min_wts = min (m₂.thread_wts 0) (m₄.thread_wts 1) } in
            let b₃ = advances (w₁.turn + 1) m₂ in
            let b₄ = advances (w₁.turn + 1 + 1) m₃ in
            let b₅ = advances (w₁.turn + 1 + 1 + 1) m₄ in
            let b₆ = advances (w₁.turn + 1 + 1 + 1 + 1) m₅ in
            let b₇ = advances (w₁.turn + 1 + 1 + 1 + 1 + 1) stored in
            rw all_set (
              reset_flags-IsMinimum 2 0 _ (
                omega (
                  arith,
                  b₃.wts_up 0,
                  b₄.wts_up 0,
                  b₅.wts_up 0,
                  b₆.wts_up 0,
                  b₇.wts_up 0,
                  b₇.min_wts_stays,
                ),
                omega (arith, b₅.wts_up 1, b₆.wts_up 1, b₇.wts_up 1, b₇.min_wts_stays),
              ))
      ]

-- Where the other threads stand still, the work of a leader that finds both flags set leaves in
-- `MinRts` the read timestamp of thread 1, whatever thread 0 has, in `MinWts` the smaller of the two
-- write timestamps, and both flags reset.
pub leader_work-ignores_leader :
    (w : World)
    → w.memory.gc_flag 0 ≢ 0
    → w.memory.gc_flag 1 ≢ 0
    → Returns
        (λ _ w'.
          (w'.memory.min_rts ≡ w.memory.thread_rts 1)
          × (w'.memory.min_wts ≡ min (w.memory.thread_wts 0) (w.memory.thread_wts 1))
          × (w'.memory.gc_flag 0 ≡ 0)
          × (w'.memory.gc_flag 1 ≡ 0))
        (leader_work alone w)
unfolding leader_work load_thread_wts load_thread_rts minima all_flags reset_flags
leader_work-ignores_leader w set₀ set₁ =
    let first : (w.memory.gc_flag 0 == 0) ≡ false = ground arith in
    let second : (w.memory.gc_flag 1 == 0) ≡ false = ground arith in
    rw (first, second) (returns (omega arith, refl, refl, refl))
