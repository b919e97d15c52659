-- ===== src/Silo/Epoch/Drift.antt =====
-- The global epoch never runs more than one ahead of a worker's.
use transaction_system.Base.{
  ℕ, zero, suc, ◌+◌, ◌*◌, ◌^◌, ◌≤◌, ◌<◌, ◌≡◌, refl, true, arith, max, Bool-cases, inl, inr, ◌==◌,
  ◌∙◌, sym, ◌⊎◌,
}
use transaction_system.Base.Run.{Returns, returns, Returns-bind, Returns-mono}
use transaction_system.Common.{check_clock_span}
use transaction_system.Silo.Memory.{
  Memory, Others, World, load_global_epoch, load_thread_local_epoch,
}
use transaction_system.Silo.Epoch.{
  exchange_global_epoch, add_loop, atomic_add_global_epoch, loaded_loop, check_epoch_loaded,
  step_epoch_time, epoch_time, clocks_per_us,
}

-- No one advances the global epoch; a worker's epoch goes up at most to it.
pub record Progress (m m' : Memory) : Type 0 where
  pub global : m'.global_epoch ≡ m.global_epoch
  pub up : (i : ℕ) → m.thread_local_epochs i ≤ m'.thread_local_epochs i
  pub capped : (i : ℕ) → m'.thread_local_epochs i ≤ max (m.thread_local_epochs i) m.global_epoch

-- What the workers do between two accesses of the leader.
abbrev pub Follow : Others → Type 0
Follow others = (n : ℕ) (m : Memory) → Progress m (others n m)

-- Every worker's epoch is the global one or the one before.
abbrev pub IsWithinOne : Memory → Type 0
IsWithinOne m =
    (i : ℕ)
    → 1 ≤ i
    → i < 8
    → (m.thread_local_epochs i ≤ m.global_epoch) × (m.global_epoch ≤ m.thread_local_epochs i + 1)

Progress-trans : {a b c : Memory} → Progress a b → Progress b c → Progress a c
Progress-trans p q = record {
  global = q.global ∙ p.global;
  up = λ i. omega (arith, p.up i, q.up i);
  capped = λ i. omega (arith, p.capped i, q.capped i, p.global);
}

Progress-refl : (m : Memory) → Progress m m
Progress-refl m = record { global = refl; up = λ i. omega arith; capped = λ i. omega arith }

Progress-IsWithinOne : {m m' : Memory} → Progress m m' → IsWithinOne m → IsWithinOne m'
Progress-IsWithinOne p v i lo hi =
    let (below, near) = v i lo hi in omega (arith, p.global, p.up i, p.capped i, below, near)

module _ (others : Others) (follow : Follow others) where
  -- The answer `true` means that each of the threads had loaded `now`, and it has ever since.
  loaded_loop-Progress :
      (now n i : ℕ) (w : World)
      → w.memory.global_epoch ≡ now
      → IsWithinOne w.memory
      → 1 ≤ i
      → i + n ≡ 8
      → Returns
          (λ b w'.
            Progress w.memory w'.memory
            × (b ≡ true → (j : ℕ) → i ≤ j → j < 8 → w'.memory.thread_local_epochs j ≡ now))
          (loaded_loop others now n i w)
  unfolding loaded_loop load_thread_local_epoch
  loaded_loop-Progress now zero i w is v lo end =
      returns (Progress-refl w.memory, λ b j from to. absurd (omega arith))
  loaded_loop-Progress now (suc n) i w is v lo end =
      let m₁ = others w.turn w.memory in
      let p = follow w.turn w.memory in
      elim (Bool-cases (m₁.thread_local_epochs i == now)) [
        | inr behind ↦ rw behind (returns (p, λ e j from to. cc))
        | inl loaded ↦ rw loaded (
            Returns-mono
              (loaded_loop-Progress now n (i + 1) _ (p.global ∙ is) (Progress-IsWithinOne p v)
                (omega arith) (omega arith))
              λ b w' (q, all). (
                Progress-trans p q,
                λ e j from to. ground (arith, all e j, q.up j, q.capped j, p.global),
              ))
      ]

  abbrev AllLoaded : Memory → Type 0
  AllLoaded m = (j : ℕ) → 1 ≤ j → j < 8 → m.thread_local_epochs j ≡ m.global_epoch

  check_epoch_loaded-Progress :
      (w : World)
      → IsWithinOne w.memory
      → Returns
          (λ b w'. Progress w.memory w'.memory × (b ≡ true → AllLoaded w'.memory))
          (check_epoch_loaded others w)
  unfolding check_epoch_loaded load_global_epoch
  check_epoch_loaded-Progress w v =
      let p = follow w.turn w.memory in
      Returns-mono
        (loaded_loop-Progress (others w.turn w.memory).global_epoch 7 1 _ refl
          (Progress-IsWithinOne p v) (omega arith) (omega arith))
        λ b w' (q, all). (Progress-trans p q, λ e j from to. all e j from to ∙ sym q.global)

  -- Advancing once every worker has loaded the epoch: one turn is enough, as no one else advances.
  atomic_add_global_epoch-IsWithinOne :
      (turns : ℕ) (w : World)
      → AllLoaded w.memory
      → w.memory.global_epoch + 1 < 2 ^ 64
      → Returns
          (λ _ w'. IsWithinOne w'.memory × (w'.memory.global_epoch ≡ w.memory.global_epoch + 1))
          (atomic_add_global_epoch others (suc turns) w)
  unfolding atomic_add_global_epoch add_loop load_global_epoch exchange_global_epoch
  atomic_add_global_epoch-IsWithinOne turns w all small =
      let m₁ = others w.turn w.memory in
      let m₂ = others (w.turn + 1) m₁ in
      let p = follow w.turn w.memory in
      let q = follow (w.turn + 1) m₁ in
      let same : (m₂.global_epoch == m₁.global_epoch) ≡ true = ground (arith, q.global) in
      rw same (
        returns (
          λ i lo hi. omega (arith, all i lo hi, p.global, p.up i, p.capped i, q.up i, q.capped i),
          omega (arith, p.global),
        ))

  -- While the workers only follow, the leader's step returns and keeps every worker within one of the
  -- global epoch; the epoch stays or goes up by one.
  pub step_epoch_time-IsWithinOne :
      (turns start stop : ℕ) (w : World)
      → IsWithinOne w.memory
      → w.memory.global_epoch + 1 < 2 ^ 64
      → Returns
          (λ _ w'.
            IsWithinOne w'.memory
            × ((w'.memory.global_epoch ≡ w.memory.global_epoch)
                ⊎ (w'.memory.global_epoch ≡ w.memory.global_epoch + 1)))
          (step_epoch_time others (suc turns) start stop w)
  unfolding step_epoch_time
  step_epoch_time-IsWithinOne turns start stop w v small =
      elim (Bool-cases (check_clock_span start stop (epoch_time * clocks_per_us * 1000))) [
        | inr early ↦ rw early (returns (v, inl refl))
        | inl due ↦ rw due (
            Returns-bind (check_epoch_loaded-Progress w v) λ b w₁ (p, all). elim (Bool-cases b) [
              | inr behind ↦ rw behind (returns (Progress-IsWithinOne p v, inl p.global))
              | inl loaded ↦ rw loaded (
                  Returns-bind
                    (atomic_add_global_epoch-IsWithinOne turns w₁ (all loaded)
                      (omega (arith, p.global)))
                    λ _ w₂ (near, next). returns (near, inr (omega (arith, next, p.global))))
            ])
      ]
