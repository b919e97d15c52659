-- ===== src/KvSilo/Database/Drift.antt =====
-- The global epoch of kvsilo runs away from a worker that does not load it.
use transaction_system.Base.{
  ℕ, zero, suc, ◌+◌, ◌-◌, ◌/◌, ◌^◌, ◌<◌, ◌≡◌, refl, Bool, true, false, List, [], ◌∷◌, ◌==◌, ltb,
  leb, if◌then◌else◌, arith, Bool-cases, inl, inr, ◌∙◌, ap,
}
use transaction_system.Base.Run.{
  and_then, pure, ◌>>=◌, ok, Returns, returns, Returns-bind, Returns-mono,
}
use transaction_system.KvSilo.Database.{
  SiloEnv, EnvOthers, EnvWorld, load_epoch, load_worker_epoch, load_stop, advance_epoch,
  wait_for_workers, leader_round, leader_work,
}

-- How many of the readings come 40 ms or more after the last one that did, at first after `start`.
abbrev pub due_rounds : List ℕ → ℕ → ℕ
due_rounds [] start = 0
due_rounds (check ∷ checks) start =
    if leb (start + 40_000_000) check
    then suc (due_rounds checks check)
    else due_rounds checks start

-- The leader is not stopped, no other thread stores the global epoch, and the worker `i` does not load
-- it; whatever the other workers do.
abbrev pub Sleeps : ℕ → EnvOthers → Type 0
Sleeps i others =
    (n : ℕ) (m : SiloEnv)
    → ((others n m).epoch ≡ m.epoch)
      × ((others n m).worker_epochs i ≡ m.worker_epochs i)
      × ((others n m).stop ≡ m.stop)

-- The epoch has gone up by `n`; the worker's epoch and the flag `stop` stay.
abbrev Ahead : ℕ → ℕ → SiloEnv → SiloEnv → Type 0
Ahead i n m m' =
    (m'.epoch ≡ m.epoch + n) × (m'.worker_epochs i ≡ m.worker_epochs i) × (m'.stop ≡ m.stop)

Ahead-trans :
    (i a b : ℕ) (m₁ m₂ m₃ : SiloEnv) → Ahead i a m₁ m₂ → Ahead i b m₂ m₃ → Ahead i (a + b) m₁ m₃
Ahead-trans i a b m₁ m₂ m₃ (e, w, s) (e', w', s') = (omega (arith, e, e'), w' ∙ w, s' ∙ s)

module _ (others : EnvOthers) (workers i : ℕ) (sleeps : Sleeps i others) where
  others-Ahead : (n : ℕ) (m : SiloEnv) → Ahead i 0 m (others n m)
  others-Ahead n m = let (e, w, s) = sleeps n m in (omega (arith, e), w, s)

  wait_for_workers-Ahead :
      (e n j : ℕ) (w : EnvWorld)
      → Returns (λ _ w'. Ahead i 0 w.memory w'.memory) (wait_for_workers others e n j w)
  unfolding wait_for_workers load_worker_epoch
  wait_for_workers-Ahead e zero j w = returns (omega arith, refl, refl)
  wait_for_workers-Ahead e (suc n) j w =
      let m₁ = others w.turn w.memory in
      let w₁ : EnvWorld = record { memory = m₁; turn = w.turn + 1 } in
      let rest = Returns-mono (wait_for_workers-Ahead e n (j + 1) w₁) λ _ w' ahead.
        Ahead-trans i 0 0 w.memory m₁ w'.memory (others-Ahead w.turn w.memory) ahead in
      elim (Bool-cases (m₁.worker_epochs j == e)) [
        | inl loaded ↦ rw loaded rest
        | inr behind ↦ rw behind rest
      ]

  leader_round-Ahead :
      (ms : ℕ) (w : EnvWorld)
      → (ltb ms 40) ≡ false
      → w.memory.epoch + 1 < 2 ^ 32
      → Returns
          (λ b w'. (b ≡ true) × Ahead i 1 w.memory w'.memory)
          (leader_round others workers ms w)
  unfolding leader_round load_epoch advance_epoch
  leader_round-Ahead ms w due room =
      let m₁ = others w.turn w.memory in
      let w₁ : EnvWorld = record { memory = m₁; turn = w.turn + 1 } in
      rw due (
        Returns-bind (wait_for_workers-Ahead m₁.epoch workers 0 w₁) λ _ w₂ ahead.
          let m₃ = others w₂.turn w₂.memory in
          let (e, v, s) =
            Ahead-trans i 0 (0 + 0) w.memory m₁ m₃ (others-Ahead w.turn w.memory)
              (Ahead-trans i 0 0 m₁ w₂.memory m₃ ahead (others-Ahead w₂.turn w₂.memory)) in
          returns (refl, (omega (arith, e, room), v, s)))

  leader_round-early :
      (ms : ℕ) (w : EnvWorld) → ltb ms 40 ≡ true → leader_round others workers ms w ≡ ok false w
  unfolding leader_round
  leader_round-early ms w early = rw early refl

  leader_work-runs :
      (check : ℕ) (checks : List ℕ) (start : ℕ) (w : EnvWorld)
      → (others w.turn w.memory).stop ≡ false
      → leader_work others workers (check ∷ checks) start w
        ≡ and_then
            (leader_round others workers
              ((check - start) / 1_000_000)
              (record { memory = others w.turn w.memory; turn = w.turn + 1 }))
            (λ advanced. leader_work others workers checks (if advanced then check else start))
  unfolding leader_work load_stop
  leader_work-runs check checks start w go =
      ap
        (λ (b : Bool).
          (if b then pure tt else (do
            advanced ← leader_round others workers ((check - start) / 1_000_000)
            leader_work others workers checks (if advanced then check else start)))
            (record { memory = others w.turn w.memory; turn = w.turn + 1 }))
        go

  -- While nothing stops the leader and the worker `i` does not load the epoch, whatever the other
  -- workers load and how many there are: leaderWork returns after the readings of the clock, has
  -- advanced the epoch once for each that came 40 ms or more after the last advance, below 32 bits,
  -- and the worker's epoch is where it was, that many behind.
  pub leader_work-drifts :
      (checks : List ℕ) (start : ℕ) (w : EnvWorld)
      → w.memory.stop ≡ false
      → w.memory.epoch + due_rounds checks start < 2 ^ 32
      → Returns
          (λ _ w'.
            (w'.memory.epoch ≡ w.memory.epoch + due_rounds checks start)
            × (w'.memory.worker_epochs i ≡ w.memory.worker_epochs i))
          (leader_work others workers checks start w)
  unfolding leader_work
  leader_work-drifts [] start w runs room = returns (omega arith, refl)
  leader_work-drifts (check ∷ checks) start w runs room =
      let m₁ = others w.turn w.memory in
      let w₁ : EnvWorld = record { memory = m₁; turn = w.turn + 1 } in
      let (e₁, v₁, s₁) = sleeps w.turn w.memory in
      let go : m₁.stop ≡ false = s₁ ∙ runs in
      rw (leader_work-runs check checks start w go)
        (elim (Bool-cases (leb (start + 40_000_000) check)) [
          | inl due ↦
              let late : ltb ((check - start) / 1_000_000) 40 ≡ false = ground (arith, due) in
              let room' : w.memory.epoch + suc (due_rounds checks check) < 2 ^ 32 =
                rw due at room in
              rw due (
                Returns-bind (leader_round-Ahead _ w₁ late (omega (arith, e₁, room')))
                  λ b w₂ (is, (e₂, v₂, s₂)). rw is (
                    Returns-mono
                      (leader_work-drifts checks check w₂ (s₂ ∙ go) (omega (arith, e₁, e₂, room')))
                      λ _ w₃ (e₃, v₃). (omega (arith, e₁, e₂, e₃), v₃ ∙ v₂ ∙ v₁)))
          | inr early ↦
              let soon : ltb ((check - start) / 1_000_000) 40 ≡ true = ground (arith, early) in
              let room' : w.memory.epoch + due_rounds checks start < 2 ^ 32 = rw early at room in
              rw early (
                rw (leader_round-early _ w₁ soon) (
                  Returns-mono (leader_work-drifts checks start w₁ go (omega (arith, e₁, room')))
                    λ _ w₃ (e₃, v₃). (omega (arith, e₁, e₃), v₃ ∙ v₁)))
        ])
