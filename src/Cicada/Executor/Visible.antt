-- ===== src/Cicada/Executor/Visible.antt =====
-- What cicada's read finds: a committed version that is not later than the transaction.
use transaction_system.Base.{
  ℕ, zero, suc, ◌≤◌, ◌≡◌, refl, ◌⊎◌, inl, inr, true, false, ◌||◌, List, [], ◌∷◌, ◌++◌, Option, none,
  some, ltb, arith, Bool-cases, ap, ◌∙◌, sym,
}
use mathlib.Core.Path.{subst}
use transaction_system.Base.Run.{
  ok, Whenever, when, when_fault, when_starved, Whenever-bind, Whenever-mono,
}
use transaction_system.Common.Steps.{Step}
use transaction_system.Cicada.Memory.{
  Memory, Others, World, Version, VersionStatus, committed, pending, aborted, deleted, unused,
  load_version, load_latest,
}
use transaction_system.Cicada.Executor.{
  TxExecutor, ReadElement, in_read_set, in_write_set, is_committed, skip_later, wait_pending,
  is_pending, is_aborted, find_committed, first_read_only, read,
}

-- No version stands at nullptr, and the next version is not later.
pub record IsOrdered (m : Memory) : Type 0 where
  pub null_absent : m.version 0 ≡ none
  pub next_older :
      (p : ℕ) (v : Version)
      → m.version p ≡ some v
      → (v.next ≡ 0) ⊎ ((u : Version) × (m.version v.next ≡ some u) × (u.wts ≤ v.wts))

-- A version keeps its timestamp and its bytes, and a committed one stays committed.
abbrev pub Keeps : Memory → Memory → Type 0
Keeps m m' =
    (p : ℕ) (v : Version)
    → m.version p ≡ some v
    → (v' : Version) × (m'.version p ≡ some v')
      × (v'.wts ≡ v.wts)
      × (v'.value ≡ v.value)
      × ((v.status ≡ committed) → (v'.status ≡ committed))

-- What the other threads do between two accesses of this one.
abbrev pub Respects : Others → Type 0
Respects others = (n : ℕ) (m : Memory) → IsOrdered m → Keeps m (others n m) × IsOrdered (others n m)

-- A version not later than `ts` stands at `p`, or `p` is nullptr.
abbrev IsEarly : ℕ → Memory → ℕ → Type 0
IsEarly ts m p = (p ≡ 0) ⊎ ((v : Version) × (m.version p ≡ some v) × (v.wts ≤ ts))

-- At `p` stands a committed version, not later than `ts`, with the bytes `bytes`.
abbrev pub IsVisible : ℕ → Memory → ℕ → List ℕ → Type 0
IsVisible ts m p bytes =
    (v : Version) × (m.version p ≡ some v)
    × (v.wts ≤ ts)
    × (v.status ≡ committed)
    × (v.value ≡ bytes)

Option-cases : (o : Option Version) → (o ≡ none) ⊎ ((v : Version) × (o ≡ some v))
Option-cases none = inl refl
Option-cases (some v) = inr (v, refl)

committed-is : (s : VersionStatus) → is_committed s ≡ true → s ≡ committed
unfolding is_committed
committed-is committed h = refl
committed-is pending h = cc
committed-is aborted h = cc
committed-is deleted h = cc
committed-is unused h = cc

Keeps-trans : (a b c : Memory) → Keeps a b → Keeps b c → Keeps a c
Keeps-trans a b c f g p v at =
    let (v₁, at₁, ts₁, bytes₁, stays₁) = f p v at in
    let (v₂, at₂, ts₂, bytes₂, stays₂) = g p v₁ at₁ in
    (v₂, at₂, ts₂ ∙ ts₁, bytes₂ ∙ bytes₁, λ e. stays₂ (stays₁ e))

some-injective : {u v : Version} → some u ≡ some v → u ≡ v
some-injective e = cc

IsEarly-keep : (m m' : Memory) (ts p : ℕ) → Keeps m m' → IsEarly ts m p → IsEarly ts m' p
IsEarly-keep m m' ts p keeps (inl null) = inl null
IsEarly-keep m m' ts p keeps (inr (v, at, le)) =
    let (v', at', same, _, _) = keeps p v at in inr (v', at', omega (arith, same, le))

IsEarly-at :
    (ts p : ℕ) (m : Memory) (v : Version)
    → IsOrdered m
    → IsEarly ts m p
    → m.version p ≡ some v
    → v.wts ≤ ts
IsEarly-at ts p m v o (inl null) at =
    let there : m.version 0 ≡ some v = ap m.version (sym null) ∙ at in
    let gone : none ≡ some v = sym o.null_absent ∙ there in absurd cc
IsEarly-at ts p m v o (inr (u, at', le)) at =
    let same : some u ≡ some v = sym at' ∙ at in
    let u_is_v : u ≡ v = cc in subst (λ (x : Version). x.wts ≤ ts) u_is_v le

module _ (others : Others) (respects : Respects others) where
  -- A load sees the version as the memory has it from then on.
  load_version-Loaded :
      (p : ℕ) (w : World)
      → IsOrdered w.memory
      → Whenever
          (λ v w'. (w'.memory.version p ≡ some v) × IsOrdered w'.memory × Keeps w.memory w'.memory)
          (load_version others p w)
  unfolding load_version
  load_version-Loaded p w o =
      let (keeps, o') = respects w.turn w.memory o in
      elim (Option-cases ((others w.turn w.memory).version p)) [
        | inl gone ↦ rw (gone, load_version) when_fault
        | inr (v, there) ↦ rw (there, load_version) (when (there, o', keeps))
      ]

  skip_later-Early :
      (turns ts later_ver ver : ℕ) (w : World)
      → IsOrdered w.memory
      → Whenever
          (λ (r : ℕ × ℕ) w'. IsEarly ts w'.memory r.1 × IsOrdered w'.memory)
          (skip_later others turns ts later_ver ver w)
  unfolding skip_later
  skip_later-Early zero ts later_ver ver w o = when_starved
  skip_later-Early (suc turns) ts later_ver ver w o =
      Whenever-bind (load_version-Loaded ver w o) λ v w₁ (at, o₁, keeps).
        elim (Bool-cases (ltb ts v.wts)) [
          | inl later ↦ rw later (
              Whenever-bind (load_version-Loaded ver w₁ o₁)
                λ n w₂ (at₂, o₂, keeps₂). skip_later-Early turns ts ver n.next w₂ o₂)
          | inr early ↦ rw early (when (inr (v, at, ground (arith, early)), o₁))
        ]

  wait_pending-Keeps :
      (turns ver : ℕ) (w : World)
      → IsOrdered w.memory
      → Whenever
          (λ _ w'. Keeps w.memory w'.memory × IsOrdered w'.memory)
          (wait_pending others turns ver w)
  unfolding wait_pending
  wait_pending-Keeps zero ver w o = when_starved
  wait_pending-Keeps (suc turns) ver w o =
      Whenever-bind (load_version-Loaded ver w o) λ v w₁ (at, o₁, keeps).
        elim (Bool-cases (is_pending v.status)) [
          | inl waits ↦ rw waits (
              Whenever-mono (wait_pending-Keeps turns ver w₁ o₁)
                λ _ w₂ (keeps₂, o₂). (Keeps-trans w.memory w₁.memory w₂.memory keeps keeps₂, o₂))
          | inr done ↦ rw done (when (keeps, o₁))
        ]

  find_committed-Visible :
      (turns ts ver : ℕ) (w : World)
      → IsOrdered w.memory
      → IsEarly ts w.memory ver
      → Whenever
          (λ p w'.
            IsOrdered w'.memory
            × ((v : Version) × (w'.memory.version p ≡ some v)
                × (v.wts ≤ ts)
                × (v.status ≡ committed)))
          (find_committed others turns ver w)
  unfolding find_committed
  find_committed-Visible zero ts ver w o early = when_starved
  find_committed-Visible (suc turns) ts ver w o early =
      Whenever-bind (load_version-Loaded ver w o) λ v w₁ (at, o₁, keeps).
        let early₁ = IsEarly-keep w.memory w₁.memory ts ver keeps early in
        elim (Bool-cases (is_committed v.status)) [
          | inl found ↦ rw found (
              when (
                o₁,
                (v, at, IsEarly-at ts ver w₁.memory v o₁ early₁ at, committed-is v.status found),
              ))
          | inr not_yet ↦ rw not_yet (
              Whenever-bind (wait_pending-Keeps turns ver w₁ o₁) λ _ w₂ (keeps₂, o₂).
                let early₂ = IsEarly-keep w₁.memory w₂.memory ts ver keeps₂ early₁ in
                Whenever-bind (load_version-Loaded ver w₂ o₂) λ a w₃ (at₃, o₃, keeps₃).
                  let early₃ = IsEarly-keep w₂.memory w₃.memory ts ver keeps₃ early₂ in
                  elim (Bool-cases (is_aborted a.status)) [
                    | inl skipped ↦ rw skipped (
                        Whenever-bind (load_version-Loaded ver w₃ o₃) λ n w₄ (at₄, o₄, keeps₄).
                          let le =
                            IsEarly-at ts ver w₄.memory n o₄
                              (IsEarly-keep w₃.memory w₄.memory ts ver keeps₄ early₃) at₄ in
                          find_committed-Visible turns ts n.next w₄ o₄
                            (elim (o₄.next_older ver n at₄) [
                              | inl null ↦ inl null
                              | inr (u, there, older) ↦ inr (u, there, omega (arith, older, le))
                            ]))
                    | inr other ↦ rw other (find_committed-Visible turns ts ver w₃ o₃ early₃)
                  ])
        ]

  load_latest-IsOrdered :
      (k : ℕ) (w : World)
      → IsOrdered w.memory
      → Whenever (λ _ w'. IsOrdered w'.memory) (load_latest others k w)
  unfolding load_latest
  load_latest-IsOrdered k w o = when (respects w.turn w.memory o).1

  -- Where versions keep their timestamps and bytes, a committed one stays committed and lists go to
  -- older versions, cicada's read of a key in neither set, in a transaction that is not read-only, if it
  -- returns, appends one element for the key: its version is committed, not later than the
  -- transaction's timestamp, and has the bytes that were returned; the write set stays.
  pub read-Visible :
      (turns k : ℕ) (t : TxExecutor) (s : Step) (ss : List Step) (w : World)
      → IsOrdered w.memory
      → (in_write_set k t.write_set || in_read_set k t.read_set) ≡ false
      → t.steps ≡ s ∷ ss
      → s.read_only ≡ false
      → Whenever
          (λ t' w'.
            (op : ReadElement) × (t'.read_set ≡ t.read_set ++ op ∷ [])
            × (op.key ≡ k)
            × IsVisible t.wts.body w'.memory op.ver t'.return_value
            × (t'.write_set ≡ t.write_set))
          (read others turns t k w)
  unfolding read first_read_only
  read-Visible turns k t s ss w o new begins writes =
      let flag : first_read_only t.steps w ≡ ok false w = rw begins (rw writes refl) in
      rw new (
        rw flag (
          Whenever-bind (load_latest-IsOrdered k w o) λ latest w₁ o₁.
            Whenever-bind (skip_later-Early turns t.wts.body 0 latest w₁ o₁) λ r w₂ (early, o₂).
              (Whenever-bind (find_committed-Visible turns t.wts.body r.1 w₂ o₂ early)
                λ ver w₃ (o₃, (v, at, le, is_committed)).
                  Whenever-bind (load_version-Loaded ver w₃ o₃) λ u w₄ (at₄, o₄, keeps).
                    let (v', at', same, bytes, stays) = keeps ver v at in
                    let same_version : u ≡ v' = some-injective (sym at₄ ∙ at') in
                    when (
                      record { key = k; later_ver = r.0; ver = ver },
                      refl,
                      refl,
                      (
                        u,
                        at₄,
                        subst (λ (x : Version). x.wts ≤ t.wts.body) (sym same_version)
                            (omega (arith, same, le)),
                        ap (λ (x : Version). x.status) same_version ∙ stays is_committed,
                        refl,
                      ),
                      refl,
                    ))))
