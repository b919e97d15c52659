-- ===== src/Silo/Commit/Spared.antt =====
-- lockWriteSet and unlockWriteSet while the other threads leave the records `mine` alone; they may
-- change every other record and the epochs at any access.
use transaction_system.Base.{
  ℕ, suc, ◌+◌, ◌≡◌, refl, Bool, true, false, List, [], ◌∷◌, ◌==◌, arith, max, if◌then◌else◌, ◌∙◌,
}
use transaction_system.Base.Run.{Returns, returns, Returns-bind, Returns-mono, ◌>>=◌}
use transaction_system.TidWord.{TidWord, lock, with_lock}
use transaction_system.Silo.Memory.{
  Memory, Others, World, load_tid_word, compare_exchange, store_tid_word,
}
use transaction_system.Silo.Executor.{WriteElement, search_write}
use transaction_system.Silo.Executor.Search.{writes, DistinctWrites}
use transaction_system.Silo.Commit.{lock_loop, lock_all, unlock_all}

-- The record `k` keeps its word and its bytes.
abbrev pub SameRecord : ℕ → Memory → Memory → Type 0
SameRecord k m m' = (m'.tid_word k ≡ m.tid_word k) × (m'.value k ≡ m.value k)

abbrev pub Spares : (ℕ → Bool) → Others → Type 0
Spares mine others = (n : ℕ) (m : Memory) (k : ℕ) → mine k ≡ true → SameRecord k m (others n m)

-- Of the records `mine` exactly those of `ops` had their word changed, by `f`, and no value changed.
abbrev pub Changed : (ℕ → Bool) → (TidWord → TidWord) → List WriteElement → Memory → Memory → Type 0
Changed mine f ops m m' =
    (k : ℕ)
    → mine k ≡ true
    → (m'.tid_word k ≡ (if writes k ops then f (m.tid_word k) else m.tid_word k))
      × (m'.value k ≡ m.value k)

-- The records of `ops` are unlocked.
abbrev pub Unlocked : List WriteElement → Memory → Type 0
Unlocked ops m = (k : ℕ) → writes k ops ≡ true → lock (m.tid_word k) ≡ false

-- The records of `ops` are `mine`.
abbrev pub Within : (ℕ → Bool) → List WriteElement → Type 0
Within mine ops = (k : ℕ) → writes k ops ≡ true → mine k ≡ true

-- The greatest of `acc` and the words of the records.
pub greatest : Memory → List WriteElement → TidWord → TidWord
greatest m [] acc = acc
greatest m (op ∷ ops) acc = greatest m ops (max acc (m.tid_word op.key))

greatest_eq :
    (m m' : Memory) (ops : List WriteElement) (acc : TidWord)
    → ((k : ℕ) → writes k ops ≡ true → m'.tid_word k ≡ m.tid_word k)
    → greatest m' ops acc ≡ greatest m ops acc
unfolding greatest search_write
greatest_eq m m' [] acc same = refl
greatest_eq m m' (op ∷ ops) acc same =
    rw (same op.key (ground arith))
      (greatest_eq m m' ops (max acc (m.tid_word op.key)) (λ k h. same k (ground arith)))

module _ (others : Others) (mine : ℕ → Bool) (spares : Spares mine others) where
  abbrev take_lock : TidWord → TidWord
  take_lock w = with_lock w true

  -- One record is locked at the first try.
  lock_one-Changed :
      (turns k : ℕ) (w : World)
      → mine k ≡ true
      → lock (w.memory.tid_word k) ≡ false
      → Returns
          (λ e w'.
            (e ≡ w.memory.tid_word k)
            × Changed mine take_lock (record { key = k } ∷ []) w.memory w'.memory)
          ((load_tid_word others k >>= lock_loop others (suc turns) k) w)
  unfolding lock_loop load_tid_word compare_exchange search_write
  lock_one-Changed turns k w own free =
      let m₁ = others w.turn w.memory in
      let m₂ = others (w.turn + 1) m₁ in
      let same₁ = spares w.turn w.memory k own in
      let same₂ = spares (w.turn + 1) m₁ k own in
      let free₁ : lock (m₁.tid_word k) ≡ false = rw same₁.0 free in
      let done : (m₂.tid_word k == m₁.tid_word k) ≡ true = ground arith in
      rw free₁ (
        rw done (
          returns (
            same₁.0,
            λ j its.
                let kept₁ = spares w.turn w.memory j its in
                let kept₂ = spares (w.turn + 1) m₁ j its in (ground arith, kept₂.1 ∙ kept₁.1),
          )))

  pub lock_all-Changed :
      (turns : ℕ) (ops : List WriteElement) (acc : TidWord) (w : World)
      → Within mine ops
      → DistinctWrites ops
      → Unlocked ops w.memory
      → Returns
          (λ e w'. (e ≡ greatest w.memory ops acc) × Changed mine take_lock ops w.memory w'.memory)
          (lock_all others (suc turns) ops acc w)
  unfolding lock_all greatest search_write
  lock_all-Changed turns [] acc w own once free = returns (refl, λ k its. (refl, refl))
  lock_all-Changed turns (op ∷ ops) acc w own once free =
      Returns-bind
        (lock_one-Changed turns op.key w (own op.key (ground arith)) (free op.key (ground arith)))
        λ e w₁ (is, changed).
          let kept = λ (k : ℕ) (h : writes k ops ≡ true).
            let found : writes k (op ∷ ops) ≡ true = ground arith in
            let word : w₁.memory.tid_word k ≡ w.memory.tid_word k =
              ground (arith, changed k (own k found)) in
            word in
          rw is (
            Returns-mono
              (lock_all-Changed turns ops (max acc (w.memory.tid_word op.key)) w₁
                (λ k h. own k (ground arith)) once.1 (λ k h. rw (kept k h) (free k (ground arith))))
              λ e' w' (is', changed'). (
                is' ∙ greatest_eq w.memory w₁.memory ops _ kept,
                λ k its.
                    let first = changed k its in
                    let then_rest = changed' k its in (ground arith, then_rest.1 ∙ first.1),
              ))

  abbrev drop_lock : TidWord → TidWord
  drop_lock w = with_lock w false

  pub unlock_all-Changed :
      (ops : List WriteElement) (w : World)
      → Within mine ops
      → DistinctWrites ops
      → Returns (λ _ w'. Changed mine drop_lock ops w.memory w'.memory) (unlock_all others ops w)
  unfolding unlock_all load_tid_word store_tid_word search_write
  unlock_all-Changed [] w own once = returns (λ k its. (refl, refl))
  unlock_all-Changed (op ∷ ops) w own once =
      let m₁ = others w.turn w.memory in
      let m₂ = others (w.turn + 1) m₁ in
      let found = own op.key (ground arith) in
      let same₁ = spares w.turn w.memory op.key found in
      Returns-mono (unlock_all-Changed ops _ (λ k h. own k (ground arith)) once.1)
        λ _ w' changed k its.
          let kept₁ = spares w.turn w.memory k its in
          let kept₂ = spares (w.turn + 1) m₁ k its in
          let rest = changed k its in (ground arith, rest.1 ∙ kept₂.1 ∙ kept₁.1)
