-- ===== src/KvSilo/Transaction/Spared.antt =====
-- lockWSet, unlockWSet and the installation of kvsilo's commit while the other threads leave the
-- records `mine` alone; they may change every other record and the epoch at any access.
use transaction_system.Base.{
  ℕ, suc, ◌+◌, ◌≡◌, refl, Bool, true, false, some, [], ◌∷◌, ◌==◌, arith, max, if◌then◌else◌, ◌∙◌,
  Bool-cases, inl, inr, update,
}
use transaction_system.Base.Run.{Returns, returns, Returns-bind, Returns-mono, ◌>>=◌}
use transaction_system.TidWord.{TidWord, lock, with_lock}
use transaction_system.KvSilo.Memory.{
  Memory, Pointer, Others, World, load_tid_word, store_tid_word, compare_exchange, store_value,
}
use transaction_system.KvSilo.Transaction.{
  search_w_set, lock_loop, lock_all, unlock_w_set, install_all,
}
use transaction_system.KvSilo.Transaction.Writes.{Writes, Distinct, value_of, value_of-search_w_set}

-- The record at `p` keeps its word and its value.
abbrev pub SameRecord : Pointer → Memory → Memory → Type 0
SameRecord p m m' = (m'.tid_word p ≡ m.tid_word p) × (m'.value p ≡ m.value p)

abbrev pub Spares : (Pointer → Bool) → Others → Type 0
Spares mine others =
    (n : ℕ) (m : Memory) (p : Pointer) → mine p ≡ true → SameRecord p m (others n m)

-- Of the records `mine` exactly those of `ws` had their word changed, by `f`, and no value changed.
abbrev pub Changed : (Pointer → Bool) → (TidWord → TidWord) → Writes → Memory → Memory → Type 0
Changed mine f ws m m' =
    (p : Pointer)
    → mine p ≡ true
    → (m'.tid_word p ≡ (if search_w_set p ws then f (m.tid_word p) else m.tid_word p))
      × (m'.value p ≡ m.value p)

abbrev pub Unlocked : Writes → Memory → Type 0
Unlocked ws m = (p : Pointer) → search_w_set p ws ≡ true → lock (m.tid_word p) ≡ false

abbrev pub Within : (Pointer → Bool) → Writes → Type 0
Within mine ws = (p : Pointer) → search_w_set p ws ≡ true → mine p ≡ true

module _ (others : Others) (mine : Pointer → Bool) (spares : Spares mine others) where
  lock_one-Changed :
      (turns : ℕ) (p : Pointer) (v : ℕ) (w : World)
      → mine p ≡ true
      → lock (w.memory.tid_word p) ≡ false
      → Returns
          (λ e w'.
            (e ≡ w.memory.tid_word p)
            × Changed mine (λ w. with_lock w true) ((p, v) ∷ []) w.memory w'.memory)
          ((load_tid_word others p >>= lock_loop others (suc turns) p) w)
  unfolding lock_loop load_tid_word compare_exchange search_w_set
  lock_one-Changed turns p v w own free =
      let m₁ = others w.turn w.memory in
      let m₂ = others (w.turn + 1) m₁ in
      let same₁ = spares w.turn w.memory p own in
      let same₂ = spares (w.turn + 1) m₁ p own in
      let free₁ : lock (m₁.tid_word p) ≡ false = rw (same₁.0) free in
      let done : (m₂.tid_word p == m₁.tid_word p) ≡ true = ground arith in
      rw free₁ (
        rw done (
          returns (
            same₁.0,
            λ q its.
                let kept₁ = spares w.turn w.memory q its in
                let kept₂ = spares (w.turn + 1) m₁ q its in (ground arith, kept₂.1 ∙ kept₁.1),
          )))

  pub lock_all-Changed :
      (turns : ℕ) (ws : Writes) (acc : TidWord) (w : World)
      → Within mine ws
      → Distinct ws
      → Unlocked ws w.memory
      → Returns
          (λ _ w'. Changed mine (λ w. with_lock w true) ws w.memory w'.memory)
          (lock_all others (suc turns) ws acc w)
  unfolding lock_all search_w_set
  lock_all-Changed turns [] acc w own once free = returns (λ p its. (refl, refl))
  lock_all-Changed turns ((q, v) ∷ ws) acc w own once free =
      Returns-bind (lock_one-Changed turns q v w (own q (ground arith)) (free q (ground arith)))
        λ e w₁ (is, changed).
          let kept = λ (p : Pointer) (h : search_w_set p ws ≡ true).
            let found : search_w_set p ((q, v) ∷ ws) ≡ true = ground arith in
            let word : w₁.memory.tid_word p ≡ w.memory.tid_word p =
              ground (arith, changed p (own p found)) in
            word in
          Returns-mono
            (lock_all-Changed turns ws (max acc e) w₁ (λ p h. own p (ground arith)) once.1
              (λ p h. rw (kept p h) (free p (ground arith))))
            λ e' w' changed' p its.
              let first = changed p its in
              let then_rest = changed' p its in (ground arith, then_rest.1 ∙ first.1)

  pub unlock_w_set-Changed :
      (ws : Writes) (w : World)
      → Within mine ws
      → Distinct ws
      → Returns
          (λ _ w'. Changed mine (λ w. with_lock w false) ws w.memory w'.memory)
          (unlock_w_set others ws w)
  unfolding unlock_w_set load_tid_word store_tid_word search_w_set
  unlock_w_set-Changed [] w own once = returns (λ p its. (refl, refl))
  unlock_w_set-Changed ((q, v) ∷ ws) w own once =
      let m₁ = others w.turn w.memory in
      let m₂ = others (w.turn + 1) m₁ in
      let found = own q (ground arith) in
      let same₁ = spares w.turn w.memory q found in
      Returns-mono (unlock_w_set-Changed ws _ (λ p h. own p (ground arith)) once.1)
        λ _ w' changed p its.
          let kept₁ = spares w.turn w.memory p its in
          let kept₂ = spares (w.turn + 1) m₁ p its in
          let rest = changed p its in (ground arith, rest.1 ∙ kept₂.1 ∙ kept₁.1)

  -- Each written record holds its value under the TID, and the other ones of `mine` are as before.
  pub install_all-installs :
      (tid : TidWord) (ws : Writes) (w : World)
      → Within mine ws
      → Distinct ws
      → Returns
          (λ _ w'.
            (p : Pointer)
            → mine p ≡ true
            → ((v : ℕ)
                → value_of p ws ≡ some v
                → (w'.memory.tid_word p ≡ tid) × (w'.memory.value p ≡ v))
              × (search_w_set p ws ≡ false → SameRecord p w.memory w'.memory))
          (install_all others tid ws w)
  unfolding install_all store_value store_tid_word search_w_set value_of
  install_all-installs tid [] w own once = returns (λ p its. (λ v e. cc, λ e. (refl, refl)))
  install_all-installs tid ((q, u) ∷ ws) w own once =
      let m₁ = others w.turn w.memory in
      Returns-mono (install_all-installs tid ws _ (λ p h. own p (ground arith)) once.1)
        λ _ w' rest p its.
          let (now, kept) = rest p its in
          let same₁ = spares w.turn w.memory p its in
          let same₂ = spares (w.turn + 1) (record m₁ { value = update m₁.value q u }) p its in
          (
            λ v found. elim (Bool-cases (search_w_set p ws)) [
              | inl later ↦ now v (ground (arith, value_of-search_w_set p v ws))
              | inr last ↦
                  let (word, value) = kept last in
                  let first = value_of-search_w_set p v ws in (ground arith, ground arith)
            ],
            λ out. let (word, value) = kept (ground arith) in (ground arith, ground arith),
          )
