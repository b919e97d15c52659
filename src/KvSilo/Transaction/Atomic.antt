-- ===== src/KvSilo/Transaction/Atomic.antt =====
-- kvsilo's commit is atomic on the records that it writes, while the other threads leave those alone.
use transaction_system.Base.{
  ℕ, suc, ◌≡◌, refl, Bool, true, false, some, List, [], ◌∷◌, sym, ◌∙◌, Bool-cases, inl, inr, ◌⊎◌,
}
use transaction_system.Base.Run.{Returns, returns, Returns-bind, Returns-mono}
use transaction_system.TidWord.{TidWord, lock, with_lock, commit_tid}
use transaction_system.TidWord.Order.{with_lock_self, with_lock-with_lock}
use transaction_system.TidWord.Commit.{lock-commit_tid}
use transaction_system.KvSilo.Memory.{
  Memory, Pointer, fresh_word, Others, World, load_tid_word, load_epoch,
}
use transaction_system.KvSilo.Transaction.{
  Transaction, Result, sort_pairs, search_w_set, is_stale, lock_w_set, validate_all, conclude,
  commit, add_abort, add_commit,
}
use transaction_system.KvSilo.Transaction.Writes.{
  Writes, Distinct, value_of, search_w_set-sort_pairs, Distinct-sort_pairs, value_of-sort_pairs,
  value_of-search_w_set,
}
use transaction_system.KvSilo.Transaction.Spared.{
  SameRecord, Spares, Changed, Unlocked, Within, lock_all-Changed, unlock_w_set-Changed,
  install_all-installs,
}

-- Either every written record holds its value under one unlocked TID, the transaction is empty and
-- one commit is counted; or every one has its old word and value, and one abort is counted.
abbrev pub Outcome : Transaction → Result → Memory → Transaction × Result → World → Type 0
Outcome t result m (t', result') w' =
    ((result' ≡ add_commit result)
      × (t'.r_set ≡ [])
      × (t'.w_set ≡ [])
      × (lock t'.most_recently_chosen_tid ≡ false)
      × ((p : Pointer) (v : ℕ)
          → value_of p t.w_set ≡ some v
          → (w'.memory.tid_word p ≡ t'.most_recently_chosen_tid) × (w'.memory.value p ≡ v)))
    ⊎ ((result' ≡ add_abort result)
        × ((p : Pointer) → search_w_set p t.w_set ≡ true → SameRecord p m w'.memory))

module _ (others : Others) (t : Transaction) (spares : Spares (λ p. search_w_set p t.w_set) others)
    (once : Distinct t.w_set) where
  abbrev mine : Pointer → Bool
  mine p = search_w_set p t.w_set

  abbrev sorted : Writes
  sorted = sort_pairs t.w_set

  own : Within mine sorted
  own p h = sym (search_w_set-sort_pairs p t.w_set) ∙ h

  validate_all-SameRecord :
      (ws : Writes) (rs : List (Pointer × TidWord)) (acc : TidWord) (w : World)
      → Returns
          (λ _ w'. (p : Pointer) → mine p ≡ true → SameRecord p w.memory w'.memory)
          (validate_all others ws rs acc w)
  unfolding validate_all load_tid_word
  validate_all-SameRecord ws [] acc w = returns (λ p h. (refl, refl))
  validate_all-SameRecord ws (r ∷ rs) acc w =
      let m₁ = others w.turn w.memory in
      elim (Bool-cases (is_stale ws r (m₁.tid_word (r.0)))) [
        | inl stale ↦ rw stale (returns (λ p h. spares w.turn w.memory p h))
        | inr fresh ↦ rw fresh (
            Returns-mono (validate_all-SameRecord ws rs _ _) λ _ w' same p h.
              let first = spares w.turn w.memory p h in
              let then_rest = same p h in (then_rest.0 ∙ first.0, then_rest.1 ∙ first.1))
      ]

  -- The written records stand locked over their old words, with their old values.
  abbrev Held : Memory → Memory → Type 0
  Held m m' =
      (p : Pointer)
      → mine p ≡ true
      → (m'.tid_word p ≡ with_lock (m.tid_word p) true) × (m'.value p ≡ m.value p)

  restored :
      (p : Pointer) (m m₁ m' : Memory)
      → mine p ≡ true
      → lock (m.tid_word p) ≡ false
      → Held m m₁
      → Changed mine (λ w. with_lock w false) sorted m₁ m'
      → SameRecord p m m'
  restored p m m₁ m' h free held unlocked =
      let now = unlocked p h in
      let before = held p h in
      let wrote : search_w_set p sorted ≡ true = search_w_set-sort_pairs p t.w_set ∙ h in
      let word = m.tid_word p in
      (
        (rw wrote at (now.0))
            ∙ rw (before.0, with_lock-with_lock word true false) (with_lock_self word free),
        now.1 ∙ before.1,
      )

  conclude-Outcome :
      (e : ℕ) (result : Result) (t₁ : Transaction) (m : Memory) (w₁ : World) (passed : Bool)
      (r : TidWord)
      → t₁.w_set ≡ sorted
      → Held m w₁.memory
      → Unlocked t.w_set m
      → Returns (Outcome t result m) (conclude others e result t₁ (passed, r) w₁)
  unfolding conclude
  conclude-Outcome e result t₁ m w₁ false r is held free = rw is (
      Returns-bind
        (unlock_w_set-Changed others mine spares sorted w₁ own (Distinct-sort_pairs t.w_set once))
        λ _ w' unlocked.
          returns (inr (refl, λ p h. restored p m w₁.memory w'.memory h (free p h) held unlocked)))
  conclude-Outcome e result t₁ m w₁ true r is held free =
      let new = commit_tid fresh_word t₁.max_write_tid r t₁.most_recently_chosen_tid e in
      rw is (
        Returns-bind
          (install_all-installs others mine spares new sorted w₁ own
            (Distinct-sort_pairs t.w_set once))
          λ _ w' installed. returns (
            inl (
              refl,
              refl,
              refl,
              lock-commit_tid fresh_word _ _ _ _,
              λ p v h.
                  (installed p (value_of-search_w_set p v t.w_set h)).0 v
                    (value_of-sort_pairs p t.w_set once ∙ h),
            )))

  held_record :
      (p : Pointer) (m m₁ m' : Memory)
      → mine p ≡ true
      → Changed mine (λ w. with_lock w true) sorted m m₁
      → SameRecord p m₁ m'
      → (m'.tid_word p ≡ with_lock (m.tid_word p) true) × (m'.value p ≡ m.value p)
  held_record p m m₁ m' h locked same =
      let now = locked p h in
      let wrote : search_w_set p sorted ≡ true = search_w_set-sort_pairs p t.w_set ∙ h in
      (same.0 ∙ rw wrote at (now.0), same.1 ∙ now.1)

  lock_w_set-Locked :
      (turns : ℕ) (w : World)
      → Unlocked t.w_set w.memory
      → Returns
          (λ t₁ w₁.
            (t₁.w_set ≡ sorted) × Changed mine (λ w. with_lock w true) sorted w.memory w₁.memory)
          (lock_w_set others (suc turns) (record t { w_set = sorted }) w)
  unfolding lock_w_set
  lock_w_set-Locked turns w free =
      Returns-bind
        (lock_all-Changed others mine spares turns sorted t.max_write_tid w own
          (Distinct-sort_pairs t.w_set once) (λ p h. free p (own p h)))
        λ e w₁ changed. returns (refl, changed)

  -- While the other threads leave the written records alone, and these are distinct and unlocked at
  -- first, `commit` returns: either every written record holds its value under one unlocked TID, the
  -- sets are empty and a commit is counted, or every written record has its old word and value and
  -- an abort is counted.
  pub commit_atomic :
      (turns : ℕ) (result : Result) (w : World)
      → Unlocked t.w_set w.memory
      → Returns (Outcome t result w.memory) (commit others (suc turns) t result w)
  unfolding commit load_epoch
  commit_atomic turns result w free =
      Returns-bind (lock_w_set-Locked turns w free) λ t₁ w₁ (is, locked).
        let m₂ = others w₁.turn w₁.memory in
        Returns-bind (validate_all-SameRecord t₁.w_set t₁.r_set t₁.max_read_tid _)
          λ (passed, r) w₃ same.
            conclude-Outcome m₂.global_epoch result t₁ w.memory w₃ passed r is
              (λ p h.
                let first = spares w₁.turn w₁.memory p h in
                let then_rest = same p h in
                held_record p w.memory w₁.memory w₃.memory h locked
                  (then_rest.0 ∙ first.0, then_rest.1 ∙ first.1))
              free
