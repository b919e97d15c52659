-- ===== src/KvSilo/Transaction/Twice.antt =====
-- A transaction that writes one record twice waits for its own lock.
use transaction_system.Base.{
  ℕ, zero, suc, ◌+◌, ◌≡◌, refl, ap, ◌∙◌, ◌≤◌, ◌++◌, false, if◌then◌else◌, true, List, [], ◌∷◌, ◌==◌,
  arith, Option, some, Bool-cases, inl, inr, ◌⊎◌,
}
use transaction_system.Base.Run.{Run, starved, ok}
use transaction_system.TidWord.{TidWord, lock}
use transaction_system.TidWord.Order.{lock-with_lock}
use transaction_system.KvSilo.Memory.{
  Memory, Pointer, Others, World, load_tid_word, compare_exchange,
}
use transaction_system.KvSilo.Transaction.{
  Transaction, Result, lock_loop, lock_all, lock_w_set, sort_pairs, insert_pair, commit, write,
  search_w_set, pair_lt,
}

-- The other threads do not release a lock that is not theirs; here none touches the record `p`.
abbrev pub LeavesAlone : Pointer → Others → Type 0
LeavesAlone p others = (n : ℕ) (m : Memory) → (others n m).tid_word p ≡ m.tid_word p

-- A step that keeps the word of `p`, before a loop that does.
onward :
    {p : Pointer} {a b : TidWord} {r : Run World TidWord}
    → (r ≡ starved) ⊎ ((e : TidWord) × (w' : World) × (r ≡ ok e w') × (w'.memory.tid_word p ≡ a))
    → a ≡ b
    → (r ≡ starved) ⊎ ((e : TidWord) × (w' : World) × (r ≡ ok e w') × (w'.memory.tid_word p ≡ b))
onward (inl stuck) kept = inl stuck
onward (inr (e, w', is, same)) kept = inr (e, w', is, same ∙ kept)

module _ (others : Others) (p : Pointer) (alone : LeavesAlone p others) where
  lock_loop-starved :
      (turns : ℕ) (w : World) (expected : TidWord)
      → lock expected ≡ true
      → lock (w.memory.tid_word p) ≡ true
      → lock_loop others turns p expected w ≡ starved
  unfolding lock_loop load_tid_word
  lock_loop-starved zero w expected h held = refl
  lock_loop-starved (suc turns) w expected h held =
      let held' : lock ((others w.turn w.memory).tid_word p) ≡ true =
        rw (alone w.turn w.memory) held in
      rw h (lock_loop-starved turns _ _ held' held')

  -- The loop never faults: it is starved, or it returns with the record locked.
  lock_loop-locks :
      (turns : ℕ) (w : World) (expected : TidWord)
      → (lock_loop others turns p expected w ≡ starved)
        ⊎ ((e : TidWord) × (w' : World) × (lock_loop others turns p expected w ≡ ok e w')
            × (lock (w'.memory.tid_word p) ≡ true))
  unfolding lock_loop load_tid_word compare_exchange
  lock_loop-locks zero w expected = inl refl
  lock_loop-locks (suc turns) w expected =
      let m₁ = others w.turn w.memory in
      elim (Bool-cases (lock expected)) [
        | inl held ↦ rw held (lock_loop-locks turns _ _)
        | inr free ↦ rw free (elim (Bool-cases (m₁.tid_word p == expected)) [
          | inl same ↦ rw same (inr (_, _, refl, ground (arith, lock-with_lock expected true)))
          | inr changed ↦ rw changed (lock_loop-locks turns _ _)
        ])
      ]

  -- Locking another record keeps the word of `p`.
  lock_loop-other :
      (turns : ℕ) (q : Pointer) (w : World) (expected : TidWord)
      → (q == p) ≡ false
      → (lock_loop others turns q expected w ≡ starved)
        ⊎ ((e : TidWord) × (w' : World) × (lock_loop others turns q expected w ≡ ok e w')
            × (w'.memory.tid_word p ≡ w.memory.tid_word p))
  unfolding lock_loop load_tid_word compare_exchange
  lock_loop-other zero q w expected other = inl refl
  lock_loop-other (suc turns) q w expected other =
      let m₁ = others w.turn w.memory in
      let kept : m₁.tid_word p ≡ w.memory.tid_word p = alone w.turn w.memory in
      elim (Bool-cases (lock expected)) [
        | inl held ↦ rw held (onward (lock_loop-other turns q _ _ other) kept)
        | inr free ↦ rw free (elim (Bool-cases (m₁.tid_word q == expected)) [
          | inl same ↦ rw same (inr (_, _, refl, rw other kept))
          | inr changed ↦ rw changed (onward (lock_loop-other turns q _ _ other) kept)
        ])
      ]

  -- How many elements of a write set are for the record `p`.
  abbrev count : List (Pointer × ℕ) → ℕ
  count [] = 0
  count ((q, v) ∷ ws) = if q == p then suc (count ws) else count ws

  -- With the record locked, the loop gets no further than its next element for it.
  lock_all-held :
      (turns : ℕ) (ws : List (Pointer × ℕ)) (acc : TidWord) (w : World)
      → 1 ≤ count ws
      → lock (w.memory.tid_word p) ≡ true
      → lock_all others turns ws acc w ≡ starved
  unfolding lock_all load_tid_word
  lock_all-held turns [] acc w some_p held = absurd (omega arith)
  lock_all-held turns ((q, v) ∷ ws) acc w some_p held =
      let m₁ = others w.turn w.memory in
      let w₁ : World = record { memory = m₁; turn = w.turn + 1 } in
      let held₁ : lock (m₁.tid_word p) ≡ true = rw (alone w.turn w.memory) held in
      elim (Bool-cases (q == p)) [
        | inl same ↦
            let e : q ≡ p = ground arith in
            rw e (rw (lock_loop-starved turns w₁ (m₁.tid_word p) held₁ held₁) refl)
        | inr other ↦ elim (lock_loop-other turns q w₁ (m₁.tid_word q) other) [
          | inl stuck ↦ rw stuck refl
          | inr (e, w₂, is, kept) ↦
              rw is (lock_all-held turns ws _ w₂ (ground (arith, other, some_p)) (rw kept held₁))
        ]
      ]

  lock_all-twice :
      (turns : ℕ) (ws : List (Pointer × ℕ)) (acc : TidWord) (w : World)
      → 2 ≤ count ws
      → lock_all others turns ws acc w ≡ starved
  unfolding lock_all load_tid_word
  lock_all-twice turns [] acc w two = absurd (omega arith)
  lock_all-twice turns ((q, v) ∷ ws) acc w two =
      let m₁ = others w.turn w.memory in
      let w₁ : World = record { memory = m₁; turn = w.turn + 1 } in
      elim (Bool-cases (q == p)) [
        | inl same ↦
            let e : q ≡ p = ground arith in
            let rest : 1 ≤ count ws = ground (arith, same, two) in
            rw e (elim (lock_loop-locks turns w₁ (m₁.tid_word p)) [
              | inl stuck ↦ rw stuck refl
              | inr (x, w₂, is, held) ↦ rw is (lock_all-held turns ws _ w₂ rest held)
            ])
        | inr other ↦ elim (lock_loop-other turns q w₁ (m₁.tid_word q) other) [
          | inl stuck ↦ rw stuck refl
          | inr (e, w₂, is, kept) ↦
              rw is (lock_all-twice turns ws _ w₂ (ground (arith, other, two)))
        ]
      ]

  count-insert_pair :
      (x : Pointer × ℕ) (ws : List (Pointer × ℕ)) → count (insert_pair x ws) ≡ count (x ∷ ws)
  unfolding insert_pair
  count-insert_pair x [] = refl
  count-insert_pair x (y ∷ ys) = elim (Bool-cases (pair_lt y x)) [
    | inl less ↦ rw less (ground (arith, count-insert_pair x ys))
    | inr greater ↦ rw greater refl
  ]

  count-sort_pairs : (ws : List (Pointer × ℕ)) → count (sort_pairs ws) ≡ count ws
  unfolding sort_pairs
  count-sort_pairs [] = refl
  count-sort_pairs (x ∷ xs) =
      count-insert_pair x (sort_pairs xs) ∙ ground (arith, count-sort_pairs xs)

  count-append : (xs ys : List (Pointer × ℕ)) → count (xs ++ ys) ≡ count xs + count ys
  count-append [] ys = omega arith
  count-append ((q, v) ∷ xs) ys = ground (arith, count-append xs ys)

  count-search_w_set : (ws : List (Pointer × ℕ)) → search_w_set p ws ≡ true → 1 ≤ count ws
  unfolding search_w_set
  count-search_w_set [] there = cc
  count-search_w_set ((q, v) ∷ ws) there = elim (Bool-cases (q == p)) [
    | inl same ↦ rw same (omega arith)
    | inr other ↦ rw other (count-search_w_set ws (rw other at there))
  ]

  commit-twice :
      (turns : ℕ) (t : Transaction) (result : Result) (w : World)
      → 2 ≤ count t.w_set
      → commit others turns t result w ≡ starved
  unfolding commit lock_w_set
  commit-twice turns t result w two =
      rw
        (lock_all-twice turns (sort_pairs t.w_set) t.max_write_tid w
          (omega (arith, count-sort_pairs t.w_set)))
        refl

  -- A transaction, with whatever reads and writes, that writes a key whose record is in its write set
  -- already never ends its commit while no other thread changes the record's word: whatever it reads and
  -- writes afterwards, and however many turns it is given, it spins on a lock.
  pub write_twice-starved :
      (find : ℕ → Option Pointer) (turns k v : ℕ) (t t₁ t₂ : Transaction)
      (later : List (Pointer × ℕ)) (result : Result) (w : World)
      → find k ≡ some p
      → search_w_set p t.w_set ≡ true
      → write find t k v ≡ some t₁
      → t₂.w_set ≡ t₁.w_set ++ later
      → commit others turns t₂ result w ≡ starved
  unfolding write
  write_twice-starved find turns k v t t₁ t₂ later result w found there written more =
      let set₁ : t₁.w_set ≡ t.w_set ++ ((p, v) ∷ []) = ground arith in
      let here : (p == p) ≡ true = ground arith in
      let again : count ((p, v) ∷ []) ≡ 1 = rw here refl in
      commit-twice turns t₂ result w (
        omega (
          arith,
          ap count more,
          count-append t₁.w_set later,
          ap count set₁,
          count-append t.w_set ((p, v) ∷ []),
          again,
          count-search_w_set t.w_set there,
        ))
