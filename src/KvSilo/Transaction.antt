-- ===== src/KvSilo/Transaction.antt =====
-- kvsilo/transaction.h and kvsilo/transaction.cpp. The primary tree is `find`, which gives the
-- record of a key or the null pointer; a method takes the transaction and returns it changed.
pub mod Writes
pub mod Twice
pub mod Stale
pub mod Spared
pub mod Atomic
use transaction_system.Base.{
  ℕ, zero, suc, Bool, true, false, ◌||◌, ◌&&◌, not, Option, none, some, List, [], ◌∷◌, ◌++◌, ◌==◌,
  ltb, max, if◌then◌else◌, ◌+◌, ◌%◌, ◌^◌,
}
use transaction_system.Base.Run.{Cmd, fault, starved, pure, ◌>>=◌, ◌>>◌}
use transaction_system.TidWord.{TidWord, lock, latest, tid, with_lock, commit_tid}
use transaction_system.KvSilo.Memory.{
  Pointer, fresh_word, Others, World, load_tid_word, store_tid_word, compare_exchange, load_value,
  store_value, load_epoch,
}

-- kvsilo/result.h; the counters are size_t, of 64 bits.
pub record Result : Type 0 where
  pub aborts : ℕ
  pub commits : ℕ

-- The sets hold pairs of a record's address with a word, and with a value.
pub record Transaction : Type 0 where
  pub r_set : List (Pointer × TidWord)
  pub w_set : List (Pointer × ℕ)
  pub max_write_tid : TidWord
  pub max_read_tid : TidWord
  pub most_recently_chosen_tid : TidWord

-- `Transaction(tree, env)`
abbrev pub new_transaction : Transaction
new_transaction = record {
  r_set = [];
  w_set = [];
  max_write_tid = fresh_word;
  max_read_tid = fresh_word;
  most_recently_chosen_tid = fresh_word;
}

-- `operator<` of std::pair on the elements of the write set.
abbrev pub pair_lt : Pointer × ℕ → Pointer × ℕ → Bool
pair_lt (p, v) (q, u) = ltb p q || (p == q && ltb v u)

-- `std::sort(WSet.begin(), WSet.end())`
unfoldable pub insert_pair : Pointer × ℕ → List (Pointer × ℕ) → List (Pointer × ℕ)
insert_pair x [] = x ∷ []
insert_pair x (y ∷ ys) = if pair_lt y x then y ∷ insert_pair x ys else x ∷ y ∷ ys

unfoldable pub sort_pairs : List (Pointer × ℕ) → List (Pointer × ℕ)
unfolding insert_pair
sort_pairs [] = []
sort_pairs (x ∷ xs) = insert_pair x (sort_pairs xs)

-- `searchWSet`: whether it returns a record, not the null pointer.
unfoldable pub search_w_set : Pointer → List (Pointer × ℕ) → Bool
search_w_set p [] = false
search_w_set p ((q, v) ∷ ws) = q == p || search_w_set p ws

-- The test of the read set's element on the word that its record has now.
unfoldable pub is_stale : List (Pointer × ℕ) → Pointer × TidWord → TidWord → Bool
unfolding search_w_set
is_stale ws (p, read_tid) record_tid =
    not (tid read_tid == tid record_tid)
    || not (latest record_tid)
    || (lock record_tid && not (search_w_set p ws))

unfoldable pub add_abort : Result → Result
add_abort r = record r { aborts = (r.aborts + 1) % 2 ^ 64 }

unfoldable pub add_commit : Result → Result
add_commit r = record r { commits = (r.commits + 1) % 2 ^ 64 }

module _ (others : Others) where
  -- The loop of `read` from `do`: `assert(before.latest)` ends the program.
  unfoldable pub read_loop : ℕ → Pointer → Cmd World (TidWord × ℕ)
  unfolding load_tid_word load_value
  read_loop zero p = λ w. starved
  read_loop (suc turns) p = do
    before ← load_tid_word others p
    if lock before
        then read_loop turns p
        else if latest before
        then (do
          v ← load_value others p
          after ← load_tid_word others p
          if before == after then pure (after, v) else read_loop turns p)
        else (λ w. fault)

  -- The write set's loop of lockWSet: the word as it was when it was locked.
  unfoldable pub lock_loop : ℕ → Pointer → TidWord → Cmd World TidWord
  unfolding load_tid_word compare_exchange
  lock_loop zero p expected = λ w. starved
  lock_loop (suc turns) p expected =
      if lock expected then (do e ← load_tid_word others p; lock_loop turns p e) else (do
        (done, seen) ← compare_exchange others p expected (with_lock expected true)
        if done then pure seen else lock_loop turns p seen)

  unfoldable pub lock_all : ℕ → List (Pointer × ℕ) → TidWord → Cmd World TidWord
  unfolding load_tid_word
  lock_all turns [] max_write_tid = pure max_write_tid
  lock_all turns ((p, v) ∷ ws) max_write_tid = do
    first ← load_tid_word others p
    expected ← lock_loop turns p first
    lock_all turns ws (max max_write_tid expected)

  unfoldable pub lock_w_set : ℕ → Transaction → Cmd World Transaction
  lock_w_set turns t = do
    m ← lock_all turns t.w_set t.max_write_tid
    pure (record t { max_write_tid = m })

  unfoldable pub unlock_w_set : List (Pointer × ℕ) → Cmd World (Unit {0})
  unfolding load_tid_word store_tid_word
  unlock_w_set [] = pure tt
  unlock_w_set ((p, v) ∷ ws) = do
    expected ← load_tid_word others p
    store_tid_word others p (with_lock expected false)
    unlock_w_set ws

  -- Phase 2 over the read set: whether all passed, with `maxReadTid` as it goes.
  unfoldable pub validate_all :
      List (Pointer × ℕ) → List (Pointer × TidWord) → TidWord → Cmd World (Bool × TidWord)
  unfolding load_tid_word
  validate_all ws [] max_read_tid = pure (true, max_read_tid)
  validate_all ws (r ∷ rs) max_read_tid = do
    record_tid ← load_tid_word others r.0
    if is_stale ws r record_tid
        then pure (false, max_read_tid)
        else validate_all ws rs (max max_read_tid record_tid)

  unfoldable pub install_all : TidWord → List (Pointer × ℕ) → Cmd World (Unit {0})
  unfolding store_value store_tid_word
  install_all max_tid [] = pure tt
  install_all max_tid ((p, v) ∷ ws) = do
    store_value others p v
    store_tid_word others p max_tid
    install_all max_tid ws

  -- Phase 3, or the abort; `e` is the epoch read between the phases.
  unfoldable pub conclude :
      ℕ → Result → Transaction → Bool × TidWord → Cmd World (Transaction × Result)
  conclude e result t (true, m) = do
    let max_tid = commit_tid fresh_word t.max_write_tid m t.most_recently_chosen_tid e
    install_all max_tid t.w_set
    pure (
      record t { r_set = []; w_set = []; max_read_tid = m; most_recently_chosen_tid = max_tid },
      add_commit result,
    )
  conclude e result t (false, m) = do
    unlock_w_set t.w_set
    pure (record t { max_read_tid = m }, add_abort result)

  unfoldable pub commit : ℕ → Transaction → Result → Cmd World (Transaction × Result)
  unfolding load_epoch
  commit turns t₀ result = do
    t ← lock_w_set turns (record t₀ { w_set = sort_pairs t₀.w_set })
    e ← load_epoch others
    passed ← validate_all t.w_set t.r_set t.max_read_tid
    conclude e result t passed

module _ (find : ℕ → Option Pointer) where
  -- `read`: with no record under the key, a null pointer is dereferenced.
  unfoldable pub read : Others → ℕ → Transaction → ℕ → Cmd World (ℕ × Transaction)
  read others turns t k = elim (find k) [
    | none ↦ λ w. fault
    | some p ↦ do
      (word, v) ← read_loop others turns p
      pure (v, record t { r_set = t.r_set ++ (p, word) ∷ [] })
  ]

  -- `write`: `none` where a null pointer is put into the set, which no later step survives.
  unfoldable pub write : Transaction → ℕ → ℕ → Option Transaction
  write t k v = elim (find k) [
    | none ↦ none
    | some p ↦ some (record t { w_set = t.w_set ++ (p, v) ∷ [] })
  ]
