-- ===== src/Silo/Executor.antt =====
-- silo/txn_executor.h and the read and write of silo/txn_executor.cpp. A method takes the executor
-- and returns it changed. A pointer to a tuple is the tuple's key, since `Table` never moves and
-- both sets keep `&Table[key]` beside `key`.
pub mod Search
pub mod ReadLaws
pub mod ReadAlone
use transaction_system.Base.{
  ℕ, zero, suc, ◌+◌, Bool, true, false, ◌||◌, Option, none, some, List, [], ◌∷◌, ◌++◌, ◌==◌,
  if◌then◌else◌,
}
use transaction_system.Base.Run.{Cmd, starved, pure, ◌>>=◌, ◌>>◌}
use transaction_system.TidWord.{TidWord, lock}
use transaction_system.Silo.Memory.{Others, World, value_size, load_tid_word, load_byte}

pub data TxnStatus : Type 0 where
  active committed aborted : TxnStatus

-- silo/op_elemet.h
pub record ReadElement : Type 0 where
  pub key : ℕ
  pub tid_word : TidWord
  pub value : List ℕ

pub record WriteElement : Type 0 where
  pub key : ℕ

pub record TxnExecutor : Type 0 where
  pub thread_id : ℕ
  pub read_set : List ReadElement
  pub write_set : List WriteElement
  pub status : TxnStatus
  pub most_recently_chosen_tid : TidWord
  pub max_read_tid : TidWord
  pub max_write_tid : TidWord
  pub write_value : List ℕ
  pub return_value : List ℕ

unfoldable pub begin : TxnExecutor → TxnExecutor
begin t = record t { status = active; max_read_tid = 0; max_write_tid = 0 }

unfoldable pub abort : TxnExecutor → TxnExecutor
abort t = record t { read_set = []; write_set = [] }

unfoldable pub search_read : ℕ → List ReadElement → Option ReadElement
search_read k [] = none
search_read k (op ∷ ops) = if op.key == k then some op else search_read k ops

unfoldable pub search_read_set : TxnExecutor → ℕ → Option ReadElement
unfolding search_read
search_read_set t k = search_read k t.read_set

unfoldable pub search_write : ℕ → List WriteElement → Option WriteElement
search_write k [] = none
search_write k (op ∷ ops) = if op.key == k then some op else search_write k ops

unfoldable pub search_write_set : TxnExecutor → ℕ → Option WriteElement
unfolding search_write
search_write_set t k = search_write k t.write_set

abbrev pub is_some {ℓ} : {A : Type ℓ} → Option A → Bool
is_some none = false
is_some (some _) = true

-- `tuple = re ? re->recordPtr : &Table[key]` is the tuple of `key` on both branches.
unfoldable pub write : TxnExecutor → ℕ → TxnExecutor
unfolding search_write_set
write t k =
    if is_some (search_write_set t k)
    then t
    else record t { write_set = t.write_set ++ record { key = k } ∷ [] }

module _ (others : Others) where
  -- `memcpy(returnValue, tuple->value, VALUE_SIZE)`, a byte at a time: `n` bytes from the i-th.
  unfoldable pub copy_out : ℕ → ℕ → ℕ → Cmd World (List ℕ)
  unfolding load_byte
  copy_out k zero i = pure []
  copy_out k (suc n) i = do b ← load_byte others k i; bs ← copy_out k n (i + 1); pure (b ∷ bs)

  -- Steps (a) to (e) of `read`, and the retry. `expected` is the word read last.
  unfoldable pub read_loop : ℕ → ℕ → TidWord → Cmd World (TidWord × List ℕ)
  unfolding load_tid_word
  read_loop zero k expected = λ w. starved
  read_loop (suc turns) k expected =
      if lock expected then (do e ← load_tid_word others k; read_loop turns k e) else (do
        bytes ← copy_out k value_size 0
        check ← load_tid_word others k
        if expected == check then pure (expected, bytes) else read_loop turns k check)

  unfoldable pub read : ℕ → TxnExecutor → ℕ → Cmd World TxnExecutor
  unfolding search_read_set search_write_set load_tid_word
  read turns t k =
      if is_some (search_read_set t k) || is_some (search_write_set t k) then pure t else (do
        first ← load_tid_word others k
        (word, bytes) ← read_loop turns k first
        pure (record t {
          return_value = bytes;
          read_set = t.read_set ++ record { key = k; tid_word = word; value = bytes } ∷ [];
        }))
