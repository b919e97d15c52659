-- ===== src/Masstree/Access.antt =====
-- findBorder, get and write of masstree/masstree.h. `spin` is the number of turns for each spin loop,
-- the other numbers count the rounds of `goto`.
pub mod Found
pub mod RoundTrip
pub mod AfterInsert
pub mod LeftBehind
pub mod Reads
pub mod Writes
pub mod Settles
pub mod AfterWrite
use transaction_system.Base.{ℕ, zero, suc, ◌+◌, Bool, true, false, ◌||◌, not, ◌==◌, if◌then◌else◌}
use transaction_system.Base.Run.{Cmd, starved, pure, ◌>>=◌, ◌>>◌}
use transaction_system.Masstree.Version.{Version, unchanged}
use transaction_system.Masstree.Key.{KeySlice, Key, get_current_slice, next}
use transaction_system.Masstree.Heap.{Addr, Others, World}
use transaction_system.Masstree.Search.{
  ExtractResult, Extract, load_version, load_parent, stable_version, load_next, store_lv,
  find_child, extract_with_index,
}

-- Where the code goes on: at `retry`, or at `descend` (`forward`) with its `n` and `v`.
pub data Label : Type 0 where
  retry : Label
  onward : Addr → Version → Label

module _ (others : Others) (spin : ℕ) where
  unfoldable pub find_loop : ℕ → Addr → Key → Label → Cmd World (Addr × Version)
  unfolding stable_version load_version load_parent find_child unchanged
  find_loop zero root key l = λ w. starved
  find_loop (suc turns) root key retry = do
    v ← stable_version others spin root
    if not v.is_root
        then (do p ← load_parent others root; find_loop turns p key retry)
        else find_loop turns root key (onward root v)
  find_loop (suc turns) root key (onward n v) = do
    now ← load_version others n
    if now.is_border then pure (n, v) else (do
      s ← get_current_slice key
      n₁ ← find_child others n s
      v₁ ← stable_version others spin n₁
      after ← load_version others n
      if unchanged after v then find_loop turns root key (onward n₁ v₁) else (do
        v₂ ← stable_version others spin n
        if not (v₂.v_split == v.v_split)
            then find_loop turns root key retry
            else find_loop turns root key (onward n v₂)))

  unfoldable pub find_border : ℕ → Addr → Key → Cmd World (Addr × Version)
  unfolding find_loop
  find_border turns root key = find_loop turns root key retry

  -- `while(!v.deleted and next != nullptr)` of get and write, with what it makes of `n` and `v`.
  unfoldable pub walk : ℕ → Addr → Version → Addr → Cmd World (Addr × Version)
  unfolding stable_version load_next
  walk zero n v after = λ w. starved
  walk (suc turns) n v after = if v.deleted || after == 0 then pure (n, v) else (do
    v₁ ← stable_version others spin after
    after₁ ← load_next others after
    walk turns after v₁ after₁)

  -- `v = stableVersion(n); auto next = n->next;` and the walk.
  unfoldable pub walk_on : ℕ → Addr → Cmd World (Addr × Version)
  unfolding stable_version load_next walk
  walk_on turns n = do
    v ← stable_version others spin n
    after ← load_next others n
    walk turns n v after

  unfoldable pub get_loop : ℕ → Addr → Key → Label → Cmd World Addr
  get_loop zero root k l = λ w. starved
  get_loop (suc turns) root k retry = do
    (n, v) ← find_border turns root k
    get_loop turns root k (onward n v)
  get_loop (suc turns) root k (onward n v) = if v.deleted then get_loop turns root k retry else (do
    e ← extract_with_index others n k
    now ← load_version others n
    if not (unchanged now v)
        then (do (n₁, v₁) ← walk_on turns n; get_loop turns root k (onward n₁ v₁))
        else elim e.result [
          | ExtractResult.not_found ↦ pure 0
          | ExtractResult.value ↦ pure e.lv
          | ExtractResult.layer ↦ do (s, k₁) ← next k; get_loop turns e.lv k₁ retry
          | ExtractResult.unstable ↦ get_loop turns root k (onward n v)
        ])

  unfoldable pub get : ℕ → Addr → Key → Cmd World Addr
  get turns root k = get_loop turns root k retry

  unfoldable pub write_loop : ℕ → Addr → Key → Addr → Label → Cmd World Bool
  write_loop zero root k x l = λ w. starved
  write_loop (suc turns) root k x retry = do
    (n, v) ← find_border turns root k
    write_loop turns root k x (onward n v)
  write_loop (suc turns) root k x (onward n v) =
      if v.deleted then write_loop turns root k x retry else (do
        e ← extract_with_index others n k
        now ← load_version others n
        if not (unchanged now v)
            then (do (n₁, v₁) ← walk_on turns n; write_loop turns root k x (onward n₁ v₁))
            else elim e.result [
              | ExtractResult.not_found ↦ pure false
              | ExtractResult.value ↦ do store_lv others n e.index x; pure true
              | ExtractResult.layer ↦ do (s, k₁) ← next k; write_loop turns e.lv k₁ x retry
              | ExtractResult.unstable ↦ write_loop turns root k x (onward n v)
            ])

  unfoldable pub write : ℕ → Addr → Key → Addr → Cmd World Bool
  write turns root k x = write_loop turns root k x retry
