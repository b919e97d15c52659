-- ===== src/Masstree/Key.antt =====
-- masstree/key.h: keys as lists of slices of one to eight bytes, with a cursor.
pub mod Rest
use transaction_system.Base.{
  ℕ, zero, suc, ◌+◌, Bool, true, false, none, some, List, ◌==◌, if◌then◌else◌, not, ◌&&◌, leb,
}
use transaction_system.Base.Lists.{get_elem?}
use transaction_system.Base.Run.{Cmd, fault, pure, ◌>>=◌}

pub record KeySlice : Type 0 where
  pub slice : ℕ
  pub size : ℕ

-- `KeySlice()`
abbrev pub no_slice : KeySlice
no_slice = record { slice = 0; size = 0 }

-- `KeySlice(slice_, size_)`, with its assertion.
unfoldable pub key_slice_of : {S : Type 0} → ℕ → ℕ → Cmd S KeySlice
key_slice_of slice size =
    if leb 1 size && leb size 8 then pure (record { slice = slice; size = size }) else λ s. fault

unfoldable pub same_slice : KeySlice → KeySlice → Bool
same_slice a b = a.slice == b.slice && a.size == b.size

pub record Key : Type 0 where
  pub body : List KeySlice
  pub size : ℕ
  pub cursor : ℕ

unfoldable pub has_next : Key → Bool
has_next k = if k.size == k.cursor + 1 then false else true

module _ {S : Type 0} where
  -- `body[i]`; a fault past the end of the vector.
  unfoldable pub slice_at : Key → ℕ → Cmd S KeySlice
  slice_at k i = elim (get_elem? k.body i) [ none ↦ λ s. fault | some x ↦ pure x ]

  unfoldable pub get_current_slice : Key → Cmd S KeySlice
  unfolding slice_at
  get_current_slice k = slice_at k k.cursor

  -- `next`, with its assertion: the slice, and the key with its cursor moved.
  unfoldable pub next : Key → Cmd S (KeySlice × Key)
  unfolding has_next slice_at
  next k =
      if has_next k
      then (do
        let moved : Key = record k { cursor = k.cursor + 1 }
        s ← slice_at moved moved.cursor
        pure (s, moved))
      else λ s. fault

  -- The loop of `operator==`, over `n` slices from the i-th.
  unfoldable pub same_slices : Key → Key → ℕ → ℕ → Cmd S Bool
  unfolding slice_at same_slice
  same_slices a b zero i = pure true
  same_slices a b (suc n) i = do
    x ← slice_at a i
    y ← slice_at b i
    if not (same_slice x y) then pure false else same_slices a b n (i + 1)

  unfoldable pub same_key : Key → Key → Cmd S Bool
  unfolding same_slices
  same_key a b = if a.size == b.size then same_slices a b a.size 0 else pure false
