-- ===== src/Masstree/Key/Rest.antt =====
-- What is left of a key from its cursor on.
use transaction_system.Base.{
  ℕ, zero, suc, ◌+◌, ◌≤◌, ◌≡◌, refl, true, false, some, List, [], ◌∷◌, arith,
}
use native.Mathlib.Numerals.{add-one}
use transaction_system.Base.Lists.{length, get_elem?, drop}
use transaction_system.Base.Run.{ok}
use transaction_system.Masstree.Key.{KeySlice, Key, has_next, get_current_slice, next, slice_at}

-- The slices from the cursor on are `ss`, and the key ends with them.
abbrev pub HasRest : Key → List KeySlice → Type 0
HasRest k ss = (drop k.cursor k.body ≡ ss) × (k.size ≡ k.cursor + length ss)

-- Slices of a key: all but the last have eight bytes, the last has one to eight.
abbrev pub AreSlices : List KeySlice → Type 0
AreSlices [] = ⊥
AreSlices (s ∷ []) = (1 ≤ s.size) × (s.size ≤ 8)
AreSlices (s ∷ s' ∷ ss) = (s.size ≡ 8) × AreSlices (s' ∷ ss)

abbrev pub moved : Key → Key
moved k = record k { cursor = k.cursor + 1 }

get_elem?-drop :
    (xs ys : List KeySlice) (n : ℕ) (x : KeySlice) → drop n xs ≡ x ∷ ys → get_elem? xs n ≡ some x
get_elem?-drop [] ys zero x h = cc
get_elem?-drop [] ys (suc n) x h = cc
get_elem?-drop (y ∷ xs) ys zero x h = cc
get_elem?-drop (y ∷ xs) ys (suc n) x h = get_elem?-drop xs ys n x h

drop-suc :
    (xs ys : List KeySlice) (n : ℕ) (x : KeySlice) → drop n xs ≡ x ∷ ys → drop (suc n) xs ≡ ys
drop-suc [] ys zero x h = cc
drop-suc [] ys (suc n) x h = cc
drop-suc (y ∷ xs) ys zero x h = cc
drop-suc (y ∷ xs) ys (suc n) x h = drop-suc xs ys n x h

module _ (k : Key) (s : KeySlice) (ss : List KeySlice) (rest : HasRest k (s ∷ ss)) where
  pub get_current_slice-HasRest : {S : Type 0} (w : S) → get_current_slice k w ≡ ok s w
  unfolding get_current_slice slice_at
  get_current_slice-HasRest w =
      rw (get_elem?-drop k.body ss k.cursor s rest.0, get_current_slice, slice_at) refl

  pub moved-HasRest : HasRest (moved k) ss
  moved-HasRest = (rw add-one (drop-suc k.body ss k.cursor s rest.0), omega (arith, rest.1))

pub has_next-one : (k : Key) (s : KeySlice) → HasRest k (s ∷ []) → has_next k ≡ false
unfolding has_next
has_next-one k s rest = ground (arith, rest.1)

module _ (k : Key) (s s' : KeySlice) (ss : List KeySlice) (rest : HasRest k (s ∷ s' ∷ ss)) where
  pub has_next-more : has_next k ≡ true
  unfolding has_next
  has_next-more = ground (arith, rest.1)

  pub slice_at-next : {S : Type 0} (w : S) → slice_at (moved k) (k.cursor + 1) w ≡ ok s' w
  unfolding slice_at
  slice_at-next w =
      rw (get_elem?-drop k.body ss (k.cursor + 1) s' (moved-HasRest k s (s' ∷ ss) rest).0, slice_at)
        refl

  pub next-HasRest : {S : Type 0} (w : S) → next k w ≡ ok (s', moved k) w
  unfolding next slice_at has_next
  next-HasRest w = rw has_next-more (
      rw (get_elem?-drop k.body ss (k.cursor + 1) s' (moved-HasRest k s (s' ∷ ss) rest).0, slice_at)
        refl)
