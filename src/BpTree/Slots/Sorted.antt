-- ===== src/BpTree/Slots/Sorted.antt =====
-- Entries with a new one before the first whose key is not smaller: where insert_into_leaf of
-- bptree/main.c puts it.
use transaction_system.Base.{
  ℕ, suc, ◌<◌, ◌≡◌, ◌≢◌, refl, List, [], ◌∷◌, ltb, ◌==◌, if◌then◌else◌, arith, Bool-cases, inl, inr,
  ap,
}
use transaction_system.Base.Lists.{length, All}
use transaction_system.BpTree.Heap.{Addr}
use transaction_system.BpTree.Entries.{Entry, Ascending, lookup}

-- The entry before the first whose key is not smaller.
abbrev pub insert_entry : ℕ → Addr → List Entry → List Entry
insert_entry key p [] = (key, p) ∷ []
insert_entry key p ((k, q) ∷ es) =
    if ltb k key then (k, q) ∷ insert_entry key p es else (key, p) ∷ (k, q) ∷ es

pub lookup-insert_entry :
    (key j : ℕ) (p : Addr) (es : List Entry)
    → lookup j (insert_entry key p es) ≡ (if key == j then p else lookup j es)
lookup-insert_entry key j p [] = refl
lookup-insert_entry key j p ((k, q) ∷ es) = elim (Bool-cases (ltb k key)) [
  | inl below ↦ rw below (rw (lookup-insert_entry key j p es) (ground arith))
  | inr above ↦ rw above refl
]

pub length-insert_entry :
    (key : ℕ) (p : Addr) (es : List Entry) → length (insert_entry key p es) ≡ suc (length es)
length-insert_entry key p [] = refl
length-insert_entry key p ((k, q) ∷ es) = elim (Bool-cases (ltb k key)) [
  | inl below ↦ rw below (ap suc (length-insert_entry key p es))
  | inr above ↦ rw above refl
]

All-insert_entry :
    (low key : ℕ) (p : Addr) (es : List Entry)
    → low < key
    → All (λ (f : Entry). low < f.0) es
    → All (λ (f : Entry). low < f.0) (insert_entry key p es)
All-insert_entry low key p [] lt all = (lt, tt)
All-insert_entry low key p ((k, q) ∷ es) lt all = elim (Bool-cases (ltb k key)) [
  | inl below ↦ rw below (all.0, All-insert_entry low key p es lt all.1)
  | inr above ↦ rw above (lt, all)
]

All-lower :
    (low k : ℕ) (es : List Entry)
    → low < k
    → All (λ (f : Entry). k < f.0) es
    → All (λ (f : Entry). low < f.0) es
All-lower low k [] lt all = tt
All-lower low k (e ∷ es) lt all = (omega (arith, all.0), All-lower low k es lt all.1)

pub Ascending-insert_entry :
    (key : ℕ) (p : Addr) (es : List Entry)
    → All (λ (f : Entry). f.0 ≢ key) es
    → Ascending es
    → Ascending (insert_entry key p es)
Ascending-insert_entry key p [] new up = (tt, tt)
Ascending-insert_entry key p ((k, q) ∷ es) new up = elim (Bool-cases (ltb k key)) [
  | inl below ↦
      rw below (
        All-insert_entry k key p es (ground arith) up.0,
        Ascending-insert_entry key p es new.1 up.1,
      )
  | inr above ↦
      let lt : key < k = ground (arith, new.0) in rw above ((lt, All-lower key k es lt up.0), up)
]
