-- ===== src/BpTree/Entries.antt =====
-- What a node of bptree/main.c holds: its keys and pointers from an index on, as a list of entries.
use transaction_system.Base.{
  ℕ, suc, ◌+◌, ◌-◌, ◌≤◌, ◌<◌, ◌≡◌, refl, true, false, List, [], ◌∷◌, some, ltb, ◌==◌, if◌then◌else◌,
  arith, Bool-cases, inl, inr, ◌⊎◌, ap, ◌∙◌, sym, lt→ltb, zero,
}
use mathlib.Core.Path.{subst}
use transaction_system.Base.Run.{ok}
use transaction_system.Base.Lists.{length, All, take, drop}
use transaction_system.BpTree.Heap.{Addr, Node, get_key, get_pointer, load}
use transaction_system.BpTree.Search.{scan_below, key_index, record_in}

abbrev pub Entry : Type 0
Entry = ℕ × Addr

-- Entries stand in a node's arrays from the i-th cell on.
abbrev pub Holds : Node → ℕ → List Entry → Type 0
Holds n i [] = Unit
Holds n i ((k, p) ∷ es) = (n.keys i ≡ some k) × (n.pointers i ≡ some p) × Holds n (i + 1) es

-- The pointer under a key, NULL where there is none.
abbrev pub lookup : ℕ → List Entry → Addr
lookup key [] = 0
lookup key ((k, p) ∷ es) = if k == key then p else lookup key es

-- Keys go up strictly.
abbrev pub Ascending : List Entry → Type 0
Ascending [] = Unit
Ascending (e ∷ es) = All (λ (f : Entry). e.0 < f.0) es × Ascending es

-- How many of the first entries have a smaller key.
abbrev pub count_below : ℕ → List Entry → ℕ
count_below key [] = 0
count_below key ((k, p) ∷ es) = if ltb k key then suc (count_below key es) else 0

pub count_below-le : (key : ℕ) (es : List Entry) → count_below key es ≤ length es
count_below-le key [] = omega arith
count_below-le key ((k, p) ∷ es) = ground (arith, count_below-le key es)

pub drop-Holds :
    (m i : ℕ) (es : List Entry) (n : Node)
    → m ≤ length es
    → Holds n i es
    → Holds n (i + m) (drop m es) × (length (drop m es) ≡ length es - m)
drop-Holds zero i es n le h =
    let e : i ≡ i + 0 = omega arith in (subst (λ (j : ℕ). Holds n j es) e h, omega arith)
drop-Holds (suc m) i [] n le h = absurd (omega arith)
drop-Holds (suc m) i ((k, p) ∷ es) n le h =
    let (holds, left) = drop-Holds m (i + 1) es n (omega arith) h.2 in
    let e : (i + 1) + m ≡ i + suc m = omega arith in
    (subst (λ (j : ℕ). Holds n j (drop m es)) e holds, omega (arith, left))

pub take-Holds :
    (m i : ℕ) (es : List Entry) (n : Node)
    → m ≤ length es
    → Holds n i es
    → Holds n i (take m es) × (length (take m es) ≡ m)
take-Holds zero i es n le h = (tt, refl)
take-Holds (suc m) i [] n le h = absurd (omega arith)
take-Holds (suc m) i ((k, p) ∷ es) n le h =
    let (holds, len) = take-Holds m (i + 1) es n (omega arith) h.2 in
    ((h.0, h.1, holds), ap suc len)

module _ (order : ℕ) where
  pub get_key-ok :
      (n : Node) (i k : ℕ) → i < order - 1 → n.keys i ≡ some k → get_key order i n ≡ ok k n
  unfolding get_key load
  get_key-ok n i k small is = rw (lt→ltb i (order - 1) small, is) refl

  pub get_pointer-ok :
      (n : Node) (i p : ℕ) → i < order → n.pointers i ≡ some p → get_pointer order i n ≡ ok p n
  unfolding get_pointer load
  get_pointer-ok n i p small is = rw (lt→ltb i order small, is) refl

  -- The search for the insertion point stops at the first key that is not smaller.
  pub scan_below-Holds :
      (key i : ℕ) (es : List Entry) (n : Node)
      → i + length es ≤ order - 1
      → Holds n i es
      → scan_below order key (length es) i n ≡ ok (i + count_below key es) n
  unfolding scan_below
  scan_below-Holds key i [] n room h = ap (λ (a : ℕ). ok a n) (omega arith)
  scan_below-Holds key i ((k, p) ∷ es) n room h =
      rw (get_key-ok n i k (omega arith) h.0) (elim (Bool-cases (ltb k key)) [
        | inl below ↦ rw below (
            scan_below-Holds key (i + 1) es n (omega arith) h.2
            ∙ ap (λ (a : ℕ). ok a n) (omega arith))
        | inr above ↦ rw above (ap (λ (a : ℕ). ok a n) (omega arith))
      ])

  key_index-Holds :
      (key i : ℕ) (es : List Entry) (n : Node)
      → i + length es ≤ order - 1
      → Holds n i es
      → (j : ℕ) × (key_index order key (length es) i n ≡ ok j n)
        × ((j ≡ i + length es) × (lookup key es ≡ 0)
            ⊎ (j < i + length es) × (n.pointers j ≡ some (lookup key es)))
  unfolding key_index
  key_index-Holds key i [] n room h = (i, refl, inl (omega arith, refl))
  key_index-Holds key i ((k, p) ∷ es) n room h =
      rw (get_key-ok n i k (omega arith) h.0) (elim (Bool-cases (k == key)) [
        | inl found ↦ rw found (i, refl, inr (omega arith, h.1))
        | inr other ↦ rw other (
            let (j, runs, ends) = key_index-Holds key (i + 1) es n (omega arith) h.2 in
            (
              j,
              runs,
              elim ends [
                | inl (at_end, nothing) ↦ inl (omega arith, nothing)
                | inr (inside, there) ↦ inr (omega arith, there)
              ],
            ))
      ])

  -- The record that a leaf has under a key is the one that a look-up in its entries gives.
  pub record_in-Holds :
      (key : ℕ) (es : List Entry) (n : Node)
      → length es ≤ order - 1
      → Holds n 0 es
      → record_in order key (length es) n ≡ ok (lookup key es) n
  unfolding record_in
  record_in-Holds key es n room h =
      let (j, runs, ends) = key_index-Holds key 0 es n (omega arith) h in
      rw runs (elim ends [
        | inl (at_end, nothing) ↦
            let last : (j == length es) ≡ true = ground arith in
            rw last (ap (λ (a : ℕ). ok a n) (sym nothing))
        | inr (inside, there) ↦
            let before : (j == length es) ≡ false = ground arith in
            rw before (get_pointer-ok n j (lookup key es) (omega arith) there)
      ])
