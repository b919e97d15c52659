-- ===== src/BpTree/Slots/Cells.antt =====
-- The cells of a node that insert_into_leaf of bptree/main.c moves up, and the stores in them.
use transaction_system.Base.{
  ℕ, zero, suc, ◌+◌, ◌-◌, ◌≤◌, ◌<◌, ◌≡◌, refl, false, List, [], ◌∷◌, some, ltb, leb, ◌==◌, ◌&&◌,
  if◌then◌else◌, arith, Bool-cases, inl, inr, ap, ◌∙◌, sym, update, lt→ltb,
}
use transaction_system.Base.Run.{Run, ok}
use transaction_system.Base.Lists.{length}
use transaction_system.BpTree.Heap.{Array, Node, set_key, set_pointer}
use transaction_system.BpTree.Slots.{move_up}
use transaction_system.BpTree.Entries.{Entry, Holds, count_below, get_key-ok, get_pointer-ok}
use mathlib.Core.Path.{fun_ext}
use transaction_system.BpTree.Slots.Sorted.{insert_entry}

-- The cells above the (i - n)-th, up to the i-th, take over what the cell below has.
abbrev pub shifted : Array → ℕ → ℕ → Array
shifted a n i j = if ltb (i - n) j && leb j i then a (j - 1) else a j

abbrev pub Present : Node → ℕ → Type 0
Present m j = (k : ℕ) × (p : ℕ) × (m.keys j ≡ some k) × (m.pointers j ≡ some p)

pub Holds-Present :
    (i j : ℕ) (es : List Entry) (m : Node) → Holds m i es → i ≤ j → j < i + length es → Present m j
Holds-Present i j [] m h lo hi = absurd (omega arith)
Holds-Present i j ((k, p) ∷ es) m h lo hi = elim (Bool-cases (i == j)) [
  | inl here ↦
      let same : i ≡ j = ground arith in
      (k, p, ap m.keys (sym same) ∙ h.0, ap m.pointers (sym same) ∙ h.1)
  | inr later ↦ Holds-Present (i + 1) j es m h.2 (ground arith) (omega arith)
]

shifted-none : (a : Array) (i : ℕ) → a ≡ shifted a 0 i
shifted-none a i = fun_ext λ j. ground arith

shifted-next :
    (a : Array) (n i k : ℕ)
    → suc n ≤ i
    → a (i - 1) ≡ some k
    → shifted (update a i (some k)) n (i - 1) ≡ shifted a (suc n) i
shifted-next a n i k room is = fun_ext λ j. ground (arith, is)

-- Both arrays of a node replaced.
abbrev pub with_arrays : Node → Array → Array → Node
with_arrays m ks ps = record m { keys = ks; pointers = ps }

with_arrays-eq :
    (m : Node) {ks ks' ps ps' : Array}
    → ks ≡ ks'
    → ps ≡ ps'
    → ◌≡◌ {A = Run Node (Unit {0})} (ok tt (with_arrays m ks ps)) (ok tt (with_arrays m ks' ps'))
with_arrays-eq m e f = λ t. ok tt (with_arrays m (e t) (f t))

Holds-moved :
    (i : ℕ) (es : List Entry) (n m : Node)
    → ((j : ℕ)
        → i ≤ j
        → j < i + length es
        → (m.keys (j + 1) ≡ n.keys j) × (m.pointers (j + 1) ≡ n.pointers j))
    → Holds n i es
    → Holds m (i + 1) es
Holds-moved i [] n m up h = tt
Holds-moved i ((k, p) ∷ es) n m up h =
    let (ek, ep) = up i (omega arith) (omega arith) in
    (
      ek ∙ h.0,
      ep ∙ h.1,
      Holds-moved (i + 1) es n m (λ j lo hi. up j (omega arith) (omega arith)) h.2,
    )

pub Holds-insert_entry :
    (key p i at : ℕ) (es : List Entry) (n m : Node)
    → at ≡ i + count_below key es
    → ((j : ℕ) → j < at → (m.keys j ≡ n.keys j) × (m.pointers j ≡ n.pointers j))
    → (m.keys at ≡ some key) × (m.pointers at ≡ some p)
    → ((j : ℕ)
        → at ≤ j
        → j < i + length es
        → (m.keys (j + 1) ≡ n.keys j) × (m.pointers (j + 1) ≡ n.pointers j))
    → Holds n i es
    → Holds m i (insert_entry key p es)
Holds-insert_entry key p i at [] n m is same new up h =
    let here : i ≡ at = omega arith in (ap m.keys here ∙ new.0, ap m.pointers here ∙ new.1, tt)
Holds-insert_entry key p i at ((k, q) ∷ es) n m is same new up h = elim (Bool-cases (ltb k key)) [
  | inl below ↦ rw below (
      let later : at ≡ (i + 1) + count_below key es = ground (arith, is, below) in
      let (ek, eq) = same i (omega arith) in
      (
        ek ∙ h.0,
        eq ∙ h.1,
        Holds-insert_entry key p (i + 1) at es n m later same new (λ j lo hi. up j lo (omega arith))
            h.2,
      ))
  | inr above ↦
      let here : i ≡ at = ground (arith, is, above) in
      rw above (
        ap m.keys here ∙ new.0,
        ap m.pointers here ∙ new.1,
        Holds-moved i ((k, q) ∷ es) n m (λ j lo hi. up j (omega arith) hi) h,
      )
]

module _ (order : ℕ) where
  pub set_key-ok :
      (n : Node) (i k : ℕ)
      → i < order - 1
      → set_key order i k n ≡ ok tt (record n { keys = update n.keys i (some k) })
  unfolding set_key
  set_key-ok n i k small = rw (lt→ltb i (order - 1) small) refl

  pub set_pointer-ok :
      (n : Node) (i p : ℕ)
      → i < order
      → set_pointer order i p n ≡ ok tt (record n { pointers = update n.pointers i (some p) })
  unfolding set_pointer
  set_pointer-ok n i p small = rw (lt→ltb i order small) refl

  pub move_up-ok :
      (n i : ℕ) (m : Node)
      → n ≤ i
      → i < order - 1
      → ((j : ℕ) → j < i → Present m j)
      → move_up order n i m ≡ ok tt (with_arrays m (shifted m.keys n i) (shifted m.pointers n i))
  unfolding move_up
  move_up-ok zero i m room small there =
      with_arrays-eq m (shifted-none m.keys i) (shifted-none m.pointers i)
  move_up-ok (suc n) i m room small there =
      let (k, p, has_k, has_p) = there (i - 1) (omega arith) in
      let m₁ : Node = record m { keys = update m.keys i (some k) } in
      let m₂ : Node = record m₁ { pointers = update m.pointers i (some p) } in
      let there₂ : (j : ℕ) → j < i - 1 → Present m₂ j = λ j lt.
        let (k', p', has_k', has_p') = there j (omega arith) in
        let other : (i == j) ≡ false = ground arith in (k', p', rw other has_k', rw other has_p') in
      rw (get_key-ok order m (i - 1) k (omega arith) has_k) (
        rw (set_key-ok m i k small) (
          rw (get_pointer-ok order m₁ (i - 1) p (omega arith) has_p) (
            rw (set_pointer-ok m₁ i p (omega arith)) (
              move_up-ok n (i - 1) m₂ (omega arith) (omega arith) there₂
              ∙ with_arrays-eq m (shifted-next m.keys n i k room has_k)
                  (shifted-next m.pointers n i p room has_p)))))
