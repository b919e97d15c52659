-- ===== src/BpTree/Removal/Lookup.antt =====
-- What a look-up gives where an entry stands, and where it has been taken out.
use transaction_system.Base.{
  ℕ, ◌≡◌, ◌≢◌, refl, true, false, List, [], ◌∷◌, Bool-cases, inl, inr, ap, ◌∙◌, sym, arith, ◌==◌,
  if◌then◌else◌, ◌++◌,
}
use transaction_system.Base.Lists.{All}
use transaction_system.BpTree.Entries.{Entry, lookup}

pub lookup-here :
    (key r : ℕ) (xs ys : List Entry)
    → All (λ (f : Entry). f.0 ≢ key) xs
    → lookup key (xs ++ ((key, r) ∷ ys)) ≡ r
lookup-here key r [] ys others = let here : (key == key) ≡ true = ground arith in rw here refl
lookup-here key r ((k, p) ∷ xs) ys (differs, others) =
    let other : (k == key) ≡ false = ground (arith, differs) in
    rw other (lookup-here key r xs ys others)

lookup-missing : (key : ℕ) (ys : List Entry) → All (λ (f : Entry). f.0 ≢ key) ys → lookup key ys ≡ 0
lookup-missing key [] others = refl
lookup-missing key ((k, p) ∷ ys) (differs, others) =
    let other : (k == key) ≡ false = ground (arith, differs) in
    rw other (lookup-missing key ys others)

pub lookup-without :
    (key r j : ℕ) (xs ys : List Entry)
    → All (λ (f : Entry). f.0 ≢ key) xs
    → All (λ (f : Entry). f.0 ≢ key) ys
    → lookup j (xs ++ ys) ≡ (if key == j then 0 else lookup j (xs ++ ((key, r) ∷ ys)))
lookup-without key r j [] ys before after = elim (Bool-cases (key == j)) [
  | inl same ↦
      let e : key ≡ j = ground arith in
      rw same (ap (λ (k : ℕ). lookup k ys) (sym e) ∙ lookup-missing key ys after)
  | inr differs ↦ rw differs refl
]
lookup-without key r j ((k, p) ∷ xs) ys (other, before) after = elim (Bool-cases (k == j)) [
  | inl here ↦ let differs : (key == j) ≡ false = ground (arith, other) in rw here (rw differs refl)
  | inr later ↦ rw later (lookup-without key r j xs ys before after)
]
