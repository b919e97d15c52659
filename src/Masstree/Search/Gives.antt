-- ===== src/Masstree/Search/Gives.antt =====
-- Commands that store nothing among other threads of masstree/, and what they give.
use transaction_system.Base.{
  ℕ, zero, suc, ◌+◌, ◌≡◌, refl, ap, ◌∙◌, Bool, true, false, ◌||◌, if◌then◌else◌, arith, inl, inr,
  Option, none, some, ◌⊎◌,
}
use transaction_system.Base.Run.{
  Cmd, fault, starved, pure, ◌>>=◌, Whenever, when, when_fault, when_starved, Whenever-bind,
  Whenever-mono,
}
use transaction_system.Masstree.Version.{Version}
use transaction_system.Masstree.Key.{next}
use transaction_system.Masstree.Heap.{Others, World}

-- What the other threads alone make of the memory in `n` turns.
abbrev pub passed : Others → ℕ → World → World
passed others zero w = w
passed others (suc n) w =
    passed others n (record { memory = others w.turn w.memory; turn = w.turn + 1 })

pub passed-passed :
    (others : Others) (m n : ℕ) (w : World)
    → passed others n (passed others m w) ≡ passed others (m + n) w
passed-passed others zero n w =
    let e : n ≡ 0 + n = omega arith in ap (λ (k : ℕ). passed others k w) e
passed-passed others (suc m) n w =
    let e : suc (m + n) ≡ suc m + n = omega arith in
    passed-passed others m n _ ∙ ap (λ (k : ℕ). passed others k w) e

-- Between two worlds only the other threads have acted.
abbrev pub OthersOnly : Others → World → World → Type 0
OthersOnly others w w' = (n : ℕ) × (w' ≡ passed others n w)

-- No writer is at work on a node of this version.
abbrev pub IsStable : Version → Type 0
IsStable v = (v.inserting ≡ false) × (v.splitting ≡ false)

-- Where the command returns, what it returns satisfies `P`, and it has stored nothing.
pub record Gives (others : Others) {A : Type 0} (P : A → Type 0) (f : Cmd World A) : Type 0 where
  pub run : (w : World) → Whenever (λ a w'. P a × OthersOnly others w w') (f w)

abbrev pub Reads : Others → {A : Type 0} → Cmd World A → Type 0
Reads others = Gives others λ _. Unit {0}

pub Option-cases : {A : Type 0} (o : Option A) → (o ≡ none) ⊎ ((a : A) × (o ≡ some a))
Option-cases none = inl refl
Option-cases (some a) = inr (a, refl)

pub or-false : (a b : Bool) → (a || b) ≡ false → (a ≡ false) × (b ≡ false)
or-false false b h = (refl, h)
or-false true b h = absurd cc

module _ (others : Others) where
  abbrev pub gives : {A : Type 0} {P : A → Type 0} (a : A) → P a → Gives others P (pure a)
  gives a p = record { run = λ w. when (p, (zero, refl)) }

  pub fails : {A : Type 0} {P : A → Type 0} → Gives others P (λ w. fault)
  fails = record { run = λ w. when_fault }

  pub waits : {A : Type 0} {P : A → Type 0} → Gives others P (λ w. starved)
  waits = record { run = λ w. when_starved }

  pub followed_by :
      {A B : Type 0} {P : A → Type 0} {Q : B → Type 0} {f : Cmd World A} {k : A → Cmd World B}
      → Gives others P f
      → ((a : A) → P a → Gives others Q (k a))
      → Gives others Q (f >>= k)
  followed_by g next = record {
    run = λ w. Whenever-bind (g.run w) λ a w₁ (p, (m, e)).
        Whenever-mono ((next a p).run w₁) λ b w₂ (q, (n, e')).
          (q, (m + n, e' ∙ ap (passed others n) e ∙ passed-passed others m n w));
  }

  pub either :
      {A : Type 0} {P : A → Type 0} {f g : Cmd World A} (b : Bool)
      → (b ≡ true → Gives others P f)
      → (b ≡ false → Gives others P g)
      → Gives others P (if b then f else g)
  either true f g = f refl
  either false f g = g refl
