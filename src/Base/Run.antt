-- ===== src/Base/Run.antt =====
-- Commands over a state `S`: a method of an object, a function on global variables or on a heap.

-- `fault`: undefined behaviour or `exit` on an error. `starved`: the turns given to a spin loop, or
-- to a descent, are used up.
pub data Run (S A : Type 0) : Type 0 where
  ok : A → S → Run S A
  fault : Run S A
  starved : Run S A

abbrev pub Cmd : Type 0 → Type 0 → Type 0
Cmd S A = S → Run S A

module _ {S : Type 0} where
  abbrev pub pure : {A : Type 0} → A → Cmd S A
  pure a s = ok a s

  abbrev pub and_then : {A B : Type 0} → Run S A → (A → Cmd S B) → Run S B
  and_then (ok a s) k = k a s
  and_then fault k = fault
  and_then starved k = starved

  infixl 5 ◌>>=◌ ◌>>◌
  abbrev pub ◌>>=◌ : {A B : Type 0} → Cmd S A → (A → Cmd S B) → Cmd S B
  ◌>>=◌ m k s = and_then (m s) k

  abbrev pub ◌>>◌ : {A B : Type 0} → Cmd S A → Cmd S B → Cmd S B
  ◌>>◌ m k s = and_then (m s) (λ _. k)

  abbrev pub read_state : Cmd S S
  read_state s = ok s s

  abbrev pub write_state : S → Cmd S (Unit {0})
  write_state s _ = ok tt s

  -- Total correctness of a run: it returns, and the result and the state satisfy `P`.
  pub data Returns {A : Type 0} (P : A → S → Type 0) : Run S A → Type 0 where
    returns : {a : A} {s : S} → P a s → Returns P (ok a s)

  -- Partial correctness: where the run returns, the result and the state satisfy `P`.
  pub data Whenever {A : Type 0} (P : A → S → Type 0) : Run S A → Type 0 where
    when : {a : A} {s : S} → P a s → Whenever P (ok a s)
    when_fault : Whenever P fault
    when_starved : Whenever P starved

module _ {S A : Type 0} {P : A → S → Type 0} where
  pub Returns-bind :
      {B : Type 0} {Q : B → S → Type 0} {r : Run S A} {k : A → Cmd S B}
      → Returns P r
      → ((a : A) (s : S) → P a s → Returns Q (k a s))
      → Returns Q (and_then r k)
  Returns-bind (returns p) next = next _ _ p

  pub Whenever-bind :
      {B : Type 0} {Q : B → S → Type 0} {r : Run S A} {k : A → Cmd S B}
      → Whenever P r
      → ((a : A) (s : S) → P a s → Whenever Q (k a s))
      → Whenever Q (and_then r k)
  Whenever-bind (when p) next = next _ _ p
  Whenever-bind when_fault next = when_fault
  Whenever-bind when_starved next = when_starved

  pub Returns-mono :
      {Q : A → S → Type 0} {r : Run S A}
      → Returns P r
      → ((a : A) (s : S) → P a s → Q a s)
      → Returns Q r
  Returns-mono (returns p) weaken = returns (weaken _ _ p)

  pub Whenever-mono :
      {Q : A → S → Type 0} {r : Run S A}
      → Whenever P r
      → ((a : A) (s : S) → P a s → Q a s)
      → Whenever Q r
  Whenever-mono (when p) weaken = when (weaken _ _ p)
  Whenever-mono when_fault weaken = when_fault
  Whenever-mono when_starved weaken = when_starved
