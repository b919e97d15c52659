-- ===== src/BpTree/Removal/Shift.antt =====
-- The loops of remove_entry_from_node of bptree/main.c: the searches for the key and the pointer, the
-- shifts, and the tidying of a leaf.
use transaction_system.Base.{
  Bool, ℕ, zero, suc, ◌+◌, ◌-◌, ◌≤◌, ◌<◌, ◌≡◌, ◌≢◌, true, false, List, [], ◌∷◌, some, ltb, leb,
  ◌==◌, ◌&&◌, ◌++◌, if◌then◌else◌, arith, ap, ◌∙◌, update,
}
use mathlib.Core.Path.{fun_ext}
use transaction_system.Base.Run.{ok}
use transaction_system.Base.Lists.{length, All}
use transaction_system.BpTree.Heap.{Array, Node}
use transaction_system.BpTree.Entries.{Entry, Holds, get_key-ok, get_pointer-ok}
use transaction_system.BpTree.Slots.{clear_pointers}
use transaction_system.BpTree.Slots.Cells.{Present, set_key-ok, set_pointer-ok}
use transaction_system.BpTree.Removal.{seek_key, seek_pointer, shift_keys, shift_pointers, tidy}

-- The `c` cells from the i-th on, each one place lower.
abbrev pub pulled : Array → ℕ → ℕ → Array
pulled a c i j = if leb i (j + 1) && ltb (j + 1) (i + c) then a (j + 1) else a j

pulled-none : (a : Array) (i : ℕ) → a ≡ pulled a 0 i
pulled-none a i = fun_ext λ j. ground arith

pulled-next :
    (a : Array) (c i k : ℕ)
    → 1 ≤ i
    → a i ≡ some k
    → pulled (update a (i - 1) (some k)) c (i + 1) ≡ pulled a (suc c) i
pulled-next a c i k low is = fun_ext λ j. ground (arith, is, low)

-- `c` cells from the i-th on set to NULL.
abbrev pub cleared : Array → ℕ → ℕ → Array
cleared a c i j = if leb i j && ltb j (i + c) then some 0 else a j

cleared-none : (a : Array) (i : ℕ) → a ≡ cleared a 0 i
cleared-none a i = fun_ext λ j. ground arith

cleared-next : (a : Array) (c i : ℕ) → cleared (update a i (some 0)) c (i + 1) ≡ cleared a (suc c) i
cleared-next a c i = fun_ext λ j. ground arith

abbrev pub with_keys : Node → Array → Node
with_keys m a = record m { keys = a }

abbrev pub with_pointers : Node → Array → Node
with_pointers m a = record m { pointers = a }

module _ (order : ℕ) where
  pub seek_key-Holds :
      (key p cells i : ℕ) (xs ys : List Entry) (n : Node)
      → length xs < cells
      → i + length xs < order - 1
      → All (λ (f : Entry). f.0 ≢ key) xs
      → Holds n i (xs ++ ((key, p) ∷ ys))
      → seek_key order key cells i n ≡ ok (i + length xs) n
  unfolding seek_key
  seek_key-Holds key p zero i xs ys n many room others h = absurd (omega arith)
  seek_key-Holds key p (suc cells) i [] ys n many room others h =
      let here : (key == key) ≡ true = ground arith in
      rw (get_key-ok order n i key (omega arith) h.0)
        (rw here (ap (λ (a : ℕ). ok a n) (omega arith)))
  seek_key-Holds key p (suc cells) i ((k, q) ∷ xs) ys n many room (differs, others) h =
      let other : (k == key) ≡ false = ground (arith, differs) in
      rw (get_key-ok order n i k (omega arith) h.0) (
        rw other (
          seek_key-Holds key p cells (i + 1) xs ys n (omega arith) (omega arith) others h.2
          ∙ ap (λ (a : ℕ). ok a n) (omega arith)))

  pub seek_pointer-Holds :
      (key p cells i : ℕ) (xs ys : List Entry) (n : Node) (ks : Array)
      → length xs < cells
      → i + length xs < order
      → All (λ (f : Entry). f.1 ≢ p) xs
      → Holds n i (xs ++ ((key, p) ∷ ys))
      → seek_pointer order p cells i (with_keys n ks) ≡ ok (i + length xs) (with_keys n ks)
  unfolding seek_pointer
  seek_pointer-Holds key p zero i xs ys n ks many room others h = absurd (omega arith)
  seek_pointer-Holds key p (suc cells) i [] ys n ks many room others h =
      let here : (p == p) ≡ true = ground arith in
      rw (get_pointer-ok order (with_keys n ks) i p (omega arith) h.1)
        (rw here (ap (λ (a : ℕ). ok a (with_keys n ks)) (omega arith)))
  seek_pointer-Holds key p (suc cells) i ((k, q) ∷ xs) ys n ks many room (differs, others) h =
      let other : (q == p) ≡ false = ground (arith, differs) in
      rw (get_pointer-ok order (with_keys n ks) i q (omega arith) h.1) (
        rw other (
          seek_pointer-Holds key p cells (i + 1) xs ys n ks (omega arith) (omega arith) others h.2
          ∙ ap (λ (a : ℕ). ok a (with_keys n ks)) (omega arith)))

  pub shift_keys-ok :
      (c i : ℕ) (m : Node)
      → 1 ≤ i
      → i + c ≤ order - 1
      → ((j : ℕ) → i ≤ j → j < i + c → Present m j)
      → shift_keys order c i m ≡ ok tt (with_keys m (pulled m.keys c i))
  unfolding shift_keys
  shift_keys-ok zero i m low room there =
      ap (λ (a : Array). ok tt (with_keys m a)) (pulled-none m.keys i)
  shift_keys-ok (suc c) i m low room there =
      let (k, p, has_k, has_p) = there i (omega arith) (omega arith) in
      let m₁ : Node = with_keys m (update m.keys (i - 1) (some k)) in
      let there₁ : (j : ℕ) → i + 1 ≤ j → j < (i + 1) + c → Present m₁ j = λ j lo hi.
        let (k', p', has_k', has_p') = there j (omega arith) (omega arith) in
        let other : ((i - 1) == j) ≡ false = ground arith in (k', p', rw other has_k', has_p') in
      rw (get_key-ok order m i k (omega arith) has_k) (
        rw (set_key-ok order m (i - 1) k (omega arith)) (
          shift_keys-ok c (i + 1) m₁ (omega arith) (omega arith) there₁
          ∙ ap (λ (a : Array). ok tt (with_keys m a)) (pulled-next m.keys c i k low has_k)))

  pub shift_pointers-ok :
      (c i : ℕ) (m : Node)
      → 1 ≤ i
      → i + c ≤ order
      → ((j : ℕ) → i ≤ j → j < i + c → (p : ℕ) × (m.pointers j ≡ some p))
      → shift_pointers order c i m ≡ ok tt (with_pointers m (pulled m.pointers c i))
  unfolding shift_pointers
  shift_pointers-ok zero i m low room there =
      ap (λ (a : Array). ok tt (with_pointers m a)) (pulled-none m.pointers i)
  shift_pointers-ok (suc c) i m low room there =
      let (p, has_p) = there i (omega arith) (omega arith) in
      let m₁ : Node = with_pointers m (update m.pointers (i - 1) (some p)) in
      let there₁ : (j : ℕ) → i + 1 ≤ j → j < (i + 1) + c → (p : ℕ) × (m₁.pointers j ≡ some p) =
        λ j lo hi.
          let (p', has_p') = there j (omega arith) (omega arith) in
          let other : ((i - 1) == j) ≡ false = ground arith in (p', rw other has_p') in
      rw (get_pointer-ok order m i p (omega arith) has_p) (
        rw (set_pointer-ok order m (i - 1) p (omega arith)) (
          shift_pointers-ok c (i + 1) m₁ (omega arith) (omega arith) there₁
          ∙ ap (λ (a : Array). ok tt (with_pointers m a)) (pulled-next m.pointers c i p low has_p)))

  pub clear_pointers-ok :
      (c i : ℕ) (m : Node)
      → i + c ≤ order
      → clear_pointers order c i m ≡ ok tt (with_pointers m (cleared m.pointers c i))
  unfolding clear_pointers
  clear_pointers-ok zero i m room =
      ap (λ (a : Array). ok tt (with_pointers m a)) (cleared-none m.pointers i)
  clear_pointers-ok (suc c) i m room = rw (set_pointer-ok order m i 0 (omega arith)) (
      clear_pointers-ok c (i + 1) (with_pointers m (update m.pointers i (some 0))) (omega arith)
      ∙ ap (λ (a : Array). ok tt (with_pointers m a)) (cleared-next m.pointers c i))

  pub tidy-leaf :
      (m : Node)
      → m.is_leaf ≡ true
      → m.num_keys ≤ order - 1
      → tidy order m
        ≡ ok tt (with_pointers m (cleared m.pointers (order - 1 - m.num_keys) m.num_keys))
  unfolding tidy
  tidy-leaf m leaf room =
      ap
        (λ (b : Bool).
          if b
          then clear_pointers order (order - 1 - m.num_keys) m.num_keys m
          else clear_pointers order (order - (m.num_keys + 1)) (m.num_keys + 1) m)
        leaf
      ∙ clear_pointers-ok (order - 1 - m.num_keys) m.num_keys m (omega arith)
