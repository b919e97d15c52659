-- ===== src/KvSilo/Transaction/Writes.antt =====
-- The write set of kvsilo's Transaction as a map from records to values, and its sorting.
use transaction_system.Base.{
  ℕ, ◌≡◌, refl, true, false, ◌||◌, Option, none, some, List, [], ◌∷◌, ◌==◌, arith, if◌then◌else◌,
}
use transaction_system.KvSilo.Memory.{Pointer}
use transaction_system.KvSilo.Transaction.{insert_pair, sort_pairs, search_w_set}

abbrev pub Writes : Type 0
Writes = List (Pointer × ℕ)

-- The value that a write set has for a record, the first if there are several.
unfoldable pub value_of : Pointer → Writes → Option ℕ
value_of p [] = none
value_of p ((q, v) ∷ ws) = if q == p then some v else value_of p ws

-- No record is written twice.
abbrev pub Distinct : Writes → Type 0
Distinct [] = Unit
Distinct ((p, v) ∷ ws) = (search_w_set p ws ≡ false) × Distinct ws

search_w_set-insert_pair :
    (p : Pointer) (x : Pointer × ℕ) (ws : Writes)
    → search_w_set p (insert_pair x ws) ≡ (x.0 == p || search_w_set p ws)
unfolding insert_pair search_w_set
search_w_set-insert_pair p x [] = ground arith
search_w_set-insert_pair p x ((q, v) ∷ ws) = ground (arith, search_w_set-insert_pair p x ws)

Distinct-insert_pair :
    (x : Pointer × ℕ) (ws : Writes)
    → Distinct ws
    → search_w_set x.0 ws ≡ false
    → Distinct (insert_pair x ws)
unfolding insert_pair search_w_set
Distinct-insert_pair x [] d h = (refl, tt)
Distinct-insert_pair x ((q, v) ∷ ws) d h =
    ground (arith, search_w_set-insert_pair q x ws, Distinct-insert_pair x ws d.1)

value_of-insert_pair :
    (p : Pointer) (x : Pointer × ℕ) (ws : Writes)
    → search_w_set x.0 ws ≡ false
    → value_of p (insert_pair x ws) ≡ (if x.0 == p then some x.1 else value_of p ws)
unfolding insert_pair search_w_set value_of
value_of-insert_pair p x [] h = refl
value_of-insert_pair p x ((q, v) ∷ ws) h = ground (arith, value_of-insert_pair p x ws)

pub search_w_set-sort_pairs :
    (p : Pointer) (ws : Writes) → search_w_set p (sort_pairs ws) ≡ search_w_set p ws
unfolding sort_pairs search_w_set
search_w_set-sort_pairs p [] = refl
search_w_set-sort_pairs p (x ∷ ws) =
    ground (arith, search_w_set-insert_pair p x (sort_pairs ws), search_w_set-sort_pairs p ws)

pub Distinct-sort_pairs : (ws : Writes) → Distinct ws → Distinct (sort_pairs ws)
unfolding sort_pairs
Distinct-sort_pairs [] d = tt
Distinct-sort_pairs (x ∷ ws) d =
    Distinct-insert_pair x (sort_pairs ws) (Distinct-sort_pairs ws d.1)
      (rw (search_w_set-sort_pairs x.0 ws) d.0)

pub value_of-sort_pairs :
    (p : Pointer) (ws : Writes) → Distinct ws → value_of p (sort_pairs ws) ≡ value_of p ws
unfolding sort_pairs value_of
value_of-sort_pairs p [] d = refl
value_of-sort_pairs p (x ∷ ws) d = rw (
  value_of-insert_pair p x (sort_pairs ws) (rw (search_w_set-sort_pairs x.0 ws) d.0),
  value_of-sort_pairs p ws d.1,
)

pub value_of-search_w_set :
    (p : Pointer) (v : ℕ) (ws : Writes) → value_of p ws ≡ some v → search_w_set p ws ≡ true
unfolding value_of search_w_set
value_of-search_w_set p v [] h = cc
value_of-search_w_set p v (x ∷ ws) h = ground (arith, value_of-search_w_set p v ws)
