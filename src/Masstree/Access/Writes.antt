-- ===== src/Masstree/Access/Writes.antt =====
-- What write of masstree/masstree.h does to the memory that it shares: it stores one value or nothing,
-- whatever the other threads do.
use transaction_system.Base.{
  ℕ, zero, suc, ◌+◌, ◌≡◌, refl, ap, ◌∙◌, Bool, true, false, not, if◌then◌else◌, ◌⊎◌, inl, inr,
}
use transaction_system.Base.Run.{
  Cmd, Run, ok, fault, starved, pure, and_then, ◌>>=◌, ◌>>◌, Whenever, when, when_fault,
  when_starved, Whenever-bind, Whenever-mono,
}
use transaction_system.Masstree.Version.{unchanged}
use transaction_system.Masstree.Key.{Key, next}
use transaction_system.Masstree.Heap.{Addr, Others, World}
use transaction_system.Masstree.Search.{ExtractResult, store_lv}
use transaction_system.Masstree.Search.Gives.{passed, passed-passed, Gives, OthersOnly}
use transaction_system.Masstree.Search.Reads.{
  load_version-Reads, next-Reads, extract_with_index-Reads,
}
use transaction_system.Masstree.Access.{Label, retry, onward, write_loop, write}
use transaction_system.Masstree.Access.Reads.{find_border-Reads, walk_on-IsStable}

-- `false`: nothing was stored. `true`: the last access of this thread stored `x` in one slot.
abbrev pub Written : Others → Addr → Bool → World → World → Type 0
Written others x b w w' =
    (b ≡ false) × OthersOnly others w w'
    ⊎ (b ≡ true)
      × ((before : World) × (n : Addr) × (i : ℕ) × OthersOnly others w before
          × (store_lv others n i x before ≡ ok tt w'))

OthersOnly-trans :
    (others : Others) (w w₁ w₂ : World)
    → OthersOnly others w w₁
    → OthersOnly others w₁ w₂
    → OthersOnly others w w₂
OthersOnly-trans others w w₁ w₂ (m, e) (n, e') =
    (m + n, e' ∙ ap (passed others n) e ∙ passed-passed others m n w)

Written-after :
    (others : Others) (x : Addr) (b : Bool) (w w₁ w₂ : World)
    → OthersOnly others w w₁
    → Written others x b w₁ w₂
    → Written others x b w w₂
Written-after others x b w w₁ w₂ only (inl (is, rest)) =
    inl (is, OthersOnly-trans others w w₁ w₂ only rest)
Written-after others x b w w₁ w₂ only (inr (is, (w₃, n, i, rest, store))) =
    inr (is, (w₃, n, i, OthersOnly-trans others w w₁ w₃ only rest, store))

record Writes (others : Others) (x : Addr) (f : Cmd World Bool) : Type 0 where
  run : (w : World) → Whenever (λ b w'. Written others x b w w') (f w)

module _ (others : Others) (x : Addr) where
  preceded_by :
      {A : Type 0} {P : A → Type 0} {f : Cmd World A} {k : A → Cmd World Bool}
      → Gives others P f
      → ((a : A) → Writes others x (k a))
      → Writes others x (f >>= k)
  preceded_by g next = record {
    run = λ w. Whenever-bind (g.run w) λ a w₁ (_, only).
        Whenever-mono ((next a).run w₁)
          λ b w₂ written. Written-after others x b w w₁ w₂ only written;
  }

  choose :
      {f g : Cmd World Bool} (b : Bool)
      → Writes others x f
      → Writes others x g
      → Writes others x (if b then f else g)
  choose true f g = f
  choose false f g = g

  by_result :
      {f g h i : Cmd World Bool} (r : ExtractResult)
      → Writes others x f
      → Writes others x g
      → Writes others x h
      → Writes others x i
      → Writes others x (elim r [
        | ExtractResult.not_found ↦ f
        | ExtractResult.value ↦ g
        | ExtractResult.layer ↦ h
        | ExtractResult.unstable ↦ i
      ])
  by_result ExtractResult.not_found f g h i = f
  by_result ExtractResult.value f g h i = g
  by_result ExtractResult.layer f g h i = h
  by_result ExtractResult.unstable f g h i = i

  Run-cases :
      (n : Addr) (i : ℕ) (w : World) (r : Run World (Unit {0}))
      → store_lv others n i x w ≡ r
      → Whenever (λ b w'. Written others x b w w') (and_then r (λ _. pure true))
  Run-cases n i w (ok u w') e = when (inr (refl, (w, n, i, (zero, refl), e)))
  Run-cases n i w fault e = when_fault
  Run-cases n i w starved e = when_starved

  store-Writes : (n : Addr) (i : ℕ) → Writes others x (store_lv others n i x >> pure true)
  store-Writes n i = record { run = λ w. Run-cases n i w (store_lv others n i x w) refl }

  misses : Writes others x (pure false)
  misses = record { run = λ w. when (inl (refl, (zero, refl))) }

  write_loop-Writes :
      (spin turns : ℕ) (root : Addr) (k : Key) (l : Label)
      → Writes others x (write_loop others spin turns root k x l)
  unfolding write_loop
  write_loop-Writes spin zero root k l = record { run = λ w. when_starved }
  write_loop-Writes spin (suc turns) root k retry =
      preceded_by (find_border-Reads others spin turns root k)
        λ r. write_loop-Writes spin turns root k (onward r.0 r.1)
  write_loop-Writes spin (suc turns) root k (onward n v) =
      choose v.deleted (write_loop-Writes spin turns root k retry) (
        preceded_by (extract_with_index-Reads others n k) λ e.
          preceded_by (load_version-Reads others n) λ now.
            choose (not (unchanged now v))
              (preceded_by (walk_on-IsStable others spin turns n)
                λ r. write_loop-Writes spin turns root k (onward r.0 r.1))
              (by_result e.result misses (store-Writes n e.index)
                (preceded_by (next-Reads others k) λ r. write_loop-Writes spin turns e.lv r.1 retry)
                (write_loop-Writes spin turns root k (onward n v))))

-- write, where it returns, whatever the other threads do: if it returns false, it has stored nothing,
-- and the memory is what the other threads alone have made of it; if it returns true, its last access
-- stored the value in one slot of one border node, and before that it had stored nothing.
pub write-Written :
    (others : Others) (spin turns : ℕ) (root : Addr) (k : Key) (x : Addr) (w : World)
    → Whenever (λ b w'. Written others x b w w') (write others spin turns root k x w)
unfolding write
write-Written others spin turns root k x w =
    (write_loop-Writes others x spin turns root k retry).run w
