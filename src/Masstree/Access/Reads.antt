-- ===== src/Masstree/Access/Reads.antt =====
-- findBorder of masstree/masstree.h and the walk of get and write along the border nodes store nothing,
-- whatever the other threads do.
use transaction_system.Base.{ℕ, zero, suc, ◌||◌, not, ◌==◌}
use transaction_system.Base.Run.{Whenever}
use transaction_system.Masstree.Version.{Version, unchanged}
use transaction_system.Masstree.Key.{Key}
use transaction_system.Masstree.Heap.{Addr, Others, World}
use transaction_system.Masstree.Access.{Label, retry, onward, find_loop, find_border, walk, walk_on}
use transaction_system.Masstree.Search.Reads.{
  get_current_slice-Reads, load_version-Reads, load_parent-Reads, load_next-Reads, find_child-Reads,
  stable_version-IsStable,
}
use transaction_system.Masstree.Search.Gives.{
  followed_by, either, gives, waits, Gives, OthersOnly, IsStable,
}

module _ (others : Others) where
  -- A label's version is stable.
  abbrev StableAt : Label → Type 0
  StableAt retry = Unit
  StableAt (onward n v) = IsStable v

  abbrev pub StablePair : Addr × Version → Type 0
  StablePair r = IsStable r.1

  find_loop-IsStable :
      (spin turns : ℕ) (root : Addr) (k : Key) (l : Label)
      → StableAt l
      → Gives others StablePair (find_loop others spin turns root k l)
  unfolding find_loop
  find_loop-IsStable spin zero root k l h = waits others
  find_loop-IsStable spin (suc turns) root k retry h =
      followed_by others (stable_version-IsStable others spin root) λ v stable.
        either others (not v.is_root)
          (λ _.
            followed_by others (load_parent-Reads others root)
              λ p _. find_loop-IsStable spin turns p k retry tt)
          (λ _. find_loop-IsStable spin turns root k (onward root v) stable)
  find_loop-IsStable spin (suc turns) root k (onward n v) h =
      followed_by others (load_version-Reads others n) λ now _.
        either others now.is_border (λ _. gives others (n, v) h)
          (λ _. followed_by others (get_current_slice-Reads others k) λ s _.
            followed_by others (find_child-Reads others n s) λ n₁ _.
              followed_by others (stable_version-IsStable others spin n₁) λ v₁ stable₁.
                followed_by others (load_version-Reads others n) λ after _.
                  either others (unchanged after v)
                    (λ _. find_loop-IsStable spin turns root k (onward n₁ v₁) stable₁)
                    (λ _. followed_by others (stable_version-IsStable others spin n) λ v₂ stable₂.
                      either others (not (v₂.v_split == v.v_split))
                        (λ _. find_loop-IsStable spin turns root k retry tt)
                        (λ _. find_loop-IsStable spin turns root k (onward n v₂) stable₂)))

  -- findBorder, where it returns, whatever the other threads do: the version that it returns is of no
  -- node that is being inserted in or split, and the memory is what the other threads alone have made
  -- of it.
  pub find_border-IsStable :
      (spin turns : ℕ) (root : Addr) (k : Key) (w : World)
      → Whenever
          (λ (r : Addr × Version) w'. IsStable r.1 × OthersOnly others w w')
          (find_border others spin turns root k w)
  unfolding find_border
  find_border-IsStable spin turns root k = (find_loop-IsStable spin turns root k retry tt).run

  walk-IsStable :
      (spin turns : ℕ) (n : Addr) (v : Version) (after : Addr)
      → IsStable v
      → Gives others StablePair (walk others spin turns n v after)
  unfolding walk
  walk-IsStable spin zero n v after h = waits others
  walk-IsStable spin (suc turns) n v after h =
      either others (v.deleted || after == 0) (λ _. gives others (n, v) h)
        (λ _. followed_by others (stable_version-IsStable others spin after) λ v₁ stable.
          followed_by others (load_next-Reads others after)
            λ after₁ _. walk-IsStable spin turns after v₁ after₁ stable)

  pub walk_on-IsStable :
      (spin turns : ℕ) (n : Addr) → Gives others StablePair (walk_on others spin turns n)
  unfolding walk_on
  walk_on-IsStable spin turns n =
      followed_by others (stable_version-IsStable others spin n) λ v stable.
        followed_by others (load_next-Reads others n)
          λ after _. walk-IsStable spin turns n v after stable

  pub find_border-Reads :
      (spin turns : ℕ) (root : Addr) (k : Key)
      → Gives others StablePair (find_border others spin turns root k)
  find_border-Reads spin turns root k = record { run = find_border-IsStable spin turns root k }
