-- ===== src/Masstree/Access/RoundTrip.antt =====
-- masstree/: a tree that start_new_tree makes is read by get.
use transaction_system.Base.{ℕ, suc, ◌+◌, ◌*◌, ◌<◌, ◌≡◌, arith, List}
use transaction_system.Base.Lists.{length}
use transaction_system.Base.Run.{Returns, returns, Returns-bind}
use transaction_system.Masstree.Key.{Key, KeySlice}
use transaction_system.Masstree.Key.Rest.{HasRest, AreSlices}
use transaction_system.Masstree.Heap.{Heap, Addr, BorderNode, border, blank_border}
use transaction_system.Masstree.Alone.{alone, world, put, grown, put_self}
use transaction_system.Masstree.Entry.{start_new_tree}
use transaction_system.Masstree.Entry.Contents.{root_version, new_root_border-ok}
use transaction_system.Masstree.Entry.Layers.{put_entry-Done}
use transaction_system.Masstree.Access.{get}
use transaction_system.Masstree.Access.Found.{get_loop-LayerHas}

-- What stands in a new tree for a key of any length is its value: with no other thread about,
-- start_new_tree returns a root from which get, given more than two turns for each slice and a turn
-- for each stable version, returns the value and leaves the heap as it is.
pub start_new_tree-get :
    (spin turns : ℕ) (k : Key) (ss : List KeySlice) (x : Addr) (m : Heap) (t : ℕ)
    → HasRest k ss
    → AreSlices ss
    → 2 * length ss < turns
    → Returns
        (λ root w.
          Returns (λ r w'. (r ≡ x) × (w'.memory ≡ w.memory)) (get alone (suc spin) turns root k w))
        (start_new_tree alone k x (world m t))
unfolding start_new_tree get
start_new_tree-get spin turns k ss x m t rest slices enough =
    let b : BorderNode = record blank_border { version = root_version } in
    let m₁ : Heap = put m.fresh (border b) (grown m) in
    rw (new_root_border-ok m t) (
      Returns-bind
        (put_entry-Done x m.fresh k ss m₁ (t + 1 + 1 + 1) 0 b rest slices
          (put_self m.fresh (border b) (grown m)) (omega arith) (omega arith))
        (λ u w d. returns (
          get_loop-LayerHas spin turns m.fresh k ss x w.memory w.turn (d.0.0, d.0.1, d.0.2, d.0.3)
            rest enough)))
