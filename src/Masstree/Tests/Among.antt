-- ===== src/Masstree/Tests/Among.antt =====
-- A reader of masstree/ among other threads.
use transaction_system.Base.{ℕ, Bool, true, false, ◌==◌, ◌≡◌, refl, [], ◌∷◌, if◌then◌else◌, update}
use transaction_system.Base.Run.{Run, ok, fault, starved, Whenever}
use transaction_system.Masstree.Version.{Version, body, low_body, unchanged}
use transaction_system.Masstree.Key.{Key}
use transaction_system.Masstree.Heap.{World, Addr, Others, border}
use transaction_system.Masstree.Alone.{world}
use transaction_system.Masstree.Search.{
  store_lv, load_version, extract_last, extract_more, extract_with_index,
}
use transaction_system.Masstree.Search.Gives.{IsStable, OthersOnly}
use transaction_system.Masstree.Access.{find_border, walk_on, get_loop, get, write_loop, write}
use transaction_system.Masstree.Access.Reads.{find_border-IsStable}
use transaction_system.Masstree.Access.Settles.{Settles, get-Settles}
use transaction_system.Masstree.Access.Writes.{Written, write-Written}
use transaction_system.Masstree.Tests.{sl, key_of, one_key, one_node}

-- Before the third access, another thread writes the value 71.
abbrev busy : Others
busy n m =
    if n == 2
    then record m { object = update m.object 1 (border (record one_key { lv = λ i. 71 })) }
    else m

abbrev two_slices : Key
two_slices = key_of (sl 7 8 ∷ sl 1 2 ∷ [])

abbrev outcome : Run World Bool → Bool
outcome (ok b w) = b
outcome fault = false
outcome starved = false

abbrev result : Run World ℕ → ℕ
result (ok a w) = a
result fault = 1_000_000
result starved = 2_000_000

get_among : result (get busy 2 9 1 two_slices (world one_node 0)) ≡ 71
unfolding get get_loop find_border unchanged body low_body walk_on load_version extract_with_index
    extract_last extract_more
get_among = refl

find_border-IsStable_example :
    Whenever
      (λ (r : Addr × Version) w'. IsStable r.1 × OthersOnly busy (world one_node 0) w')
      (find_border busy 2 9 1 two_slices (world one_node 0))
find_border-IsStable_example = find_border-IsStable busy 2 9 1 two_slices (world one_node 0)

get-Settles_example :
    Whenever
      (λ r w'.
        OthersOnly busy (world one_node 0) w' × Settles busy 2 (world one_node 0) 1 two_slices r)
      (get busy 2 9 1 two_slices (world one_node 0))
get-Settles_example = get-Settles busy 2 (world one_node 0) 9 1 two_slices

write_among : outcome (write busy 2 9 1 two_slices 72 (world one_node 0)) ≡ true
unfolding write write_loop find_border unchanged body low_body walk_on load_version
    extract_with_index extract_last extract_more store_lv
write_among = refl

write-Written_example :
    Whenever
      (λ b w'. Written busy 72 b (world one_node 0) w')
      (write busy 2 9 1 two_slices 72 (world one_node 0))
write-Written_example = write-Written busy 2 9 1 two_slices 72 (world one_node 0)
