-- ===== src/Masstree/Entry/Contents.antt =====
-- What a border node and its layers hold for a key, and what putting a key in a slot leaves as it was.
use transaction_system.Base.{ℕ, ◌+◌, ◌≤◌, ◌<◌, ◌≡◌, ◌≢◌, ap, true, List, [], ◌∷◌, arith}
use transaction_system.Base.Run.{ok}
use transaction_system.Masstree.Version.{Version, blank_version}
use transaction_system.Masstree.Key.{KeySlice}
use transaction_system.Masstree.Heap.{
  Heap, World, Addr, BorderNode, border, blank_border, key_len_layer, allocate,
}
use transaction_system.Masstree.Alone.{
  alone, world, put, grown, put_self, put_other, put-put, look-version, change-version,
}
use transaction_system.Masstree.Search.{load_version, store_version}
use transaction_system.Masstree.Entry.{new_root_border}

-- A border node that is the root of its layer and that no writer has changed yet.
abbrev pub root_version : Version
root_version = record blank_version { is_border = true; is_root = true }

-- The i-th slot of a border node holds the value `x` of a key with the slices `ss`: the slice and
-- the value, with a second slice as a suffix, with more of them in the layers below.
abbrev pub SlotHas : Heap → BorderNode → ℕ → List KeySlice → Addr → Type 0
SlotHas m b i [] x = ⊥
SlotHas m b i (s ∷ []) x = (b.key_slice i ≡ s.slice) × (b.key_len i ≡ s.size) × (b.lv i ≡ x)
SlotHas m b i (s ∷ s' ∷ []) x =
    (b.key_slice i ≡ s.slice) × (b.key_len i ≡ 8) × (b.key_suffixes i ≡ s') × (b.lv i ≡ x)
SlotHas m b i (s ∷ s' ∷ s'' ∷ ss) x =
    (b.key_slice i ≡ s.slice)
    × (b.key_len i ≡ key_len_layer)
    × ((c : BorderNode) × (m.object (b.lv i) ≡ border c)
        × (c.version ≡ root_version)
        × SlotHas m c 0 (s' ∷ s'' ∷ ss) x)

-- A slot of two nodes.
abbrev pub SameSlot : BorderNode → BorderNode → ℕ → Type 0
SameSlot b c j =
    (c.key_slice j ≡ b.key_slice j)
    × (c.key_len j ≡ b.key_len j)
    × (c.lv j ≡ b.lv j)
    × (c.key_suffixes j ≡ b.key_suffixes j)

-- The node at `p`, which was `b`, has the entry at its i-th slot and is otherwise as it was.
abbrev pub EntryIn : Heap → Addr → BorderNode → ℕ → List KeySlice → Addr → Type 0
EntryIn m p b i ss x =
    (c : BorderNode) × (m.object p ≡ border c)
    × (c.version ≡ b.version)
    × SlotHas m c i ss x
    × ((j : ℕ) → j ≢ i → SameSlot b c j)

-- What was allocated stands there still, but for the object at `p`.
abbrev pub SameBut : Addr → Heap → Heap → Type 0
SameBut p m m' =
    (m.fresh ≤ m'.fresh) × ((q : Addr) → q < m.fresh → p ≢ q → m'.object q ≡ m.object q)

abbrev pub Done : Addr → BorderNode → ℕ → Heap → List KeySlice → Addr → (Unit {0}) → World → Type 0
Done p b i m ss x u w = EntryIn w.memory p b i ss x × SameBut p m w.memory

pub new_root_border-ok :
    (m : Heap) (t : ℕ)
    → new_root_border alone (world m t)
      ≡ ok m.fresh (
          world
            (put m.fresh (border (record blank_border { version = root_version })) (grown m))
            (t + 1 + 1 + 1))
unfolding new_root_border allocate load_version store_version
new_root_border-ok m t =
    let b : BorderNode = blank_border in
    let m₁ : Heap = put m.fresh (border b) (grown m) in
    let at : m₁.object m.fresh ≡ border b = put_self m.fresh (border b) (grown m) in
    rw (look-version m.fresh m₁ (t + 1) b at) (
      rw (change-version m.fresh m₁ (t + 1 + 1) b at root_version) (
        ap (λ (h : Heap). ok m.fresh (world h (t + 1 + 1 + 1)))
          (put-put m.fresh (border b) (border (record b { version = root_version })) (grown m))))

pub SameBut-put : (p : Addr) (m : Heap) (b : BorderNode) → SameBut p m (put p (border b) m)
SameBut-put p m b = (omega arith, λ q below ne. put_other p q (border b) m ne)
