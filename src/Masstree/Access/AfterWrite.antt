-- ===== src/Masstree/Access/AfterWrite.antt =====
-- masstree/: write replaces the value of a key that stands in the tree.
use transaction_system.Base.{
  ℕ, zero, suc, ◌+◌, ◌*◌, ◌≤◌, ◌<◌, ◌≡◌, ◌≢◌, refl, sym, ap, ◌∙◌, inl, inr, Bool, true, false, List,
  [], ◌∷◌, arith, update, ◌==◌, ==_iff, Bool-cases,
}
use mathlib.Core.Path.{subst}
use transaction_system.Base.Lists.{length}
use transaction_system.Base.Run.{
  Cmd, pure, ◌>>=◌, ◌>>◌, Returns, returns, Returns-mono, Returns-bind,
}
use transaction_system.Masstree.Version.{unchanged, body, low_body}
use transaction_system.Masstree.Key.{KeySlice, Key, next}
use transaction_system.Masstree.Key.Rest.{HasRest, AreSlices, moved, moved-HasRest, next-HasRest}
use transaction_system.Masstree.Heap.{Heap, World, Addr, BorderNode, border, key_len_layer}
use transaction_system.Masstree.Alone.{alone, world, put, put_self, put_other, look-version}
use transaction_system.Masstree.Search.{
  ExtractResult, Extract, load_version, store_lv, extract_with_index,
}
use transaction_system.Masstree.Access.{retry, onward, write_loop}
use transaction_system.Masstree.Access.Found.{find_border-root}
use transaction_system.Masstree.Access.AfterInsert.{
  NoneBefore, IsExtract, extract_with_index-SlotHas,
}
use transaction_system.Masstree.Entry.Stores.{store_lv-ok, update_self, update_other}
use transaction_system.Masstree.Entry.Contents.{root_version, SlotHas}

-- What write does with an extracted slot of an unchanged node.
module _ (spin turns p : Addr) (k : Key) (x : Addr) where
  abbrev settle : Extract → Cmd World Bool
  settle e = elim e.result [
    | ExtractResult.not_found ↦ pure false
    | ExtractResult.value ↦ do store_lv alone p e.index x; pure true
    | ExtractResult.layer ↦ do
      (s, k₁) ← next k
      write_loop alone (suc spin) (suc turns) e.lv k₁ x retry
    | ExtractResult.unstable ↦ write_loop alone (suc spin) (suc turns) p k x (onward p root_version)
  ]

  pub write_loop-root :
      (m : Heap) (b : BorderNode) (t : ℕ) (E : Extract → Type 0) (R : Bool → World → Type 0)
      → m.object p ≡ border b
      → b.version ≡ root_version
      → Returns (λ e w. (w.memory ≡ m) × E e) (extract_with_index alone p k (world m (t + 1 + 1)))
      → ((e : Extract) (t' : ℕ) → E e → Returns R (settle e (world m t')))
      → Returns R (write_loop alone (suc spin) (suc (suc (suc turns))) p k x retry (world m t))
  unfolding write_loop load_version unchanged body low_body
  write_loop-root m b t E R at root extracted go =
      rw (find_border-root spin turns p k m t b at root) (
        Returns-bind extracted (λ e w d.
          rw (look-version p w.memory w.turn b (ap (λ (h : Heap). h.object p) d.0 ∙ at)) (
            rw root (
              subst (λ (h : Heap). Returns R (settle e (world h (w.turn + 1)))) (sym d.0)
                (go e (w.turn + 1) d.1)))))

-- `m'` is `m` with the value `x` at a slot that holds a value.
abbrev pub Written : Addr → Heap → Heap → Type 0
Written x m m' =
    (q : Addr) × (b : BorderNode) × (j : ℕ) × (m.object q ≡ border b)
    × (b.key_len j ≤ 8)
    × (m' ≡ put q (border (record b { lv = update b.lv j x })) m)

-- A slot that holds a layer is left alone by that.
abbrev LayerSlot : Heap → Addr → BorderNode → ℕ → Type 0
LayerSlot m p b i =
    (c : BorderNode) × (m.object p ≡ border c)
    × (c.version ≡ b.version)
    × (c.key_slice ≡ b.key_slice)
    × (c.key_len ≡ b.key_len)
    × (c.lv i ≡ b.lv i)

border-injective : (b c : BorderNode) → border b ≡ border c → b ≡ c
border-injective b c e = cc

Written-LayerSlot :
    (x : Addr) (m m' : Heap) (p : Addr) (b : BorderNode) (i : ℕ)
    → Written x m m'
    → m.object p ≡ border b
    → b.key_len i ≡ key_len_layer
    → LayerSlot m' p b i
Written-LayerSlot x m m' p b i (q, c, j, at_q, value, e) at is_layer = elim (Bool-cases (q == p)) [
  | inl same ↦
      let q≡p : q ≡ p = (==_iff q p).0 same in
      let c≡b : c ≡ b = border-injective c b (sym at_q ∙ ap m.object q≡p ∙ at) in
      let c' : BorderNode = record c { lv = update c.lv j x } in
      let apart : i ≢ j =
        λ i≡j. absurd (omega (arith, ap b.key_len i≡j, ap (λ (z : BorderNode). z.key_len j) c≡b)) in
      (
        c',
        ap (λ (h : Heap). h.object p) e
            ∙ ap (λ z. (put z (border c') m).object p) q≡p
            ∙ put_self p (border c') m,
        ap (λ (z : BorderNode). z.version) c≡b,
        ap (λ (z : BorderNode). z.key_slice) c≡b,
        ap (λ (z : BorderNode). z.key_len) c≡b,
        update_other c.lv j i x apart ∙ ap (λ (z : BorderNode). z.lv i) c≡b,
      )
  | inr other ↦ (
    b,
    ap (λ (h : Heap). h.object p) e ∙ put_other q p _ m (λ q≡p. ground (arith, ==_iff q p)) ∙ at,
    refl,
    refl,
    refl,
    refl,
  )
]

-- What write returns for a key at the slot `place` of the node at `p`, which was `b`.
abbrev Overwritten : Heap → Addr → BorderNode → ℕ → List KeySlice → Addr → Bool → World → Type 0
Overwritten m p b place ss x r w =
    (r ≡ true)
    × Written x m w.memory
    × ((c : BorderNode) × (w.memory.object p ≡ border c)
        × (c.version ≡ root_version)
        × (c.key_slice ≡ b.key_slice)
        × SlotHas w.memory c place ss x)

-- The value stored at a slot that holds a value.
store_lv-Overwritten :
    (m : Heap) (p : Addr) (b : BorderNode) (place t : ℕ) (ss : List KeySlice) (x : Addr)
    → m.object p ≡ border b
    → b.version ≡ root_version
    → place < 15
    → b.key_len place ≤ 8
    → SlotHas
        (put p (border (record b { lv = update b.lv place x })) m)
        (record b { lv = update b.lv place x })
        place
        ss
        x
    → Returns (Overwritten m p b place ss x) ((store_lv alone p place x >> pure true) (world m t))
store_lv-Overwritten m p b place t ss x at root h value has =
    let c : BorderNode = record b { lv = update b.lv place x } in
    rw (store_lv-ok p m t place b at h x) (
      returns (refl, (p, b, place, at, value, refl), (c, put_self p (border c) m, root, refl, has)))

pub write_loop-SlotHas :
    (ss : List KeySlice) (turns spin p x x' : Addr) (k : Key) (m : Heap) (b : BorderNode)
    (s : KeySlice) (place after t : ℕ)
    → m.object p ≡ border b
    → b.version ≡ root_version
    → place + suc after ≡ 15
    → NoneBefore b s.slice 0 place
    → HasRest k (s ∷ ss)
    → AreSlices (s ∷ ss)
    → SlotHas m b place (s ∷ ss) x
    → 2 * length ss ≤ turns
    → Returns
        (Overwritten m p b place (s ∷ ss) x')
        (write_loop alone (suc spin) (suc (suc (suc turns))) p k x' retry (world m t))
write_loop-SlotHas [] turns spin p x x' k m b s place after t at root room none rest slices has
      enough =
    write_loop-root spin turns p k x' m b t (IsExtract b place (s ∷ []) x) _ at root
      (extract_with_index-SlotHas p x k m b at s place after room none [] (t + 1 + 1) rest has)
      (λ e t' is. rw is.0 (
        rw is.2 (
          store_lv-Overwritten m p b place t' (s ∷ []) x' at root (omega arith)
            (omega (arith, has.1, slices.1)) (has.0, has.1, update_self b.lv place x'))))
write_loop-SlotHas (s' ∷ []) turns spin p x x' k m b s place after t at root room none rest slices
      has enough =
    write_loop-root spin turns p k x' m b t (IsExtract b place (s ∷ s' ∷ []) x) _ at root
      (extract_with_index-SlotHas p x k m b at s place after room none (s' ∷ []) (t + 1 + 1) rest
        has)
      (λ e t' is. rw is.0 (
        rw is.2 (
          store_lv-Overwritten m p b place t' (s ∷ s' ∷ []) x' at root (omega arith)
            (omega (arith, has.1)) (has.0, has.1, has.2, update_self b.lv place x'))))
write_loop-SlotHas (s' ∷ s'' ∷ ss) zero spin p x x' k m b s place after t at root room none rest
      slices has enough =
    absurd (omega arith)
write_loop-SlotHas (s' ∷ s'' ∷ ss) (suc zero) spin p x x' k m b s place after t at root room none
      rest slices has enough =
    absurd (omega arith)
write_loop-SlotHas (s' ∷ s'' ∷ ss) (suc (suc turns)) spin p x x' k m b s place after t at root room
      none rest slices has enough =
    write_loop-root spin (suc (suc turns)) p k x' m b t (IsExtract b place (s ∷ s' ∷ s'' ∷ ss) x) _
      at root
      (extract_with_index-SlotHas p x k m b at s place after room none (s' ∷ s'' ∷ ss) (t + 1 + 1)
        rest has)
      (λ e t' is. rw is.0 (
        rw (next-HasRest k s s' (s'' ∷ ss) rest (world m t')) (
          Returns-mono
            (write_loop-SlotHas (s'' ∷ ss) turns spin e.lv x x' (moved k) m has.2.0 s' 0 14 t'
              (ap m.object is.1 ∙ has.2.1) has.2.2 refl (λ j low high f. absurd (omega arith))
              (moved-HasRest k s (s' ∷ s'' ∷ ss) rest) slices.1 has.2.3 (omega arith))
            (λ r w d.
              let l : LayerSlot w.memory p b place =
                Written-LayerSlot x' m w.memory p b place d.1 at has.1 in
              (
                d.0,
                d.1,
                (
                  l.0,
                  l.1,
                  l.2 ∙ root,
                  l.3,
                  (
                    ap (λ (f : ℕ → ℕ). f place) l.3 ∙ has.0,
                    ap (λ (f : ℕ → ℕ). f place) l.4 ∙ has.1,
                    (d.2.0, ap w.memory.object (l.5 ∙ sym is.1) ∙ d.2.1, d.2.2, d.2.4),
                  ),
                ),
              )))))
