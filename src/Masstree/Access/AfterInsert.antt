-- ===== src/Masstree/Access/AfterInsert.antt =====
-- masstree/: what get finds in a root border node into which insert_into_border has put a key.
use transaction_system.Base.{
  ℕ, zero, suc, ◌+◌, ◌*◌, ◌≤◌, ◌<◌, ◌≡◌, ◌≢◌, refl, sym, ap, ◌∙◌, inl, inr, false, List, [], ◌∷◌,
  arith, ◌==◌, ==_iff, Bool-cases, ◌-◌,
}
use mathlib.Core.Path.{subst}
use transaction_system.Base.Lists.{length}
use transaction_system.Base.Run.{Returns, returns, Returns-mono, Returns-bind, Cmd, pure, ◌>>=◌}
use transaction_system.Masstree.Version.{unchanged, body, low_body}
use transaction_system.Masstree.Key.{KeySlice, Key, next}
use transaction_system.Masstree.Key.Rest.{
  HasRest, AreSlices, moved, get_current_slice-HasRest, moved-HasRest, has_next-one, has_next-more,
  next-HasRest,
}
use transaction_system.Masstree.Heap.{Heap, World, Addr, BorderNode, border}
use transaction_system.Masstree.Alone.{alone, world, look-version}
use transaction_system.Masstree.Search.{
  ExtractResult, Extract, load_version, extract_last, extract_more, extract_with_index,
}
use transaction_system.Masstree.Access.{retry, onward, get_loop, get}
use transaction_system.Masstree.Access.Found.{
  find_border-root, extract_last-found, extract_more-layer, extract_more-suffix,
  extract_suffix-found, get_loop-LayerHas,
}
use transaction_system.Masstree.Entry.{insert_into_border}
use transaction_system.Masstree.Entry.Stores.{load_slice-ok}
use transaction_system.Masstree.Entry.Contents.{root_version, SlotHas}
use transaction_system.Masstree.Entry.Shift.{HasKeys}
use transaction_system.Masstree.Entry.Inserted.{insert_into_border-Inserted}

-- No slot from the i-th on before `place` has the slice.
abbrev pub NoneBefore : BorderNode → ℕ → (i place : ℕ) → Type 0
NoneBefore b slice i place = (j : ℕ) → i ≤ j → j < place → b.key_slice j ≢ slice

pub ==_false : (a b : ℕ) → a ≢ b → (a == b) ≡ false
==_false a b ne = elim (Bool-cases (a == b)) [
  | inl same ↦ absurd (ne ((==_iff a b).0 same))
  | inr other ↦ other
]

-- The loops of the extraction come to the slot `place`, with `rest` more slots after it.
module _ (p : Addr) (m : Heap) (b : BorderNode) (at : m.object p ≡ border b) (s : KeySlice)
    (place rest : ℕ) (Q : Extract → World → Type 0) where
  pub extract_last-at :
      (n i t : ℕ)
      → i ≤ place
      → i + n ≡ place + suc rest
      → i + n ≤ 15
      → NoneBefore b s.slice i place
      → ((t' : ℕ) → Returns Q (extract_last alone p s (suc rest) place (world m t')))
      → Returns Q (extract_last alone p s n i (world m t))
  unfolding extract_last
  extract_last-at zero i t low e top none here = absurd (omega arith)
  extract_last-at (suc n) i t low e top none here = elim (Bool-cases (i == place)) [
    | inl same ↦
        let same' : i ≡ place = (==_iff i place).0 same in
        let n' : n ≡ rest = omega arith in
        subst (λ z. Returns Q (extract_last alone p s (suc z) i (world m t))) (sym n')
          (subst (λ z. Returns Q (extract_last alone p s (suc rest) z (world m t))) (sym same')
            (here t))
    | inr other ↦ rw (load_slice-ok p m t b at i (omega arith)) (
        rw (==_false (b.key_slice i) s.slice (none i (omega arith) (ground arith))) (
          extract_last-at n (i + 1) (t + 1) (ground arith) (omega arith) (omega arith)
            (λ j lo hi. none j (omega arith) hi) here))
  ]

  pub extract_more-at :
      (k : Key) (n i t : ℕ)
      → i ≤ place
      → i + n ≡ place + suc rest
      → i + n ≤ 15
      → NoneBefore b s.slice i place
      → ((t' : ℕ) → Returns Q (extract_more alone p k s (suc rest) place (world m t')))
      → Returns Q (extract_more alone p k s n i (world m t))
  unfolding extract_more
  extract_more-at k zero i t low e top none here = absurd (omega arith)
  extract_more-at k (suc n) i t low e top none here = elim (Bool-cases (i == place)) [
    | inl same ↦
        let same' : i ≡ place = (==_iff i place).0 same in
        let n' : n ≡ rest = omega arith in
        subst (λ z. Returns Q (extract_more alone p k s (suc z) i (world m t))) (sym n')
          (subst (λ z. Returns Q (extract_more alone p k s (suc rest) z (world m t))) (sym same')
            (here t))
    | inr other ↦ rw (load_slice-ok p m t b at i (omega arith)) (
        rw (==_false (b.key_slice i) s.slice (none i (omega arith) (ground arith))) (
          extract_more-at k n (i + 1) (t + 1) (ground arith) (omega arith) (omega arith)
            (λ j lo hi. none j (omega arith) hi) here))
  ]

-- What the extraction returns for an entry: its value, or the next layer.
abbrev pub IsExtract : BorderNode → ℕ → List KeySlice → Addr → Extract → Type 0
IsExtract b place (s ∷ s' ∷ s'' ∷ ss) x e = (e.result ≡ ExtractResult.layer) × (e.lv ≡ b.lv place)
IsExtract b place (s ∷ s' ∷ []) x e =
    (e.result ≡ ExtractResult.value) × (e.lv ≡ x) × (e.index ≡ place)
IsExtract b place (s ∷ []) x e = (e.result ≡ ExtractResult.value) × (e.lv ≡ x) × (e.index ≡ place)
IsExtract b place [] x e = ⊥

-- An entry at the first slot with its slice is extracted.
module _ (p x : Addr) (k : Key) (m : Heap) (b : BorderNode) (at : m.object p ≡ border b)
    (s : KeySlice) (place after : ℕ) (room : place + suc after ≡ 15)
    (none : NoneBefore b s.slice 0 place) where
  pub extract_with_index-SlotHas :
      (ss : List KeySlice) (t : ℕ)
      → HasRest k (s ∷ ss)
      → SlotHas m b place (s ∷ ss) x
      → Returns
          (λ e w. (w.memory ≡ m) × IsExtract b place (s ∷ ss) x e)
          (extract_with_index alone p k (world m t))
  unfolding extract_with_index
  extract_with_index-SlotHas [] t rest has =
      rw (get_current_slice-HasRest k s [] rest (world m t)) (
        rw (has_next-one k s rest) (
          extract_last-at p m b at s place after _ 15 0 t (omega arith) (sym room) (omega arith)
            none
            (λ t'.
              rw (extract_last-found p m t' b at x place after (omega arith) s has.0 has.1)
                (returns (refl, (refl, has.2, refl))))))
  extract_with_index-SlotHas (s' ∷ []) t rest has =
      rw (get_current_slice-HasRest k s (s' ∷ []) rest (world m t)) (
        rw (has_next-more k s s' [] rest) (
          extract_more-at p m b at s place after _ k 15 0 t (omega arith) (sym room) (omega arith)
            none
            (λ t'.
              rw (extract_more-suffix p m t' b at x place after (omega arith) s has.0 k has.1) (
                rw
                  (extract_suffix-found p m (t' + 1 + 1) place b k s s' at (omega arith) rest has.2)
                  (returns (refl, (refl, has.3, refl)))))))
  extract_with_index-SlotHas (s' ∷ s'' ∷ ss) t rest has =
      rw (get_current_slice-HasRest k s (s' ∷ s'' ∷ ss) rest (world m t)) (
        rw (has_next-more k s s' (s'' ∷ ss) rest) (
          extract_more-at p m b at s place after _ k 15 0 t (omega arith) (sym room) (omega arith)
            none
            (λ t'.
              rw (extract_more-layer p m t' b at x place after (omega arith) s has.0 k has.1)
                (returns (refl, (refl, refl))))))

-- What get does with an extracted slot of an unchanged node.
module _ (spin turns p : Addr) (k : Key) where
  abbrev pub settle : Extract → Cmd World Addr
  settle e = elim e.result [
    | ExtractResult.not_found ↦ pure 0
    | ExtractResult.value ↦ pure e.lv
    | ExtractResult.layer ↦ do (s, k₁) ← next k; get_loop alone (suc spin) (suc turns) e.lv k₁ retry
    | ExtractResult.unstable ↦ get_loop alone (suc spin) (suc turns) p k (onward p root_version)
  ]

  pub get_loop-root :
      (m : Heap) (b : BorderNode) (t : ℕ) (E : Extract → Type 0) (R : Addr → World → Type 0)
      → m.object p ≡ border b
      → b.version ≡ root_version
      → Returns (λ e w. (w.memory ≡ m) × E e) (extract_with_index alone p k (world m (t + 1 + 1)))
      → ((e : Extract) (t' : ℕ) → E e → Returns R (settle e (world m t')))
      → Returns R (get_loop alone (suc spin) (suc (suc (suc turns))) p k retry (world m t))
  unfolding get_loop load_version unchanged body low_body
  get_loop-root m b t E R at root extracted go =
      rw (find_border-root spin turns p k m t b at root) (
        Returns-bind extracted (λ e w d.
          rw (look-version p w.memory w.turn b (ap (λ (h : Heap). h.object p) d.0 ∙ at)) (
            rw root (
              subst (λ (h : Heap). Returns R (settle e (world h (w.turn + 1)))) (sym d.0)
                (go e (w.turn + 1) d.1)))))

-- An entry that stands first at its slot of a root border node is read by get.
pub get_loop-SlotHas :
    (spin turns p x : Addr) (k : Key) (m : Heap) (b : BorderNode) (s : KeySlice)
    (ss : List KeySlice) (place after t : ℕ)
    → m.object p ≡ border b
    → b.version ≡ root_version
    → place + suc after ≡ 15
    → NoneBefore b s.slice 0 place
    → HasRest k (s ∷ ss)
    → SlotHas m b place (s ∷ ss) x
    → 2 * length ss ≤ turns
    → Returns
        (λ r w. (r ≡ x) × (w.memory ≡ m))
        (get_loop alone (suc spin) (suc (suc (suc turns))) p k retry (world m t))
get_loop-SlotHas spin turns p x k m b s ss place after t at root room none rest has enough =
    get_loop-root spin turns p k m b t (IsExtract b place (s ∷ ss) x)
      (λ r w. (r ≡ x) × (w.memory ≡ m)) at root
      (extract_with_index-SlotHas p x k m b at s place after room none ss (t + 1 + 1) rest has)
      (settled ss rest has enough)
  where
    settled :
        (zs : List KeySlice)
        → HasRest k (s ∷ zs)
        → SlotHas m b place (s ∷ zs) x
        → 2 * length zs ≤ turns
        → (e : Extract) (t' : ℕ) → IsExtract b place (s ∷ zs) x e
        → Returns (λ r w. (r ≡ x) × (w.memory ≡ m)) (settle spin turns p k e (world m t'))
    settled [] rest' has' enough' e t' is = rw is.0 (returns (is.1, refl))
    settled (s' ∷ []) rest' has' enough' e t' is = rw is.0 (returns (is.1, refl))
    settled (s' ∷ s'' ∷ zs) rest' has' enough' e t' is = rw is.0 (
        rw (next-HasRest k s s' (s'' ∷ zs) rest' (world m t')) (
          get_loop-LayerHas spin (suc turns) e.lv (moved k) (s' ∷ s'' ∷ zs) x m t'
            (has'.2.0, ap m.object is.1 ∙ has'.2.1, has'.2.2, has'.2.3)
            (moved-HasRest k s (s' ∷ s'' ∷ zs) rest') (omega arith)))

-- With no other thread about: where insert_into_border puts a key, of any length, into a root border
-- node with room, it returns, and get then finds the key's value, given more than two turns for each
-- of its slices.
pub insert_into_border-get :
    (spin turns p x : Addr) (k : Key) (s : KeySlice) (ss : List KeySlice) (m : Heap)
    (b : BorderNode) (n t : ℕ)
    → HasRest k (s ∷ ss)
    → AreSlices (s ∷ ss)
    → m.object p ≡ border b
    → b.version ≡ root_version
    → HasKeys b n
    → p < m.fresh
    → 2 * length ss ≤ turns
    → Returns
        (λ _ w.
          Returns
            (λ r w'. (r ≡ x) × (w'.memory ≡ w.memory))
            (get alone (suc spin) (suc (suc (suc turns))) p k w))
        (insert_into_border alone p k x (world m t))
unfolding get
insert_into_border-get spin turns p x k s ss m b n t rest slices at root has below enough =
    Returns-mono (insert_into_border-Inserted x p k s ss m b n rest slices at has below t) (λ u w d.
      get_loop-SlotHas spin turns p x k w.memory d.after s ss d.place (14 - d.place) w.turn d.at
        (d.version ∙ root) (omega (arith, has.0, d.is_place.1))
        (λ j lo hi e. absurd (omega (arith, d.is_place.2 j (omega arith) hi, (d.lower j hi).0)))
        rest d.entry enough)
