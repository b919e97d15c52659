-- ===== src/Masstree/Entry/Inserted.antt =====
-- masstree/bptree.h: what insert_into_border makes of a border node with room, with no other thread
-- about.
use transaction_system.Base.{ℕ, ◌+◌, ◌-◌, ◌≤◌, ◌<◌, ◌≡◌, ◌≢◌, refl, sym, ap, ◌∙◌, List, ◌∷◌, arith}
use mathlib.Core.Path.{subst}
use transaction_system.Base.Run.{Returns, Returns-mono, Returns-bind, Cmd, ◌>>=◌, ◌>>◌}
use transaction_system.Masstree.Key.{KeySlice, Key, get_current_slice}
use transaction_system.Masstree.Key.Rest.{HasRest, AreSlices, get_current_slice-HasRest}
use transaction_system.Masstree.Heap.{Heap, World, Addr, BorderNode, border}
use transaction_system.Masstree.Alone.{alone, world, put, put_self, put_other}
use transaction_system.Masstree.Entry.{insert_into_border, scan_slices, move_up, put_entry}
use transaction_system.Masstree.Entry.Contents.{SlotHas, SameSlot, SameBut, EntryIn}
use transaction_system.Masstree.Entry.Layers.{put_entry-Done}
use transaction_system.Masstree.Entry.Shift.{
  shift_node, HasKeys, IsPlace, number_of_keys-HasKeys, scan_slices-IsPlace, move_up-shift,
}

-- The node at `p` was `b` with `n` keys, and is `after`: it has the entry at `place`, the first slot
-- whose slice is not less than the new one. What stood before it is as it was; what stood from there
-- on has moved up by one, but not the suffixes, which stay at their slots.
pub record Inserted (b : BorderNode) (n : ℕ) (s : KeySlice) (ss : List KeySlice) (x : Addr)
    (p : Addr) (m m' : Heap) : Type 0 where
  pub place : ℕ
  pub after : BorderNode
  pub is_place : IsPlace b s.slice 0 n place
  pub at : m'.object p ≡ border after
  pub version : after.version ≡ b.version
  pub entry : SlotHas m' after place (s ∷ ss) x
  pub lower : (j : ℕ) → j < place → SameSlot b after j
  pub upper :
      (j : ℕ)
      → place ≤ j
      → j < n
      → (after.key_slice (j + 1) ≡ b.key_slice j)
        × (after.key_len (j + 1) ≡ b.key_len j)
        × (after.lv (j + 1) ≡ b.lv j)
  pub suffixes : (j : ℕ) → j ≢ place → after.key_suffixes j ≡ b.key_suffixes j
  pub others : SameBut p m m'

module _ (b : BorderNode) (place n : ℕ) where
  shift-lower : (j : ℕ) → j < place → SameSlot b (shift_node b place n) j
  shift-lower j h = (ground arith, ground arith, ground arith, refl)

  shift-upper :
      (j : ℕ)
      → place ≤ j
      → j < n
      → ((shift_node b place n).key_slice (j + 1) ≡ b.key_slice j)
        × ((shift_node b place n).key_len (j + 1) ≡ b.key_len j)
        × ((shift_node b place n).lv (j + 1) ≡ b.lv j)
  shift-upper j low high = (ground arith, ground arith, ground arith)

SameBut-trans : (p : Addr) (a c d : Heap) → SameBut p a c → SameBut p c d → SameBut p a d
SameBut-trans p a c d first second = (
  omega (arith, first.0, second.0),
  λ q h ne. second.1 q (omega (arith, first.0)) ne ∙ first.1 q h ne,
)

module _ (x p : Addr) (k : Key) (s : KeySlice) (ss : List KeySlice) (m : Heap) (b : BorderNode)
    (n : ℕ) (rest : HasRest k (s ∷ ss)) (slices : AreSlices (s ∷ ss)) (at : m.object p ≡ border b)
    (has : HasKeys b n) (below : p < m.fresh) where
  entry-Inserted :
      (place : ℕ) (m' : Heap)
      → IsPlace b s.slice 0 n place
      → EntryIn m' p (shift_node b place n) place (s ∷ ss) x
      → SameBut p m m'
      → Inserted b n s ss x p m m'
  entry-Inserted place m' is_place e same = record {
    place = place;
    after = e.0;
    is_place = is_place;
    at = e.1;
    version = e.2;
    entry = e.3;
    lower = λ j h.
        let l : SameSlot b (shift_node b place n) j = shift-lower b place n j h in
        let o : SameSlot (shift_node b place n) e.0 j = e.4 j (λ q. omega arith) in
        (o.0 ∙ l.0, o.1 ∙ l.1, o.2 ∙ l.2, o.3);
    upper = λ j low high.
        let u = shift-upper b place n j low high in
        let o : SameSlot (shift_node b place n) e.0 (j + 1) = e.4 (j + 1) (λ q. omega arith) in
        (o.0 ∙ u.0, o.1 ∙ u.1, o.2 ∙ u.2);
    suffixes = λ j ne. (e.4 j ne).3;
    others = same;
  }

  move_and_put :
      (place t : ℕ)
      → IsPlace b s.slice 0 n place
      → Returns
          (λ _ w. Inserted b n s ss x p m w.memory)
          ((move_up alone p (n - place) n >> put_entry alone p place k x) (world m t))
  move_and_put place t is_place =
      let high : place ≤ n = is_place.1 in
      let e : n - (n - place) ≡ place = omega arith in
      let c : BorderNode = shift_node b place n in
      Returns-bind (move_up-shift (n - place) n p m t b at (omega arith) has.0) (λ u w d.
        let moved_to : w.memory ≡ put p (border c) m =
          d ∙ ap (λ (l : ℕ). put p (border (shift_node b l n)) m) e in
        let same : SameBut p m w.memory =
          subst (SameBut p m) (sym moved_to)
            (omega arith, λ q h ne. put_other p q (border c) m ne) in
        Returns-mono
          (put_entry-Done x p k (s ∷ ss) w.memory w.turn place c rest slices
            (ap (λ (h : Heap). h.object p) moved_to ∙ put_self p (border c) m)
            (omega (arith, has.0)) (omega (arith, same.0)))
          (λ v w' e'.
            entry-Inserted place w'.memory is_place e'.0
              (SameBut-trans p m w.memory w'.memory same e'.1)))

  -- What insert_into_border does once the keys are counted.
  abbrev place_it : ℕ → Cmd World (Unit {0})
  place_it num_keys = do
    current ← get_current_slice k
    place ← scan_slices alone p current.slice num_keys 0
    move_up alone p (num_keys - place) num_keys
    put_entry alone p place k x

  -- With no other thread about: where a border node has its first `n` slots in use and the next one
  -- free, insert_into_border returns for a key of any number of slices. The key's entry then stands
  -- at the first slot whose slice is not less than the key's first slice. What stood before it is as
  -- it was; slices, lengths and values from there on are one slot further up, and the suffixes of all
  -- other slots are where they were. Everything else that was allocated is as it was.
  pub insert_into_border-Inserted :
      (t : ℕ)
      → Returns
          (λ _ w. Inserted b n s ss x p m w.memory)
          (insert_into_border alone p k x (world m t))
  unfolding insert_into_border
  insert_into_border-Inserted t = Returns-bind (number_of_keys-HasKeys n p m t b at has) (λ r w d.
      rw d.0 (
        subst
          (λ (h : Heap).
            Returns (λ _ w'. Inserted b n s ss x p m w'.memory) (place_it n (world h w.turn)))
          (sym d.1)
          (rw (get_current_slice-HasRest k s ss rest (world m w.turn)) (
            Returns-bind (scan_slices-IsPlace n 0 s.slice p m w.turn b at (omega (arith, has.0)))
              (λ place w' f.
                subst
                  (λ (h : Heap).
                    Returns (λ _ w''. Inserted b n s ss x p m w''.memory)
                      ((move_up alone p (n - place) n >> put_entry alone p place k x)
                        (world h w'.turn)))
                  (sym f.1)
                  (move_and_put place w'.turn
                    (f.0.0, omega (arith, f.0.1), f.0.2, λ h. f.0.3 (omega arith))))))))
