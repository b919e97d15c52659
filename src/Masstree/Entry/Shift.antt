-- ===== src/Masstree/Entry/Shift.antt =====
-- masstree/bptree.h: the loops of insert_into_border, with no other thread about.
use transaction_system.Base.{
  ℕ, zero, suc, ◌+◌, ◌-◌, ◌≤◌, ◌<◌, ◌≡◌, inl, inr, refl, sym, ap, ◌∙◌, arith, update, ◌==◌, ==_iff,
  ltb, leb, ◌&&◌, if◌then◌else◌, Bool-cases, lt→ltb, le→ltb, ltb→lt,
}
use mathlib.Core.Path.{fun_ext, subst}
use transaction_system.Base.Run.{Returns, returns, Returns-mono}
use transaction_system.Masstree.Heap.{Heap, Addr, Object, BorderNode, border}
use transaction_system.Masstree.Alone.{alone, world, put, put_self, put-put}
use transaction_system.Masstree.Entry.{count_keys, number_of_keys, scan_slices, move_up}
use transaction_system.Masstree.Entry.Stores.{
  load_slice-ok, load_len-ok, load_lv-ok, store_len-ok, store_slice-put, store_lv-put,
}

-- An array whose entries from `low` up to below `high` moved up by one, the entry at `low` left.
abbrev pub shifted : (ℕ → ℕ) → (low high : ℕ) → ℕ → ℕ
shifted f low high j = if ltb low j && leb j high then f (j - 1) else f j

abbrev pub shift_node : BorderNode → (low high : ℕ) → BorderNode
shift_node b low high = record b {
  key_len = shifted b.key_len low high;
  key_slice = shifted b.key_slice low high;
  lv = shifted b.lv low high;
}

shifted-update :
    (f : ℕ → ℕ) (low i : ℕ)
    → low < i
    → shifted (update f i (f (i - 1))) low (i - 1) ≡ shifted f low i
shifted-update f low i h = fun_ext (λ j. ground arith)

shift_node-none : (b : BorderNode) (i : ℕ) → shift_node b (i - 0) i ≡ b
shift_node-none b i =
    let e : (f : ℕ → ℕ) → shifted f (i - 0) i ≡ f = λ f. fun_ext (λ j. ground arith) in
    λ z. record b { key_len = e b.key_len z; key_slice = e b.key_slice z; lv = e b.lv z }

shift_node-round :
    (b : BorderNode) (n i : ℕ)
    → suc n ≤ i
    → shift_node
        (record b {
          key_len = update b.key_len i (b.key_len (i - 1));
          key_slice = update b.key_slice i (b.key_slice (i - 1));
          lv = update b.lv i (b.lv (i - 1));
        })
        (i - 1 - n)
        (i - 1)
      ≡ shift_node b (i - suc n) i
shift_node-round b n i h =
    let e : (f : ℕ → ℕ)
        → shifted (update f i (f (i - 1))) (i - 1 - n) (i - 1) ≡ shifted f (i - suc n) i =
      λ f. shifted-update f (i - 1 - n) i (omega arith) ∙ ap (λ l. shifted f l i) (omega arith) in
    λ z. record b { key_len = e b.key_len z; key_slice = e b.key_slice z; lv = e b.lv z }

put-same : (p : Addr) (o : Object) (m : Heap) → m.object p ≡ o → put p o m ≡ m
put-same p o m at =
    ap (λ (f : Addr → Object). record m { object = f }) (fun_ext (λ q. ground (arith, ==_iff p q)))

-- The `n` entries below the i-th slot move up by one, the highest first.
pub move_up-shift :
    (n i : ℕ) (p : Addr) (m : Heap) (t : ℕ) (b : BorderNode)
    → m.object p ≡ border b
    → n ≤ i
    → i < 15
    → Returns
        (λ _ w. w.memory ≡ put p (border (shift_node b (i - n) i)) m)
        (move_up alone p n i (world m t))
unfolding move_up
move_up-shift zero i p m t b at low h = returns (
    sym (
      ap (λ (c : BorderNode). put p (border c) m) (shift_node-none b i)
      ∙ put-same p (border b) m at))
move_up-shift (suc n) i p m t b at low h =
    let below : i - 1 < 15 = omega arith in
    let b₁ : BorderNode = record b { key_len = update b.key_len i (b.key_len (i - 1)) } in
    let b₂ : BorderNode = record b₁ { key_slice = update b.key_slice i (b.key_slice (i - 1)) } in
    let b₃ : BorderNode = record b₂ { lv = update b.lv i (b.lv (i - 1)) } in
    let m₁ : Heap = put p (border b₁) m in
    let m₂ : Heap = put p (border b₂) m in
    let m₃ : Heap = put p (border b₃) m in
    rw (load_len-ok p m t b at (i - 1) below) (
      rw (store_len-ok p m (t + 1) i b at h (b.key_len (i - 1))) (
        rw (load_slice-ok p m₁ (t + 1 + 1) b₁ (put_self p (border b₁) m) (i - 1) below) (
          rw (store_slice-put p m (t + 1 + 1 + 1) i b₁ h (b.key_slice (i - 1))) (
            rw (load_lv-ok p m₂ (t + 1 + 1 + 1 + 1) b₂ (put_self p (border b₂) m) (i - 1) below) (
              rw (store_lv-put p m (t + 1 + 1 + 1 + 1 + 1) i b₂ h (b.lv (i - 1))) (
                Returns-mono
                  (move_up-shift n (i - 1) p m₃ (t + 1 + 1 + 1 + 1 + 1 + 1) b₃
                    (put_self p (border b₃) m) (omega arith) below)
                  (λ u w d.
                    d
                    ∙ put-put p (border b₃) (border (shift_node b₃ (i - 1 - n) (i - 1))) m
                    ∙ ap (λ (c : BorderNode). put p (border c) m)
                        (shift_node-round b n i low))))))))

-- The first `n` slots are in use and the next one is free.
abbrev pub HasKeys : BorderNode → ℕ → Type 0
HasKeys b n = (n < 15) × ((j : ℕ) → j < n → 0 < b.key_len j) × (b.key_len n ≡ 0)

count_keys-HasKeys :
    (rest i n : ℕ) (p : Addr) (m : Heap) (t : ℕ) (b : BorderNode)
    → m.object p ≡ border b
    → HasKeys b n
    → i ≤ n
    → n < i + rest
    → i + rest ≤ 15
    → Returns (λ r w. (r ≡ n) × (w.memory ≡ m)) (count_keys alone p rest i (world m t))
unfolding count_keys
count_keys-HasKeys zero i n p m t b at has low high top = absurd (omega arith)
count_keys-HasKeys (suc rest) i n p m t b at has low high top =
    rw (load_len-ok p m t b at i (omega arith)) (elim (Bool-cases (ltb i n)) [
      | inl used ↦ rw (lt→ltb 0 (b.key_len i) (has.1 i (ltb→lt i n used))) (
          count_keys-HasKeys rest (i + 1) n p m (t + 1) b at has (ground arith) (omega arith)
            (omega arith))
      | inr free ↦
          let e : i ≡ n = ground arith in
          rw (le→ltb 0 (b.key_len i) (free_slot e)) (returns (e, refl))
    ])
  where
    free_slot : i ≡ n → b.key_len i ≤ 0
    free_slot e = omega (arith, ap b.key_len e, has.2)

pub number_of_keys-HasKeys :
    (n : ℕ) (p : Addr) (m : Heap) (t : ℕ) (b : BorderNode)
    → m.object p ≡ border b
    → HasKeys b n
    → Returns (λ r w. (r ≡ n) × (w.memory ≡ m)) (number_of_keys alone p (world m t))
unfolding number_of_keys
number_of_keys-HasKeys n p m t b at has =
    count_keys-HasKeys 15 0 n p m t b at has (omega arith) (omega (arith, has.0)) (omega arith)

-- From the i-th slot on, `r` is the first slot whose slice is not less than `slice`, or `top`.
abbrev pub IsPlace : BorderNode → ℕ → (i top r : ℕ) → Type 0
IsPlace b slice i top r =
    (i ≤ r)
    × (r ≤ top)
    × ((j : ℕ) → i ≤ j → j < r → b.key_slice j < slice)
    × (r < top → slice ≤ b.key_slice r)

pub scan_slices-IsPlace :
    (n i slice : ℕ) (p : Addr) (m : Heap) (t : ℕ) (b : BorderNode)
    → m.object p ≡ border b
    → i + n ≤ 15
    → Returns
        (λ r w. IsPlace b slice i (i + n) r × (w.memory ≡ m))
        (scan_slices alone p slice n i (world m t))
unfolding scan_slices
scan_slices-IsPlace zero i slice p m t b at top = returns (
  (omega arith, omega arith, λ j low high. absurd (omega arith), λ h. absurd (omega arith)),
  refl,
)
scan_slices-IsPlace (suc n) i slice p m t b at top =
    rw (load_slice-ok p m t b at i (omega arith)) (elim (Bool-cases (ltb (b.key_slice i) slice)) [
      | inl less ↦ rw less (
          Returns-mono (scan_slices-IsPlace n (i + 1) slice p m (t + 1) b at (omega arith))
            (λ r w d. (
              (
                omega (arith, d.0.0),
                omega (arith, d.0.1),
                λ j low high. elim (Bool-cases (j == i)) [
                  | inl e ↦
                      subst (λ z. b.key_slice z < slice) (sym ((==_iff j i).0 e))
                        (ltb→lt (b.key_slice i) slice less)
                  | inr ne ↦ d.0.2 j (ground arith) high
                ],
                λ h. d.0.3 (omega arith),
              ),
              d.1,
            )))
      | inr more ↦ rw more (
          returns (
            (omega arith, omega arith, λ j low high. absurd (omega arith), λ h. ground arith),
            refl,
          ))
    ])
