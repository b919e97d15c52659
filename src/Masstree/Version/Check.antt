-- ===== src/Masstree/Version/Check.antt =====
-- What masstree/'s test for a changed version sees.
use Prim.Native.Nat.{digits, differ, bit_xor, bit_xor-bitwise}
use transaction_system.Base.{
  ℕ, zero, suc, ◌+◌, ◌*◌, ◌/◌, ◌%◌, ◌^◌, ◌≤◌, ◌<◌, ◌≡◌, refl, sym, ap, ◌∙◌, Bool, true, false,
  arith,
}
use transaction_system.Masstree.Version.{Version, bit, low_body, body, unchanged}

-- 2 to the k, and the number without its k lowest bits.
power : ℕ → ℕ
power zero = 1
power (suc k) = 2 * power k

above : ℕ → ℕ → ℕ
above zero a = a
above (suc k) a = above k (a / 2)

above-below : (k a : ℕ) → a < power k → above k a ≡ 0
unfolding power above
above-below zero a h = omega arith
above-below (suc k) a h = above-below k (a / 2) (omega arith)

above-power : (k a : ℕ) → a < power k → above k (a + power k) ≡ 1
unfolding power above
above-power zero a h = omega arith
above-power (suc k) a h =
    let e : (a + 2 * power k) / 2 ≡ a / 2 + power k = omega arith in
    ap (above k) e ∙ above-power k (a / 2) (omega arith)

below-above : (k a : ℕ) → above k a ≡ 0 → a < power k
unfolding power above
below-above zero a h = omega arith
below-above (suc k) a h = omega (arith, below-above k (a / 2) h)

differ_self : (a : ℕ) → differ a a ≡ 0
differ_self zero = refl
differ_self (suc a) = differ_self a

differ_bit : (a b : ℕ) → a < 2 → b < 2 → differ a b < 2
differ_bit zero b ha hb = hb
differ_bit (suc zero) zero ha hb = omega arith
differ_bit (suc zero) (suc zero) ha hb = omega arith
differ_bit (suc zero) (suc (suc b)) ha hb = absurd (omega arith)
differ_bit (suc (suc a)) b ha hb = absurd (omega arith)

above-zero : (k : ℕ) → above k 0 ≡ 0
unfolding above
above-zero zero = refl
above-zero (suc k) = above-zero k

-- Numbers that agree above their k lowest bits differ in these at most.
digits-bound :
    (n a b k : ℕ) → a ≤ n → above k a ≡ above k b → digits (λ c. c) differ n a b < power k
unfolding power above
digits-bound zero zero b k h e = below-above k b (sym e ∙ above-zero k)
digits-bound zero (suc a) b k h e = absurd (omega arith)
digits-bound (suc n) zero b k h e = below-above k b (sym e ∙ above-zero k)
digits-bound (suc n) (suc a) b zero h e =
    let half : suc a / 2 ≡ b / 2 = omega arith in
    let same : differ (suc a % 2) (b % 2) ≡ 0 =
      ap (differ (suc a % 2)) (omega arith) ∙ differ_self (suc a % 2) in
    omega (arith, digits-bound n (suc a / 2) (b / 2) zero (omega arith) half)
digits-bound (suc n) (suc a) b (suc k) h e = omega (
  arith,
  digits-bound n (suc a / 2) (b / 2) k (omega arith) e,
  differ_bit (suc a % 2) (b % 2) (omega arith) (omega arith),
)

-- The counters stay within their bit fields.
abbrev pub IsWord : Version → Type 0
IsWord v = (v.v_split < 2 ^ 16) × (v.v_insert < 2 ^ 8)

bit-le : (b : Bool) → bit b ≤ 1
bit-le true = omega arith
bit-le false = omega arith

low_body-lt : (v : Version) → IsWord v → low_body v < power 31
unfolding low_body power
low_body-lt v (split, insert) = omega (
  arith,
  bit-le v.is_border,
  bit-le v.is_root,
  bit-le v.deleted,
  bit-le v.splitting,
  bit-le v.inserting,
)

power_31 : power 31 ≡ 2 ^ 31
unfolding power
power_31 = refl

add_bit : (b : Bool) (a : ℕ) → a < power 31 → above 31 (a + bit b * 2 ^ 31) ≡ bit b
add_bit true a h = ap (λ n. above 31 (a + n)) (sym power_31) ∙ above-power 31 a h
add_bit false a h = ap (above 31) (omega arith) ∙ above-below 31 a h

above-body : (v : Version) → IsWord v → above 31 (body v) ≡ bit v.locked
unfolding body
above-body v is_word = add_bit v.locked (low_body v) (low_body-lt v is_word)

-- Whatever else changed: where the lock bits of two versions are alike, the readers take the node for
-- unchanged.
pub unchanged-locked_alike :
    (now before : Version)
    → IsWord now
    → IsWord before
    → now.locked ≡ before.locked
    → unchanged now before ≡ true
unfolding unchanged
unchanged-locked_alike now before is_now is_before alike =
    let e : above 31 (body now) ≡ above 31 (body before) =
      above-body now is_now ∙ ap bit alike ∙ sym (above-body before is_before) in
    let lt : bit_xor (body now) (body before) < power 31 =
      rw (bit_xor-bitwise (body now) (body before))
        (digits-bound (body now) (body now) (body before) 31 (omega arith) e) in
    ground (arith, lt, power_31)
