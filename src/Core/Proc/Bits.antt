-- ===== src/Core/Proc/Bits.antt =====
-- The bits of `canrun` of src/core/arax_proc.c.
use native.Mathlib.Nat.{
  add-zero, add-suc, mul-one, pow-suc, mul_assoc, one-le-pow, add-div_right, add-mul-div_left,
  div-div-eq-div-mul,
}
use arax_g_rpc.Prelude.{
  ℕ, zero, suc, ◌+◌, ◌-◌, ◌*◌, ◌/◌, ◌%◌, ◌^◌, ◌<◌, ◌≡◌, ◌∙◌, ap, sym, ◌||◌, ◌==◌, Bool-cases, inl,
  inr, dec_lt, arith,
}
use arax_g_rpc.Core.Proc.{test_bit, set_bit}

pow-add : (i d : ℕ) → 2 ^ (i + d) ≡ 2 ^ i * 2 ^ d
pow-add i zero = ap (λ x. 2 ^ x) (add-zero i) ∙ sym (mul-one (2 ^ i))
pow-add i (suc d) =
    ap (λ x. 2 ^ x) (add-suc i d)
    ∙ pow-suc 2 (i + d)
    ∙ ap (λ x. x * 2) (pow-add i d)
    ∙ mul_assoc (2 ^ i) (2 ^ d) 2
    ∙ ap (λ x. 2 ^ i * x) (sym (pow-suc 2 d))

pow-pos : (i : ℕ) → 0 < 2 ^ i
pow-pos i = one-le-pow i 2 (omega arith)

-- 2 to the power of a larger number, as a multiple.
pow-over : (i j : ℕ) → i < j → 2 ^ j ≡ 2 ^ i * (2 * 2 ^ (j - i - 1))
pow-over i j h =
    ap (λ x. 2 ^ x) same
    ∙ pow-add i (suc (j - i - 1))
    ∙ ap (λ x. 2 ^ i * x) (pow-suc 2 (j - i - 1) ∙ omega arith)
  where
    same : j ≡ i + suc (j - i - 1)
    same = omega (arith, h)

set_self : (n i : ℕ) → n / 2 ^ i % 2 ≡ 0 → (n + 2 ^ i) / 2 ^ i % 2 ≡ 1
set_self n i z = omega (arith, z, add-div_right n (pow-pos i))

set_below : (n i j : ℕ) → j < i → (n + 2 ^ i) / 2 ^ j % 2 ≡ n / 2 ^ j % 2
set_below n i j h =
    ap (λ x. (n + x) / 2 ^ j % 2) (pow-over j i h)
    ∙ ap (λ x. x % 2) (add-mul-div_left n (2 * 2 ^ (i - j - 1)) (pow-pos j))
    ∙ omega arith

over : (n i j : ℕ) → i < j → n / 2 ^ j ≡ n / 2 ^ i / 2 / 2 ^ (j - i - 1)
over n i j h =
    ap (λ x. n / x) (pow-over i j h)
    ∙ sym (div-div-eq-div-mul n (2 ^ i) (2 * 2 ^ (j - i - 1)))
    ∙ sym (div-div-eq-div-mul (n / 2 ^ i) 2 (2 ^ (j - i - 1)))

set_above : (n i j : ℕ) → i < j → n / 2 ^ i % 2 ≡ 0 → (n + 2 ^ i) / 2 ^ j % 2 ≡ n / 2 ^ j % 2
set_above n i j h z =
    ap (λ x. x % 2)
      (over (n + 2 ^ i) i j h ∙ ap (λ x. x / 2 ^ (j - i - 1)) (half) ∙ sym (over n i j h))
  where
    half : (n + 2 ^ i) / 2 ^ i / 2 ≡ n / 2 ^ i / 2
    half = ap (λ x. x / 2) (add-div_right n (pow-pos i)) ∙ omega (arith, z)

-- A bit that is set, and no other.
pub test_bit-set_bit : (n i j : ℕ) → test_bit (set_bit n i) j ≡ (j == i) || test_bit n j
test_bit-set_bit n i j = elim (Bool-cases (test_bit n i)) [
  | inl t ↦ elim (Bool-cases (j == i)) [
    | inl e ↦ let q : j ≡ i = ground (arith, e) in rw q (ground (arith, t))
    | inr e ↦ ground (arith, t, e)
  ]
  | inr t ↦
      let z : n / 2 ^ i % 2 ≡ 0 = ground (arith, t) in
      elim (dec_lt j i) [
        | yes b ↦ ground (arith, t, set_below n i j b)
        | no b ↦ elim (dec_lt i j) [
          | yes a ↦ ground (arith, t, set_above n i j a z)
          | no a ↦ let q : j ≡ i = omega (arith, a, b) in rw q (ground (arith, t, set_self n i z))
        ]
      ]
]
