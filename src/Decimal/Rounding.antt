-- ===== src/Decimal/Rounding.antt =====
-- Roundings keep whole bounds.
use native.Mathlib.Nat.{div-add-mod, mul-le-mul_right}
use chief_opportunity_intell.Prelude.{
  ◌+◌, zero, suc, ◌^◌, ℕ, ◌*◌, ◌/◌, ◌%◌, ◌≤◌, ◌<◌, ◌≡◌, inl, inr, arith, ltb, Bool-cases,
}
use chief_opportunity_intell.Decimal.{
  places, dec, div, quantize_even, to_context, half_up, half_even,
}

-- At the bound itself nothing is left to round.
remainder_gone : (num den k : ℕ) → k ≤ num / den → num ≤ k * den → num % den ≡ 0
remainder_gone num den k le h = grind (arith, div-add-mod num den)

quotient-le : (num den k : ℕ) → 0 < den → num ≤ k * den → num / den ≤ k
quotient-le num den k pos h = grind (arith, div-add-mod num den)

-- A quotient of at most `k` rounds to at most `k`, one of at least `k` to at least `k`.
pub half_up-le : (num den k : ℕ) → 0 < den → num ≤ k * den → half_up num den ≤ k
unfolding half_up
half_up-le num den k pos h = elim (Bool-cases (ltb (num / den) k)) [
  | inl below ↦ ground arith
  | inr at_bound ↦
      let gone = remainder_gone num den k (ground arith) h in
      let le = quotient-le num den k pos h in ground arith
]

pub half_even-le : (num den k : ℕ) → 0 < den → num ≤ k * den → half_even num den ≤ k
unfolding half_even
half_even-le num den k pos h = elim (Bool-cases (ltb (num / den) k)) [
  | inl below ↦ ground arith
  | inr at_bound ↦
      let gone = remainder_gone num den k (ground arith) h in
      let le = quotient-le num den k pos h in ground arith
]

pub pos-pow : (k : ℕ) → 0 < 10 ^ k
pos-pow zero = ground arith
pos-pow (suc k) = let ih = pos-pow k in grind arith

to_context-unit :
    (num den : ℕ)
    → 0 < den
    → num ≤ den
    → (to_context num den).coeff ≤ 10 ^ (to_context num den).scale
unfolding to_context
to_context-unit zero den pos le = ground arith
to_context-unit (suc num) den pos le =
    let p = places (28 + den) (suc num) den in
    half_even-le (suc num * 10 ^ p) den (10 ^ p) pos (grind (arith, mul-le-mul_right (10 ^ p) le))

-- A whole quotient of at most one is at most one when it is rounded.
pub quantize_even-unit :
    (a b p : ℕ) → 0 < b → a ≤ b → (quantize_even (div (dec a 0) (dec b 0)) p).coeff ≤ 10 ^ p
unfolding quantize_even div
quantize_even-unit a b p pos le =
    let q = to_context (a * 10 ^ 0) (b * 10 ^ 0) in
    let unit = to_context-unit (a * 10 ^ 0) (b * 10 ^ 0) (ground arith) (ground arith) in
    half_even-le (q.coeff * 10 ^ p) (10 ^ q.scale) (10 ^ p) (pos-pow q.scale)
      (grind (arith, mul-le-mul_right (10 ^ p) unit))
