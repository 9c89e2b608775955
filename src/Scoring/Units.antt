-- ===== src/Scoring/Units.antt =====
-- The factors that are derived from a row lie between 0 and 1.
use native.Mathlib.Nat.{mul-le-mul_right}
use chief_opportunity_intell.Urgency.Clock.{time_sensitivity-le}
use chief_opportunity_intell.Decimal.Rounding.{half_even-le, pos-pow}
use chief_opportunity_intell.Scoring.Engine.Laws.{min_dec-le}
use chief_opportunity_intell.Decimal.{le_dec, Decimal, quantize_even, min_dec, one_dec, div, dec}
use chief_opportunity_intell.Scoring.Dimensions.{
  Dimension, value, fit, probability, strategic, learning, network, long_term, effort, risk,
}
use chief_opportunity_intell.Prelude.{
  ℕ, ◌^◌, ◌≤◌, ◌≡◌, inl, inr, Bool, true, false, ◌&&◌, ◌||◌, Option, none, some, arith, ◌==◌,
  if◌then◌else◌, Bool-cases,
}
use chief_opportunity_intell.Scoring.Factors.{
  UserProfile, derived_value, Posting, coverage_of, urgency_of, compensation_value, offer_value,
  skill_fit, compare_offer, derive, is_empty, differs, or_amount,
}
use chief_opportunity_intell.Urgency.{Days}

quantize_even-capped : (x : Decimal) (p : ℕ) → (quantize_even (min_dec x one_dec) p).coeff ≤ 10 ^ p
unfolding quantize_even
quantize_even-capped x p =
    let m = min_dec x one_dec in
    let le = min_dec-le x one_dec in
    let scaled = mul-le-mul_right (10 ^ p) le in
    half_even-le _ _ (10 ^ p) (pos-pow m.scale) (grind arith)

-- A value between 0 and 1.
abbrev IsUnit : Decimal → Type 0
IsUnit v = v.coeff ≤ 10 ^ v.scale

quantize_even-IsUnit : (x : Decimal) → IsUnit (quantize_even (min_dec x one_dec) 4)
unfolding quantize_even
quantize_even-IsUnit x = quantize_even-capped x 4

offer_value-IsUnit : (offered floor ceiling : Decimal) → IsUnit (offer_value offered floor ceiling)
unfolding offer_value
offer_value-IsUnit offered floor ceiling = elim (Bool-cases (le_dec ceiling offered)) [
  | inl reached ↦ rw reached (ground arith)
  | inr short ↦ elim (Bool-cases (le_dec offered (div floor (dec 2 0)))) [
    | inl far ↦ rw (short, far) (ground arith)
    | inr near ↦ elim (Bool-cases (le_dec ceiling (div floor (dec 2 0)))) [
      | inl degenerate ↦ rw (short, near, degenerate) (ground arith)
      | inr ranged ↦ rw (short, near, ranged) (quantize_even-IsUnit _)
    ]
  ]
]

none-some : (v : Decimal) → none ≡ some v → ⊥
none-some v h = ground arith

some-IsUnit : (w v : Decimal) → IsUnit w → some w ≡ some v → IsUnit v
some-IsUnit w v unit h = let same : w ≡ v = ground arith in rw (← same) unit

guarded-IsUnit :
    (absent : Bool) (o : Option Decimal) (v : Decimal)
    → ((w : Decimal) → o ≡ some w → IsUnit w)
    → (if absent then none else o) ≡ some v
    → IsUnit v
guarded-IsUnit true o v unit h = absurd (none-some v h)
guarded-IsUnit false o v unit h = unit v h

compare_offer-IsUnit :
    (offered floor ceiling : Option Decimal) (v : Decimal)
    → compare_offer offered floor ceiling ≡ some v
    → IsUnit v
unfolding compare_offer
compare_offer-IsUnit (some offered) (some floor) (some ceiling) v h =
    guarded-IsUnit (floor.coeff == 0) _ v
      (λ w same. some-IsUnit _ w (offer_value-IsUnit offered floor ceiling) same) h
compare_offer-IsUnit none floor ceiling v h = absurd (none-some v h)
compare_offer-IsUnit (some offered) none ceiling v h = absurd (none-some v h)
compare_offer-IsUnit (some offered) (some floor) none v h = absurd (none-some v h)

coverage_of-IsUnit : (hit total : Decimal) → IsUnit (coverage_of hit total)
unfolding coverage_of
coverage_of-IsUnit hit total = quantize_even-IsUnit _

skill_fit-IsUnit :
    (posting : Posting) (profile : Option UserProfile) (v : Decimal)
    → skill_fit posting profile ≡ some v
    → IsUnit v
unfolding skill_fit
skill_fit-IsUnit posting none v h = absurd (none-some v h)
skill_fit-IsUnit posting (some profile) v h =
    elim (Bool-cases (
      is_empty profile.skills
      || (is_empty posting.required_skills && is_empty posting.preferred_skills))) [
        | inl absent ↦ absurd (none-some v (rw absent at h))
        | inr there ↦ some-IsUnit _ v (coverage_of-IsUnit _ _) (rw there at h)
      ]

compensation_value-IsUnit :
    (posting : Posting) (profile : Option UserProfile) (v : Decimal)
    → compensation_value posting profile ≡ some v
    → IsUnit v
unfolding compensation_value
compensation_value-IsUnit posting none v h = absurd (none-some v h)
compensation_value-IsUnit posting (some profile) v h =
    elim (Bool-cases (differs posting.compensation_currency profile.salary_currency)) [
      | inl other ↦ absurd (none-some v (rw other at h))
      | inr same ↦
          compare_offer-IsUnit (or_amount posting.compensation_max posting.compensation_min) _ _ v
            (rw same at h)
    ]

urgency_of-IsUnit : (days : Option Days) (v : Decimal) → urgency_of days ≡ some v → IsUnit v
unfolding urgency_of
urgency_of-IsUnit none v h = absurd (none-some v h)
urgency_of-IsUnit (some days) v h = some-IsUnit _ v (time_sensitivity-le days) h

-- Every value that is derived is between 0 and 1.
derive-IsUnit :
    (posting : Posting) (profile : Option UserProfile) (now : ℕ) (d : Dimension) (v : Decimal)
    → (derive posting profile now).values d ≡ some v
    → v.coeff ≤ 10 ^ v.scale
unfolding derive derived_value
derive-IsUnit posting profile now fit v h = skill_fit-IsUnit posting profile v h
derive-IsUnit posting profile now value v h = compensation_value-IsUnit posting profile v h
derive-IsUnit posting profile now Dimension.time_sensitivity v h = urgency_of-IsUnit _ v h
derive-IsUnit posting profile now probability v h = absurd (none-some v h)
derive-IsUnit posting profile now strategic v h = absurd (none-some v h)
derive-IsUnit posting profile now learning v h = absurd (none-some v h)
derive-IsUnit posting profile now network v h = absurd (none-some v h)
derive-IsUnit posting profile now long_term v h = absurd (none-some v h)
derive-IsUnit posting profile now effort v h = absurd (none-some v h)
derive-IsUnit posting profile now risk v h = absurd (none-some v h)
