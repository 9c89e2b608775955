-- ===== src/Scoring/Engine/Laws.antt =====
-- What `score` of scoring.py guarantees of its results.
use mathlib.Core.Path.{fun_ext}
use native.Mathlib.Nat.{mul-le-mul_right}
use chief_opportunity_intell.Prelude.{
  ℕ, ◌*◌, ◌^◌, ◌≤◌, ◌≡◌, refl, ap, inl, inr, Bool, false, Option, none, some, [], map, arith,
  eq_iff, Bool-cases,
}
use chief_opportunity_intell.Scoring.Engine.{
  shares_of, effective_of, contributions_of, known_of, Weights, score_values, quantized_option,
  score,
}
use chief_opportunity_intell.Prelude.Dict
use chief_opportunity_intell.Scoring.Engine.{overall_of}
use chief_opportunity_intell.Decimal.{
  lt_dec, to_context, div, mul, sum_dec, zero_dec, half_up, dec, hundred_dec, Decimal, quantize_up,
  min_dec,
}
use chief_opportunity_intell.Decimal.Rounding.{pos-pow, half_up-le}
use chief_opportunity_intell.Scoring.Dimensions.{
  dimension_value, Dimension, not_finite, not_a_number, values_of, supplied, nothing, negative,
  number, Factor, clamp_unit,
}
use chief_opportunity_intell.Enums.{Recommendation}
use chief_opportunity_intell.Prelude.Dict.{Dict}
use chief_opportunity_intell.Scoring.Verdict.{first_reached, is_false, recommend}

-- min(a, b) is at most b.
pub min_dec-le :
    (a b : Decimal) → (min_dec a b).coeff * 10 ^ b.scale ≤ b.coeff * 10 ^ (min_dec a b).scale
unfolding min_dec
min_dec-le a b = ground arith

-- A value capped by a whole number stays below it when it is rounded to p places.
capped : (a : Decimal) (k p : ℕ) → (quantize_up (min_dec a (dec k 0)) p).coeff ≤ k * 10 ^ p
unfolding quantize_up
capped a k p =
    let m = min_dec a (dec k 0) in
    let le = min_dec-le a (dec k 0) in
    let scaled = mul-le-mul_right (10 ^ p) le in
    half_up-le _ _ (k * 10 ^ p) (pos-pow m.scale) (grind arith)

overall-le :
    (benefit cost : Decimal)
    → ((overall_of benefit cost).coeff ≤ 10000) × ((overall_of benefit cost).scale ≡ 2)
unfolding overall_of quantize_up
overall-le benefit cost = (capped _ 100 2, refl)

-- Whatever the factors and the weights, the overall score is a number of hundredths between 0 and 100.
pub score-bounded :
    (factors : Dict Factor) (weights : Weights) (eligible : Option Bool)
    → ((score factors weights eligible).overall.coeff ≤ 10000)
      × ((score factors weights eligible).overall.scale ≡ 2)
unfolding score score_values
score-bounded factors weights eligible = overall-le _ _

quantized_zero : (quantize_up zero_dec 4).coeff ≤ 10000
unfolding quantize_up half_up
quantized_zero = ground arith

quantized_unit :
    (f : Factor) (v : Decimal) → quantized_option (clamp_unit f) ≡ some v → v.coeff ≤ 10000
unfolding quantized_option clamp_unit
quantized_unit (number d) v h = let le = capped d 1 4 in ground (arith)
quantized_unit negative v h = let le = quantized_zero in ground arith
quantized_unit nothing v h = ground arith
quantized_unit Factor.boolean v h = ground arith
quantized_unit not_a_number v h = ground arith
quantized_unit not_finite v h = ground arith

-- Every dimension of a result that is known is a number of ten thousandths between 0 and 1, whatever
-- was supplied for it.
pub score-dimensions :
    (factors : Dict Factor) (weights : Weights) (eligible : Option Bool) (d : Dimension)
    (v : Decimal)
    → (score factors weights eligible).dimensions d ≡ some v
    → v.coeff ≤ 10000
unfolding score score_values values_of
score-dimensions factors weights eligible d v h = quantized_unit (supplied factors d) v h

-- Denying eligibility changes the verdict to INELIGIBLE and nothing else: every number, weight and
-- version of the result is what it is for a user who may apply.
pub score-ineligible :
    (factors : Dict Factor) (weights : Weights) (eligible : Option Bool)
    → (score factors weights (some false)
        ≡ record (score factors weights eligible) { recommendation = Recommendation.ineligible })
unfolding score score_values recommend
score-ineligible factors weights eligible = refl

supplied-put :
    (factors : Dict Factor) (d e : Dimension)
    → Dict.get factors (dimension_value d) ≡ none
    → supplied (Dict.put factors (dimension_value d) nothing) e ≡ supplied factors e
unfolding supplied
supplied-put factors d e h =
    let step = Dict.get-put factors (dimension_value d) (dimension_value e) nothing in
    ground (arith, step, eq_iff (dimension_value d) (dimension_value e))

-- A dimension that is left out counts as one given as None: adding the entry changes nothing of the
-- result.
pub score-missing :
    (factors : Dict Factor) (weights : Weights) (eligible : Option Bool) (d : Dimension)
    → Dict.get factors (dimension_value d) ≡ none
    → score (Dict.put factors (dimension_value d) nothing) weights eligible
      ≡ score factors weights eligible
unfolding score values_of
score-missing factors weights eligible d h =
    ap (λ values. score_values values weights eligible)
      (fun_ext (λ e. ap clamp_unit (supplied-put factors d e h)))

div-nothing : (b : Decimal) → div zero_dec b ≡ zero_dec
unfolding div to_context
div-nothing b = let gone : 0 * 10 ^ b.scale ≡ 0 = grind arith in rw (gone) refl

hundred-nothing : mul hundred_dec zero_dec ≡ zero_dec
unfolding mul to_context
hundred-nothing = refl

quantized_min : quantize_up (min_dec zero_dec hundred_dec) 2 ≡ dec 0 2
unfolding quantize_up min_dec half_up
quantized_min = refl

overall-nothing : (cost : Decimal) → overall_of zero_dec cost ≡ dec 0 2
unfolding overall_of
overall-nothing cost = elim (Bool-cases (lt_dec zero_dec cost)) [
  | inl above ↦ rw (above, hundred-nothing, div-nothing, quantized_min) refl
  | inr not_above ↦ rw (not_above, quantized_min) refl
]

benefit-nothing :
    (weights : Weights) (values : Dimension → Option Decimal) (w : Decimal)
    → sum_dec zero_dec (map (λ (d, c). c) (contributions_of values (effective_of weights w [])))
      ≡ zero_dec
unfolding sum_dec contributions_of effective_of shares_of
benefit-nothing weights values w = ground arith

recommend-nothing :
    (confidence : Decimal) (eligible : Option Bool)
    → is_false eligible ≡ false
    → recommend (dec 0 2) confidence eligible ≡ Recommendation.ignore
unfolding recommend first_reached
recommend-nothing confidence eligible h = ground arith

-- Where no benefit dimension is known, whatever the costs, the score is 0 and the verdict is IGNORE,
-- unless eligibility was denied.
pub score-unknown :
    (factors : Dict Factor) (weights : Weights) (eligible : Option Bool)
    → known_of (values_of factors) ≡ []
    → is_false eligible ≡ false
    → ((score factors weights eligible).overall ≡ dec 0 2)
      × ((score factors weights eligible).recommendation ≡ Recommendation.ignore)
unfolding score score_values
score-unknown factors weights eligible unknown open_to =
    rw (unknown, benefit-nothing weights (values_of factors) _, overall-nothing)
      (refl, recommend-nothing _ eligible open_to)
