-- ===== src/Scoring/Engine.antt =====
-- `score` of scoring.py, but for the explanation texts. A mapping over known dimensions is the list
-- of its items, in the order of `BENEFIT_DIMENSIONS`.
pub mod Laws
use chief_opportunity_intell.Prelude.{
  ℕ, ◌+◌, ◌-◌, ◌*◌, String, Bool, true, false, Option, none, some, List, [], ◌∷◌, map, str_eq,
  if◌then◌else◌, select,
}
use chief_opportunity_intell.Prelude.Dict.{Dict}
use chief_opportunity_intell.Enums.{Recommendation}
use chief_opportunity_intell.Decimal.{
  Decimal, zero_dec, one_dec, hundred_dec, add, mul, div, lt_dec, min_dec, quantize_up, sum_dec,
}
use chief_opportunity_intell.Scoring.Dimensions.{
  dimension_value, Dimension, effort, risk, benefit_dimensions, Factor, values_of,
}
use chief_opportunity_intell.Scoring.Verdict.{recommend}

-- `Weights`: the benefit weights and the two cost coefficients.
pub record Weights : Type 0 where
  pub version : String
  pub benefit : List (Dimension × Decimal)
  pub effort : Decimal
  pub risk : Decimal

-- The value under a dimension, in a mapping over dimensions.
unfoldable pub value_at : List (Dimension × Decimal) → Dimension → Option Decimal
value_at [] d = none
value_at ((e, v) ∷ items) d =
    if str_eq (dimension_value e) (dimension_value d) then some v else value_at items d

-- `weights.benefit[d]`; `__post_init__` refuses a vector that lacks a dimension.
unfoldable pub benefit_of : Weights → Dimension → Decimal
unfolding value_at
benefit_of weights d = elim (value_at weights.benefit d) [ none ↦ zero_dec | some w ↦ w ]

pub record ScoreResult : Type 0 where
  pub overall : Decimal
  pub confidence : Decimal
  pub recommendation : Recommendation
  pub weights_version : String
  pub engine_version : String
  pub dimensions : Dimension → Option Decimal
  pub effective_weights : List (Dimension × Decimal)
  pub contributions : List (Dimension × Decimal)
  pub benefit : Decimal
  pub cost : Decimal

-- `ENGINE_VERSION`
abbrev pub engine_version : String
engine_version = "0.2.0"

abbrev pub is_known : Option Decimal → Bool
is_known none = false
is_known (some _) = true

-- `value or ZERO`
abbrev pub or_zero : Option Decimal → Decimal
or_zero none = zero_dec
or_zero (some d) = d

-- `known`
unfoldable pub known_of : (Dimension → Option Decimal) → List Dimension
known_of values = select (λ d. is_known (values d)) benefit_dimensions

-- The loop over the known dimensions, which fills `effective` with the redistributed weights.
unfoldable pub shares_of : Weights → Decimal → List Dimension → List (Dimension × Decimal)
shares_of weights known_weight = map (λ d. (d, div (benefit_of weights d) known_weight))

unfoldable pub effective_of : Weights → Decimal → List Dimension → List (Dimension × Decimal)
unfolding shares_of
effective_of weights known_weight known =
    if lt_dec zero_dec known_weight then shares_of weights known_weight known else []

unfoldable pub contributions_of :
    (Dimension → Option Decimal) → List (Dimension × Decimal) → List (Dimension × Decimal)
contributions_of values = map (λ (d, share). (d, mul share (or_zero (values d))))

-- `ONE + weights.effort * effort + weights.risk * risk`
unfoldable pub cost_of : Weights → (Dimension → Option Decimal) → Decimal
cost_of weights values =
    add (add one_dec (mul weights.effort (or_zero (values effort))))
      (mul weights.risk (or_zero (values risk)))

unfoldable pub overall_of : Decimal → Decimal → Decimal
overall_of benefit cost =
    let raw = if lt_dec zero_dec cost then div (mul hundred_dec benefit) cost else zero_dec in
    quantize_up (min_dec raw hundred_dec) 2

-- `known_total += weight` where the cost dimension is known.
unfoldable pub plus_known : Option Decimal → Decimal → Decimal → Decimal
plus_known none weight total = total
plus_known (some _) weight total = add total weight

unfoldable pub confidence_of : Weights → (Dimension → Option Decimal) → Decimal → Decimal
unfolding plus_known
confidence_of weights values known_weight =
    let total = add (add one_dec weights.effort) weights.risk in
    let known_total =
      plus_known (values risk) weights.risk
        (plus_known (values effort) weights.effort known_weight) in
    quantize_up (div known_total total) 4

-- `{d: x.quantize(...) for d, x in items}`
unfoldable pub quantized : ℕ → List (Dimension × Decimal) → List (Dimension × Decimal)
quantized p = map (λ (d, x). (d, quantize_up x p))

unfoldable pub quantized_option : Option Decimal → Option Decimal
quantized_option none = none
quantized_option (some v) = some (quantize_up v 4)

-- `score`, from `values` on.
unfoldable pub score_values : (Dimension → Option Decimal) → Weights → Option Bool → ScoreResult
score_values values weights eligible =
    let known = known_of values in
    let known_weight = sum_dec zero_dec (map (benefit_of weights) known) in
    let effective = effective_of weights known_weight known in
    let contributions = contributions_of values effective in
    let benefit = sum_dec zero_dec (map (λ (d, c). c) contributions) in
    let cost = cost_of weights values in
    let overall = overall_of benefit cost in
    let confidence = confidence_of weights values known_weight in
    record {
      overall = overall;
      confidence = confidence;
      recommendation = recommend overall confidence eligible;
      weights_version = weights.version;
      engine_version = engine_version;
      dimensions = λ d. quantized_option (values d);
      effective_weights = quantized 6 effective;
      contributions = quantized 4 contributions;
      benefit = quantize_up benefit 4;
      cost = quantize_up cost 4;
    }

unfoldable pub score : Dict Factor → Weights → Option Bool → ScoreResult
unfolding score_values values_of
score factors weights eligible = score_values (values_of factors) weights eligible
