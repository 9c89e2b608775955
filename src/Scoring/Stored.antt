-- ===== src/Scoring/Stored.antt =====
-- `as_factors` of scoring.py: what is stored of a result, and a score that is computed from it.
use chief_opportunity_intell.Scoring.Engine.Laws.{score-dimensions}
use chief_opportunity_intell.Prelude.{
  ℕ, ◌*◌, ◌^◌, ◌≤◌, ◌≡◌, refl, sym, ap, ◌∙◌, Bool, Option, none, some, List, [], ◌∷◌, arith,
}
use chief_opportunity_intell.Prelude.Dict
use mathlib.Core.Path.{fun_ext}
use chief_opportunity_intell.Scoring.Engine.{
  Weights, quantized_option, ScoreResult, score, score_values,
}
use chief_opportunity_intell.Decimal.{min_dec, quantize_up, half_up, Decimal}
use chief_opportunity_intell.Scoring.Dimensions.{
  long_term, network, strategic, probability, number, fit, nothing, dimension_value, Factor,
  supplied, Dimension, clamp_unit, value, time_sensitivity, effort, risk, learning, values_of,
}
use chief_opportunity_intell.Prelude.Dict.{Dict}
use chief_opportunity_intell.Scoring.Weights.{dimensions}

-- `str(v) if v is not None else None`, and `Decimal` of it when it is read.
unfoldable pub stored_factor : Option Decimal → Factor
stored_factor none = nothing
stored_factor (some v) = number v

-- `as_factors()["dimensions"]`
unfoldable pub stored_dimensions : List Dimension → (Dimension → Option Decimal) → Dict Factor
unfolding stored_factor
stored_dimensions [] values = []
stored_dimensions (d ∷ ds) values =
    (dimension_value d, stored_factor (values d)) ∷ stored_dimensions ds values

unfoldable pub stored_factors : ScoreResult → Dict Factor
unfolding stored_dimensions
stored_factors result = stored_dimensions dimensions result.dimensions

pub supplied-stored :
    (values : Dimension → Option Decimal) (d : Dimension)
    → supplied (stored_dimensions dimensions values) d ≡ stored_factor (values d)
unfolding supplied stored_dimensions dimension_value Dict.get
supplied-stored values fit = refl
supplied-stored values value = refl
supplied-stored values probability = refl
supplied-stored values strategic = refl
supplied-stored values time_sensitivity = refl
supplied-stored values learning = refl
supplied-stored values network = refl
supplied-stored values long_term = refl
supplied-stored values effort = refl
supplied-stored values risk = refl

half_up-exact : (k : ℕ) → half_up (k * 10 ^ 4) (10 ^ 4) ≡ k
unfolding half_up
half_up-exact k = ground arith

-- A value in ten thousandths between 0 and 1 is read back as it is.
clamped :
    (v : Option Decimal)
    → ((w : Decimal) → v ≡ some w → (w.coeff ≤ 10000) × (w.scale ≡ 4))
    → clamp_unit (stored_factor v) ≡ v
unfolding clamp_unit stored_factor min_dec
clamped none h = refl
clamped (some w) h = let (le, scale) = h w refl in ground arith

requantized :
    (v : Option Decimal)
    → ((w : Decimal) → v ≡ some w → (w.coeff ≤ 10000) × (w.scale ≡ 4))
    → quantized_option v ≡ v
unfolding quantized_option quantize_up
requantized none h = refl
requantized (some w) h =
    let (le, scale) = h w refl in rw (scale, half_up-exact w.coeff) (rw (← scale) refl)

quantized-scale : (v : Option Decimal) (w : Decimal) → quantized_option v ≡ some w → w.scale ≡ 4
unfolding quantized_option quantize_up
quantized-scale none w h = ground arith
quantized-scale (some v) w h = ground arith

-- The dimensions of a result are numbers of ten thousandths.
stored-unit :
    (factors : Dict Factor) (weights : Weights) (eligible : Option Bool) (d : Dimension)
    (w : Decimal)
    → (score factors weights eligible).dimensions d ≡ some w
    → (w.coeff ≤ 10000) × (w.scale ≡ 4)
unfolding score score_values
stored-unit factors weights eligible d w h =
    (score-dimensions factors weights eligible d w h, quantized-scale (values_of factors d) w h)

-- What is read back from a result's factors are the result's dimensions.
values_of-stored :
    (factors : Dict Factor) (weights : Weights) (eligible : Option Bool)
    → values_of (stored_factors (score factors weights eligible))
      ≡ (score factors weights eligible).dimensions
unfolding values_of stored_factors
values_of-stored factors weights eligible = fun_ext (λ d.
    ap clamp_unit (supplied-stored (score factors weights eligible).dimensions d)
    ∙ clamped _ (stored-unit factors weights eligible d))

score-stored :
    (factors : Dict Factor) (weights : Weights) (eligible verdict : Option Bool)
    → score (stored_factors (score factors weights eligible)) weights verdict
      ≡ score_values (score factors weights eligible).dimensions weights verdict
unfolding score
score-stored factors weights eligible verdict =
    ap (λ values. score_values values weights verdict) (values_of-stored factors weights eligible)

score_values-dimensions :
    (factors : Dict Factor) (weights : Weights) (eligible verdict : Option Bool)
    → (score_values (score factors weights eligible).dimensions weights verdict).dimensions
      ≡ (score factors weights eligible).dimensions
unfolding score_values
score_values-dimensions factors weights eligible verdict =
    fun_ext (λ d. requantized _ (stored-unit factors weights eligible d))

-- A score that is computed from the factors that a result is stored with has the dimensions of that
-- result, and is what its own stored factors give again.
pub score-stored_again :
    (factors : Dict Factor) (weights : Weights) (eligible verdict : Option Bool)
    (again : ScoreResult)
    → score (stored_factors (score factors weights eligible)) weights verdict ≡ again
    → (again.dimensions ≡ (score factors weights eligible).dimensions)
      × (score (stored_factors again) weights verdict ≡ again)
unfolding stored_factors
score-stored_again factors weights eligible verdict again h =
    let first = score factors weights eligible in
    let same : again.dimensions ≡ first.dimensions =
      ap (λ r. r.dimensions) (sym h ∙ score-stored factors weights eligible verdict)
      ∙ score_values-dimensions factors weights eligible verdict in
    (same, ap (λ values. score (stored_dimensions dimensions values) weights verdict) same ∙ h)
