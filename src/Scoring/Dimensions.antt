-- ===== src/Scoring/Dimensions.antt =====
-- The dimensions of scoring.py, and what a supplied factor counts as.
use chief_opportunity_intell.Prelude.{String, Option, none, some, List, [], ◌∷◌}
use chief_opportunity_intell.Prelude.Dict
use chief_opportunity_intell.Prelude.Dict.{Dict}
use chief_opportunity_intell.Decimal.{Decimal, zero_dec, one_dec, min_dec}

pub data Dimension : Type 0 where
  fit value probability strategic time_sensitivity learning network long_term effort risk :
      Dimension

-- `Dimension(...).value`, the column names of `opportunity_scores`.
unfoldable pub dimension_value : Dimension → String
dimension_value fit = "fit_score"
dimension_value value = "value_score"
dimension_value probability = "probability_of_success"
dimension_value strategic = "strategic_value"
dimension_value time_sensitivity = "time_sensitivity"
dimension_value learning = "learning_value"
dimension_value network = "network_value"
dimension_value long_term = "long_term_value"
dimension_value effort = "effort_score"
dimension_value risk = "risk_score"

-- `BENEFIT_DIMENSIONS`
abbrev pub benefit_dimensions : List Dimension
benefit_dimensions =
    fit ∷ value ∷ probability ∷ strategic ∷ time_sensitivity ∷ learning ∷ network ∷ long_term ∷ []

-- What a factor may be: `None`, a `bool`, something that is no number, NaN or an infinity, a number
-- below zero, or a number that is not.
pub data Factor : Type 0 where
  nothing boolean not_a_number not_finite negative : Factor
  number : Decimal → Factor

-- `_clamp_unit`
unfoldable pub clamp_unit : Factor → Option Decimal
clamp_unit (number d) = some (min_dec d one_dec)
clamp_unit negative = some zero_dec
clamp_unit _ = none

-- `supplied.get(d.value)`: the factors under the dimensions' names.
unfoldable pub supplied : Dict Factor → Dimension → Factor
supplied factors d = elim (Dict.get factors (dimension_value d)) [ none ↦ nothing | some f ↦ f ]

-- `values`
unfoldable pub values_of : Dict Factor → Dimension → Option Decimal
unfolding supplied clamp_unit
values_of factors d = clamp_unit (supplied factors d)
