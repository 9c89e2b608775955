-- ===== src/Scoring/Weights.antt =====
-- `Weights` of scoring.py: the checks of `__post_init__`, `build`, `with_override` and the default
-- profiles.
pub mod Profiles
pub mod Sums
pub mod Overrides
use chief_opportunity_intell.Prelude.{
  ℕ, zero, ◌+◌, ◌-◌, ◌^◌, max, String, Bool, true, false, not, ◌&&◌, ◌||◌, Option, none, some, List,
  [], ◌∷◌, ◌++◌, map, str_eq, leb, if◌then◌else◌, Result, ok, err, ◌>>=◌, ◌>>◌, raise_if,
}
use chief_opportunity_intell.Scoring.Dimensions.{
  risk, effort, number, benefit_dimensions, dimension_value, Dimension, Factor,
}
use chief_opportunity_intell.Decimal.{
  div, le_dec, zero_dec, quantize_even, lt_dec, dec, sum_dec, Decimal,
}
use chief_opportunity_intell.Prelude.Dict
use chief_opportunity_intell.Prelude.Dict.{Dict}
use chief_opportunity_intell.Scoring.Engine.{is_known, Weights, value_at}

-- Why a vector is refused: the cases of `ScoringError`.
pub data ScoringError : Type 0 where
  missing negative_weight no_positive_weight off_total : ScoringError
  unknown_dimension cost_dimension not_a_weight : String → ScoringError

-- `Dimension(key)`, where the key names a dimension.
unfoldable pub named_in : List Dimension → String → Option Dimension
named_in [] key = none
named_in (d ∷ ds) key = if str_eq (dimension_value d) key then some d else named_in ds key

abbrev pub dimensions : List Dimension
dimensions = benefit_dimensions ++ effort ∷ risk ∷ []

unfoldable pub is_cost : Dimension → Bool
is_cost effort = true
is_cost risk = true
is_cost _ = false

-- `_to_weight`
unfoldable pub to_weight : Factor → String → Result ScoringError Decimal
to_weight (number w) label = ok w
to_weight _ label = err (not_a_weight label)

-- mapping[d] = v
unfoldable pub put_at :
    List (Dimension × Decimal) → Dimension → Decimal → List (Dimension × Decimal)
put_at [] d v = (d, v) ∷ []
put_at ((e, w) ∷ items) d v =
    if str_eq (dimension_value e) (dimension_value d)
    then (e, v) ∷ items
    else (e, w) ∷ put_at items d v

-- One round of the loop over `benefit.items()`, and the loop.
unfoldable pub read_weight :
    Option Dimension → String → Factor → Result ScoringError (Dimension × Decimal)
unfolding to_weight is_cost
read_weight none key value = err (unknown_dimension key)
read_weight (some d) key value =
    if is_cost d
    then err (cost_dimension (dimension_value d))
    else (to_weight value (dimension_value d) >>= λ w. ok (d, w))

unfoldable pub read_weights :
    List (Dimension × Decimal) → Dict Factor → Result ScoringError (List (Dimension × Decimal))
unfolding read_weight named_in put_at
read_weights raw [] = ok raw
read_weights raw ((key, value) ∷ items) =
    read_weight (named_in dimensions key) key value >>= λ (d, w).
    read_weights (put_at raw d w) items

-- raw.setdefault(dimension, ZERO), for each benefit dimension
unfoldable pub fill : List Dimension → List (Dimension × Decimal) → List (Dimension × Decimal)
unfolding put_at value_at
fill [] raw = raw
fill (d ∷ ds) raw = fill ds (elim (value_at raw d) [ none ↦ put_at raw d zero_dec | some _ ↦ raw ])

abbrev pub total_of : List (Dimension × Decimal) → Decimal
total_of items = sum_dec zero_dec (map (λ (d, w). w) items)

-- `normalised` and `quantised`
unfoldable pub quantised_of : Decimal → List (Dimension × Decimal) → List (Dimension × Decimal)
quantised_of total = map (λ (d, w). (d, quantize_even (div w total) 8))

-- `max(quantised, key=...)`: the first of the greatest.
unfoldable pub heaviest : Dimension → Decimal → List (Dimension × Decimal) → Dimension
heaviest d w [] = d
heaviest d w ((e, v) ∷ items) = if lt_dec w v then heaviest e v items else heaviest d w items

-- The sum of the quantised weights, which is exact: they have eight places each.
unfoldable pub units : List (Dimension × Decimal) → ℕ
units [] = 0
units ((d, w) ∷ items) = w.coeff + units items

-- `quantised[heaviest] += drift`, with ONE - sum for the drift. A weight that would end below zero
-- is what `__post_init__` refuses first.
unfoldable pub settle_at :
    Option Decimal
    → List (Dimension × Decimal)
    → Dimension
    → Result ScoringError (List (Dimension × Decimal))
unfolding units put_at
settle_at none quantised d = err missing
settle_at (some w) quantised d =
    if leb (units quantised) (w.coeff + 10 ^ 8)
    then ok (put_at quantised d (dec ((w.coeff + 10 ^ 8) - units quantised) 8))
    else err negative_weight

unfoldable pub absorb :
    List (Dimension × Decimal) → Result ScoringError (List (Dimension × Decimal))
unfolding heaviest value_at
absorb [] = err missing
absorb ((d, w) ∷ items) =
    let chosen = heaviest d w items in
    settle_at (value_at ((d, w) ∷ items) chosen) ((d, w) ∷ items) chosen

-- `set(BENEFIT_DIMENSIONS) - set(self.benefit)` is empty.
unfoldable pub has_every : List Dimension → List (Dimension × Decimal) → Bool
unfolding value_at
has_every [] items = true
has_every (d ∷ ds) items = is_known (value_at items d) && has_every ds items

-- `abs(total - ONE) > Decimal("0.000001")`
abbrev pub is_off_one : Decimal → Bool
is_off_one total = lt_dec (dec 1000001 6) total || lt_dec total (dec 999999 6)

-- `__post_init__` of a vector whose weights are not negative.
unfoldable pub post_init : Weights → Result ScoringError Weights
unfolding has_every
post_init weights =
    let total = total_of weights.benefit in
    raise_if (not (has_every benefit_dimensions weights.benefit)) missing
    >> raise_if (le_dec total zero_dec) no_positive_weight
    >> raise_if (is_off_one total) off_total
    >> ok weights

-- The end of `build`, from the quantised weights on.
unfoldable pub finish :
    String → List (Dimension × Decimal) → Factor → Factor → Result ScoringError Weights
unfolding absorb to_weight post_init
finish version quantised effort_raw risk_raw = absorb quantised >>= λ benefit.
    to_weight effort_raw "effort" >>= λ effort_weight. to_weight risk_raw "risk" >>= λ risk_weight.
    post_init
      (record { version = version; benefit = benefit; effort = effort_weight; risk = risk_weight })

unfoldable pub build : String → Dict Factor → Factor → Factor → Result ScoringError Weights
unfolding read_weights fill quantised_of
build version benefit effort_raw risk_raw = read_weights [] benefit >>= λ given.
    let raw = fill benefit_dimensions given in
    let total = total_of raw in
    raise_if (le_dec total zero_dec) no_positive_weight
    >> finish version (quantised_of total raw) effort_raw risk_raw

-- What `with_override` collects: the weights to build from and the two costs.
pub record Merged : Type 0 where
  pub weights : Dict Factor
  pub effort : Factor
  pub risk : Factor

-- One round of its loop over the override, and the loop.
unfoldable pub override_one :
    Option Dimension → String → Factor → Merged → Result ScoringError Merged
override_one none key value m = err (unknown_dimension key)
override_one (some effort) key value m = ok (record m { effort = value })
override_one (some risk) key value m = ok (record m { risk = value })
override_one (some d) key value m =
    ok (record m { weights = Dict.put m.weights (dimension_value d) value })

unfoldable pub override_all : Merged → Dict Factor → Result ScoringError Merged
unfolding override_one named_in
override_all m [] = ok m
override_all m ((key, value) ∷ items) =
    override_one (named_in dimensions key) key value m >>= λ next. override_all next items

unfoldable pub with_override : Weights → Dict Factor → String → Result ScoringError Weights
unfolding override_all build
with_override self [] version = ok self
with_override self (item ∷ items) version =
    let start : Merged = record {
      weights = map (λ (d, w). (dimension_value d, number w)) self.benefit;
      effort = number self.effort;
      risk = number self.risk;
    } in
    override_all start (item ∷ items) >>= λ m. build version m.weights m.effort m.risk
