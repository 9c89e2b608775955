-- ===== src/Scoring/Derived.antt =====
-- What a score can be that rests on derived factors alone.
use chief_opportunity_intell.Scoring.Stored.{stored_dimensions, stored_factor, supplied-stored}
use chief_opportunity_intell.Scoring.Verdict.{
  confidence_floor, recommend, thresholds, first_reached, is_enthusiastic, is_false,
}
use chief_opportunity_intell.Scoring.Engine.{
  Weights, confidence_of, benefit_of, known_of, score, score_values,
}
use chief_opportunity_intell.Scoring.Weights.{ScoringError, finish, settle_at, dimensions}
use chief_opportunity_intell.Scoring.Weights.Profiles.{weight_profile}
use chief_opportunity_intell.Enums.{ObjectiveProfile}
use mathlib.Core.Path.{fun_ext}
use chief_opportunity_intell.Decimal.{
  Decimal, quantize_even, div, sum_dec, zero_dec, to_context, lt_dec, quantize_up, half_up,
}
use chief_opportunity_intell.Scoring.Dimensions.{
  Dimension, value, fit, probability, strategic, learning, network, long_term, effort, risk,
  dimension_value, values_of, clamp_unit, Factor,
}
use chief_opportunity_intell.Prelude.{
  ℕ, ◌≡◌, refl, ap, ◌∙◌, inl, inr, Bool, true, false, Option, none, some, map, Bool-cases, Result,
  ok, err,
}
use chief_opportunity_intell.Scoring.Factors.{
  UserProfile, derived_value, Posting, urgency_of, compensation_value, skill_fit, derive, Derived,
}
use chief_opportunity_intell.Urgency.{days_until}
use chief_opportunity_intell.Prelude.Dict.{Dict}

-- The dimensions that may be known: the derived ones.
unfoldable pub three : Option Decimal → Option Decimal → Option Decimal → Dimension → Option Decimal
three a b c fit = a
three a b c value = b
three a b c Dimension.time_sensitivity = c
three a b c _ = none

-- Whether the confidence of a score of these dimensions is below the floor.
unfoldable pub is_low : Result ScoringError Weights → (Dimension → Option Decimal) → Bool
is_low (err e) values = true
is_low (ok w) values =
    lt_dec (confidence_of w values (sum_dec zero_dec (map (benefit_of w) (known_of values))))
      confidence_floor

is_low-three :
    (profile : ObjectiveProfile) (a b c : Option Decimal)
    → is_low (weight_profile profile) (three a b c) ≡ true
unfolding is_low three weight_profile dimension_value sum_dec to_context finish settle_at
    quantize_even div confidence_of known_of benefit_of quantize_up half_up
is_low-three ObjectiveProfile.career none none none = refl
is_low-three ObjectiveProfile.career none none (some c) = refl
is_low-three ObjectiveProfile.career none (some b) none = refl
is_low-three ObjectiveProfile.career none (some b) (some c) = refl
is_low-three ObjectiveProfile.career (some a) none none = refl
is_low-three ObjectiveProfile.career (some a) none (some c) = refl
is_low-three ObjectiveProfile.career (some a) (some b) none = refl
is_low-three ObjectiveProfile.career (some a) (some b) (some c) = refl
is_low-three ObjectiveProfile.income none none none = refl
is_low-three ObjectiveProfile.income none none (some c) = refl
is_low-three ObjectiveProfile.income none (some b) none = refl
is_low-three ObjectiveProfile.income none (some b) (some c) = refl
is_low-three ObjectiveProfile.income (some a) none none = refl
is_low-three ObjectiveProfile.income (some a) none (some c) = refl
is_low-three ObjectiveProfile.income (some a) (some b) none = refl
is_low-three ObjectiveProfile.income (some a) (some b) (some c) = refl
is_low-three ObjectiveProfile.business none none none = refl
is_low-three ObjectiveProfile.business none none (some c) = refl
is_low-three ObjectiveProfile.business none (some b) none = refl
is_low-three ObjectiveProfile.business none (some b) (some c) = refl
is_low-three ObjectiveProfile.business (some a) none none = refl
is_low-three ObjectiveProfile.business (some a) none (some c) = refl
is_low-three ObjectiveProfile.business (some a) (some b) none = refl
is_low-three ObjectiveProfile.business (some a) (some b) (some c) = refl
is_low-three ObjectiveProfile.learning none none none = refl
is_low-three ObjectiveProfile.learning none none (some c) = refl
is_low-three ObjectiveProfile.learning none (some b) none = refl
is_low-three ObjectiveProfile.learning none (some b) (some c) = refl
is_low-three ObjectiveProfile.learning (some a) none none = refl
is_low-three ObjectiveProfile.learning (some a) none (some c) = refl
is_low-three ObjectiveProfile.learning (some a) (some b) none = refl
is_low-three ObjectiveProfile.learning (some a) (some b) (some c) = refl
is_low-three ObjectiveProfile.networking none none none = refl
is_low-three ObjectiveProfile.networking none none (some c) = refl
is_low-three ObjectiveProfile.networking none (some b) none = refl
is_low-three ObjectiveProfile.networking none (some b) (some c) = refl
is_low-three ObjectiveProfile.networking (some a) none none = refl
is_low-three ObjectiveProfile.networking (some a) none (some c) = refl
is_low-three ObjectiveProfile.networking (some a) (some b) none = refl
is_low-three ObjectiveProfile.networking (some a) (some b) (some c) = refl
is_low-three ObjectiveProfile.startup none none none = refl
is_low-three ObjectiveProfile.startup none none (some c) = refl
is_low-three ObjectiveProfile.startup none (some b) none = refl
is_low-three ObjectiveProfile.startup none (some b) (some c) = refl
is_low-three ObjectiveProfile.startup (some a) none none = refl
is_low-three ObjectiveProfile.startup (some a) none (some c) = refl
is_low-three ObjectiveProfile.startup (some a) (some b) none = refl
is_low-three ObjectiveProfile.startup (some a) (some b) (some c) = refl
is_low-three ObjectiveProfile.research none none none = refl
is_low-three ObjectiveProfile.research none none (some c) = refl
is_low-three ObjectiveProfile.research none (some b) none = refl
is_low-three ObjectiveProfile.research none (some b) (some c) = refl
is_low-three ObjectiveProfile.research (some a) none none = refl
is_low-three ObjectiveProfile.research (some a) none (some c) = refl
is_low-three ObjectiveProfile.research (some a) (some b) none = refl
is_low-three ObjectiveProfile.research (some a) (some b) (some c) = refl

recommend_low :
    (overall confidence : Decimal) (eligible : Option Bool)
    → lt_dec confidence confidence_floor ≡ true
    → is_enthusiastic (recommend overall confidence eligible) ≡ false
unfolding recommend
recommend_low overall confidence eligible low = elim (Bool-cases (is_false eligible)) [
  | inl denied ↦ rw denied refl
  | inr admitted ↦ elim (Bool-cases (is_enthusiastic (first_reached thresholds overall))) [
    | inl keen ↦ rw (admitted, low, keen) refl
    | inr cool ↦ rw (admitted, low, cool) cool
  ]
]

score-recommend_low :
    (factors : Dict Factor) (w : Weights) (eligible : Option Bool)
    (values : Dimension → Option Decimal)
    → values_of factors ≡ values
    → is_low (ok w) values ≡ true
    → is_enthusiastic (score factors w eligible).recommendation ≡ false
unfolding score score_values is_low
score-recommend_low factors w eligible values same low = rw same (recommend_low _ _ eligible low)

-- The factors that `score` is given of what was derived.
abbrev pub derived_factors : Derived → Dict Factor
derived_factors d = stored_dimensions dimensions d.values

only_three :
    (posting : Posting) (profile : Option UserProfile) (now : ℕ) (d : Dimension)
    → clamp_unit (stored_factor ((derive posting profile now).values d))
      ≡ three
          (clamp_unit (stored_factor (skill_fit posting profile)))
          (clamp_unit (stored_factor (compensation_value posting profile)))
          (clamp_unit (stored_factor (urgency_of (days_until posting.deadline now))))
          d
unfolding derive derived_value three clamp_unit stored_factor
only_three posting profile now fit = refl
only_three posting profile now value = refl
only_three posting profile now probability = refl
only_three posting profile now strategic = refl
only_three posting profile now Dimension.time_sensitivity = refl
only_three posting profile now learning = refl
only_three posting profile now network = refl
only_three posting profile now long_term = refl
only_three posting profile now effort = refl
only_three posting profile now risk = refl

values_of-derived :
    (posting : Posting) (profile : Option UserProfile) (now : ℕ)
    → values_of (derived_factors (derive posting profile now))
      ≡ three
          (clamp_unit (stored_factor (skill_fit posting profile)))
          (clamp_unit (stored_factor (compensation_value posting profile)))
          (clamp_unit (stored_factor (urgency_of (days_until posting.deadline now))))
unfolding values_of
values_of-derived posting profile now = fun_ext (λ d.
    ap clamp_unit (supplied-stored (derive posting profile now).values d)
    ∙ only_three posting profile now d)

-- Under the weights of any objective, a score that rests on derived factors alone is not known well
-- enough for a recommendation: the verdict is neither STRONGLY_PURSUE nor PURSUE, whatever the
-- posting, the profile and the time.
pub derive-recommend :
    (posting : Posting) (profile : Option UserProfile) (now : ℕ) (objective : ObjectiveProfile)
    (w : Weights)
    → weight_profile objective ≡ ok w
    → is_enthusiastic
        (score
          (derived_factors (derive posting profile now))
          w
          (derive posting profile now).eligible).recommendation
      ≡ false
derive-recommend posting profile now objective w h =
    score-recommend_low _ w _ _ (values_of-derived posting profile now) (
      rw h at (
        is_low-three objective (clamp_unit (stored_factor (skill_fit posting profile)))
          (clamp_unit (stored_factor (compensation_value posting profile)))
          (clamp_unit (stored_factor (urgency_of (days_until posting.deadline now))))))
