-- ===== src/Scoring/Tests.antt =====
-- Checks and worked examples of the scoring engine and its weights.
use chief_opportunity_intell.Scoring.Stored.{stored_factors, score-stored_again}
use chief_opportunity_intell.Samples.{career}
use chief_opportunity_intell.Prelude.{
  ◌^◌, ◌≤◌, ◌≡◌, refl, Bool, true, false, none, [], ◌∷◌, Result, ok, err,
}
use chief_opportunity_intell.Scoring.Weights.Profiles.{
  weights_for-units, weights_for, weight_profile,
}
use chief_opportunity_intell.Scoring.Weights.{settle_at, with_override, finish, units, ScoringError}
use chief_opportunity_intell.Prelude.Dict.{Dict}
use chief_opportunity_intell.Scoring.Verdict.{
  recommend-earned, is_enthusiastic, confidence_floor, is_false, recommend,
}
use chief_opportunity_intell.Scoring.Engine.Laws.{score-unknown, score-bounded}
use chief_opportunity_intell.Decimal.{
  mul, add, min_dec, half_up, quantize_up, div, quantize_even, to_context, sum_dec, lt_dec, le_dec,
  dec,
}
use chief_opportunity_intell.Prelude.Dict
use chief_opportunity_intell.Enums.{Recommendation, ObjectiveProfile}
use chief_opportunity_intell.Scoring.Engine.{
  confidence_of, benefit_of, effective_of, contributions_of, cost_of, overall_of, Weights, known_of,
  score, ScoreResult,
}
use chief_opportunity_intell.Scoring.Dimensions.{
  dimension_value, Factor, fit, number, value, values_of,
}

abbrev is_ok : {A : Type 0} → Result ScoringError A → Bool
is_ok (ok _) = true
is_ok (err _) = false

-- Every default profile is a valid vector.
profiles_build : (profile : ObjectiveProfile) → is_ok (weight_profile profile) ≡ true
unfolding weight_profile dimension_value sum_dec to_context finish settle_at quantize_even div
profiles_build ObjectiveProfile.career = refl
profiles_build ObjectiveProfile.income = refl
profiles_build ObjectiveProfile.business = refl
profiles_build ObjectiveProfile.learning = refl
profiles_build ObjectiveProfile.networking = refl
profiles_build ObjectiveProfile.startup = refl
profiles_build ObjectiveProfile.research = refl

abbrev weights : Weights
weights = record {
  version = "two.v1";
  benefit = (fit, dec 7 1) ∷ (value, dec 3 1) ∷ [];
  effort = dec 5 1;
  risk = dec 5 1;
}

abbrev factors : Dict Factor
factors = ("fit_score", number (dec 12 1)) ∷ ("effort_score", number (dec 4 1)) ∷ []

-- 100 * 1 / (1 + 0.5 * 0.4), and the share of the weight that is known.
scored :
    ((score factors weights none).overall ≡ dec 8333 2)
    × ((score factors weights none).confidence ≡ dec 6000 4)
unfolding score overall_of quantize_up half_up min_dec cost_of add to_context mul Dict.get
    dimension_value div sum_dec contributions_of effective_of known_of benefit_of confidence_of
scored = (refl, refl)

recommend-earned_example :
    (le_dec (dec 66 0) (dec 70 0) ≡ true)
    × (lt_dec (dec 9 1) confidence_floor ≡ false)
    × (is_false none ≡ false)
unfolding recommend
recommend-earned_example = recommend-earned (dec 70 0) (dec 9 1) none recommended
  where
    recommended : is_enthusiastic (recommend (dec 70 0) (dec 9 1) none) ≡ true
    recommended = refl

score-bounded_example :
    ((score factors weights none).overall.coeff ≤ 10000)
    × ((score factors weights none).overall.scale ≡ 2)
score-bounded_example = score-bounded factors weights none

score-unknown_example :
    ((score [] weights none).overall ≡ dec 0 2)
    × ((score [] weights none).recommendation ≡ Recommendation.ignore)
unfolding known_of values_of Dict.get
score-unknown_example = score-unknown [] weights none nothing_known refl
  where
    nothing_known : known_of (values_of []) ≡ []
    nothing_known = refl

weights_for-units_example : units career.benefit ≡ 10 ^ 8
unfolding weights_for weight_profile with_override dimension_value sum_dec to_context finish
    settle_at quantize_even div
weights_for-units_example = weights_for-units ObjectiveProfile.career [] career refl

abbrev read_back : ScoreResult
read_back = score (stored_factors (score factors weights none)) weights none

score-stored_again_example :
    (read_back.dimensions ≡ (score factors weights none).dimensions)
    × (score (stored_factors read_back) weights none ≡ read_back)
score-stored_again_example = score-stored_again factors weights none none read_back refl
