-- ===== src/Scoring/ServiceTests.antt =====
-- A worked example of the scoring service.
use chief_opportunity_intell.Scoring.Engine.{score}
use chief_opportunity_intell.Scoring.Verdict.{is_enthusiastic}
use chief_opportunity_intell.Scoring.Derived.{derive-recommend, derived_factors}
use chief_opportunity_intell.Dedup.Sets.{count_both, member}
use chief_opportunity_intell.Scoring.Factors.{
  Posting, UserProfile, skill_fit, compensation_value, work_authorization_of, weighted, coverage_of,
  is_empty, or_amount, differs, compare_offer, offer_value, sub_dec, authorised_for, authorised_in,
  is_authorised, derive,
}
use chief_opportunity_intell.Scoring.Service.{Goal, DerivedFactors, Scores}
use chief_opportunity_intell.Samples.{sample_row, career}
use chief_opportunity_intell.Enums.{OpportunityStatus, ObjectiveProfile}
use chief_opportunity_intell.Prelude.{ℕ, ◌≡◌, refl, none, some, [], ◌∷◌, true, false}
use chief_opportunity_intell.Scoring.Weights.Profiles.{weight_profile, weights_for}
use chief_opportunity_intell.Opportunities.{Opportunity}
use chief_opportunity_intell.Scoring.Dimensions.{dimension_value, number}
use chief_opportunity_intell.Decimal.{
  to_context, sum_dec, dec, quantize_even, div, mul, add, half_even, places, min_dec,
}
use chief_opportunity_intell.Scoring.Weights.{finish, settle_at}

abbrev goal : Goal
goal = record {
  id = 3;
  user_id = 7;
  objective_profile = ObjectiveProfile.career;
  weights_override = [];
}

abbrev plain_factors : Opportunity (Unit {0}) → Goal → ℕ → DerivedFactors
plain_factors r g now = record {
  values = ("fit_score", number (dec 12 1)) ∷ ("effort_score", number (dec 4 1)) ∷ [];
  eligible = none;
}

abbrev found : Opportunity (Unit {0})
found = sample_row 1 "engineer" "a" OpportunityStatus.discovered

abbrev before : Scores (Unit {0})
before = record { session = record { rows = found ∷ []; events = []; next_id = 2 }; scores = [] }

abbrev posting : Posting
posting = record {
  deadline = some 864000;
  required_skills = "python" ∷ "sql" ∷ [];
  preferred_skills = [];
  compensation_min = none;
  compensation_max = some (dec 90 0);
  compensation_currency = some "EUR";
  location_country = some "DE";
}

abbrev applicant : UserProfile
applicant = record {
  skills = "python" ∷ [];
  salary_expectation_min = some (dec 80 0);
  salary_expectation_max = some (dec 100 0);
  salary_currency = some "EUR";
  work_authorization = record { country = "DE"; status = "citizen" } ∷ [];
}

-- 1 of 2 skills, against the saturation; 50 of the 60 between half of the floor and the ceiling.
worked :
    (skill_fit posting (some applicant) ≡ some (dec 5882 4))
    × (compensation_value posting (some applicant) ≡ some (dec 8333 4))
    × (work_authorization_of posting (some applicant) ≡ some true)
unfolding skill_fit compensation_value work_authorization_of weighted coverage_of is_empty
    count_both member or_amount differs compare_offer offer_value sub_dec authorised_for
    authorised_in is_authorised div mul add to_context quantize_even half_even places min_dec
worked = (refl, refl, refl)

derive-recommend_example :
    is_enthusiastic
      (score
        (derived_factors (derive posting (some applicant) 0))
        career
        (derive posting (some applicant) 0).eligible).recommendation
    ≡ false
unfolding weights_for weight_profile dimension_value sum_dec to_context finish settle_at
    quantize_even div
derive-recommend_example =
    derive-recommend posting (some applicant) 0 ObjectiveProfile.career career refl
