-- ===== src/Scoring/Weights/Profiles.antt =====
-- `WEIGHT_PROFILES` and `weights_for` of scoring.py.
use Prim.Native.String.{◌++◌ as str_append}
use chief_opportunity_intell.Prelude.{
  ℕ, ◌^◌, String, ◌≡◌, inl, inr, List, [], ◌∷◌, arith, Result, ok, ◌>>=◌, Result-cases,
}
use chief_opportunity_intell.Scoring.Weights.{units, ScoringError, with_override, build}
use chief_opportunity_intell.Enums.{ObjectiveProfile}
use chief_opportunity_intell.Scoring.Dimensions.{
  dimension_value, number, benefit_dimensions, Factor, Dimension,
}
use chief_opportunity_intell.Scoring.Engine.{Weights}
use chief_opportunity_intell.Prelude.Dict.{Dict}
use chief_opportunity_intell.Scoring.Weights.Sums.{with_override-units, build-units}
use chief_opportunity_intell.Decimal.{dec}

-- The weights in the order of `BENEFIT_DIMENSIONS`, in hundredths.
unfoldable pub in_hundredths : List Dimension → List ℕ → Dict Factor
in_hundredths (d ∷ ds) (w ∷ ws) = (dimension_value d, number (dec w 2)) ∷ in_hundredths ds ws
in_hundredths _ _ = []

-- `profile.value`
unfoldable pub profile_value : ObjectiveProfile → String
profile_value ObjectiveProfile.career = "career"
profile_value ObjectiveProfile.income = "income"
profile_value ObjectiveProfile.business = "business"
profile_value ObjectiveProfile.learning = "learning"
profile_value ObjectiveProfile.networking = "networking"
profile_value ObjectiveProfile.startup = "startup"
profile_value ObjectiveProfile.research = "research"

-- `_profile`
unfoldable pub profile_of : ObjectiveProfile → List ℕ → ℕ → ℕ → Result ScoringError Weights
unfolding build in_hundredths profile_value
profile_of profile weights effort_raw risk_raw =
    build (str_append (profile_value profile) ".v1") (in_hundredths benefit_dimensions weights)
      (number (dec effort_raw 2)) (number (dec risk_raw 2))

-- The arguments of `_profile` in `WEIGHT_PROFILES`, in hundredths.
pub record ProfileRow : Type 0 where
  pub weights : List ℕ
  pub effort : ℕ
  pub risk : ℕ

unfoldable pub profile_row : ObjectiveProfile → ProfileRow
profile_row ObjectiveProfile.career = record {
  weights = 22 ∷ 14 ∷ 16 ∷ 14 ∷ 6 ∷ 10 ∷ 6 ∷ 12 ∷ [];
  effort = 35;
  risk = 45;
}
profile_row ObjectiveProfile.income = record {
  weights = 16 ∷ 34 ∷ 20 ∷ 6 ∷ 12 ∷ 3 ∷ 3 ∷ 6 ∷ [];
  effort = 55;
  risk = 50;
}
profile_row ObjectiveProfile.business = record {
  weights = 14 ∷ 24 ∷ 14 ∷ 18 ∷ 8 ∷ 4 ∷ 8 ∷ 10 ∷ [];
  effort = 40;
  risk = 45;
}
profile_row ObjectiveProfile.learning = record {
  weights = 14 ∷ 6 ∷ 12 ∷ 10 ∷ 6 ∷ 32 ∷ 8 ∷ 12 ∷ [];
  effort = 30;
  risk = 25;
}
profile_row ObjectiveProfile.networking = record {
  weights = 12 ∷ 6 ∷ 14 ∷ 12 ∷ 10 ∷ 8 ∷ 30 ∷ 8 ∷ [];
  effort = 30;
  risk = 25;
}
profile_row ObjectiveProfile.startup = record {
  weights = 14 ∷ 14 ∷ 10 ∷ 20 ∷ 10 ∷ 8 ∷ 10 ∷ 14 ∷ [];
  effort = 30;
  risk = 20;
}
profile_row ObjectiveProfile.research = record {
  weights = 20 ∷ 8 ∷ 14 ∷ 16 ∷ 6 ∷ 16 ∷ 8 ∷ 12 ∷ [];
  effort = 35;
  risk = 30;
}

-- `WEIGHT_PROFILES[profile]`
unfoldable pub weight_profile : ObjectiveProfile → Result ScoringError Weights
unfolding profile_of profile_row
weight_profile profile =
    let row = profile_row profile in profile_of profile row.weights row.effort row.risk

-- `weights_for`, on a goal's override, empty where the goal has none.
unfoldable pub weights_for : ObjectiveProfile → Dict Factor → Result ScoringError Weights
unfolding weight_profile with_override
weights_for profile override = weight_profile profile >>= λ base.
    with_override base override (str_append (profile_value profile) ".v1+override")

profile_of-units :
    (profile : ObjectiveProfile) (weights : List ℕ) (e r : ℕ) (w : Weights)
    → profile_of profile weights e r ≡ ok w
    → units w.benefit ≡ 10 ^ 8
unfolding profile_of
profile_of-units profile weights e r w h = build-units _ _ _ _ w h

weight_profile-units :
    (profile : ObjectiveProfile) (w : Weights)
    → weight_profile profile ≡ ok w
    → units w.benefit ≡ 10 ^ 8
unfolding weight_profile
weight_profile-units profile w h =
    let row = profile_row profile in profile_of-units profile row.weights row.effort row.risk w h

-- Whatever the objective and the goal's override, a vector that `weights_for` returns has benefit
-- weights that sum, in units of 10^-8, to exactly one.
pub weights_for-units :
    (profile : ObjectiveProfile) (override : Dict Factor) (w : Weights)
    → weights_for profile override ≡ ok w
    → units w.benefit ≡ 10 ^ 8
unfolding weights_for
weights_for-units profile override w h = elim (Result-cases (weight_profile profile)) [
  | inl (e, refused) ↦ ground arith
  | inr (base, built) ↦
      with_override-units base w override (str_append (profile_value profile) ".v1+override")
        (weight_profile-units profile base built) (ground arith)
]
