-- ===== src/Scoring/Service.antt =====
-- backend/app/services/scoring_service.py: `ScoringService`, on the session of Opportunities.antt and
-- the table of scores. `factors.derive` is a parameter; the rows' order of insertion stands for
-- their `created_at`; explanation and rationale, which are texts, are left out.
use chief_opportunity_intell.Prelude.{
  ℕ, String, Bool, true, false, not, ◌&&◌, ◌||◌, Option, none, some, List, [], ◌∷◌, str_eq, ◌==◌,
  if◌then◌else◌, take, select, Result, ok, err, ◌>>=◌,
}
use chief_opportunity_intell.Scoring.Engine.{Weights, ScoreResult, score}
use chief_opportunity_intell.Scoring.Weights.{ScoringError}
use chief_opportunity_intell.Enums.{OpportunityStatus, ObjectiveProfile, Recommendation}
use chief_opportunity_intell.Lifecycle.{inactive, contains, IllegalMove}
use chief_opportunity_intell.Prelude.Dict.{Dict}
use chief_opportunity_intell.Opportunities.{Opportunity, Session}
use chief_opportunity_intell.Scoring.Dimensions.{Dimension, Factor}
use chief_opportunity_intell.Scoring.Weights.Profiles.{weights_for}
use chief_opportunity_intell.Decimal.{Decimal}
use chief_opportunity_intell.Scoring.Verdict.{is_enthusiastic}
use chief_opportunity_intell.Ingestion.Refresh.{set_status}

pub record Goal : Type 0 where
  pub id : ℕ
  pub user_id : ℕ
  pub objective_profile : ObjectiveProfile
  pub weights_override : Dict Factor

-- `DerivedFactors`
pub record DerivedFactors : Type 0 where
  pub values : Dict Factor
  pub eligible : Option Bool

-- A row of `opportunity_scores`.
pub record OpportunityScore : Type 0 where
  pub opportunity_id : ℕ
  pub goal_id : ℕ
  pub user_id : ℕ
  pub weights_version : String
  pub scoring_profile : ObjectiveProfile
  pub engine_version : String
  pub overall_score : Decimal
  pub confidence : Decimal
  pub recommendation : Recommendation
  pub computed_at : ℕ
  pub dimensions : Dimension → Option Decimal

-- `_upsert` looks a row up by these three.
unfoldable pub is_for : ℕ → ℕ → String → OpportunityScore → Bool
is_for opportunity_id goal_id version row =
    row.opportunity_id == opportunity_id
    && row.goal_id == goal_id
    && str_eq row.weights_version version

unfoldable pub score_at : List OpportunityScore → ℕ → ℕ → String → Option OpportunityScore
unfolding is_for
score_at [] opportunity_id goal_id version = none
score_at (row ∷ rows) opportunity_id goal_id version =
    if is_for opportunity_id goal_id version row
    then some row
    else score_at rows opportunity_id goal_id version

-- The row that is there is updated in place; a new one comes last.
unfoldable pub put_score : List OpportunityScore → OpportunityScore → List OpportunityScore
unfolding is_for
put_score [] new = new ∷ []
put_score (row ∷ rows) new =
    if is_for new.opportunity_id new.goal_id new.weights_version row
    then new ∷ rows
    else row ∷ put_score rows new

-- A row that is there keeps its owner.
unfoldable pub owned_by : Option OpportunityScore → OpportunityScore → OpportunityScore
owned_by none new = new
owned_by (some old) new = record new { user_id = old.user_id }

-- The row that `_upsert` writes and returns.
unfoldable pub upsert : List OpportunityScore → OpportunityScore → OpportunityScore
unfolding owned_by score_at
upsert rows new = owned_by (score_at rows new.opportunity_id new.goal_id new.weights_version) new

abbrev pub score_row : ℕ → Goal → ScoreResult → ℕ → OpportunityScore
score_row opportunity_id goal result now = record {
  opportunity_id = opportunity_id;
  goal_id = goal.id;
  user_id = goal.user_id;
  weights_version = result.weights_version;
  scoring_profile = goal.objective_profile;
  engine_version = result.engine_version;
  overall_score = result.overall;
  confidence = result.confidence;
  recommendation = result.recommendation;
  computed_at = now;
  dimensions = result.dimensions;
}

-- `_target_status`
unfoldable pub target_status : Recommendation → OpportunityStatus
target_status verdict =
    if is_enthusiastic verdict then OpportunityStatus.recommended else OpportunityStatus.scored

-- Both tables.
pub record Scores (E : Type 0) : Type 0 where
  pub session : Session E
  pub scores : List OpportunityScore

pub data ServiceError : Type 0 where
  bad_weights : ScoringError → ServiceError
  illegal_move : IllegalMove → ServiceError
  goal_not_found : ServiceError

unfoldable pub raised_weights : {A : Type 0} → Result ScoringError A → Result ServiceError A
raised_weights (ok a) = ok a
raised_weights (err e) = err (bad_weights e)

unfoldable pub raised_move : {A : Type 0} → Result IllegalMove A → Result ServiceError A
raised_move (ok a) = ok a
raised_move (err e) = err (illegal_move e)

module _ {E : Type 0} where
  -- The end of `score_opportunity`: what scoring does to the status.
  unfoldable pub advance_status :
      Session E → Opportunity E → Recommendation → Result IllegalMove (Session E × Bool)
  unfolding target_status
  advance_status s r verdict =
      if contains inactive r.status
      then ok (s, false)
      else set_status s r (target_status verdict) (some "scored")

module _ {E : Type 0} (derive : Opportunity E → Goal → ℕ → DerivedFactors) where
  -- `score_opportunity` once the weights are there.
  unfoldable pub score_with :
      Scores E
      → Opportunity E
      → Goal
      → ℕ
      → Weights
      → Result ServiceError (Scores E × OpportunityScore)
  unfolding put_score upsert advance_status raised_move
  score_with t r goal now weights =
      let derived = derive r goal now in
      let row =
        upsert t.scores (score_row r.id goal (score derived.values weights derived.eligible) now) in
      raised_move (advance_status t.session r row.recommendation) >>= λ moved.
      ok (record { session = moved.0; scores = put_score t.scores row }, row)

  unfoldable pub score_opportunity :
      Scores E → Opportunity E → Goal → ℕ → Result ServiceError (Scores E × OpportunityScore)
  unfolding score_with raised_weights
  score_opportunity t r goal now =
      raised_weights (weights_for goal.objective_profile goal.weights_override)
      >>= score_with t r goal now

  unfoldable pub score_each :
      Scores E
      → List (Opportunity E)
      → Goal
      → ℕ
      → Result ServiceError (Scores E × List OpportunityScore)
  score_each t [] goal now = ok (t, [])
  score_each t (r ∷ rows) goal now = score_opportunity t r goal now >>= λ first.
      score_each first.0 rows goal now >>= λ rest. ok (rest.0, first.1 ∷ rest.1)

  unfoldable pub is_among : Option (List ℕ) → ℕ → Bool
  is_among none id = true
  is_among (some []) id = false
  is_among (some (i ∷ ids)) id = id == i || is_among (some ids) id

  -- `score_goal`
  unfoldable pub score_goal :
      Scores E
      → Goal
      → Option (List ℕ)
      → ℕ
      → ℕ
      → Result ServiceError (Scores E × List OpportunityScore)
  score_goal t goal ids now limit =
      score_each t
        (take limit
          (select (λ r. not (contains inactive r.status) && is_among ids r.id) t.session.rows))
        goal now

  -- `score_goal_by_id`, on the goals of the table.
  unfoldable pub score_goal_by_id :
      Scores E → List Goal → ℕ → ℕ → ℕ → Result ServiceError (Scores E × List OpportunityScore)
  score_goal_by_id t [] goal_id user_id now = err goal_not_found
  score_goal_by_id t (goal ∷ goals) goal_id user_id now =
      if goal.id == goal_id && goal.user_id == user_id
      then score_goal t goal none now 500
      else score_goal_by_id t goals goal_id user_id now
