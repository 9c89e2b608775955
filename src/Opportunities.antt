-- ===== src/Opportunities.antt =====
-- backend/app/models/opportunity.py: a row of `Opportunity` and of `OpportunityEvent`, and the session
-- that holds them, as backend/app/services/ingestion.py and dedup.py use them. Ids are numbers,
-- moments whole seconds in UTC, JSON columns their text, `freshness_score` is in ten-thousandths; an
-- embedding is of the type E. The columns that ingestion neither reads nor writes are left out.
use chief_opportunity_intell.Prelude.{
  ℕ, String, Bool, false, ◌||◌, Option, none, some, List, [], ◌∷◌, ◌++◌, ◌==◌, if◌then◌else◌,
}
use chief_opportunity_intell.Decimal.{Decimal}
use chief_opportunity_intell.Enums.{
  OpportunityStatus, CompensationPeriod, RemoteStatus, OpportunityCategory, OpportunityEventType,
}
use chief_opportunity_intell.Prelude.Dict.{Dict}
use chief_opportunity_intell.Lifecycle.{Item}

-- `Decimal` with a sign: `minus` stands for a value below zero.
pub data Amount : Type 0 where
  plus minus : Decimal → Amount

pub record Opportunity (E : Type 0) : Type 0 where
  pub id : ℕ
  pub source_id : Option ℕ
  pub external_id : Option String
  pub title : String
  pub category : OpportunityCategory
  pub organization_name : Option String
  pub organization_domain : Option String
  pub description : Option String
  pub summary : Option String
  pub language : Option String
  pub raw : Option String
  pub location_country : Option String
  pub location_city : Option String
  pub remote_status : RemoteStatus
  pub compensation_min : Option Amount
  pub compensation_max : Option Amount
  pub compensation_currency : Option String
  pub compensation_period : Option CompensationPeriod
  pub requirements : String
  pub eligibility : String
  pub required_skills : String
  pub preferred_skills : String
  pub posted_at : Option ℕ
  pub deadline : Option ℕ
  pub discovered_at : Option ℕ
  pub last_verified_at : Option ℕ
  pub expires_at : Option ℕ
  pub freshness_score : Option ℕ
  pub source_url : String
  pub canonical_url : Option String
  pub content_hash : Option String
  pub status : OpportunityStatus
  pub duplicate_of_id : Option ℕ
  pub embedding : Option E

-- The values of an event's payload.
pub data Detail : Type 0 where
  word : String → Detail
  row at_moment ten_thousandths : ℕ → Detail
  no_value : Detail
  noted : Dict String → Detail

pub record OpportunityEvent : Type 0 where
  pub opportunity_id : ℕ
  pub event_type : OpportunityEventType
  pub payload : Dict (Item Detail)

-- The rows of both tables in the order of insertion, and the next free id.
pub record Session (E : Type 0) : Type 0 where
  pub rows : List (Opportunity E)
  pub events : List OpportunityEvent
  pub next_id : ℕ

module _ {E : Type 0} where
  -- `session.get(Opportunity, id)`
  unfoldable pub row_at : List (Opportunity E) → ℕ → Option (Opportunity E)
  row_at [] id = none
  row_at (r ∷ rows) id = if r.id == id then some r else row_at rows id

  -- Whether some row passes a test.
  unfoldable pub any_row : (Opportunity E → Bool) → List (Opportunity E) → Bool
  any_row p [] = false
  any_row p (r ∷ rows) = p r || any_row p rows

  -- The first row that passes a test.
  unfoldable pub first_row : (Opportunity E → Bool) → List (Opportunity E) → Option (Opportunity E)
  first_row p [] = none
  first_row p (r ∷ rows) = if p r then some r else first_row p rows

  -- The row with an id, replaced.
  unfoldable pub replace : List (Opportunity E) → ℕ → Opportunity E → List (Opportunity E)
  replace [] id new = []
  replace (r ∷ rows) id new = if r.id == id then new ∷ rows else r ∷ replace rows id new

  -- `session.add(OpportunityEvent(...))`
  unfoldable pub record_event :
      Session E → ℕ → OpportunityEventType → Dict (Item Detail) → Session E
  record_event s id event_type payload = record s {
    events =
        s.events ++ record { opportunity_id = id; event_type = event_type; payload = payload } ∷ [];
  }
