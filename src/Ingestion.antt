-- ===== src/Ingestion.antt =====
-- backend/app/services/ingestion.py: from a raw item to a row. The session of Opportunities.antt is
-- passed from call to call; `flush` refuses a second row with a content hash, or with the external
-- id of a source, as the table's constraints do. The amounts of a raw item are given as
-- `_to_decimal` reads them, its requirements and the like as their JSON texts. What
-- services/normalization.py does to URLs and dates, and the decay in services/freshness.py, are the
-- functions of `Readers`.
pub mod Rows
pub mod Store
pub mod Courses
pub mod Refresh
pub mod Batch
pub mod Clashes
pub mod Unique
pub mod Again
pub mod Outcomes
pub mod Repeat
mod Tests
use chief_opportunity_intell.Prelude.{
  ℕ, ◌+◌, ◌-◌, ◌/◌, ◌<◌, String, Bool, not, Option, some, [], ◌∷◌, ◌++◌, str_eq, if◌then◌else◌,
}
use Prim.Native.String.{◌++◌ as ◌<>◌}
use chief_opportunity_intell.Urgency.{or_else, Times, assess_expiry, Days}
use chief_opportunity_intell.Prelude.Dict.{Dict}
use chief_opportunity_intell.Opportunities.{
  at_moment, ten_thousandths, Session, record_event, Amount, Opportunity, replace,
}
use chief_opportunity_intell.Enums.{
  unknown, OpportunityEventType, remote, hybrid, onsite, OpportunityCategory, RemoteStatus,
}
use chief_opportunity_intell.Dedup.{DuplicateMatch}
use chief_opportunity_intell.Normalization.Money.{PeriodInput}
use chief_opportunity_intell.Lifecycle.{given}

pub data IngestionOutcome : Type 0 where
  created merged flagged_duplicate rejected : IngestionOutcome

pub data DateOutcome : Type 0 where
  parsed ambiguous rolling unparsed empty : DateOutcome

pub record ParsedDate : Type 0 where
  pub value : Option ℕ
  pub outcome : DateOutcome

-- A member, or a text that may name one.
pub data RemoteInput : Type 0 where
  remote_member : RemoteStatus → RemoteInput
  remote_text : Option String → RemoteInput

-- D is what stands for a date in the source.
pub record RawOpportunity (D : Type 0) : Type 0 where
  pub title : String
  pub source_url : String
  pub category : OpportunityCategory
  pub external_id : Option String
  pub organization_name : Option String
  pub organization_domain : Option String
  pub description : Option String
  pub summary : Option String
  pub language : Option String
  pub location_country : Option String
  pub location_city : Option String
  pub remote_status : RemoteInput
  pub compensation_min : Option Amount
  pub compensation_max : Option Amount
  pub compensation_currency : Option String
  pub compensation_period : PeriodInput
  pub requirements : String
  pub eligibility : String
  pub required_skills : String
  pub preferred_skills : String
  pub posted_at : Option D
  pub deadline : Option D
  pub raw : Option String
  pub day_first : Option Bool

-- The functions that the model takes as they are: `canonicalize_url`, `parse_deadline`, Python's
-- `repr` of a date, and the score that `assess` gives a row that is not expired, in ten-thousandths,
-- by the time, the anchor and the days that remain.
pub record Readers (D : Type 0) : Type 0 where
  pub canonicalize_url : String → Option String
  pub parse_deadline : Option D → Option Bool → ParsedDate
  pub show : Option D → String
  pub decay : ℕ → Option ℕ → Option Days → ℕ

pub data Reason : Type 0 where
  title_is_empty : Reason
  unusable_source_url : String → Reason

pub record IngestionResult (E : Type 0) : Type 0 where
  pub outcome : IngestionOutcome
  pub opportunity : Option (Opportunity E)
  pub duplicate_of : Option ℕ
  pub match_found : Option DuplicateMatch
  pub reason : Option Reason
  pub notes : Dict String

-- SQLAlchemy's `IntegrityError`
pub data DatabaseError : Type 0 where
  integrity_error : DatabaseError

unfoldable pub outcome_value : DateOutcome → String
outcome_value parsed = "parsed"
outcome_value ambiguous = "ambiguous"
outcome_value rolling = "rolling"
outcome_value unparsed = "unparsed"
outcome_value empty = "empty"

-- `_remote_status` of a text
unfoldable pub remote_named : String → RemoteStatus
remote_named s =
    if str_eq s "onsite"
    then onsite
    else if str_eq s "hybrid"
    then hybrid
    else if str_eq s "remote"
    then remote
    else unknown

-- `FreshnessAssessment` of `assess`, with the score in ten-thousandths.
pub record FreshnessAssessment : Type 0 where
  pub score : ℕ
  pub expires_at : Option ℕ
  pub is_expired : Bool

module _ {D : Type 0} (readers : Readers D) where
  unfoldable pub assess : ℕ → OpportunityCategory → Times → Option ℕ → FreshnessAssessment
  unfolding assess_expiry
  assess now category times last_verified_at =
      let expiry = assess_expiry now category times in
      record {
        score =
            if expiry.is_expired
            then 0
            else readers.decay now
                (or_else last_verified_at (or_else times.discovered_at times.posted_at))
                expiry.days_remaining;
        expires_at = expiry.expires_at;
        is_expired = expiry.is_expired;
      }

  -- The notes on the deadline.
  unfoldable pub notes_of : DateOutcome → Option D → Dict String
  unfolding outcome_value
  notes_of ambiguous deadline =
      ("deadline", outcome_value ambiguous <> ": " <> readers.show deadline) ∷ []
  notes_of unparsed deadline =
      ("deadline", outcome_value unparsed <> ": " <> readers.show deadline) ∷ []
  notes_of _ deadline = []

  -- `assess` of a row that is stored.
  unfoldable pub assess_row : {E : Type 0} → ℕ → Opportunity E → Option ℕ → FreshnessAssessment
  unfolding assess
  assess_row now r last_verified_at =
      assess now r.category
        (record {
          explicit = r.expires_at;
          deadline = r.deadline;
          posted_at = r.posted_at;
          discovered_at = r.discovered_at;
        })
        last_verified_at

  unfoldable pub seen_again : {E : Type 0} → Opportunity E → ℕ → Opportunity E
  unfolding assess_row
  seen_again existing moment = record existing {
    last_verified_at = some moment;
    freshness_score = some (assess_row moment existing (some moment)).score;
  }

  -- `_revalidate`
  unfoldable pub revalidate : {E : Type 0} → Session E → Opportunity E → ℕ → Session E
  unfolding seen_again replace record_event
  revalidate s existing now =
      record_event (record s { rows = replace s.rows existing.id (seen_again existing now) })
        existing.id OpportunityEventType.revalidated
        (("seen_again_at", given (at_moment now))
          ∷ ("freshness_score", given (ten_thousandths (assess_row now existing (some now)).score))
          ∷ [])
