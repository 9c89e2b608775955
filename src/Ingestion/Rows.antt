-- ===== src/Ingestion/Rows.antt =====
-- backend/app/services/ingestion.py: the row that `ingest` stores, its events and its outcome; the
-- unique constraints of backend/app/models/opportunity.py.
use chief_opportunity_intell.Prelude.{
  ℕ, suc, String, Bool, false, ◌&&◌, ◌||◌, Option, none, some, List, [], ◌∷◌, ◌++◌, ◌==◌,
  if◌then◌else◌, Result, ok, err, ◌>>=◌,
}
use chief_opportunity_intell.Dedup.{method_value, is_exact_method, same_column, DuplicateMatch}
use chief_opportunity_intell.Opportunities.{
  ten_thousandths, word, row, noted, at_moment, row_at, any_row, no_value, Session, Detail,
  record_event, Opportunity,
}
use chief_opportunity_intell.Prelude.Dict.{Dict}
use chief_opportunity_intell.Ingestion.{
  rejected, integrity_error, flagged_duplicate, created, IngestionResult, Reason, DatabaseError,
  IngestionOutcome, FreshnessAssessment,
}
use chief_opportunity_intell.Lifecycle.{given, Item}
use chief_opportunity_intell.Enums.{OpportunityEventType, OpportunityStatus}

abbrev pub reject : {E : Type 0} → Session E → Reason → Session E × IngestionResult E
reject s reason = (
  s,
  record {
    outcome = rejected;
    opportunity = none;
    duplicate_of = none;
    match_found = none;
    reason = some reason;
    notes = [];
  },
)

abbrev pub id_of : Option DuplicateMatch → Option ℕ
id_of none = none
id_of (some m) = some m.opportunity_id

-- `bool(payload)`: what `**({"notes": notes} if notes else {})` adds.
unfoldable noted_in : Dict String → Dict (Item Detail)
noted_in [] = []
noted_in (n ∷ notes) = ("notes", given (noted (n ∷ notes))) ∷ []

unfoldable moment_detail : Option ℕ → Detail
moment_detail none = no_value
moment_detail (some t) = at_moment t

-- The constraints of the table: `content_hash`, and (`source_id`, `external_id`), are unique; NULL
-- is no value.
unfoldable same_source : Option ℕ → Option ℕ → Bool
same_source (some a) (some b) = a == b
same_source _ _ = false

unfoldable pub stored_outcome : Option DuplicateMatch → IngestionOutcome
stored_outcome none = created
stored_outcome (some m) = flagged_duplicate

unfoldable pub stored_status : Option DuplicateMatch → FreshnessAssessment → OpportunityStatus
stored_status (some m) assessment = OpportunityStatus.duplicate
stored_status none assessment =
    if assessment.is_expired then OpportunityStatus.expired else OpportunityStatus.discovered

module _ {E : Type 0} where
  unfoldable pub violates : Opportunity E → Opportunity E → Bool
  unfolding same_column same_source
  violates new r =
      same_column r.content_hash new.content_hash
      || (same_source r.source_id new.source_id && same_column r.external_id new.external_id)

  -- `session.add(opportunity)`, `session.flush()`
  unfoldable pub flush : Session E → Opportunity E → Result DatabaseError (Session E)
  unfolding violates
  flush s new =
      if any_row (violates new) s.rows
      then err integrity_error
      else ok (record s { rows = s.rows ++ new ∷ []; next_id = suc s.next_id })

  -- The row that an exact match is merged into.
  unfoldable pub merge_target :
      List (Opportunity E) → Option DuplicateMatch → Option (Opportunity E)
  merge_target rows none = none
  merge_target rows (some m) =
      if is_exact_method m.method then row_at rows m.opportunity_id else none

  -- The second event of a row that was stored.
  unfoldable pub record_outcome :
      Session E → ℕ → Option DuplicateMatch → FreshnessAssessment → Session E
  unfolding record_event method_value moment_detail
  record_outcome s id (some m) assessment = record_event s id OpportunityEventType.deduplicated (
      ("duplicate_of", given (row m.opportunity_id))
      ∷ ("method", given (word (method_value m.method)))
      ∷ ("similarity", given (ten_thousandths m.similarity))
      ∷ [])
  record_outcome s id none assessment =
      if assessment.is_expired
      then record_event s id OpportunityEventType.expired
          (("expires_at", given (moment_detail assessment.expires_at)) ∷ [])
      else s

  -- The events of a row that was stored.
  unfoldable pub record_stored :
      Session E
      → Opportunity E
      → Option DuplicateMatch
      → FreshnessAssessment
      → Dict String
      → Session E
  unfolding record_outcome record_event noted_in
  record_stored s new m assessment notes =
      record_outcome
        (record_event s new.id OpportunityEventType.discovered
          (("source_url", given (word new.source_url)) ∷ noted_in notes))
        new.id m assessment

  unfoldable pub store :
      Session E
      → Opportunity E
      → Option DuplicateMatch
      → FreshnessAssessment
      → Dict String
      → Result DatabaseError (Session E × IngestionResult E)
  unfolding flush record_stored stored_outcome
  store s new m assessment notes = flush s new >>= λ t. ok (
    record_stored t new m assessment notes,
    record {
      outcome = stored_outcome m;
      opportunity = some new;
      duplicate_of = id_of m;
      match_found = m;
      reason = none;
      notes = notes;
    },
  )
