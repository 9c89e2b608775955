-- ===== src/Enums.antt =====
-- backend/app/models/enums.py: the enumerations that the modelled components share. `value` is the
-- text of a member that is stored and put into payloads.
use chief_opportunity_intell.Prelude.{Bool, true, false, String}

pub data ObjectiveProfile : Type 0 where
  career income business learning networking startup research : ObjectiveProfile

pub data OpportunityCategory : Type 0 where
  job freelance consulting client startup grant fellowship scholarship accelerator :
      OpportunityCategory
  incubator competition conference speaking research partnership business open_source other :
      OpportunityCategory

pub data OpportunityStatus : Type 0 where
  discovered enriched qualified scored recommended archived expired rejected duplicate :
      OpportunityStatus

pub data OpportunityEventType : Type 0 where
  discovered deduplicated enriched scored recommended viewed dismissed revalidated expired :
      OpportunityEventType
  status_changed : OpportunityEventType

pub data Recommendation : Type 0 where
  strongly_pursue pursue consider wait low_priority ignore ineligible : Recommendation

pub data RemoteStatus : Type 0 where
  onsite hybrid remote unknown : RemoteStatus

pub data CompensationPeriod : Type 0 where
  hour day month year project total : CompensationPeriod

pub data ToolTransport : Type 0 where
  native mcp : ToolTransport

pub data ToolCallStatus : Type 0 where
  succeeded failed denied timeout : ToolCallStatus

-- `OpportunityStatus(...).value`
unfoldable pub status_value : OpportunityStatus → String
status_value OpportunityStatus.discovered = "discovered"
status_value OpportunityStatus.enriched = "enriched"
status_value OpportunityStatus.qualified = "qualified"
status_value OpportunityStatus.scored = "scored"
status_value OpportunityStatus.recommended = "recommended"
status_value OpportunityStatus.archived = "archived"
status_value OpportunityStatus.expired = "expired"
status_value OpportunityStatus.rejected = "rejected"
status_value OpportunityStatus.duplicate = "duplicate"

-- Equality of members.
abbrev pub status_eq : OpportunityStatus → OpportunityStatus → Bool
status_eq OpportunityStatus.discovered OpportunityStatus.discovered = true
status_eq OpportunityStatus.enriched OpportunityStatus.enriched = true
status_eq OpportunityStatus.qualified OpportunityStatus.qualified = true
status_eq OpportunityStatus.scored OpportunityStatus.scored = true
status_eq OpportunityStatus.recommended OpportunityStatus.recommended = true
status_eq OpportunityStatus.archived OpportunityStatus.archived = true
status_eq OpportunityStatus.expired OpportunityStatus.expired = true
status_eq OpportunityStatus.rejected OpportunityStatus.rejected = true
status_eq OpportunityStatus.duplicate OpportunityStatus.duplicate = true
status_eq _ _ = false
