-- ===== src/Lifecycle.antt =====
-- backend/app/services/lifecycle.py: the status machine of an opportunity. A frozenset is a list
-- that is only asked for membership; `ValidationError` is the error of a `Result`.
pub mod Moves
pub mod Events
mod Tests
use chief_opportunity_intell.Prelude.{
  Bool, false, not, ◌||◌, String, str_eq, Option, none, some, List, [], ◌∷◌, ◌++◌, Result, ok, err,
  select, if◌then◌else◌,
}
use chief_opportunity_intell.Prelude.Dict
use chief_opportunity_intell.Prelude.Dict.{Dict}
use chief_opportunity_intell.Enums.{
  OpportunityStatus, OpportunityEventType, status_eq, status_value,
}

-- `s in statuses`
abbrev pub contains : List OpportunityStatus → OpportunityStatus → Bool
contains [] s = false
contains (t ∷ ts) s = status_eq s t || contains ts s

-- `_EXITS`
abbrev pub exits : List OpportunityStatus
exits =
    OpportunityStatus.archived ∷ OpportunityStatus.expired ∷ OpportunityStatus.rejected
    ∷ OpportunityStatus.duplicate ∷ []

-- `_PIPELINE`
unfoldable pub pipeline : OpportunityStatus → List OpportunityStatus
pipeline OpportunityStatus.discovered =
    OpportunityStatus.enriched ∷ OpportunityStatus.qualified ∷ OpportunityStatus.scored
    ∷ OpportunityStatus.recommended ∷ []
pipeline OpportunityStatus.enriched =
    OpportunityStatus.qualified ∷ OpportunityStatus.scored ∷ OpportunityStatus.recommended ∷ []
pipeline OpportunityStatus.qualified = OpportunityStatus.scored ∷ OpportunityStatus.recommended ∷ []
pipeline OpportunityStatus.scored = OpportunityStatus.recommended ∷ OpportunityStatus.qualified ∷ []
pipeline OpportunityStatus.recommended = OpportunityStatus.scored ∷ []
pipeline OpportunityStatus.expired = []
pipeline OpportunityStatus.rejected = []
pipeline OpportunityStatus.duplicate = []
pipeline OpportunityStatus.archived = []

-- `TERMINAL`
abbrev pub terminal : List OpportunityStatus
terminal = OpportunityStatus.archived ∷ []

-- `INACTIVE`
abbrev pub inactive : List OpportunityStatus
inactive =
    OpportunityStatus.archived ∷ OpportunityStatus.expired ∷ OpportunityStatus.rejected
    ∷ OpportunityStatus.duplicate ∷ []

-- `_ENTRY_EVENTS.get(target, STATUS_CHANGED)`
unfoldable pub entry_event : OpportunityStatus → OpportunityEventType
entry_event OpportunityStatus.enriched = OpportunityEventType.enriched
entry_event OpportunityStatus.scored = OpportunityEventType.scored
entry_event OpportunityStatus.recommended = OpportunityEventType.recommended
entry_event OpportunityStatus.expired = OpportunityEventType.expired
entry_event OpportunityStatus.duplicate = OpportunityEventType.deduplicated
entry_event OpportunityStatus.rejected = OpportunityEventType.dismissed
entry_event _ = OpportunityEventType.status_changed

-- A payload value: a text that `transition` writes, or one of the caller's own.
pub data Item (A : Type 0) : Type 0 where
  text : String → Item A
  given : A → Item A

pub record LifecycleEvent (A : Type 0) : Type 0 where
  pub event_type : OpportunityEventType
  pub payload : Dict (Item A)

unfoldable pub allowed_transitions : OpportunityStatus → List OpportunityStatus
unfolding pipeline
allowed_transitions current =
    if contains terminal current
    then []
    else pipeline current ++ select (λ s. not (status_eq s current)) exits

unfoldable pub can_transition : OpportunityStatus → OpportunityStatus → Bool
unfolding allowed_transitions
can_transition current target = contains (allowed_transitions current) target

-- The message of the `ValidationError` names both statuses.
pub data IllegalMove : Type 0 where
  cannot_move : OpportunityStatus → OpportunityStatus → IllegalMove

module _ {A : Type 0} where
  -- `if reason: body["reason"] = reason`; an empty text counts as no reason.
  unfoldable pub add_reason : Option String → Dict (Item A) → Dict (Item A)
  add_reason none body = body
  add_reason (some reason) body =
      if str_eq reason "" then body else Dict.put body "reason" (text reason)

  unfoldable pub body_of :
      OpportunityStatus → OpportunityStatus → Option String → Dict A → Dict (Item A)
  unfolding add_reason
  body_of current target reason extra = add_reason reason (
      Dict.merge (("from", text (status_value current)) ∷ ("to", text (status_value target)) ∷ [])
        (Dict.map_values given extra))

  unfoldable pub transition :
      OpportunityStatus
      → OpportunityStatus
      → Option String
      → Dict A
      → Result IllegalMove (Option (LifecycleEvent A))
  unfolding can_transition entry_event
  transition current target reason extra =
      if status_eq current target
      then ok none
      else if not (can_transition current target)
      then err (cannot_move current target)
      else ok (
          some (record {
            event_type = entry_event target;
            payload = body_of current target reason extra;
          }))
