-- ===== src/Ingestion/Refresh.antt =====
-- `refresh` and `set_status`, which move a stored row through the lifecycle.
use chief_opportunity_intell.Prelude.{
  ℕ, String, ◌≡◌, refl, inl, inr, Bool, true, false, not, ◌&&◌, ◌||◌, Option, none, some, List, [],
  ◌∷◌, arith, ltb, if◌then◌else◌, Bool-cases, Result, ok, ◌>>=◌,
}
use chief_opportunity_intell.Opportunities.{
  ten_thousandths, Detail, Session, record_event, row_at, replace, Opportunity,
}
use chief_opportunity_intell.Ingestion.{assess, assess_row, FreshnessAssessment, Readers}
use chief_opportunity_intell.Lifecycle.{
  pipeline, allowed_transitions, can_transition, given, transition, IllegalMove, inactive, contains,
  LifecycleEvent,
}
use chief_opportunity_intell.Enums.{OpportunityEventType, OpportunityStatus}
use chief_opportunity_intell.Urgency.{assess_expiry, assess_at}

unfoldable pub is_some : Option (LifecycleEvent Detail) → Bool
is_some none = false
is_some (some event) = true

module _ {E : Type 0} where
  -- The session with a row changed.
  unfoldable pub update : Session E → Opportunity E → Session E
  unfolding replace
  update s r = record s { rows = replace s.rows r.id r }

  -- What is done with the event of a transition.
  unfoldable pub enter :
      Session E → Opportunity E → OpportunityStatus → Option (LifecycleEvent Detail) → Session E
  unfolding update record_event
  enter s r target none = update s r
  enter s r target (some event) =
      record_event (update s (record r { status = target })) r.id event.event_type event.payload

  -- Whether the status was changed.
  unfoldable pub set_status :
      Session E
      → Opportunity E
      → OpportunityStatus
      → Option String
      → Result IllegalMove (Session E × Bool)
  unfolding enter is_some
  set_status s r target reason =
      transition r.status target reason [] >>= λ event. ok (enter s r target event, is_some event)

  unfoldable pub refreshed : Opportunity E → FreshnessAssessment → Opportunity E
  refreshed r assessment = record r {
    freshness_score = some assessment.score;
    expires_at = assessment.expires_at;
  }

  -- The end of `refresh`, with the row as it is written by then.
  unfoldable pub expire_or_confirm :
      Session E → Opportunity E → FreshnessAssessment → Result IllegalMove (Session E)
  unfolding enter update record_event
  expire_or_confirm s r assessment =
      if assessment.is_expired && not (contains inactive r.status)
      then (transition r.status OpportunityStatus.expired (some "past expiry") [] >>= λ event.
          ok (enter s r OpportunityStatus.expired event))
      else ok (
          record_event (update s r) r.id OpportunityEventType.revalidated
            (("freshness_score", given (ten_thousandths assessment.score)) ∷ []))

module _ {D E : Type 0} (readers : Readers D) where
  unfoldable pub refresh :
      Session E → Opportunity E → ℕ → Result IllegalMove (Session E × FreshnessAssessment)
  unfolding expire_or_confirm refreshed assess_row
  refresh s r now =
      let assessment = assess_row readers now r r.last_verified_at in
      expire_or_confirm s (refreshed r assessment) assessment >>= λ t. ok (t, assessment)

-- `moment > expires_at`
unfoldable pub is_past : ℕ → Option ℕ → Bool
is_past now none = false
is_past now (some expiry) = ltb expiry now

-- A row is settled when it is not past its expiry, or its status keeps it out of ranking.
unfoldable pub is_settled : {E : Type 0} → ℕ → Option (Opportunity E) → Bool
unfolding is_past
is_settled now none = true
is_settled now (some r) = not (is_past now r.expires_at) || contains inactive r.status

replace-row_at :
    {E : Type 0} (rows : List (Opportunity E)) (id : ℕ) (r new : Opportunity E)
    → row_at rows id ≡ some r
    → new.id ≡ id
    → row_at (replace rows id new) id ≡ some new
unfolding row_at replace
replace-row_at [] id r new h same = ground arith
replace-row_at (s ∷ rows) id r new h same = ground (arith, replace-row_at rows id r new)

expired-is_past :
    (now : ℕ) (expiry : Option ℕ)
    → (assess_at now expiry).is_expired ≡ is_past now (assess_at now expiry).expires_at
unfolding is_past
expired-is_past now none = refl
expired-is_past now (some e) = refl

assess_row-is_past :
    {D E : Type 0} (readers : Readers D) (now : ℕ) (r : Opportunity E) (verified : Option ℕ)
    → (assess_row readers now r verified).is_expired
      ≡ is_past now (assess_row readers now r verified).expires_at
unfolding assess_row assess assess_expiry
assess_row-is_past readers now r verified = expired-is_past now _

-- Every status that is not inactive may expire.
transition-expired :
    (s : OpportunityStatus) (reason : Option String)
    → contains inactive s ≡ false
    → (event : LifecycleEvent Detail) × (transition s OpportunityStatus.expired reason []
        ≡ ok (some event))
unfolding transition can_transition allowed_transitions pipeline
transition-expired OpportunityStatus.discovered reason h = (_, refl)
transition-expired OpportunityStatus.enriched reason h = (_, refl)
transition-expired OpportunityStatus.qualified reason h = (_, refl)
transition-expired OpportunityStatus.scored reason h = (_, refl)
transition-expired OpportunityStatus.recommended reason h = (_, refl)
transition-expired OpportunityStatus.archived reason h = absurd (ground arith)
transition-expired OpportunityStatus.expired reason h = absurd (ground arith)
transition-expired OpportunityStatus.rejected reason h = absurd (ground arith)
transition-expired OpportunityStatus.duplicate reason h = absurd (ground arith)

or_true : (b : Bool) → (b || true) ≡ true
or_true b = ground arith

settled_of : (a b : Bool) → (a && not b) ≡ false → (not a || b) ≡ true
settled_of a b h = ground arith

pub row_at-update :
    {E : Type 0} (s : Session E) (old new : Opportunity E)
    → row_at s.rows new.id ≡ some old
    → row_at (update s new).rows new.id ≡ some new
unfolding update
row_at-update s old new h = replace-row_at s.rows new.id old new h refl

expire_or_confirm-is_settled :
    {E : Type 0} (s : Session E) (old r : Opportunity E) (a : FreshnessAssessment) (now : ℕ)
    → row_at s.rows r.id ≡ some old
    → a.is_expired ≡ is_past now r.expires_at
    → (t : Session E) × (expire_or_confirm s r a ≡ ok t)
      × (is_settled now (row_at t.rows r.id) ≡ true)
unfolding expire_or_confirm enter record_event is_settled
expire_or_confirm-is_settled s old r a now h past =
    elim (Bool-cases (a.is_expired && not (contains inactive r.status))) [
      | inl due ↦
          let (event, moves) = transition-expired r.status (some "past expiry") (ground arith) in
          let gone = record r { status = OpportunityStatus.expired } in
          (
            enter s r OpportunityStatus.expired (some event),
            rw (due, moves) refl,
            rw (row_at-update s old gone h) (or_true _),
          )
      | inr current ↦ (
        record_event (update s r) r.id OpportunityEventType.revalidated
            (("freshness_score", given (ten_thousandths a.score)) ∷ []),
        rw current refl,
        rw (row_at-update s old r h, ← past) (settled_of _ _ current),
      )
    ]

-- A refresh of a row of the table returns, whatever the row's status; the row then either is not
-- past the expiry that is stored on it, or has an inactive status.
pub refresh-is_settled :
    {D E : Type 0} (readers : Readers D) (s : Session E) (r : Opportunity E) (now : ℕ)
    → row_at s.rows r.id ≡ some r
    → (t : Session E) × (refresh readers s r now
        ≡ ok (t, assess_row readers now r r.last_verified_at))
      × (is_settled now (row_at t.rows r.id) ≡ true)
unfolding refresh refreshed
refresh-is_settled readers s r now h =
    let a = assess_row readers now r r.last_verified_at in
    let (t, returned, settled) =
      expire_or_confirm-is_settled s r (refreshed r a) a now h
        (assess_row-is_past readers now r r.last_verified_at) in
    (t, rw returned refl, settled)
