-- ===== src/Lifecycle/Events.antt =====
-- What `transition` of lifecycle.py returns and writes into an event.
use chief_opportunity_intell.Prelude.{
  ℕ, ◌+◌, String, ◌≡◌, refl, sym, ◌∙◌, ◌≢◌, inl, inr, Bool, true, false, not, ◌&&◌, ◌||◌, Option,
  none, some, arith, str_eq, ltb, ◌==◌, if◌then◌else◌, Bool-cases, Result, ok, err,
}
use chief_opportunity_intell.Prelude.Dict
use chief_opportunity_intell.Prelude.Dict.{Dict, get, get-put, get-merge-none, get-map_values-none}
use chief_opportunity_intell.Enums.{
  OpportunityStatus, OpportunityEventType, status_eq, status_value,
}
use chief_opportunity_intell.Lifecycle.{
  Item, text, given, add_reason, body_of, transition, can_transition, IllegalMove, cannot_move,
  LifecycleEvent, entry_event,
}

-- The place of a status in the pipeline; the others are exits.
abbrev pub stage : OpportunityStatus → Option ℕ
stage OpportunityStatus.discovered = some 0
stage OpportunityStatus.enriched = some 1
stage OpportunityStatus.qualified = some 2
stage OpportunityStatus.scored = some 3
stage OpportunityStatus.recommended = some 4
stage _ = none

-- From one place to another: any way forward, or one back from the last two places.
abbrev pub goes_on : ℕ → ℕ → Bool
goes_on i j = ltb i j || (ltb 2 i && j + 1 == i)

-- Between places of the pipeline as above, never from an exit into the pipeline, and from all but
-- the archive to every exit.
abbrev pub may_move : Option ℕ → Option ℕ → Bool → Bool
may_move (some i) (some j) archived = goes_on i j
may_move none (some j) archived = false
may_move _ none archived = not archived

abbrev pub is_archived : OpportunityStatus → Bool
is_archived OpportunityStatus.archived = true
is_archived _ = false

-- The event that names what happened to the opportunity, or else that its status changed.
abbrev pub names_entry : OpportunityStatus → OpportunityEventType → Bool
names_entry OpportunityStatus.enriched OpportunityEventType.enriched = true
names_entry OpportunityStatus.scored OpportunityEventType.scored = true
names_entry OpportunityStatus.recommended OpportunityEventType.recommended = true
names_entry OpportunityStatus.expired OpportunityEventType.expired = true
names_entry OpportunityStatus.duplicate OpportunityEventType.deduplicated = true
names_entry OpportunityStatus.rejected OpportunityEventType.dismissed = true
names_entry OpportunityStatus.discovered OpportunityEventType.status_changed = true
names_entry OpportunityStatus.qualified OpportunityEventType.status_changed = true
names_entry OpportunityStatus.archived OpportunityEventType.status_changed = true
names_entry _ _ = false

can_transition-may_move :
    (s t : OpportunityStatus)
    → status_eq s t ≡ false
    → can_transition s t ≡ may_move (stage s) (stage t) (is_archived s)
unfolding can_transition
can_transition-may_move s t h = ground arith

entry_event-names : (t : OpportunityStatus) → names_entry t (entry_event t) ≡ true
unfolding entry_event
entry_event-names t = ground arith

status_eq→eq : (s t : OpportunityStatus) → status_eq s t ≡ true → s ≡ t
status_eq→eq s t h = ground arith

status_ne→ne : (s t : OpportunityStatus) → status_eq s t ≡ false → s ≢ t
status_ne→ne s t h = ground arith

add_reason-get :
    {A : Type 0} (reason : Option String) (body : Dict (Item A)) (k : String)
    → str_eq "reason" k ≡ false
    → get (add_reason reason body) k ≡ get body k
unfolding add_reason
add_reason-get none body k h = refl
add_reason-get (some r) body k h = elim (Bool-cases (str_eq r "")) [
  | inl e ↦ rw e
  | inr e ↦ rw e (rw get-put (rw h))
]

-- The payload names the status that was left and the one that was entered, whatever the reason
-- and the caller's own entries, as long as those bind neither `from` nor `to`.
pub body-from-to :
    {A : Type 0} (s t : OpportunityStatus) (reason : Option String) (extra : Dict A)
    → get extra "from" ≡ none
    → get extra "to" ≡ none
    → (get (body_of s t reason extra) "from" ≡ some (text (status_value s)))
      × (get (body_of s t reason extra) "to" ≡ some (text (status_value t)))
unfolding body_of get
body-from-to s t reason extra hf ht = (
  add_reason-get reason _ "from" refl
      ∙ get-merge-none _ (Dict.map_values given extra) "from"
          (get-map_values-none given extra "from" hf),
  add_reason-get reason _ "to" refl
      ∙ get-merge-none _ (Dict.map_values given extra) "to"
          (get-map_values-none given extra "to" ht),
)

-- A reason that is an empty text is none.
abbrev pub told_reason : {A : Type 0} → Option String → Option (Item A)
told_reason none = none
told_reason (some r) = if str_eq r "" then none else some (text r)

add_reason-told :
    {A : Type 0} (reason : Option String) (body : Dict (Item A))
    → get body "reason" ≡ none
    → get (add_reason reason body) "reason" ≡ told_reason reason
unfolding add_reason
add_reason-told none body h = h
add_reason-told (some r) body h = elim (Bool-cases (str_eq r "")) [
  | inl e ↦ rw e h
  | inr e ↦ rw e (rw get-put refl)
]

body-reason :
    {A : Type 0} (s t : OpportunityStatus) (reason : Option String) (extra : Dict A)
    → get extra "reason" ≡ none
    → get (body_of s t reason extra) "reason" ≡ told_reason reason
unfolding body_of get
body-reason s t reason extra h = add_reason-told reason _ (
    get-merge-none _ (Dict.map_values given extra) "reason"
      (get-map_values-none given extra "reason" h))

module _ {A : Type 0} (s t : OpportunityStatus) (reason : Option String) where
  abbrev pub Outcome : Result IllegalMove (Option (LifecycleEvent A)) → Type 0
  Outcome (ok none) = s ≡ t
  Outcome (ok (some e)) =
      (s ≢ t)
      × (may_move (stage s) (stage t) (is_archived s) ≡ true)
      × (names_entry t e.event_type ≡ true)
      × (get e.payload "from" ≡ some (text (status_value s)))
      × (get e.payload "to" ≡ some (text (status_value t)))
      × (get e.payload "reason" ≡ told_reason reason)
  Outcome (err (cannot_move a b)) =
      (s ≢ t) × (may_move (stage s) (stage t) (is_archived s) ≡ false) × (a ≡ s) × (b ≡ t)

  -- `transition` on every branch, where the caller's entries bind none of `from`, `to` and `reason`.
  -- It gives no event exactly when the status stays; otherwise it makes a move that goes forward in
  -- the pipeline, or back by one from the last two places, or from anything but the archive to an
  -- exit, and raises an error with both statuses for every other move. The event of a move is the one
  -- that names the target, where there is one, and its payload has the status that was left, the one
  -- that was entered, and the reason, if one is given that is not empty.
  pub transition-Outcome :
      (extra : Dict A)
      → get extra "from" ≡ none
      → get extra "to" ≡ none
      → get extra "reason" ≡ none
      → Outcome (transition s t reason extra)
  unfolding transition
  transition-Outcome extra no_from no_to no_reason = elim (Bool-cases (status_eq s t)) [
    | inl e ↦ rw e (status_eq→eq s t e)
    | inr e ↦
        let moves = can_transition-may_move s t e in
        let (from, to) = body-from-to s t reason extra no_from no_to in
        elim (Bool-cases (can_transition s t)) [
          | inl c ↦
              rw (e, c)
                (
                  status_ne→ne s t e,
                  sym moves ∙ c,
                  entry_event-names t,
                  from,
                  to,
                  body-reason s t reason extra no_reason,
                )
          | inr c ↦ rw (e, c) (status_ne→ne s t e, sym moves ∙ c, refl, refl)
        ]
  ]
