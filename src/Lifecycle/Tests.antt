-- ===== src/Lifecycle/Tests.antt =====
-- Tests and instances for lifecycle.py.
use chief_opportunity_intell.Prelude.{refl, ◌≡◌, none, some, [], ◌∷◌, true, err, String}
use chief_opportunity_intell.Prelude.Dict.{Dict, get}
use chief_opportunity_intell.Enums.{OpportunityStatus}
use chief_opportunity_intell.Lifecycle.{cannot_move, transition, can_transition}
use chief_opportunity_intell.Lifecycle.Moves.{Reach, here, next, is_inactive, Reach-inactive}
use chief_opportunity_intell.Lifecycle.Events.{transition-Outcome, Outcome}

expired_then_archived : Reach OpportunityStatus.expired OpportunityStatus.archived
unfolding can_transition
expired_then_archived = next here refl

scored_to_qualified : Reach OpportunityStatus.scored OpportunityStatus.qualified
unfolding can_transition
scored_to_qualified =
    next {t = OpportunityStatus.scored}
      (next {t = OpportunityStatus.recommended} (next here refl) refl) refl

Reach-inactive_example : is_inactive OpportunityStatus.archived ≡ true
Reach-inactive_example = Reach-inactive refl expired_then_archived

abbrev note : Dict String
note = ("by", "crawler") ∷ []

transition-Outcome_example :
    Outcome OpportunityStatus.scored OpportunityStatus.recommended
      (some "strong")
      (transition OpportunityStatus.scored OpportunityStatus.recommended (some "strong") note)
unfolding get
transition-Outcome_example =
    transition-Outcome OpportunityStatus.scored OpportunityStatus.recommended (some "strong") note
      refl refl refl

illegal_move :
    transition {A = String} OpportunityStatus.scored OpportunityStatus.discovered none []
    ≡ err (cannot_move OpportunityStatus.scored OpportunityStatus.discovered)
unfolding transition
illegal_move = refl
