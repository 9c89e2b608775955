-- ===== src/Lifecycle/Moves.antt =====
-- The moves of lifecycle.py as a relation, and what they reach.
use chief_opportunity_intell.Prelude.{Bool, true, false, ◌≡◌, refl, arith}
use chief_opportunity_intell.Enums.{OpportunityStatus}
use chief_opportunity_intell.Lifecycle.{contains, inactive, can_transition}

-- Any number of accepted moves.
pub data Reach (s : OpportunityStatus) : OpportunityStatus → Type 0 where
  here : Reach s s
  next : {t u : OpportunityStatus} → Reach s t → can_transition t u ≡ true → Reach s u

-- Whether ranking and recommendation leave the status out.
abbrev pub is_inactive : OpportunityStatus → Bool
is_inactive s = contains inactive s

-- How far enrichment has come: a scored row never falls back below this line.
abbrev pub is_early : OpportunityStatus → Bool
is_early OpportunityStatus.discovered = true
is_early OpportunityStatus.enriched = true
is_early _ = false

inactive-move :
    (s t : OpportunityStatus)
    → is_inactive s ≡ true
    → can_transition s t ≡ true
    → is_inactive t ≡ true
unfolding can_transition
inactive-move s t h m = ground arith

archived_stuck : (t : OpportunityStatus) → can_transition OpportunityStatus.archived t ≡ false
unfolding can_transition
archived_stuck t = refl

late-move :
    (s t : OpportunityStatus) → is_early s ≡ false → can_transition s t ≡ true → is_early t ≡ false
unfolding can_transition
late-move s t h m = ground arith

enters_discovered : (s : OpportunityStatus) → can_transition s OpportunityStatus.discovered ≡ false
unfolding can_transition
enters_discovered s = ground arith

-- Once a status is inactive (archived, expired, rejected or duplicate), every sequence of accepted
-- moves leaves it inactive.
pub Reach-inactive :
    {s t : OpportunityStatus} → is_inactive s ≡ true → Reach s t → is_inactive t ≡ true
Reach-inactive h here = h
Reach-inactive h (next {t} {u} r m) = inactive-move t u (Reach-inactive h r) m

-- A status past enrichment (neither discovered nor enriched) never comes back to discovered or
-- enriched, by any accepted moves.
pub Reach-late : {s t : OpportunityStatus} → is_early s ≡ false → Reach s t → is_early t ≡ false
Reach-late h here = h
Reach-late h (next {t} {u} r m) = late-move t u (Reach-late h r) m
