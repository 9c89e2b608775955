-- ===== src/Ingestion/Outcomes.antt =====
-- What the outcome of a store says of its match, and when a second row is refused.
use chief_opportunity_intell.Ingestion.Clashes.{any_row-append}
use chief_opportunity_intell.Enums.{OpportunityStatus, status_eq}
use chief_opportunity_intell.Opportunities.{Session, Opportunity, any_row}
use chief_opportunity_intell.Ingestion.Again.{is_outcome}
use chief_opportunity_intell.Ingestion.Rows.{stored_status, stored_outcome, violates, store, flush}
use chief_opportunity_intell.Dedup.{DuplicateMatch, is_present, same_column, column_is}
use chief_opportunity_intell.Ingestion.{
  created, flagged_duplicate, FreshnessAssessment, integrity_error,
}
use chief_opportunity_intell.Prelude.{
  String, ◌≡◌, refl, inl, inr, Bool, true, false, not, ◌&&◌, ◌||◌, Option, none, some, List, [],
  ◌∷◌, ◌++◌, arith, eq_refl, Bool-cases, err,
}
use chief_opportunity_intell.Prelude.Dict.{Dict}

pub created-none :
    (m : Option DuplicateMatch) → is_outcome (stored_outcome m) created ≡ true → m ≡ none
unfolding is_outcome stored_outcome
created-none none h = refl
created-none (some m) h = ground arith

pub flagged-some :
    (m : Option DuplicateMatch)
    → is_outcome (stored_outcome m) flagged_duplicate ≡ true
    → (d : DuplicateMatch) × (m ≡ some d)
unfolding is_outcome stored_outcome
flagged-some none h = absurd (ground arith)
flagged-some (some m) h = (m, refl)

pub is_present-none : {A : Type 0} (o : Option A) → is_present o ≡ false → o ≡ none
is_present-none none h = refl
is_present-none (some a) h = ground arith

pub false-true : false ≡ true → ⊥
false-true h = ground arith

pub found-last :
    {E : Type 0} (p : Opportunity E → Bool) (rows : List (Opportunity E)) (new : Opportunity E)
    (more : Bool)
    → p new ≡ true
    → (any_row p (rows ++ new ∷ []) || more) ≡ true
found-last p rows new more h = let last = any_row-append p rows new in ground arith

pub violates_same :
    {E : Type 0} (new r : Opportunity E) (hash : String)
    → new.content_hash ≡ some hash
    → r.content_hash ≡ some hash
    → violates new r ≡ true
unfolding violates same_column column_is
violates_same new r hash new_hash old_hash = rw (new_hash, old_hash, eq_refl hash) refl

pub store-refused :
    {E : Type 0} (s : Session E) (new : Opportunity E) (m : Option DuplicateMatch)
    (a : FreshnessAssessment) (notes : Dict String)
    → any_row (violates new) s.rows ≡ true
    → store s new m a notes ≡ err integrity_error
unfolding store flush
store-refused s new m a notes h = rw h refl

pub or_true : (b : Bool) → (b || true) ≡ true
or_true b = ground arith

pub and_false : (b : Bool) → (false || (b && (not true && true))) ≡ false
and_false b = ground arith

pub neither : (a b : Bool) → (a || b) ≡ false → (a ≡ false) × (b ≡ false)
neither a b h = (ground arith, ground arith)

pub live_status :
    (a : FreshnessAssessment) → status_eq (stored_status none a) OpportunityStatus.duplicate ≡ false
unfolding stored_status
live_status a = elim (Bool-cases a.is_expired) [
  | inl past ↦ rw past refl
  | inr open_to ↦ rw open_to refl
]

pub any_row-join :
    {E : Type 0} (p : Opportunity E → Bool) (xs ys : List (Opportunity E))
    → any_row p (xs ++ ys) ≡ (any_row p xs || any_row p ys)
unfolding any_row
any_row-join p [] ys = refl
any_row-join p (x ∷ xs) ys = ground (arith, any_row-join p xs ys)
