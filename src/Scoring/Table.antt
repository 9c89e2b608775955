-- ===== src/Scoring/Table.antt =====
-- What scoring does to the table of scores and to the status of the opportunity.
use chief_opportunity_intell.Scoring.Engine.{Weights}
use chief_opportunity_intell.Prelude.{
  ℕ, String, ◌≡◌, refl, inl, inr, Bool, true, false, Option, none, some, List, [], ◌∷◌, arith,
  eq_iff, eq_refl, if◌then◌else◌, Bool-cases,
}
use chief_opportunity_intell.Scoring.Service.{put_score, OpportunityScore, is_for, score_at}
use chief_opportunity_intell.Enums.{OpportunityStatus}
use chief_opportunity_intell.Opportunities.{Opportunity, Session, row_at}

is_for_own :
    (row : OpportunityScore) → is_for row.opportunity_id row.goal_id row.weights_version row ≡ true
unfolding is_for
is_for_own row = ground (arith, eq_refl row.weights_version)

-- Two rows with one key are for the same keys.
is_for-alike :
    (o g : ℕ) (v : String) (new row : OpportunityScore)
    → is_for new.opportunity_id new.goal_id new.weights_version row ≡ true
    → is_for o g v row ≡ is_for o g v new
unfolding is_for
is_for-alike o g v new row h = ground (arith, eq_iff row.weights_version new.weights_version)

-- A row that is for another key than a second one is for no key of it.
is_for-apart :
    (o g : ℕ) (v : String) (new row : OpportunityScore)
    → is_for new.opportunity_id new.goal_id new.weights_version row ≡ false
    → is_for o g v new ≡ true
    → is_for o g v row ≡ false
unfolding is_for
is_for-apart o g v new row h k = ground (arith, eq_iff new.weights_version v)

twice :
    {A : Type 0} (b : Bool) (x y z : A)
    → (if b then x else z) ≡ (if b then x else if b then y else z)
twice true x y z = refl
twice false x y z = refl

swap :
    {A : Type 0} (b c : Bool) (x y z : A)
    → (b ≡ true → c ≡ false)
    → (if c then y else (if b then x else z)) ≡ (if b then x else (if c then y else z))
swap true c x y z apart = rw (apart refl) refl
swap false c x y z apart = refl

-- The table as a map: a row that is put is found under its own key, and every other key is left
-- alone.
pub score_at-put_score :
    (rows : List OpportunityScore) (new : OpportunityScore) (o g : ℕ) (v : String)
    → score_at (put_score rows new) o g v
      ≡ (if is_for o g v new then some new else score_at rows o g v)
unfolding score_at put_score
score_at-put_score [] new o g v = refl
score_at-put_score (row ∷ rows) new o g v =
    elim (Bool-cases (is_for new.opportunity_id new.goal_id new.weights_version row)) [
      | inl hit ↦ rw (hit, is_for-alike o g v new row hit) (twice (is_for o g v new) _ _ _)
      | inr miss ↦
          rw (miss, score_at-put_score rows new o g v)
            (swap (is_for o g v new) (is_for o g v row) _ _ _ (is_for-apart o g v new row miss))
    ]

unfoldable pub status_of : {E : Type 0} → Option (Opportunity E) → Option OpportunityStatus
status_of none = none
status_of (some r) = some r.status

-- The status of a row of the table.
unfoldable pub status_at : {E : Type 0} → Session E → ℕ → Option OpportunityStatus
unfolding status_of
status_at s id = status_of (row_at s.rows id)
