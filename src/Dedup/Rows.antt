-- ===== src/Dedup/Rows.antt =====
-- The first row that passes a test, and the best match so far.
use chief_opportunity_intell.Prelude.{
  ℕ, zero, suc, ◌*◌, ◌≡◌, refl, ◌⊎◌, inl, inr, Bool, true, ◌&&◌, Option, some, List, [], ◌∷◌, arith,
  leb, ◌==◌, Bool-cases, take, select,
}
use chief_opportunity_intell.Opportunities.{Opportunity, any_row, first_row}
use chief_opportunity_intell.Dedup.{beats, DuplicateMatch, is_present, MatchMethod, keep_best}
use chief_opportunity_intell.Dedup.Titles.{Ratio}

module _ {E : Type 0} where
  pub any_row-first :
      (p q : Opportunity E → Bool) (rows : List (Opportunity E)) (r : Opportunity E)
      → first_row p rows ≡ some r
      → ((s : Opportunity E) → p s ≡ true → q s ≡ true)
      → any_row (λ s. s.id == r.id && q s) rows ≡ true
  unfolding first_row any_row
  any_row-first p q [] r h narrow = ground arith
  any_row-first p q (s ∷ rows) r h narrow = ground (arith, narrow s, any_row-first p q rows r)

  pub any_row-first_none :
      (p : Opportunity E → Bool) (rows : List (Opportunity E))
      → is_present (first_row p rows) ≡ any_row p rows
  unfolding first_row any_row
  any_row-first_none p [] = refl
  any_row-first_none p (s ∷ rows) = ground (arith, any_row-first_none p rows)

  pub any_row-select :
      (p q : Opportunity E → Bool) (rows : List (Opportunity E))
      → any_row q (select p rows) ≡ true
      → any_row (λ s. q s && p s) rows ≡ true
  unfolding any_row
  any_row-select p q [] h = h
  any_row-select p q (r ∷ rows) h = ground (arith, any_row-select p q rows)

  pub any_row-take :
      (n : ℕ) (q : Opportunity E → Bool) (rows : List (Opportunity E))
      → any_row q (take n rows) ≡ true
      → any_row q rows ≡ true
  unfolding any_row
  any_row-take zero q rows h = ground arith
  any_row-take (suc n) q [] h = h
  any_row-take (suc n) q (r ∷ rows) h = ground (arith, any_row-take n q rows)

  pub any_row_mono :
      (p q : Opportunity E → Bool) (rows : List (Opportunity E))
      → ((s : Opportunity E) → p s ≡ true → q s ≡ true)
      → any_row p rows ≡ true
      → any_row q rows ≡ true
  unfolding any_row
  any_row_mono p q [] narrow h = h
  any_row_mono p q (r ∷ rows) narrow h = ground (arith, narrow r, any_row_mono p q rows narrow)

-- A match that a round of the loop returns is the earlier one, or the row at hand is good enough.
pub keep_best-cases :
    (method : MatchMethod) (threshold id : ℕ) (ratio : Ratio) (best : Option DuplicateMatch)
    (m : DuplicateMatch)
    → keep_best method threshold id ratio best ≡ some m
    → (best ≡ some m)
      ⊎ ((m.opportunity_id ≡ id)
          × (m.method ≡ method)
          × (leb (threshold * ratio.den) (ratio.num * 100) ≡ true))
unfolding keep_best
keep_best-cases method threshold id ratio best m h =
    elim (Bool-cases (leb (threshold * ratio.den) (ratio.num * 100) && beats ratio best)) [
      | inl better ↦
          let made = rw better at h in
          let same_id : m.opportunity_id ≡ id = ground arith in
          let same_method : m.method ≡ method = ground arith in
          inr (same_id, same_method, ground arith)
      | inr worse ↦ inl (rw worse at h)
    ]
