-- ===== src/Scoring/Verdict.antt =====
-- `recommend` of scoring.py.
use chief_opportunity_intell.Prelude.{
  ℕ, ◌≤◌, ◌≡◌, Bool, true, false, ◌&&◌, Option, some, List, [], ◌∷◌, arith, if◌then◌else◌,
}
use chief_opportunity_intell.Enums.{Recommendation}
use chief_opportunity_intell.Decimal.{Decimal, dec, lt_dec, le_dec}

-- `RECOMMENDATION_THRESHOLDS`
abbrev pub thresholds : List (Decimal × Recommendation)
thresholds =
    (dec 82 0, Recommendation.strongly_pursue)
    ∷ (dec 66 0, Recommendation.pursue)
    ∷ (dec 45 0, Recommendation.consider)
    ∷ (dec 28 0, Recommendation.low_priority)
    ∷ []

-- `CONFIDENCE_FLOOR`
abbrev pub confidence_floor : Decimal
confidence_floor = dec 45 2

-- The loop over the thresholds: the first that the score reaches.
unfoldable pub first_reached : List (Decimal × Recommendation) → Decimal → Recommendation
first_reached [] overall = Recommendation.ignore
first_reached ((threshold, candidate) ∷ rest) overall =
    if le_dec threshold overall then candidate else first_reached rest overall

-- `verdict in (STRONGLY_PURSUE, PURSUE)`
abbrev pub is_enthusiastic : Recommendation → Bool
is_enthusiastic Recommendation.strongly_pursue = true
is_enthusiastic Recommendation.pursue = true
is_enthusiastic _ = false

-- `eligible is False`
abbrev pub is_false : Option Bool → Bool
is_false (some false) = true
is_false _ = false

unfoldable pub recommend : Decimal → Decimal → Option Bool → Recommendation
unfolding first_reached
recommend overall confidence eligible =
    let verdict = first_reached thresholds overall in
    if is_false eligible
    then Recommendation.ineligible
    else if lt_dec confidence confidence_floor && is_enthusiastic verdict
    then Recommendation.wait
    else verdict

-- How much a verdict asks of the user.
abbrev pub zeal : Recommendation → ℕ
zeal Recommendation.strongly_pursue = 4
zeal Recommendation.pursue = 3
zeal Recommendation.wait = 3
zeal Recommendation.consider = 2
zeal Recommendation.low_priority = 1
zeal Recommendation.ignore = 0
zeal Recommendation.ineligible = 0

-- An enthusiastic verdict, STRONGLY_PURSUE or PURSUE, is earned: the score reaches 66, the confidence
-- its floor, and nobody has said that the user is ineligible.
pub recommend-earned :
    (overall confidence : Decimal) (eligible : Option Bool)
    → is_enthusiastic (recommend overall confidence eligible) ≡ true
    → (le_dec (dec 66 0) overall ≡ true)
      × (lt_dec confidence confidence_floor ≡ false)
      × (is_false eligible ≡ false)
unfolding recommend
recommend-earned overall confidence eligible h = (ground arith, ground arith, ground arith)

-- A higher score, in hundredths, never earns a weaker verdict at the same confidence and eligibility,
-- where WAIT stands with PURSUE.
pub recommend_mono :
    (a b : ℕ) (confidence : Decimal) (eligible : Option Bool)
    → a ≤ b
    → zeal (recommend (dec a 2) confidence eligible)
      ≤ zeal (recommend (dec b 2) confidence eligible)
unfolding recommend first_reached
recommend_mono a b confidence eligible le = ground arith
