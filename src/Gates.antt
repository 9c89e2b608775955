-- ===== src/Gates.antt =====
-- backend/app/agents/decision_gates.py: the gates between a score and the recommendation that is
-- shown. Its floats are exact decimals here.
pub mod Caution
mod Tests
use chief_opportunity_intell.Prelude.{
  ℕ, ◌+◌, ◌-◌, ◌*◌, ◌/◌, Bool, true, false, ◌&&◌, ◌||◌, Option, none, some, ◌==◌, if◌then◌else◌,
}
use chief_opportunity_intell.Enums.{Recommendation}
use chief_opportunity_intell.Decimal.{lt_dec, dec, le_dec, Decimal}
use chief_opportunity_intell.Scoring.Verdict.{is_enthusiastic}

-- `recommendation in (CONSIDER, WAIT, LOW_PRIORITY)`
unfoldable pub is_middling : Recommendation → Bool
is_middling Recommendation.consider = true
is_middling Recommendation.wait = true
is_middling Recommendation.low_priority = true
is_middling _ = false

unfoldable pub is_borderline : Decimal → Recommendation → Bool
unfolding is_middling
is_borderline overall recommendation =
    is_middling recommendation || (le_dec (dec 45 0) overall && le_dec overall (dec 60 0))

-- `CONFIDENCE_FLOOR`
abbrev pub gate_floor : Decimal
gate_floor = dec 35 2

unfoldable pub apply_confidence_floor : Recommendation → Decimal → Recommendation
apply_confidence_floor recommendation confidence =
    if lt_dec confidence gate_floor && is_enthusiastic recommendation
    then Recommendation.consider
    else recommendation

-- `updated == STRONGLY_PURSUE`
unfoldable pub is_strong : Recommendation → Bool
is_strong Recommendation.strongly_pursue = true
is_strong _ = false

-- `updated != original`
unfoldable pub differs : Recommendation → Recommendation → Bool
differs Recommendation.strongly_pursue Recommendation.strongly_pursue = false
differs Recommendation.pursue Recommendation.pursue = false
differs Recommendation.consider Recommendation.consider = false
differs Recommendation.wait Recommendation.wait = false
differs Recommendation.low_priority Recommendation.low_priority = false
differs Recommendation.ignore Recommendation.ignore = false
differs Recommendation.ineligible Recommendation.ineligible = false
differs _ _ = true

-- What a gate returns.
pub record Gated : Type 0 where
  pub recommendation : Recommendation
  pub confidence : Decimal
  pub changed : Bool

-- confidence * (percent / 100)
abbrev pub percent_of : ℕ → Decimal → Decimal
percent_of percent confidence = dec (percent * confidence.coeff) (2 + confidence.scale)

-- The three branches on `analysis.verdict_pressure`.
unfoldable pub press : Decimal → Recommendation → Decimal → Recommendation × Decimal
unfolding is_strong
press pressure updated confidence =
    if le_dec (dec 75 2) pressure && is_strong updated
    then (Recommendation.pursue, percent_of 85 confidence)
    else if le_dec (dec 55 2) pressure && is_enthusiastic updated
    then (Recommendation.consider, percent_of 75 confidence)
    else if le_dec (dec 4 1) pressure && is_strong updated
    then (Recommendation.pursue, percent_of 90 confidence)
    else (updated, confidence)

-- The analysis, where there is one, is its `verdict_pressure`.
unfoldable pub apply_contrarian_pressure : Recommendation → Decimal → Option Decimal → Gated
unfolding apply_confidence_floor press differs
apply_contrarian_pressure original confidence none =
    let updated = apply_confidence_floor original confidence in
    record { recommendation = updated; confidence = confidence; changed = differs updated original }
apply_contrarian_pressure original confidence (some pressure) =
    let (updated, adjusted) =
      press pressure (apply_confidence_floor original confidence) confidence in
    record { recommendation = updated; confidence = adjusted; changed = differs updated original }
