-- ===== src/Gates/Caution.antt =====
-- The gates only ever make a recommendation more careful.
use chief_opportunity_intell.Prelude.{◌&&◌, ◌≤◌, ◌<◌, ◌≡◌, true, false, Option, none, some, arith}
use chief_opportunity_intell.Gates.{
  gate_floor, is_strong, apply_confidence_floor, apply_contrarian_pressure, press,
}
use chief_opportunity_intell.Enums.{Recommendation}
use chief_opportunity_intell.Decimal.{dec, le_dec, lt_dec, Decimal}
use chief_opportunity_intell.Scoring.Verdict.{is_enthusiastic, zeal}

floor-zeal : (r : Recommendation) (c : Decimal) → zeal (apply_confidence_floor r c) ≤ zeal r
unfolding apply_confidence_floor
floor-zeal r c = ground arith

press-zeal : (p : Decimal) (r : Recommendation) (c : Decimal) → zeal (press p r c).0 ≤ zeal r
unfolding press is_strong
press-zeal p r c = ground arith

-- A gate never asks more of the user than the recommendation it is given.
pub apply_contrarian_pressure-zeal :
    (r : Recommendation) (c : Decimal) (analysis : Option Decimal)
    → zeal (apply_contrarian_pressure r c analysis).recommendation ≤ zeal r
unfolding apply_contrarian_pressure
apply_contrarian_pressure-zeal r c none = floor-zeal r c
apply_contrarian_pressure-zeal r c (some p) =
    let a = press-zeal p (apply_confidence_floor r c) c in let b = floor-zeal r c in ground arith

-- What is still enthusiastic after the gates was so before them and reaches the confidence floor, and
-- it is not STRONGLY_PURSUE under a pressure of 0.4 or more.
pub apply_contrarian_pressure-earned :
    (r : Recommendation) (c p : Decimal)
    → is_enthusiastic (apply_contrarian_pressure r c (some p)).recommendation ≡ true
    → (is_enthusiastic r ≡ true)
      × (lt_dec c gate_floor ≡ false)
      × ((le_dec (dec 4 1) p && is_strong (apply_contrarian_pressure r c (some p)).recommendation)
          ≡ false)
unfolding apply_contrarian_pressure apply_confidence_floor press is_strong
apply_contrarian_pressure-earned r c p h = (ground arith, ground arith, ground arith)

-- On a strong recommendation that is confident enough, a pressure p of 0.75 or more asks more of the
-- user afterwards than any milder pressure q of 0.55 or more.
pub apply_contrarian_pressure-inverted :
    (c p q : Decimal)
    → lt_dec c gate_floor ≡ false
    → le_dec (dec 75 2) p ≡ true
    → le_dec (dec 55 2) q ≡ true
    → le_dec (dec 75 2) q ≡ false
    → zeal (apply_contrarian_pressure Recommendation.strongly_pursue c (some q)).recommendation
      < zeal (apply_contrarian_pressure Recommendation.strongly_pursue c (some p)).recommendation
unfolding apply_contrarian_pressure apply_confidence_floor press is_strong
apply_contrarian_pressure-inverted c p q confident high mild not_high = ground arith
