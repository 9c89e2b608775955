-- ===== src/Gates/Tests.antt =====
-- Worked examples of the gates.
use chief_opportunity_intell.Prelude.{◌<◌, refl, some}
use chief_opportunity_intell.Gates.{apply_contrarian_pressure}
use chief_opportunity_intell.Scoring.Verdict.{zeal}
use chief_opportunity_intell.Decimal.{dec}
use chief_opportunity_intell.Enums.{Recommendation}
use chief_opportunity_intell.Gates.Caution.{apply_contrarian_pressure-inverted}

apply_contrarian_pressure-inverted_example :
    zeal
      (apply_contrarian_pressure Recommendation.strongly_pursue
        (dec 8 1)
        (some (dec 6 1))).recommendation
    < zeal
        (apply_contrarian_pressure Recommendation.strongly_pursue
          (dec 8 1)
          (some (dec 8 1))).recommendation
apply_contrarian_pressure-inverted_example =
    apply_contrarian_pressure-inverted (dec 8 1) (dec 8 1) (dec 6 1) refl refl refl refl
