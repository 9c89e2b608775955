-- ===== src/Urgency/Tests.antt =====
-- Worked examples of the clock arithmetic.
use chief_opportunity_intell.Prelude.{◌*◌, ◌≡◌, refl, none, some}
use chief_opportunity_intell.Urgency.{negsuc, day, Times, days_between}

abbrev posted : Times
posted = record {
  explicit = none;
  deadline = none;
  posted_at = some (3 * day);
  discovered_at = none;
}

-- Exactly two days late is three days late.
two_days_late : days_between (5 * day) (3 * day) ≡ negsuc 2
unfolding days_between
two_days_late = refl
