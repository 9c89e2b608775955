-- ===== src/Urgency.antt =====
-- The clock arithmetic of backend/app/services/freshness.py and backend/app/services/factors.py:
-- expiry, days to a deadline and the urgency that follows from them. Moments are whole seconds in
-- UTC. The decay of confidence in old information, a power of floats, is not modelled.
pub mod Clock
mod Tests
use chief_opportunity_intell.Prelude.{
  ℕ, ◌+◌, ◌-◌, ◌*◌, ◌/◌, Bool, false, not, Option, none, some, ltb, leb, if◌then◌else◌,
}
use chief_opportunity_intell.Enums.{OpportunityCategory}
use chief_opportunity_intell.Decimal.{div, quantize_even, dec, Decimal}

-- A number of days: `pos n` is n, `negsuc n` is -(n + 1).
pub data Days : Type 0 where
  pos negsuc : ℕ → Days

abbrev pub day : ℕ
day = 86400

-- `delta.days if delta.total_seconds() >= 0 else -((-delta).days + 1)`, with delta = moment - now
unfoldable pub days_between : ℕ → ℕ → Days
days_between now moment =
    if leb now moment then pos ((moment - now) / day) else negsuc ((now - moment) / day)

-- `_days_until`
unfoldable pub days_until : Option ℕ → ℕ → Option Days
unfolding days_between
days_until none now = none
days_until (some deadline) now = some (days_between now deadline)

-- `URGENT_DAYS`, `RELAXED_DAYS`
abbrev pub urgent_days : ℕ
urgent_days = 7

abbrev pub relaxed_days : ℕ
relaxed_days = 120

unfoldable pub time_sensitivity : Days → Decimal
time_sensitivity (negsuc n) = dec 10 1
time_sensitivity (pos n) =
    if leb n urgent_days
    then dec 10 1
    else if leb relaxed_days n
    then dec 0 1
    else quantize_even (div (dec (relaxed_days - n) 0) (dec (relaxed_days - urgent_days) 0)) 4

-- `DEFAULT_TTL_DAYS`, which has every category.
unfoldable pub default_ttl_days : OpportunityCategory → ℕ
default_ttl_days OpportunityCategory.job = 60
default_ttl_days OpportunityCategory.freelance = 30
default_ttl_days OpportunityCategory.consulting = 45
default_ttl_days OpportunityCategory.client = 45
default_ttl_days OpportunityCategory.startup = 90
default_ttl_days OpportunityCategory.grant = 180
default_ttl_days OpportunityCategory.fellowship = 180
default_ttl_days OpportunityCategory.scholarship = 180
default_ttl_days OpportunityCategory.accelerator = 120
default_ttl_days OpportunityCategory.incubator = 120
default_ttl_days OpportunityCategory.competition = 90
default_ttl_days OpportunityCategory.conference = 120
default_ttl_days OpportunityCategory.speaking = 90
default_ttl_days OpportunityCategory.research = 120
default_ttl_days OpportunityCategory.partnership = 120
default_ttl_days OpportunityCategory.business = 90
default_ttl_days OpportunityCategory.open_source = 180
default_ttl_days OpportunityCategory.other = 90

-- `a or b`
abbrev pub or_else : Option ℕ → Option ℕ → Option ℕ
or_else none b = b
or_else (some a) b = some a

-- The times that an opportunity is stored with.
pub record Times : Type 0 where
  pub explicit : Option ℕ
  pub deadline : Option ℕ
  pub posted_at : Option ℕ
  pub discovered_at : Option ℕ

abbrev after_ttl : Option ℕ → ℕ → Option ℕ
after_ttl none ttl = none
after_ttl (some anchor) ttl = some (anchor + ttl * day)

unfoldable pub derive_expires_at : OpportunityCategory → Times → Option ℕ
unfolding default_ttl_days
derive_expires_at category t = or_else t.explicit (
    or_else t.deadline
      (after_ttl (or_else t.posted_at t.discovered_at) (default_ttl_days category)))

-- `is_expired` and `days_remaining` of `assess`.
pub record Expiry : Type 0 where
  pub expires_at : Option ℕ
  pub is_expired : Bool
  pub days_remaining : Option Days

abbrev pub assess_at : ℕ → Option ℕ → Expiry
assess_at now none = record { expires_at = none; is_expired = false; days_remaining = none }
assess_at now (some expiry) = record {
  expires_at = some expiry;
  is_expired = ltb expiry now;
  days_remaining = some (days_between now expiry);
}

unfoldable pub assess_expiry : ℕ → OpportunityCategory → Times → Expiry
unfolding derive_expires_at days_between
assess_expiry now category t = assess_at now (derive_expires_at category t)
