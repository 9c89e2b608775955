-- ===== src/Urgency/Clock.antt =====
-- What the days to a deadline tell, and the urgency they give.
use native.Mathlib.Nat.{div-add-mod}
use chief_opportunity_intell.Prelude.{
  ℕ, ◌+◌, ◌-◌, ◌*◌, ◌^◌, ◌≤◌, ◌<◌, ◌≡◌, refl, inl, inr, Bool, true, false, Option, none, some,
  arith, leb, Bool-cases,
}
use chief_opportunity_intell.Urgency.{
  urgent_days, relaxed_days, derive_expires_at, assess_at, Times, day, negsuc, pos, days_between,
  assess_expiry, Days, time_sensitivity,
}
use chief_opportunity_intell.Decimal.{Decimal, quantize_even}
use chief_opportunity_intell.Enums.{OpportunityCategory}
use chief_opportunity_intell.Decimal.Rounding.{quantize_even-unit}

-- The moment is in the past by n to n + 1 days, or ahead by them.
unfoldable pub IsDays : Days → ℕ → ℕ → Type 0
IsDays (pos n) now moment = (now + n * day ≤ moment) × (moment < now + (n + 1) * day)
IsDays (negsuc n) now moment =
    (moment + n * day ≤ now) × (now < moment + (n + 1) * day) × (moment < now)

-- The days count whole days towards the deadline, and behind it the day that has begun: n days are
-- left when it is n to n + 1 days ahead, and -(n + 1) when it lies n to n + 1 days back.
pub days_between-IsDays : (now moment : ℕ) → IsDays (days_between now moment) now moment
unfolding days_between IsDays
days_between-IsDays now moment = elim (Bool-cases (leb now moment)) [
  | inl ahead ↦ let split = div-add-mod (moment - now) day in rw ahead (grind arith, grind arith)
  | inr behind ↦
      let split = div-add-mod (now - moment) day in
      rw behind (grind arith, grind arith, ground arith)
]

unfoldable pub is_negative : Days → Bool
is_negative (pos n) = false
is_negative (negsuc n) = true

unfoldable pub is_overdue : Option Days → Bool
unfolding is_negative
is_overdue none = false
is_overdue (some d) = is_negative d

expired_at :
    (now : ℕ) (e : Option ℕ)
    → (assess_at now e).is_expired ≡ is_overdue (assess_at now e).days_remaining
unfolding is_overdue days_between
expired_at now none = refl
expired_at now (some e) = ground arith

-- An opportunity is expired exactly when the days that remain are negative.
pub assess_expiry-is_expired :
    (now : ℕ) (category : OpportunityCategory) (t : Times)
    → (assess_expiry now category t).is_expired
      ≡ is_overdue (assess_expiry now category t).days_remaining
unfolding assess_expiry
assess_expiry-is_expired now category t = expired_at now (derive_expires_at category t)

quantize_even-scale : (a : Decimal) (p : ℕ) → (quantize_even a p).scale ≡ p
unfolding quantize_even
quantize_even-scale a p = refl

-- Urgency is between 0 and 1, whatever the days to the deadline.
pub time_sensitivity-le : (d : Days) → (time_sensitivity d).coeff ≤ 10 ^ (time_sensitivity d).scale
unfolding time_sensitivity
time_sensitivity-le (negsuc n) = ground arith
time_sensitivity-le (pos n) = elim (Bool-cases (leb n urgent_days)) [
  | inl urgent ↦ rw urgent (ground arith)
  | inr later ↦ elim (Bool-cases (leb relaxed_days n)) [
    | inl relaxed ↦ rw (later, relaxed) (ground arith)
    | inr between ↦
        rw (later, between, quantize_even-scale)
          (quantize_even-unit (relaxed_days - n) (relaxed_days - urgent_days) 4 (ground arith)
            (ground arith))
  ]
]
