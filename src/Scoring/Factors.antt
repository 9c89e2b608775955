-- ===== src/Scoring/Factors.antt =====
-- backend/app/services/factors.py: what can be derived of an opportunity's dimensions. Skills are
-- given as the set of normalised names that `_skill_names` reads; the texts of the rationale are
-- left out. An expectation and an offer are not negative.
use chief_opportunity_intell.Prelude.{
  ℕ, ◌-◌, ◌*◌, ◌^◌, String, Bool, true, false, not, ◌&&◌, ◌||◌, Option, none, some, List, [], ◌∷◌,
  str_eq, ◌==◌, if◌then◌else◌, length,
}
use chief_opportunity_intell.Decimal.{
  one_dec, min_dec, le_dec, mul, quantize_even, add, to_context, div, dec, Decimal,
}
use chief_opportunity_intell.Urgency.{time_sensitivity, days_until, Days}
use chief_opportunity_intell.Dedup.Sets.{count_both}
use chief_opportunity_intell.Scoring.Dimensions.{fit, Dimension, value}

-- One entry of `work_authorization`, its country upper case and its status lower case.
pub record Authorization : Type 0 where
  pub country : String
  pub status : String

pub record UserProfile : Type 0 where
  pub skills : List String
  pub salary_expectation_min : Option Decimal
  pub salary_expectation_max : Option Decimal
  pub salary_currency : Option String
  pub work_authorization : List Authorization

-- What `derive` reads of an opportunity; the country is upper case.
pub record Posting : Type 0 where
  pub deadline : Option ℕ
  pub required_skills : List String
  pub preferred_skills : List String
  pub compensation_min : Option Decimal
  pub compensation_max : Option Decimal
  pub compensation_currency : Option String
  pub location_country : Option String

-- `FIT_SATURATION`
abbrev pub fit_saturation : Decimal
fit_saturation = dec 85 2

-- `required + Decimal("0.4") * preferred`
unfoldable pub weighted : ℕ → ℕ → Decimal
weighted required preferred = add (dec required 0) (mul (dec 4 1) (dec preferred 0))

unfoldable pub coverage_of : Decimal → Decimal → Decimal
coverage_of hit total = quantize_even (min_dec (div (div hit total) fit_saturation) one_dec) 4

unfoldable pub is_empty : List String → Bool
is_empty [] = true
is_empty (x ∷ xs) = false

-- `_skill_fit`; the total is not zero where a skill is wanted.
unfoldable pub skill_fit : Posting → Option UserProfile → Option Decimal
unfolding weighted coverage_of is_empty count_both
skill_fit posting none = none
skill_fit posting (some profile) =
    if is_empty profile.skills
      || (is_empty posting.required_skills && is_empty posting.preferred_skills)
    then none
    else some (
        coverage_of
          (weighted (count_both posting.required_skills profile.skills)
            (count_both posting.preferred_skills profile.skills))
          (weighted (length posting.required_skills) (length posting.preferred_skills)))

-- `a or b`, where zero counts as missing.
unfoldable pub or_amount : Option Decimal → Option Decimal → Option Decimal
or_amount none b = b
or_amount (some a) b = if a.coeff == 0 then b else some a

-- `a and b and a != b`, on two currencies
unfoldable pub differs : Option String → Option String → Bool
differs (some a) (some b) = not (str_eq a "") && not (str_eq b "") && not (str_eq a b)
differs _ _ = false

-- `a - b`, where b is not above a.
unfoldable pub sub_dec : Decimal → Decimal → Decimal
sub_dec a b =
    to_context (a.coeff * 10 ^ b.scale - b.coeff * 10 ^ a.scale) (10 ^ a.scale * 10 ^ b.scale)

-- The value of an offer against a range, once everything is there.
unfoldable pub offer_value : Decimal → Decimal → Decimal → Decimal
unfolding sub_dec
offer_value offered floor ceiling =
    let half = div floor (dec 2 0) in
    if le_dec ceiling offered
    then dec 10 1
    else if le_dec offered half
    then dec 0 1
    else if le_dec ceiling half
    then dec 5 1
    else quantize_even (min_dec (div (sub_dec offered half) (sub_dec ceiling half)) one_dec) 4

unfoldable pub compare_offer : Option Decimal → Option Decimal → Option Decimal → Option Decimal
unfolding offer_value
compare_offer (some offered) (some floor) (some ceiling) =
    if floor.coeff == 0 then none else some (offer_value offered floor ceiling)
compare_offer _ _ _ = none

-- `_compensation_value`
unfoldable pub compensation_value : Posting → Option UserProfile → Option Decimal
unfolding or_amount differs compare_offer
compensation_value posting none = none
compensation_value posting (some profile) =
    if differs posting.compensation_currency profile.salary_currency
    then none
    else compare_offer (or_amount posting.compensation_max posting.compensation_min)
        (or_amount profile.salary_expectation_min profile.salary_expectation_max)
        (or_amount profile.salary_expectation_max profile.salary_expectation_min)

unfoldable pub is_authorised : String → Bool
is_authorised status =
    str_eq status "citizen" || str_eq status "permanent_resident" || str_eq status "work_visa"

-- The loop over the entries: the first of the country decides.
unfoldable pub authorised_in : List Authorization → String → Option Bool
unfolding is_authorised
authorised_in [] country = none
authorised_in (a ∷ entries) country =
    if not (str_eq a.country country)
    then authorised_in entries country
    else if is_authorised a.status
    then some true
    else if str_eq a.status "none"
    then some false
    else none

unfoldable pub authorised_for : UserProfile → Option String → Option Bool
unfolding authorised_in
authorised_for profile none = none
authorised_for profile (some country) =
    if str_eq country "" then none else authorised_in profile.work_authorization country

-- `_work_authorization`
unfoldable pub work_authorization_of : Posting → Option UserProfile → Option Bool
unfolding authorised_for
work_authorization_of posting none = none
work_authorization_of posting (some profile) = authorised_for profile posting.location_country

unfoldable pub urgency_of : Option Days → Option Decimal
urgency_of none = none
urgency_of (some days) = some (time_sensitivity days)

pub record Derived : Type 0 where
  pub values : Dimension → Option Decimal
  pub eligible : Option Bool
  pub days_to_deadline : Option Days

unfoldable pub derived_value : Posting → Option UserProfile → ℕ → Dimension → Option Decimal
unfolding urgency_of skill_fit compensation_value days_until
derived_value posting profile now Dimension.time_sensitivity =
    urgency_of (days_until posting.deadline now)
derived_value posting profile now fit = skill_fit posting profile
derived_value posting profile now value = compensation_value posting profile
derived_value posting profile now _ = none

unfoldable pub derive : Posting → Option UserProfile → ℕ → Derived
unfolding derived_value work_authorization_of
derive posting profile now = record {
  values = derived_value posting profile now;
  eligible = work_authorization_of posting profile;
  days_to_deadline = days_until posting.deadline now;
}
