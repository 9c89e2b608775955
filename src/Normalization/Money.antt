-- ===== src/Normalization/Money.antt =====
-- The currency, the pay period and the bounds of a compensation range. The bounds are given as
-- `_to_decimal` reads them.
use chief_opportunity_intell.Prelude.{
  String, Bool, true, false, ◌||◌, Option, none, some, [], ◌∷◌, str_eq, if◌then◌else◌,
}
use chief_opportunity_intell.Prelude.Dict
use chief_opportunity_intell.Prelude.Dict.{Dict}
use chief_opportunity_intell.Enums.{total, project, year, month, day, hour, CompensationPeriod}
use chief_opportunity_intell.Normalization.{is_lower_letter, keep, within, is_code, Platform}
use chief_opportunity_intell.Opportunities.{minus, plus, Amount}
use chief_opportunity_intell.Prelude.Texts.{strip}
use chief_opportunity_intell.Decimal.{lt_dec}

-- `_CURRENCY_SYMBOLS`
abbrev pub currency_symbols : Dict String
currency_symbols =
    ("$", "USD")
    ∷ ("£", "GBP")
    ∷ ("€", "EUR")
    ∷ ("¥", "JPY")
    ∷ ("₹", "INR")
    ∷ ("₽", "RUB")
    ∷ ("₩", "KRW")
    ∷ ("R$", "BRL")
    ∷ ("C$", "CAD")
    ∷ ("A$", "AUD")
    ∷ []

-- `_PERIOD_WORDS`
abbrev pub period_words : Dict CompensationPeriod
period_words =
    ("hour", hour)
    ∷ ("hourly", hour)
    ∷ ("hr", hour)
    ∷ ("day", day)
    ∷ ("daily", day)
    ∷ ("diem", day)
    ∷ ("month", month)
    ∷ ("monthly", month)
    ∷ ("mo", month)
    ∷ ("year", year)
    ∷ ("yearly", year)
    ∷ ("annual", year)
    ∷ ("annually", year)
    ∷ ("annum", year)
    ∷ ("pa", year)
    ∷ ("project", project)
    ∷ ("total", total)
    ∷ ("one-off", total)
    ∷ ("lump", total)
    ∷ []

-- The first word that is contained in the token.
unfoldable pub first_within : Dict CompensationPeriod → String → Option CompensationPeriod
first_within [] token = none
first_within ((w, period) ∷ words) token =
    let rest = first_within words token in if within w token then some period else rest

unfoldable pub period_of : Option CompensationPeriod → String → Option CompensationPeriod
unfolding first_within
period_of (some period) token = some period
period_of none token = first_within period_words token

module _ (platform : Platform) where
  unfoldable pub code_of : Option String → String → Option String
  code_of (some known) candidate = some known
  code_of none candidate = if is_code candidate then some (platform.upper candidate) else none

  unfoldable pub normalize_currency : Option String → Option String
  unfolding code_of
  normalize_currency none = none
  normalize_currency (some value) =
      if str_eq value ""
      then none
      else code_of (Dict.get currency_symbols (strip value)) (strip value)

  -- The token without anything but letters.
  unfoldable pub period_token : String → String
  unfolding keep is_lower_letter
  period_token value = keep is_lower_letter (platform.lower (strip value))

  unfoldable pub normalize_period : Option String → Option CompensationPeriod
  unfolding period_token period_of
  normalize_period none = none
  normalize_period (some value) =
      let token = period_token value in
      if str_eq value "" || str_eq token ""
      then none
      else period_of (Dict.get period_words token) token

-- `low > high`
unfoldable pub is_above : Amount → Amount → Bool
is_above (plus a) (plus b) = lt_dec b a
is_above (plus a) (minus b) = true
is_above (minus a) (plus b) = false
is_above (minus a) (minus b) = lt_dec a b

unfoldable pub ordered : Option Amount → Option Amount → Option Amount × Option Amount
unfolding is_above
ordered (some low) (some high) =
    if is_above low high then (some high, some low) else (some low, some high)
ordered low high = (low, high)

-- `if low is not None and low < 0: low = None`
unfoldable pub drop_negative : Option Amount → Option Amount
drop_negative none = none
drop_negative (some (plus a)) = some (plus a)
drop_negative (some (minus a)) = none

-- The period as a text, or as a member already.
pub data PeriodInput : Type 0 where
  member : CompensationPeriod → PeriodInput
  text : Option String → PeriodInput

pub record NormalizedCompensation : Type 0 where
  pub minimum : Option Amount
  pub maximum : Option Amount
  pub currency : Option String
  pub period : Option CompensationPeriod

module _ (platform : Platform) where
  unfoldable pub resolve_period : PeriodInput → Option CompensationPeriod
  resolve_period (member period) = some period
  resolve_period (text value) = normalize_period platform value

  unfoldable pub normalize_compensation :
      Option Amount → Option Amount → Option String → PeriodInput → NormalizedCompensation
  unfolding ordered drop_negative resolve_period
  normalize_compensation low high currency period = record {
    minimum = drop_negative (ordered low high).0;
    maximum = drop_negative (ordered low high).1;
    currency = normalize_currency platform currency;
    period = resolve_period period;
  }
