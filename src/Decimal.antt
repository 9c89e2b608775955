-- ===== src/Decimal.antt =====
-- Python's `decimal`, as backend/app/services/scoring.py uses it: values that are not negative, with
-- the default context of 28 digits and ROUND_HALF_EVEN. A value is coeff / 10^scale; two
-- representations of one value are not told apart by any operation here.
pub mod Rounding
use chief_opportunity_intell.Prelude.{
  ℕ, zero, suc, ◌+◌, ◌-◌, ◌*◌, ◌/◌, ◌%◌, ◌^◌, min, Bool, not, ◌&&◌, ◌||◌, List, [], ◌∷◌, ltb, leb,
  ◌==◌, if◌then◌else◌, take,
}

pub record Decimal : Type 0 where
  pub coeff : ℕ
  pub scale : ℕ

-- `Decimal("c.ccc")`
abbrev pub dec : ℕ → ℕ → Decimal
dec c s = record { coeff = c; scale = s }

abbrev pub zero_dec : Decimal
zero_dec = dec 0 0

abbrev pub one_dec : Decimal
one_dec = dec 1 0

abbrev pub hundred_dec : Decimal
hundred_dec = dec 100 0

-- num / den to the nearest whole number, ties up.
unfoldable pub half_up : ℕ → ℕ → ℕ
half_up num den = if leb den (2 * (num % den)) then num / den + 1 else num / den

-- The same, ties to the even neighbour.
unfoldable pub half_even : ℕ → ℕ → ℕ
half_even num den =
    if ltb den (2 * (num % den)) || (2 * (num % den) == den && (num / den) % 2 == 1)
    then num / den + 1
    else num / den

-- The coefficients of the context stay below this.
abbrev pub precision_limit : ℕ
precision_limit = 10 ^ 28

-- How many more decimal places `num / den` can take before it has 28 digits.
unfoldable pub places : ℕ → ℕ → ℕ → ℕ
places zero num den = 0
places (suc fuel) num den =
    let more = suc (places fuel (num * 10) den) in
    if ltb (num * 10) (precision_limit * den) then more else 0

-- The exact value num / den, rounded to 28 digits. A positive quotient of these numbers has its
-- first digit within `den` places behind the point, so `28 + den` rounds reach 28 digits.
unfoldable pub to_context : ℕ → ℕ → Decimal
unfolding places half_even
to_context zero den = zero_dec
to_context num den = let p = places (28 + den) num den in dec (half_even (num * 10 ^ p) den) p

unfoldable pub add : Decimal → Decimal → Decimal
add a b = to_context (a.coeff * 10 ^ b.scale + b.coeff * 10 ^ a.scale) (10 ^ a.scale * 10 ^ b.scale)

unfoldable pub mul : Decimal → Decimal → Decimal
mul a b = to_context (a.coeff * b.coeff) (10 ^ a.scale * 10 ^ b.scale)

-- `b` is not zero where the program divides.
unfoldable pub div : Decimal → Decimal → Decimal
div a b = to_context (a.coeff * 10 ^ b.scale) (b.coeff * 10 ^ a.scale)

abbrev pub lt_dec : Decimal → Decimal → Bool
lt_dec a b = ltb (a.coeff * 10 ^ b.scale) (b.coeff * 10 ^ a.scale)

abbrev pub le_dec : Decimal → Decimal → Bool
le_dec a b = leb (a.coeff * 10 ^ b.scale) (b.coeff * 10 ^ a.scale)

-- `min(a, b)`, which returns the first of two equal values.
unfoldable pub min_dec : Decimal → Decimal → Decimal
min_dec a b = if lt_dec b a then b else a

-- `a.quantize(Decimal("1E-p"), ROUND_HALF_UP)`, and with the default rounding, of a value whose
-- result has at most 28 digits; beyond that Python raises `InvalidOperation`.
unfoldable pub quantize_up : Decimal → ℕ → Decimal
quantize_up a p = dec (half_up (a.coeff * 10 ^ p) (10 ^ a.scale)) p

unfoldable pub quantize_even : Decimal → ℕ → Decimal
quantize_even a p = dec (half_even (a.coeff * 10 ^ p) (10 ^ a.scale)) p

-- `sum(values, ZERO)`
unfoldable pub sum_dec : Decimal → List Decimal → Decimal
unfolding add
sum_dec acc [] = acc
sum_dec acc (d ∷ ds) = sum_dec (add acc d) ds
