-- ===== src/Normalization.antt =====
-- backend/app/services/normalization.py: the fields of a raw opportunity in canonical form. Python's
-- Unicode tables and SHA-256 are the functions of `Platform`. A monetary amount is a magnitude with
-- a sign. Dates and the coercion of raw amounts to numbers are not modelled.
pub mod Money
use Prim.Native.Char.{Char, code}
use Prim.Native.String.{String, [], ◌∷◌, ◌++◌}
use chief_opportunity_intell.Prelude.{
  Bool, true, false, not, ◌&&◌, ◌||◌, Option, none, some, leb, ◌==◌, if◌then◌else◌, str_eq, ◌^◌,
}
use chief_opportunity_intell.Prelude.Texts.{is_space, strip}
use chief_opportunity_intell.Prelude.Dict
use chief_opportunity_intell.Prelude.Dict.{Dict}

-- What the program takes from Python's `unicodedata`, `str`, `hashlib` and from the database.
pub record Platform : Type 0 where
  pub nfkc : String → String
  pub is_other : Char → Bool
  pub casefold : String → String
  pub upper : String → String
  pub lower : String → String
  pub is_alpha : String → Bool
  pub sha256 : String → String
  pub sql_lower : String → String

-- `_INVISIBLE`
unfoldable pub is_invisible : Char → Bool
is_invisible c =
    let n = code c in n == 173 || (leb 8203 n && leb n 8207) || n == 8232 || n == 8233 || n == 65279

-- The characters of a text that pass a test, in order.
unfoldable pub keep : (Char → Bool) → String → String
keep p [] = []
keep p (c ∷ s) = let rest = keep p s in if p c then c ∷ rest else rest

-- `_WHITESPACE.sub(" ", text)`; the flag tells that a run of white space is being skipped.
unfoldable pub collapse : Bool → String → String
unfolding is_space
collapse skipping [] = []
collapse skipping (c ∷ s) =
    let inside = collapse true s in
    let outside = collapse false s in
    if is_space c then (if skipping then inside else " " ++ inside) else c ∷ outside

-- `text or None`
abbrev pub or_none : String → Option String
or_none [] = none
or_none (c ∷ s) = some (c ∷ s)

abbrev pub or_empty : Option String → String
or_empty none = ""
or_empty (some s) = s

-- `_CURRENCY_CODE`
unfoldable pub is_letter : Char → Bool
is_letter c = let n = code c in (leb 65 n && leb n 90) || (leb 97 n && leb n 122)

unfoldable pub is_code : String → Bool
unfolding is_letter
is_code (a ∷ b ∷ c ∷ []) = is_letter a && is_letter b && is_letter c
is_code _ = false

-- `re.sub(r"[^a-z]", "", text)`
unfoldable pub is_lower_letter : Char → Bool
is_lower_letter c = let n = code c in leb 97 n && leb n 122

-- Whether a text begins with a word, and whether it contains it.
unfoldable pub begins : String → String → Bool
begins [] s = true
begins (c ∷ w) [] = false
begins (c ∷ w) (d ∷ s) = let rest = begins w s in code c == code d && rest

unfoldable pub within : String → String → Bool
unfolding begins
within w [] = begins w []
within w (d ∷ s) = let later = within w s in begins w (d ∷ s) || later

module _ (platform : Platform) where
  -- "\n" and "\t" stay, and all that is not of a category "C".
  unfoldable pub is_kept : Char → Bool
  is_kept c = code c == 10 || code c == 9 || not (platform.is_other c)

  unfoldable pub normalize_text : Option String → Option String
  unfolding keep is_invisible is_kept collapse strip
  normalize_text none = none
  normalize_text (some value) = or_none (
      strip
        (collapse false (keep is_kept (keep (λ c. not (is_invisible c)) (platform.nfkc value)))))

  -- `(normalize_text(value) or "").casefold()`
  unfoldable pub folded : Option String → String
  unfolding normalize_text
  folded value = platform.casefold (or_empty (normalize_text value))

  unfoldable pub content_fingerprint : Option String → Option String → Option String → String
  unfolding folded
  content_fingerprint title organization description =
      platform.sha256
        (folded title ++ "\u{1f}" ++ folded organization ++ "\u{1f}" ++ folded description)

  unfoldable pub two_letters : String → Option String
  two_letters (a ∷ b ∷ []) = if platform.is_alpha (a ∷ b ∷ []) then some (a ∷ b ∷ []) else none
  two_letters _ = none

  unfoldable pub normalize_country : Option String → Option String
  unfolding two_letters
  normalize_country none = none
  normalize_country (some value) =
      if str_eq value "" then none else two_letters (platform.upper (strip value))
