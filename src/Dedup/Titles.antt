-- ===== src/Dedup/Titles.antt =====
-- The similarity of two titles by their trigrams, and the rungs of seniority that they name.
use Prim.Native.String.{String, [], ◌∷◌, ◌++◌}
use Prim.Native.Char.{Char, code}
use chief_opportunity_intell.Prelude.{
  List, Bool, ◌||◌, str_eq, if◌then◌else◌, ℕ, length, ◌==◌, some,
}
use chief_opportunity_intell.Prelude.Texts.{is_space}
use chief_opportunity_intell.Normalization.{Platform, folded}
use chief_opportunity_intell.Dedup.Sets.{no_texts, add_to, count_both, count_either}

-- num / den
pub record Ratio : Type 0 where
  pub num : ℕ
  pub den : ℕ

-- The set of all runs of three characters.
unfoldable pub runs : String → List String
unfolding add_to
runs (a ∷ b ∷ c ∷ s) = add_to (runs (b ∷ c ∷ s)) (a ∷ b ∷ c ∷ [])
runs _ = no_texts

-- `str.replace` of the punctuation by a blank.
unfoldable pub is_punctuation : Char → Bool
is_punctuation c =
    let n = code c in
    n == 40
    || n == 41
    || n == 91
    || n == 93
    || n == 44
    || n == 47
    || n == 45
    || n == 8211
    || n == 8212

unfoldable pub blank_out : String → String
unfolding is_punctuation
blank_out [] = []
blank_out (c ∷ s) = let rest = blank_out s in if is_punctuation c then " " ++ rest else c ∷ rest

unfoldable pub add_word : String → List String → List String
unfolding add_to
add_word [] words = words
add_word (c ∷ s) words = add_to words (c ∷ s)

-- `frozenset(text.split())`, with the word that has begun.
unfoldable pub words_from : String → String → List String
unfolding add_word is_space
words_from begun [] = add_word begun no_texts
words_from begun (c ∷ s) =
    let ended = words_from [] s in
    let longer = words_from (begun ++ c ∷ []) s in
    if is_space c then add_word begun ended else longer

module _ (platform : Platform) where
  unfoldable pub trigrams : String → List String
  unfolding runs
  trigrams value =
      let text = folded platform (some value) in
      if str_eq text "" then no_texts else runs ("  " ++ text ++ " ")

  unfoldable pub ratio_of : List String → List String → Ratio
  unfolding count_both count_either
  ratio_of a b =
      if length a == 0 || length b == 0 || count_both a b == 0
      then record { num = 0; den = 1 }
      else record { num = count_both a b; den = count_either a b }

  unfoldable pub similarity : String → String → Ratio
  unfolding trigrams ratio_of
  similarity left right = ratio_of (trigrams left) (trigrams right)
