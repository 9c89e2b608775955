-- ===== src/Dedup/Seniority.antt =====
-- The rungs of seniority that a title names.
use chief_opportunity_intell.Prelude.{
  String, List, [], ◌∷◌, Bool, true, false, ◌&&◌, str_eq, select, some,
}
use chief_opportunity_intell.Normalization.{Platform, folded}
use chief_opportunity_intell.Dedup.Sets.{member}
use chief_opportunity_intell.Dedup.Titles.{blank_out, words_from}

-- `_SENIORITY`
abbrev pub seniority : List String
seniority =
    "junior" ∷ "senior" ∷ "staff" ∷ "principal" ∷ "lead" ∷ "intern" ∷ "graduate" ∷ "associate"
    ∷ "fellow" ∷ "director" ∷ []

-- Equality of lists of texts.
unfoldable pub same_texts : List String → List String → Bool
same_texts [] [] = true
same_texts (x ∷ xs) (y ∷ ys) = let rest = same_texts xs ys in str_eq x y && rest
same_texts _ _ = false

module _ (platform : Platform) where
  -- The rungs of a title, in the order of `seniority`: equal sets are equal lists.
  unfoldable pub seniority_tokens : String → List String
  unfolding member blank_out words_from
  seniority_tokens title =
      select (member (words_from "" (blank_out (folded platform (some title))))) seniority

  unfoldable pub titles_compatible : String → String → Bool
  unfolding same_texts seniority_tokens
  titles_compatible left right = same_texts (seniority_tokens left) (seniority_tokens right)
