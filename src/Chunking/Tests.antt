-- ===== src/Chunking/Tests.antt =====
-- Worked examples of the splitting of a block.
use chief_opportunity_intell.Prelude.{select, String, ◌≡◌, refl, true, List, [], ◌∷◌, All}
use chief_opportunity_intell.Chunking.Pieces.{
  fits_alone, words_of, split_long_block-words, split_long_block-fits, fits,
}
use chief_opportunity_intell.Chunking.{
  grow, joined_length, split_from, estimate_tokens, split_long_block,
}

abbrev block : List String
block = "a" ∷ "bb" ∷ "incomprehensibilities" ∷ "c" ∷ []

-- The long word is lost: of 21 characters it would be 5 tokens.
block_pieces : split_long_block 2 block ≡ ("a" ∷ "bb" ∷ []) ∷ ("c" ∷ []) ∷ []
unfolding split_long_block split_from grow estimate_tokens joined_length
block_pieces = refl

split_long_block-fits_example : All (λ piece. fits 2 piece ≡ true) (split_long_block 2 block)
split_long_block-fits_example = split_long_block-fits 2 block

split_long_block-words_example : words_of (split_long_block 2 block) ≡ select (fits_alone 2) block
split_long_block-words_example = split_long_block-words 2 block
