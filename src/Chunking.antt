-- ===== src/Chunking.antt =====
-- backend/app/retrieval/chunking.py: `_split_long_block`. A block is its words, which hold no white
-- space, so that a text joined from words has as many words as were joined. Lengths count characters.
pub mod Pieces
mod Tests
use Prim.Native.String.{count}
use chief_opportunity_intell.Prelude.{
  ℕ, zero, suc, ◌+◌, ◌-◌, ◌/◌, max, String, ◌&&◌, List, [], ◌∷◌, leb, ◌==◌, if◌then◌else◌, length,
  take, drop,
}

-- `len(" ".join(words))`
unfoldable pub joined_length : List String → ℕ
joined_length [] = 0
joined_length (w ∷ []) = count w
joined_length (w ∷ v ∷ words) = count w + 1 + joined_length (v ∷ words)

-- `estimate_tokens(" ".join(words))`
unfoldable pub estimate_tokens : List String → ℕ
unfolding joined_length
estimate_tokens words = max (length words) (joined_length words / 4)

-- The inner loop: `end - start` grows from `size` on while the words up to `end` fit. `fuel` rounds
-- are enough when it is the number of words behind `start`.
unfoldable pub grow : ℕ → ℕ → ℕ → List String → ℕ
grow max_tokens zero size words = size
grow max_tokens (suc fuel) size words =
    let further = grow max_tokens fuel (size + 1) words in
    if leb size (length words) && leb (estimate_tokens (take size words)) max_tokens
    then further
    else size

-- The outer loop from `start` on: the piece ends before the last `end` that was tried, and the next
-- piece starts there, or one word further.
unfoldable pub split_from : ℕ → ℕ → List String → List (List String)
split_from max_tokens zero words = []
split_from max_tokens (suc fuel) [] = []
split_from max_tokens (suc fuel) (w ∷ words) =
    let size = grow max_tokens (suc (length words)) 1 (w ∷ words) in
    let rest = split_from max_tokens fuel (drop (max 1 (size - 1)) (w ∷ words)) in
    if size == 1 then rest else take (size - 1) (w ∷ words) ∷ rest

-- `_split_long_block`
unfoldable pub split_long_block : ℕ → List String → List (List String)
unfolding split_from
split_long_block max_tokens words = split_from max_tokens (length words) words
