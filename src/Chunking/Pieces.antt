-- ===== src/Chunking/Pieces.antt =====
-- What the pieces of a long block hold.
use chief_opportunity_intell.Prelude.{
  ℕ, zero, suc, ◌+◌, ◌-◌, ◌≤◌, ◌<◌, max, String, ◌≡◌, refl, sym, ap, ◌∙◌, ◌⊎◌, inl, inr, Bool, true,
  false, ◌&&◌, List, [], ◌∷◌, ◌++◌, arith, leb, ◌==◌, Bool-cases, length, take, drop, select, All,
  take-drop, length-drop, select-append,
}
use chief_opportunity_intell.Chunking.{
  joined_length, split_long_block, split_from, grow, estimate_tokens,
}

-- A list of words fits into a piece.
abbrev pub fits : ℕ → List String → Bool
fits max_tokens words = leb (estimate_tokens words) max_tokens

minus_one : (n : ℕ) → (n + 1) - 1 ≡ n
minus_one n = omega arith

-- The loop stops at its first size, or right behind a size that fits.
grow-fits :
    (max_tokens fuel size : ℕ) (words : List String)
    → (grow max_tokens fuel size words ≡ size)
      ⊎ ((size < grow max_tokens fuel size words)
          × (grow max_tokens fuel size words ≤ length words + 1)
          × (fits max_tokens (take (grow max_tokens fuel size words - 1) words) ≡ true))
unfolding grow
grow-fits max_tokens zero size words = inl refl
grow-fits max_tokens (suc fuel) size words =
    elim (Bool-cases (leb size (length words) && fits max_tokens (take size words))) [
      | inr stops ↦ inl (rw stops refl)
      | inl goes ↦
          let held : fits max_tokens (take size words) ≡ true = ground arith in
          let inside : size ≤ length words = ground arith in
          elim (grow-fits max_tokens fuel (size + 1) words) [
            | inl at_once ↦
                inr (rw (goes, at_once) (ground arith, ground arith, rw (minus_one size) held))
            | inr (more, bounded, fit) ↦ inr (rw goes (ground arith, bounded, fit))
          ]
    ]

-- Every piece stays within the bound on tokens, whatever the words.
split_from-fits :
    (max_tokens fuel : ℕ) (words : List String)
    → All (λ piece. fits max_tokens piece ≡ true) (split_from max_tokens fuel words)
unfolding split_from
split_from-fits max_tokens zero words = tt
split_from-fits max_tokens (suc fuel) [] = tt
split_from-fits max_tokens (suc fuel) (w ∷ words) =
    let size = grow max_tokens (suc (length words)) 1 (w ∷ words) in
    let rest = split_from-fits max_tokens fuel (drop (max 1 (size - 1)) (w ∷ words)) in
    elim (Bool-cases (size == 1)) [
      | inl none_fits ↦ rw none_fits rest
      | inr some_fit ↦ elim (grow-fits max_tokens (suc (length words)) 1 (w ∷ words)) [
        | inl at_once ↦ absurd (ground arith)
        | inr (more, bounded, fit) ↦ rw some_fit (fit, rest)
      ]
    ]

-- Every piece that `_split_long_block` returns stays within the bound on tokens, whatever the words.
pub split_long_block-fits :
    (max_tokens : ℕ) (words : List String)
    → All (λ piece. fits max_tokens piece ≡ true) (split_long_block max_tokens words)
unfolding split_long_block
split_long_block-fits max_tokens words = split_from-fits max_tokens (length words) words

-- The words of the pieces, in order.
unfoldable pub words_of : List (List String) → List String
words_of [] = []
words_of (piece ∷ pieces) = piece ++ words_of pieces

-- A word has a piece of its own.
abbrev pub fits_alone : ℕ → String → Bool
fits_alone max_tokens w = fits max_tokens (w ∷ [])

tokens_head :
    (w : String) (words : List String) → estimate_tokens (w ∷ []) ≤ estimate_tokens (w ∷ words)
unfolding estimate_tokens joined_length
tokens_head w [] = ground arith
tokens_head w (v ∷ words) = ground arith

tokens_tail :
    (w : String) (words : List String) → estimate_tokens words ≤ estimate_tokens (w ∷ words)
unfolding estimate_tokens joined_length
tokens_tail w [] = ground arith
tokens_tail w (v ∷ words) = ground arith

-- Words that fit together fit alone.
fits-alone :
    (max_tokens : ℕ) (words : List String)
    → fits max_tokens words ≡ true
    → select (fits_alone max_tokens) words ≡ words
fits-alone max_tokens [] h = refl
fits-alone max_tokens (w ∷ words) h =
    let head = tokens_head w words in
    let tail = tokens_tail w words in
    let alone : fits_alone max_tokens w ≡ true = ground arith in
    rw alone (ap (λ t. w ∷ t) (fits-alone max_tokens words (ground arith)))

grow-le : (max_tokens fuel size : ℕ) (words : List String) → size ≤ grow max_tokens fuel size words
unfolding grow
grow-le max_tokens zero size words = ground arith
grow-le max_tokens (suc fuel) size words =
    let ih = grow-le max_tokens fuel (size + 1) words in ground arith

grow-second :
    (max_tokens fuel : ℕ) (w : String) (words : List String)
    → fits_alone max_tokens w ≡ true
    → 2 ≤ grow max_tokens (suc fuel) 1 (w ∷ words)
unfolding grow
grow-second max_tokens fuel w words h =
    let ih = grow-le max_tokens fuel 2 (w ∷ words) in rw h (ground arith)

-- A piece that fits, and what becomes of the words behind it.
piece-words :
    (p : String → Bool) (n : ℕ) (words out : List String)
    → out ≡ select p (drop n words)
    → select p (take n words) ≡ take n words
    → take n words ++ out ≡ select p words
piece-words p n words out rest whole =
    ap (λ t. take n words ++ t) rest
    ∙ ap (λ t. t ++ select p (drop n words)) (sym whole)
    ∙ sym (select-append p (take n words) (drop n words))
    ∙ ap (select p) (take-drop n words)

split_from-words :
    (max_tokens fuel : ℕ) (words : List String)
    → length words ≤ fuel
    → words_of (split_from max_tokens fuel words) ≡ select (fits_alone max_tokens) words
unfolding split_from words_of
split_from-words max_tokens zero [] enough = refl
split_from-words max_tokens zero (w ∷ words) enough = absurd (ground arith)
split_from-words max_tokens (suc fuel) [] enough = refl
split_from-words max_tokens (suc fuel) (w ∷ words) enough =
    let size = grow max_tokens (suc (length words)) 1 (w ∷ words) in
    let step = max 1 (size - 1) in
    let shorter = length-drop step (w ∷ words) in
    let ih = split_from-words max_tokens fuel (drop step (w ∷ words)) (ground arith) in
    elim (grow-fits max_tokens (suc (length words)) 1 (w ∷ words)) [
      | inl at_once ↦ elim (Bool-cases (fits_alone max_tokens w)) [
        | inl alone ↦
            absurd (let two = grow-second max_tokens (length words) w words alone in ground arith)
        | inr long ↦ rw (at_once, long) (rw at_once at ih)
      ]
      | inr (more, bounded, fit) ↦
          let several : (size == 1) ≡ false = ground arith in
          let same : max 1 (size - 1) ≡ size - 1 = ground arith in
          rw several (
            piece-words (fits_alone max_tokens) (size - 1) (w ∷ words) _
              (ih ∙ ap (λ n. select (fits_alone max_tokens) (drop n (w ∷ words))) same)
              (fits-alone max_tokens (take (size - 1) (w ∷ words)) fit))
    ]

-- The pieces hold, in order, exactly the words that fit into a piece alone: each once, and every
-- longer word is left out.
pub split_long_block-words :
    (max_tokens : ℕ) (words : List String)
    → words_of (split_long_block max_tokens words) ≡ select (fits_alone max_tokens) words
unfolding split_long_block
split_long_block-words max_tokens words =
    split_from-words max_tokens (length words) words (ground arith)
