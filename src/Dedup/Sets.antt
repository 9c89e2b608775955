-- ===== src/Dedup/Sets.antt =====
-- Python's sets of texts, as lists without repetitions.
use chief_opportunity_intell.Prelude.{
  String, List, [], ◌∷◌, Bool, false, not, ◌||◌, str_eq, if◌then◌else◌, select, ℕ, ◌+◌, length,
}

abbrev pub no_texts : List String
no_texts = []

unfoldable pub member : List String → String → Bool
member [] x = false
member (y ∷ ys) x = str_eq y x || member ys x

-- `xs | {x}`
unfoldable pub add_to : List String → String → List String
unfolding member
add_to xs x = if member xs x then xs else x ∷ xs

-- `len(xs & ys)`, `len(xs | ys)`
unfoldable pub count_both : List String → List String → ℕ
unfolding member
count_both xs ys = length (select (member ys) xs)

unfoldable pub count_either : List String → List String → ℕ
unfolding member
count_either xs ys = length xs + length (select (λ y. not (member xs y)) ys)
