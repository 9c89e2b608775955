-- ===== src/Retrieval/Sums.antt =====
-- The score of a passage in a fusion, as a sum over the lists that it stands in.
use chief_opportunity_intell.Prelude.{
  ℕ, suc, ◌+◌, ◌≡◌, refl, sym, ap, ◌∙◌, inl, inr, Bool, true, false, List, [], ◌∷◌, if◌then◌else◌,
  Bool-cases, All,
}
use chief_opportunity_intell.Retrieval.{
  Floats, ScoredPassage, PassageKey, same_key, Entry, passage_key, bump, add_ranked, add_lists,
  rrf_k,
}
use chief_opportunity_intell.Retrieval.Fused.{
  same_key-eq, same_key_refl, same_key_sym, IsDistinct, IsFresh,
}

-- What is the first key and not the second is not the second.
apart_of : (a b k : PassageKey) → same_key a b ≡ false → same_key a k ≡ true → same_key b k ≡ false
apart_of a b k other found =
    sym (ap (λ j. same_key b j) (same_key-eq a k found)) ∙ same_key_sym b a ∙ other

module _ {S : Type 0} (floats : Floats S) where
  abbrev pub counted : Bool → S → S → S
  counted b share sum = if b then floats.plus sum share else sum

  -- The sum so far and 1 / (60 + rank) for each place that a key has in a list, the first one at `rank`.
  unfoldable pub rank_sum : PassageKey → ℕ → List (ScoredPassage S) → S → S
  rank_sum k rank [] sum = sum
  rank_sum k rank (p ∷ ranked) sum =
      rank_sum k (suc rank) ranked
        (counted (same_key (passage_key floats p) k) (floats.reciprocal (rrf_k + rank)) sum)

  unfoldable pub rank_sums : PassageKey → List (List (ScoredPassage S)) → S → S
  unfolding rank_sum
  rank_sums k [] sum = sum
  rank_sums k (ranked ∷ lists) sum = rank_sums k lists (rank_sum k 1 ranked sum)

  -- `scores.get(key, 0.0)`
  unfoldable pub score_in : PassageKey → List (Entry S) → S
  score_in k [] = floats.nought
  score_in k (e ∷ table) = let rest = score_in k table in if same_key e.key k then e.total else rest

  score_in-bump :
      (k key : PassageKey) (table : List (Entry S)) (share : S) (p : ScoredPassage S)
      → score_in k (bump floats table key share p)
        ≡ counted (same_key key k) share (score_in k table)
  unfolding bump score_in
  score_in-bump k key [] share p = refl
  score_in-bump k key (e ∷ table) share p = elim (Bool-cases (same_key e.key key)) [
    | inl same ↦ elim (Bool-cases (same_key e.key k)) [
      | inl found ↦
          rw (same, found, sym (ap (λ j. same_key j k) (same_key-eq e.key key same)) ∙ found) refl
      | inr missed ↦
          rw (same, missed, sym (ap (λ j. same_key j k) (same_key-eq e.key key same)) ∙ missed) refl
    ]
    | inr other ↦ rw other (elim (Bool-cases (same_key e.key k)) [
      | inl found ↦ rw (found, apart_of e.key key k other found) refl
      | inr missed ↦ rw missed (score_in-bump k key table share p)
    ])
  ]

  score_in-add_ranked :
      (k : PassageKey) (rank : ℕ) (ranked : List (ScoredPassage S)) (table : List (Entry S))
      → score_in k (add_ranked floats rank ranked table) ≡ rank_sum k rank ranked (score_in k table)
  unfolding add_ranked rank_sum
  score_in-add_ranked k rank [] table = refl
  score_in-add_ranked k rank (p ∷ ranked) table =
      score_in-add_ranked k (suc rank) ranked _
      ∙ ap (rank_sum k (suc rank) ranked) (score_in-bump k (passage_key floats p) table _ p)

  pub score_in-add_lists :
      (k : PassageKey) (lists : List (List (ScoredPassage S))) (table : List (Entry S))
      → score_in k (add_lists floats lists table) ≡ rank_sums k lists (score_in k table)
  unfolding add_lists rank_sums
  score_in-add_lists k [] table = refl
  score_in-add_lists k (ranked ∷ lists) table =
      score_in-add_lists k lists _ ∙ ap (rank_sums k lists) (score_in-add_ranked k 1 ranked table)

  -- The totals of other entries are looked up behind the first one.
  later :
      (e : Entry S) (table entries : List (Entry S))
      → IsFresh e.key entries
      → All (λ f. f.total ≡ score_in f.key table) entries
      → All (λ f. f.total ≡ score_in f.key (e ∷ table)) entries
  unfolding score_in
  later e table [] fresh totals = tt
  later e table (f ∷ entries) (apart, fresh) (total, totals) =
      (rw apart total, later e table entries fresh totals)

  pub total_own :
      (table : List (Entry S)) → IsDistinct table → All (λ e. e.total ≡ score_in e.key table) table
  unfolding score_in
  total_own [] distinct = tt
  total_own (e ∷ table) (fresh, distinct) =
      (rw (same_key_refl e.key) refl, later e table table fresh (total_own table distinct))
