-- ===== src/Retrieval/Degraded.antt =====
-- What a search gives when the dense part fails, in one query and in several.
use chief_opportunity_intell.Prelude.{
  ℕ, ◌≤◌, String, ◌≡◌, refl, inl, inr, Bool, false, not, ◌&&◌, ◌||◌, Option, none, some, List, [],
  ◌∷◌, arith, str_eq, Bool-cases, length, take, length-take, Result, ok,
}
use chief_opportunity_intell.Prelude.Texts.{strip}
use chief_opportunity_intell.Retrieval.{Floats, ScoredPassage}
use chief_opportunity_intell.Retrieval.Retriever.{
  ProfileRetriever, RetrievalResult, Reranker, Raised, search, search_stripped, search_each,
  search_multi, search_cleaned, cleaned, any_degraded, rerank_or_cut, dense_hits, has_failed,
}

rerank_or_cut-unwished :
    {S : Type 0} (reranker : Option (Reranker S)) (query : String) (top_n limit : ℕ)
    (found : List (ScoredPassage S))
    → rerank_or_cut reranker (some false) query top_n limit found ≡ ok (take limit found)
unfolding rerank_or_cut
rerank_or_cut-unwished none query top_n limit found = refl
rerank_or_cut-unwished (some rerank) query top_n limit found = refl

length-cut : {A : Type 0} (n : ℕ) (xs : List A) → length (take n xs) ≤ n
length-cut n xs = omega (arith, length-take n xs)

module _ {S V : Type 0} (r : ProfileRetriever S V) (user_id : ℕ) where
  -- The query is not blank, and the embedder or the dense search fails for it.
  abbrev pub is_dense_failure : String → Bool
  is_dense_failure query =
      not (str_eq (strip query) "") && has_failed (dense_hits r user_id (strip query))

  abbrev pub any_dense_failure : List String → Bool
  any_dense_failure [] = false
  any_dense_failure (query ∷ queries) = is_dense_failure query || any_dense_failure queries

  -- The lexical search answers every query.
  abbrev pub IsLexical : Type 0
  IsLexical =
      (query : String)
      → (found : List (ScoredPassage S)) × (r.store.lexical_search user_id query r.retrieval_top_k
          ≡ ok found)

module _ {S V : Type 0} (floats : Floats S) (lower : String → String) (r : ProfileRetriever S V)
    (user_id : ℕ) (known : Option (List (ScoredPassage S))) where
  abbrev IsAnswer : Result Raised (RetrievalResult S) → Bool → ℕ → Type 0
  IsAnswer answer failed limit =
      (result : RetrievalResult S) × (answer ≡ ok result)
      × (result.degraded ≡ failed)
      × (length result.passages ≤ limit)

  search_stripped-IsAnswer :
      (query : String)
      → IsLexical r user_id
      → IsAnswer
          (search_stripped floats lower r user_id query known (some false))
          (has_failed (dense_hits r user_id query))
          r.retrieval_top_k
  unfolding search_stripped
  search_stripped-IsAnswer query lexical =
      let (found, h) = lexical query in
      rw (h, rerank_or_cut-unwished r.reranker query r.rerank_top_n r.retrieval_top_k _)
        (_, refl, refl, length-cut r.retrieval_top_k _)

  search-IsAnswer :
      (query : String)
      → IsLexical r user_id
      → IsAnswer
          (search floats lower r user_id query known (some false))
          (is_dense_failure r user_id query)
          r.retrieval_top_k
  unfolding search
  search-IsAnswer query lexical = elim (Bool-cases (str_eq (strip query) "")) [
    | inl blank ↦ rw blank (_, refl, refl, omega arith)
    | inr there ↦ rw there (search_stripped-IsAnswer (strip query) lexical)
  ]

  search_each-degraded :
      (queries : List String)
      → IsLexical r user_id
      → (results : List (RetrievalResult S)) × (search_each floats lower r user_id queries known
          ≡ ok results)
        × (any_degraded results ≡ any_dense_failure r user_id queries)
  unfolding search_each any_degraded
  search_each-degraded [] lexical = ([], refl, refl)
  search_each-degraded (query ∷ queries) lexical =
      let (result, answered, degraded, _) = search-IsAnswer query lexical in
      let (results, all, others) = search_each-degraded queries lexical in
      rw (answered, all) (result ∷ results, refl, rw (degraded, others) refl)

  search_cleaned-IsAnswer :
      (queries : List String)
      → IsLexical r user_id
      → IsAnswer
          (search_cleaned floats lower r user_id queries known (some false))
          (any_dense_failure r user_id queries)
          r.rerank_top_n
  unfolding search_cleaned
  search_cleaned-IsAnswer [] lexical = (_, refl, refl, omega arith)
  search_cleaned-IsAnswer (query ∷ queries) lexical =
      let (results, all, degraded) = search_each-degraded (query ∷ queries) lexical in
      rw (all, rerank_or_cut-unwished r.reranker query r.rerank_top_n r.rerank_top_n _)
        (_, refl, degraded, length-cut r.rerank_top_n _)

  -- Where the lexical search answers, and no reranking is wished, a search with several queries
  -- answers, however often the embedder or the dense search fails: it is degraded exactly when one
  -- of them failed for a query that is not blank, and it has at most `rerank_top_n` passages.
  pub search_multi-IsAnswer :
      (queries : List String)
      → IsLexical r user_id
      → (result : RetrievalResult S) × (search_multi floats lower r user_id queries known
            (some false)
          ≡ ok result)
        × (result.degraded ≡ any_dense_failure r user_id (cleaned queries))
        × (length result.passages ≤ r.rerank_top_n)
  unfolding search_multi
  search_multi-IsAnswer queries lexical = search_cleaned-IsAnswer (cleaned queries) lexical
