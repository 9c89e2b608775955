-- ===== src/Retrieval/Retriever.antt =====
-- backend/app/retrieval/retriever.py, and the ranking of profile passages of profile_index.py. The
-- embedder, the vector store and the reranker are parameters, which may fail; the profile is its
-- passages, since their texts are not modelled.
use chief_opportunity_intell.Prelude.{
  ℕ, suc, String, Bool, true, false, ◌||◌, Option, none, some, List, [], ◌∷◌, map, str_eq, ◌==◌,
  if◌then◌else◌, length, take, Result, ok, err, ◌>>=◌,
}
use chief_opportunity_intell.Prelude.Texts.{strip}
use chief_opportunity_intell.Dedup.Titles.{words_from}
use chief_opportunity_intell.Normalization.{within}
use chief_opportunity_intell.Retrieval.{
  Floats, ScoredPassage, profile, sorted_by, reciprocal_rank_fusion,
}

-- An exception of a library, with its text.
abbrev pub Raised : Type 0
Raised = String

abbrev pub Reranker : Type 0 → Type 0
Reranker S = String → List (ScoredPassage S) → ℕ → Result Raised (List (ScoredPassage S))

-- `EmbeddingProvider` and `VectorStore`
pub record VectorStore (S V : Type 0) : Type 0 where
  pub embed : String → Result Raised V
  pub dense_search : ℕ → V → ℕ → Result Raised (List (ScoredPassage S))
  pub lexical_search : ℕ → String → ℕ → Result Raised (List (ScoredPassage S))

pub record RetrievalResult (S : Type 0) : Type 0 where
  pub query : String
  pub passages : List (ScoredPassage S)
  pub degraded : Bool
  pub detail : Option String

pub record ProfileRetriever (S V : Type 0) : Type 0 where
  pub store : VectorStore S V
  pub reranker : Option (Reranker S)
  pub retrieval_top_k : ℕ
  pub rerank_top_n : ℕ

-- `sum(1 for token in tokens if token in content)`
unfoldable pub count_hits : List String → String → ℕ
unfolding within
count_hits [] content = 0
count_hits (token ∷ tokens) content =
    let rest = count_hits tokens content in if within token content then suc rest else rest

abbrev pub degraded_detail : Bool → Option String
degraded_detail b = if b then some "dense retrieval unavailable; lexical and profile only" else none

unfoldable pub or_nothing : {A : Type 0} → Result Raised (List A) → List A
or_nothing (ok xs) = xs
or_nothing (err e) = []

unfoldable pub has_failed : {A : Type 0} → Result Raised A → Bool
has_failed (ok xs) = false
has_failed (err e) = true

-- `[query.strip() for query in queries if query.strip()]`
unfoldable pub cleaned : List String → List String
unfolding strip
cleaned [] = []
cleaned (query ∷ queries) =
    let rest = cleaned queries in if str_eq (strip query) "" then rest else strip query ∷ rest

module _ {S : Type 0} where
  -- `use_rerank and self._reranker is not None and fused`, and what else is cut to `limit`.
  unfoldable pub rerank_or_cut :
      Option (Reranker S)
      → Option Bool
      → String
      → ℕ
      → ℕ
      → List (ScoredPassage S)
      → Result Raised (List (ScoredPassage S))
  rerank_or_cut none wish query top_n limit found = ok (take limit found)
  rerank_or_cut (some rerank) (some false) query top_n limit found = ok (take limit found)
  rerank_or_cut (some rerank) (some true) query top_n limit [] = ok (take limit [])
  rerank_or_cut (some rerank) none query top_n limit [] = ok (take limit [])
  rerank_or_cut (some rerank) (some true) query top_n limit (p ∷ found) =
      rerank query (p ∷ found) top_n
  rerank_or_cut (some rerank) none query top_n limit (p ∷ found) = rerank query (p ∷ found) top_n

  unfoldable pub any_degraded : List (RetrievalResult S) → Bool
  any_degraded [] = false
  any_degraded (result ∷ results) = result.degraded || any_degraded results

  unfoldable pub first_detail : List (RetrievalResult S) → Option String
  first_detail [] = none
  first_detail (result ∷ results) = elim result.detail [
    | none ↦ first_detail results
    | some text ↦ some text
  ]

module _ {S V : Type 0} where
  -- `embed` and `dense_search` in the try block
  unfoldable pub dense_hits :
      ProfileRetriever S V → ℕ → String → Result Raised (List (ScoredPassage S))
  dense_hits r user_id query =
      r.store.embed query >>= λ v. r.store.dense_search user_id v r.retrieval_top_k

module _ {S : Type 0} (floats : Floats S) (lower : String → String) where
  -- The passages that have a hit, with the share of tokens that they hold.
  unfoldable pub score_passages : List String → List (ScoredPassage S) → List (ScoredPassage S)
  unfolding count_hits
  score_passages tokens [] = []
  score_passages tokens (p ∷ passages) =
      let rest = score_passages tokens passages in
      let hits = count_hits tokens (lower p.content) in
      if hits == 0
      then rest
      else record p { score = floats.quotient hits (length tokens); channel = profile } ∷ rest

  unfoldable pub rank_profile_passages :
      String → List (ScoredPassage S) → ℕ → List (ScoredPassage S)
  unfolding words_from score_passages sorted_by
  rank_profile_passages query passages limit =
      let tokens = words_from "" (lower query) in
      if length tokens == 0
      then take limit passages
      else take limit
          (sorted_by (λ p q. floats.is_less p.score q.score) (score_passages tokens passages))

  unfoldable pub profile_hits :
      Option (List (ScoredPassage S)) → String → ℕ → List (ScoredPassage S)
  unfolding rank_profile_passages
  profile_hits none query limit = []
  profile_hits (some passages) query limit = rank_profile_passages query passages limit

module _ {S V : Type 0} (floats : Floats S) (lower : String → String) where
  -- The rest of `search` for a query that is not blank.
  unfoldable pub search_stripped :
      ProfileRetriever S V
      → ℕ
      → String
      → Option (List (ScoredPassage S))
      → Option Bool
      → Result Raised (RetrievalResult S)
  unfolding dense_hits or_nothing has_failed profile_hits reciprocal_rank_fusion rerank_or_cut
  search_stripped r user_id query known rerank =
      let dense = dense_hits r user_id query in
      r.store.lexical_search user_id query r.retrieval_top_k >>= λ lexical.
      rerank_or_cut r.reranker rerank query r.rerank_top_n r.retrieval_top_k (
        reciprocal_rank_fusion floats
          (or_nothing dense
            ∷ lexical
            ∷ profile_hits floats lower known query r.retrieval_top_k
            ∷ [])
          r.retrieval_top_k)
      >>= λ passages. ok (record {
        query = query;
        passages = passages;
        degraded = has_failed dense;
        detail = degraded_detail (has_failed dense);
      })

  unfoldable pub search :
      ProfileRetriever S V
      → ℕ
      → String
      → Option (List (ScoredPassage S))
      → Option Bool
      → Result Raised (RetrievalResult S)
  unfolding search_stripped strip
  search r user_id query known rerank =
      if str_eq (strip query) ""
      then ok (record { query = strip query; passages = []; degraded = false; detail = none })
      else search_stripped r user_id (strip query) known rerank

  -- The loop over the queries: ranked lists, degraded, and the first detail.
  unfoldable pub search_each :
      ProfileRetriever S V
      → ℕ
      → List String
      → Option (List (ScoredPassage S))
      → Result Raised (List (RetrievalResult S))
  unfolding search
  search_each r user_id [] known = ok []
  search_each r user_id (query ∷ queries) known =
      search r user_id query known (some false) >>= λ result.
      search_each r user_id queries known >>= λ results. ok (result ∷ results)

  unfoldable pub search_cleaned :
      ProfileRetriever S V
      → ℕ
      → List String
      → Option (List (ScoredPassage S))
      → Option Bool
      → Result Raised (RetrievalResult S)
  unfolding search_each any_degraded first_detail reciprocal_rank_fusion rerank_or_cut
  search_cleaned r user_id [] known rerank =
      ok (record { query = ""; passages = []; degraded = false; detail = none })
  search_cleaned r user_id (query ∷ queries) known rerank =
      search_each r user_id (query ∷ queries) known >>= λ results.
      rerank_or_cut r.reranker rerank query r.rerank_top_n r.rerank_top_n
        (reciprocal_rank_fusion floats (map (λ result. result.passages) results) r.retrieval_top_k)
      >>= λ passages. ok (record {
        query = query;
        passages = passages;
        degraded = any_degraded results;
        detail = first_detail results;
      })

  unfoldable pub search_multi :
      ProfileRetriever S V
      → ℕ
      → List String
      → Option (List (ScoredPassage S))
      → Option Bool
      → Result Raised (RetrievalResult S)
  unfolding cleaned search_cleaned
  search_multi r user_id queries known rerank =
      search_cleaned r user_id (cleaned queries) known rerank
