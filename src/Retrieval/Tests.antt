-- ===== src/Retrieval/Tests.antt =====
-- Worked examples of retrieval, with scores in millionths.
use chief_opportunity_intell.Retrieval.Cover.{IsOrder, IsFalling, is_listed, is_in_lists}
use chief_opportunity_intell.Prelude.{
  ℕ, ◌+◌, ◌*◌, ◌/◌, ◌≤◌, String, ◌≡◌, refl, true, false, Option, none, some, List, [], ◌∷◌, map,
  ltb, length, All, ok, err, take, arith,
}
use Prim.Native.String.{count}
use chief_opportunity_intell.Retrieval.{
  Floats, ScoredPassage, RetrievalChannel, dense, lexical, reciprocal_rank_fusion, PassageKey,
}
use chief_opportunity_intell.Retrieval.Ranks.{
  by_score, AreApart, rrf_score, reciprocal_rank_fusion-ranking,
}
use chief_opportunity_intell.Retrieval.Retriever.{
  has_failed, dense_hits, ProfileRetriever, VectorStore, RetrievalResult, search_multi, cleaned,
}
use chief_opportunity_intell.Retrieval.Degraded.{
  search_multi-IsAnswer, any_dense_failure, IsLexical,
}

abbrev millionths : Floats ℕ
millionths = record {
  nought = 0;
  plus = λ a b. a + b;
  reciprocal = λ n. 1000000 / n;
  quotient = λ m n. 1000000 * m / n;
  is_less = ltb;
  hash = count;
}

abbrev passage_of : ℕ → RetrievalChannel → ScoredPassage ℕ
passage_of id channel = record {
  chunk_id = some id;
  content = "text";
  score = 0;
  channel = channel;
  document_id = none;
  meta = [];
}

-- The second passage is in both lists.
abbrev two_lists : List (List (ScoredPassage ℕ))
two_lists = (passage_of 1 dense ∷ passage_of 2 dense ∷ []) ∷ (passage_of 2 lexical ∷ []) ∷ []

abbrev as_pair : ScoredPassage ℕ → Option ℕ × ℕ
as_pair p = (p.chunk_id, p.score)

both_first :
    map as_pair (reciprocal_rank_fusion millionths two_lists 5)
    ≡ (some 2, 32522) ∷ (some 1, 16393) ∷ []
unfolding reciprocal_rank_fusion
both_first = refl

ltb-IsOrder : IsOrder ltb
ltb-IsOrder = ((λ a b h. ground arith), (λ a b c h k. ground arith))

reciprocal_rank_fusion-ranking_example :
    (ranking : List (ScoredPassage ℕ)) × (reciprocal_rank_fusion millionths two_lists 1
      ≡ take 1 ranking)
    × AreApart millionths ranking
    × ((k : PassageKey) → is_listed millionths k ranking ≡ is_in_lists millionths k two_lists)
    × All (λ p. p.score ≡ rrf_score millionths two_lists p) ranking
    × IsFalling (by_score millionths) ranking
reciprocal_rank_fusion-ranking_example =
    reciprocal_rank_fusion-ranking millionths two_lists 1 ltb-IsOrder

-- A store whose embedder is down.
abbrev store : VectorStore ℕ ℕ
store = record {
  embed = λ query. err "no model";
  dense_search = λ user_id v limit. ok [];
  lexical_search = λ user_id query limit. ok (passage_of 2 lexical ∷ []);
}

abbrev retriever : ProfileRetriever ℕ ℕ
retriever = record { store = store; reranker = none; retrieval_top_k = 5; rerank_top_n = 3 }

store-IsLexical : IsLexical retriever 7
store-IsLexical query = (passage_of 2 lexical ∷ [], refl)

abbrev questions : List String
questions = " rust " ∷ "  " ∷ "berlin" ∷ []

search_multi-IsAnswer_example :
    (result : RetrievalResult ℕ) × (search_multi millionths
        (λ s. s)
        retriever
        7
        questions
        none
        (some false)
      ≡ ok result)
    × (result.degraded ≡ any_dense_failure retriever 7 (cleaned questions))
    × (length result.passages ≤ 3)
search_multi-IsAnswer_example =
    search_multi-IsAnswer millionths (λ s. s) retriever 7 none questions store-IsLexical

degraded_once : any_dense_failure retriever 7 (cleaned questions) ≡ true
unfolding cleaned dense_hits has_failed
degraded_once = refl
