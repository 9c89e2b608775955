-- ===== src/Retrieval.antt =====
-- backend/app/retrieval/protocols.py and hybrid.py: passages and their fusion by reciprocal ranks.
-- Floats and Python's `hash` are the functions of `Floats`; ids are numbers. The two dictionaries of
-- the fusion have the same keys and are one table, in the order of insertion.
pub mod Fused
pub mod Sums
pub mod Cover
pub mod Ranks
pub mod Retriever
pub mod Degraded
mod Tests
use chief_opportunity_intell.Prelude.{
  ℕ, zero, suc, ◌+◌, ◌-◌, ◌*◌, ◌/◌, ◌%◌, ◌^◌, ◌≤◌, ◌<◌, min, max, String, ◌≡◌, refl, sym, ap, ◌∙◌,
  ◌≢◌, ◌↔◌, ◌⊎◌, inl, inr, Bool, true, false, not, ◌&&◌, ◌||◌, Option, none, some, List, [], ◌∷◌,
  ◌++◌, map, arith, str_eq, eq_iff, eq_refl, ltb, leb, ◌==◌, if◌then◌else◌, ltb→lt, lt→ltb, leb→le,
  le→leb, ==_iff, Bool-cases, Option-cases, length, take, drop, select, length-append, length-take,
  length-select, All, append-nil, take-drop, take-take, take_whole, length-drop, select-append,
  select_every, select-All, select_narrow, Result, ok, err, ◌>>=◌, ◌>>◌, raise_if, Result-cases,
}
use chief_opportunity_intell.Prelude.Dict
use chief_opportunity_intell.Prelude.Dict.{Dict}

-- The floats that scores are computed with: 1.0 / n, m / n and the order.
pub record Floats (S : Type 0) : Type 0 where
  pub nought : S
  pub plus : S → S → S
  pub reciprocal : ℕ → S
  pub quotient : ℕ → ℕ → S
  pub is_less : S → S → Bool
  pub hash : String → ℕ

-- `RetrievalChannel`
pub data RetrievalChannel : Type 0 where
  dense lexical profile fused reranked : RetrievalChannel

pub data MetaValue (S : Type 0) : Type 0 where
  label : String → MetaValue S
  figure : S → MetaValue S

pub record ScoredPassage (S : Type 0) : Type 0 where
  pub chunk_id : Option ℕ
  pub content : String
  pub score : S
  pub channel : RetrievalChannel
  pub document_id : Option ℕ
  pub meta : Dict (MetaValue S)

-- `RRF_K`
abbrev pub rrf_k : ℕ
rrf_k = 60

-- The text of an id never begins with "profile:".
pub data PassageKey : Type 0 where
  chunk : ℕ → PassageKey
  hashed : ℕ → PassageKey

unfoldable pub same_key : PassageKey → PassageKey → Bool
same_key (chunk i) (chunk j) = i == j
same_key (chunk i) (hashed j) = false
same_key (hashed i) (chunk j) = false
same_key (hashed i) (hashed j) = i == j

-- `scores[key]` and `passages[key]`
pub record Entry (S : Type 0) : Type 0 where
  pub key : PassageKey
  pub total : S
  pub passage : ScoredPassage S

-- `sorted(..., reverse=True)` keeps the order of what is equal.
unfoldable pub insert_by : {A : Type 0} → (A → A → Bool) → A → List A → List A
insert_by lt x [] = x ∷ []
insert_by lt x (y ∷ ys) = let rest = insert_by lt x ys in if lt x y then y ∷ rest else x ∷ y ∷ ys

unfoldable pub sorted_by : {A : Type 0} → (A → A → Bool) → List A → List A
unfolding insert_by
sorted_by lt [] = []
sorted_by lt (x ∷ xs) = insert_by lt x (sorted_by lt xs)

module _ {S : Type 0} (floats : Floats S) where
  -- `_passage_key`
  unfoldable pub passage_key : ScoredPassage S → PassageKey
  passage_key p = elim p.chunk_id [ none ↦ hashed (floats.hash p.content) | some id ↦ chunk id ]

  -- One turn of the inner loop, with 1.0 / (RRF_K + rank).
  unfoldable pub bump : List (Entry S) → PassageKey → S → ScoredPassage S → List (Entry S)
  unfolding same_key
  bump [] key share p =
      record { key = key; total = floats.plus floats.nought share; passage = p } ∷ []
  bump (e ∷ table) key share p =
      let rest = bump table key share p in
      if same_key e.key key
      then record { key = e.key; total = floats.plus e.total share; passage = p } ∷ table
      else e ∷ rest

  unfoldable pub add_ranked : ℕ → List (ScoredPassage S) → List (Entry S) → List (Entry S)
  unfolding bump passage_key
  add_ranked rank [] table = table
  add_ranked rank (p ∷ ranked) table =
      add_ranked (suc rank) ranked (bump table (passage_key p) (floats.reciprocal (rrf_k + rank)) p)

  unfoldable pub add_lists : List (List (ScoredPassage S)) → List (Entry S) → List (Entry S)
  unfolding add_ranked
  add_lists [] table = table
  add_lists (ranked ∷ lists) table = add_lists lists (add_ranked 1 ranked table)

  unfoldable pub as_fused : Entry S → ScoredPassage S
  as_fused e = record {
    chunk_id = e.passage.chunk_id;
    content = e.passage.content;
    score = e.total;
    channel = fused;
    document_id = e.passage.document_id;
    meta = Dict.put e.passage.meta "rrf" (figure e.total);
  }

  unfoldable pub reciprocal_rank_fusion : List (List (ScoredPassage S)) → ℕ → List (ScoredPassage S)
  unfolding add_lists sorted_by as_fused
  reciprocal_rank_fusion lists limit =
      map as_fused
        (take limit (sorted_by (λ d e. floats.is_less d.total e.total) (add_lists lists [])))
