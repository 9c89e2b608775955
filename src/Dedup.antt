-- ===== src/Dedup.antt =====
-- backend/app/services/dedup.py: whether a candidate is a row that is there already. A similarity is
-- the fraction that the float stands for, the one that a match keeps is in ten-thousandths; a tie in
-- that rounding goes to the even neighbour. Of several rows that a statement with LIMIT may return,
-- the first in the table is taken. The cosine of two embeddings, a float, is a parameter.
pub mod Sets
pub mod Titles
pub mod Seniority
pub mod Rows
pub mod Found
pub mod Exact
use chief_opportunity_intell.Prelude.{
  ℕ, ◌*◌, String, Bool, true, false, not, ◌&&◌, ◌||◌, Option, none, some, List, [], ◌∷◌, str_eq,
  ltb, leb, ◌==◌, if◌then◌else◌, take, select,
}
use chief_opportunity_intell.Enums.{OpportunityStatus, status_eq}
use chief_opportunity_intell.Normalization.{Platform, normalize_text}
use chief_opportunity_intell.Opportunities.{Opportunity, first_row}
use chief_opportunity_intell.Decimal.{half_even}
use chief_opportunity_intell.Dedup.Titles.{Ratio, similarity}
use chief_opportunity_intell.Dedup.Seniority.{titles_compatible}

pub data MatchMethod : Type 0 where
  by_canonical_url by_content_hash by_title_similarity by_embedding : MatchMethod

unfoldable pub method_value : MatchMethod → String
method_value by_canonical_url = "canonical_url"
method_value by_content_hash = "content_hash"
method_value by_title_similarity = "title_similarity"
method_value by_embedding = "embedding"

-- `match.method in (MatchMethod.CANONICAL_URL, MatchMethod.CONTENT_HASH)`
unfoldable pub is_exact_method : MatchMethod → Bool
is_exact_method by_canonical_url = true
is_exact_method by_content_hash = true
is_exact_method _ = false

-- `similarity` is in ten-thousandths.
pub record DuplicateMatch : Type 0 where
  pub opportunity_id : ℕ
  pub method : MatchMethod
  pub similarity : ℕ

pub record Candidate (E : Type 0) : Type 0 where
  pub title : String
  pub canonical_url : Option String
  pub source_url : Option String
  pub content_hash : Option String
  pub organization_name : Option String
  pub organization_domain : Option String
  pub embedding : Option E

-- A text that is there and not empty.
unfoldable pub truthy : Option String → Bool
truthy none = false
truthy (some s) = not (str_eq s "")

-- `Column == value` in SQL, where NULL equals nothing.
unfoldable pub column_is : Option String → String → Bool
column_is none value = false
column_is (some own) value = str_eq own value

-- The same with a value that may be missing.
unfoldable pub same_column : Option String → Option String → Bool
unfolding column_is
same_column own none = false
same_column own (some value) = column_is own value

-- `TITLE_SIMILARITY_THRESHOLD`, `EMBEDDING_SIMILARITY_THRESHOLD`, in hundredths, `CANDIDATE_LIMIT`
abbrev pub title_similarity_threshold : ℕ
title_similarity_threshold = 62

abbrev pub embedding_similarity_threshold : ℕ
embedding_similarity_threshold = 92

abbrev pub candidate_limit : ℕ
candidate_limit = 200

-- `Opportunity.id != exclude_id`
unfoldable pub is_included : Option ℕ → ℕ → Bool
is_included none id = true
is_included (some excluded) id = not (id == excluded)

abbrev pub is_present {ℓ} : {A : Type ℓ} → Option A → Bool
is_present none = false
is_present (some a) = true

-- The first probe that finds something.
unfoldable pub or_match : Option DuplicateMatch → Option DuplicateMatch → Option DuplicateMatch
or_match none later = later
or_match (some match) later = some match

-- `best is None or ratio > best.similarity`
unfoldable pub beats : Ratio → Option DuplicateMatch → Bool
beats ratio none = true
beats ratio (some best) = ltb (best.similarity * ratio.den) (ratio.num * 10000)

-- One round of the loop over the candidates; the threshold is in hundredths.
unfoldable pub keep_best :
    MatchMethod → ℕ → ℕ → Ratio → Option DuplicateMatch → Option DuplicateMatch
unfolding beats
keep_best method threshold id ratio best =
    if leb (threshold * ratio.den) (ratio.num * 100) && beats ratio best
    then some (record {
      opportunity_id = id;
      method = method;
      similarity = half_even (ratio.num * 10000) ratio.den;
    })
    else best

module _ {E : Type 0} where
  -- What every probe's statement asks of a row.
  unfoldable pub is_candidate : Option ℕ → Opportunity E → Bool
  unfolding is_included
  is_candidate exclude_id r =
      not (status_eq r.status OpportunityStatus.duplicate) && is_included exclude_id r.id

  unfoldable pub exact : MatchMethod → Option (Opportunity E) → Option DuplicateMatch
  exact method none = none
  exact method (some r) =
      some (record { opportunity_id = r.id; method = method; similarity = 10000 })

  -- `urls`, as a test
  unfoldable pub is_url : Candidate E → String → Bool
  unfolding truthy column_is
  is_url c url =
      (truthy c.canonical_url && column_is c.canonical_url url)
      || (truthy c.source_url && column_is c.source_url url)

  abbrev pub is_some_url : Candidate E → Option String → Bool
  is_some_url c none = false
  is_some_url c (some url) = is_url c url

  unfoldable pub has_url : Candidate E → Opportunity E → Bool
  unfolding is_url
  has_url c r = is_some_url c r.canonical_url || is_url c r.source_url

  unfoldable pub probe_url : List (Opportunity E) → Candidate E → Option ℕ → Option DuplicateMatch
  unfolding truthy has_url is_candidate exact
  probe_url rows c exclude_id =
      if not (truthy c.canonical_url || truthy c.source_url)
      then none
      else exact by_canonical_url (first_row (λ r. has_url c r && is_candidate exclude_id r) rows)

  unfoldable pub has_hash : Candidate E → Opportunity E → Bool
  unfolding truthy same_column
  has_hash c r = truthy c.content_hash && same_column r.content_hash c.content_hash

  unfoldable pub probe_hash : List (Opportunity E) → Candidate E → Option ℕ → Option DuplicateMatch
  unfolding truthy has_hash is_candidate exact
  probe_hash rows c exclude_id =
      if not (truthy c.content_hash)
      then none
      else exact by_content_hash (first_row (λ r. has_hash c r && is_candidate exclude_id r) rows)

-- `func.lower(Column) == value.casefold()`, for a value that is there.
unfoldable pub same_folded : Platform → Option String → Option String → Bool
same_folded platform (some own) (some value) =
    str_eq (platform.sql_lower own) (platform.casefold value)
same_folded _ _ _ = false

module _ {E : Type 0} (platform : Platform) where
  unfoldable pub same_organization : Candidate E → Opportunity E → Bool
  unfolding same_folded
  same_organization c r =
      same_folded platform r.organization_name (normalize_text platform c.organization_name)
      || same_folded platform r.organization_domain (normalize_text platform c.organization_domain)

  unfoldable pub best_title :
      String → List (Opportunity E) → Option DuplicateMatch → Option DuplicateMatch
  unfolding keep_best
  best_title title [] best = best
  best_title title (r ∷ rows) best =
      if not (titles_compatible platform title r.title)
      then best_title title rows best
      else best_title title rows (
          keep_best by_title_similarity title_similarity_threshold r.id
            (similarity platform title r.title) best)

  unfoldable pub probe_title : List (Opportunity E) → Candidate E → Option ℕ → Option DuplicateMatch
  unfolding best_title same_organization is_candidate
  probe_title rows c exclude_id =
      best_title c.title
        (take candidate_limit
          (select (λ r. same_organization c r && is_candidate exclude_id r) rows))
        none

module _ {E : Type 0} (cosine : E → E → Ratio) where
  unfoldable pub compare_embedding :
      E → ℕ → Option E → Option DuplicateMatch → Option DuplicateMatch
  unfolding keep_best
  compare_embedding e id none best = best
  compare_embedding e id (some own) best =
      keep_best by_embedding embedding_similarity_threshold id (cosine e own) best

  unfoldable pub best_embedding :
      E → List (Opportunity E) → Option DuplicateMatch → Option DuplicateMatch
  unfolding compare_embedding
  best_embedding e [] best = best
  best_embedding e (r ∷ rows) best =
      best_embedding e rows (compare_embedding e r.id r.embedding best)

  -- A candidate without an embedding is compared with nothing.
  unfoldable pub embedded : Option E → List (Opportunity E) → Option DuplicateMatch
  unfolding best_embedding
  embedded none rows = none
  embedded (some e) rows = best_embedding e rows none

  unfoldable pub probe_embedding :
      List (Opportunity E) → Candidate E → Option ℕ → Option DuplicateMatch
  unfolding embedded is_candidate
  probe_embedding rows c exclude_id = embedded c.embedding (
      take candidate_limit (select (λ r. is_present r.embedding && is_candidate exclude_id r) rows))

module _ {E : Type 0} (platform : Platform) (cosine : E → E → Ratio) where
  unfoldable pub find_duplicate :
      List (Opportunity E) → Candidate E → Option ℕ → Option DuplicateMatch
  unfolding or_match probe_url probe_hash probe_title probe_embedding
  find_duplicate rows c exclude_id = or_match (probe_url rows c exclude_id) (
      or_match (probe_hash rows c exclude_id) (
        or_match (probe_title platform rows c exclude_id)
          (probe_embedding cosine rows c exclude_id)))
