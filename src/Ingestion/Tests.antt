-- ===== src/Ingestion/Tests.antt =====
-- Worked examples of ingestion: two postings of one role at one organisation.
use chief_opportunity_intell.Samples.{plain}
use chief_opportunity_intell.Dedup.Exact.{find_duplicate-is_exact, is_exact}
use chief_opportunity_intell.Dedup.Found.{find_duplicate-shown, is_shown}
use chief_opportunity_intell.Ingestion.Refresh.{refresh, refresh-is_settled, is_settled}
use chief_opportunity_intell.Ingestion.Clashes.{IsDistinct}
use chief_opportunity_intell.Ingestion.Unique.{ingest_many-IsDistinct}
use chief_opportunity_intell.Ingestion.Batch.{
  ingest_many, ingest_many-counts, total, BatchState, no_report,
}
use chief_opportunity_intell.Ingestion.Repeat.{flagged-ingest, created-is_merged}
use chief_opportunity_intell.Ingestion.Again.{is_merged, is_outcome, ingest-is_merged, is_known}
use chief_opportunity_intell.Decimal.{half_even}
use chief_opportunity_intell.Dedup.Seniority.{same_texts, seniority_tokens, titles_compatible}
use chief_opportunity_intell.Dedup.{
  is_exact_method, is_candidate, has_url, has_hash, find_duplicate, Candidate, DuplicateMatch,
  by_title_similarity,
}
use chief_opportunity_intell.Normalization.Money.{text}
use chief_opportunity_intell.Prelude.{
  ℕ, ◌+◌, String, ◌≡◌, refl, true, ◌&&◌, ◌||◌, Option, none, some, [], ◌∷◌, length, Result, ok, err,
  drop,
}
use chief_opportunity_intell.Ingestion.{
  remote_text, parsed, DatabaseError, Readers, RawOpportunity, IngestionResult, assess_row,
  rejected, integrity_error,
}
use chief_opportunity_intell.Opportunities.{Session, row_at, any_row, first_row, Opportunity}
use chief_opportunity_intell.Dedup.Titles.{Ratio, trigrams, ratio_of, similarity}
use chief_opportunity_intell.Ingestion.Rows.{record_outcome, record_stored, store}
use chief_opportunity_intell.Ingestion.Store.{
  ingest, remote_status_of, fingerprint_of, assess_raw, candidate_of, new_row, settle, addressed,
  titled,
}
use chief_opportunity_intell.Normalization.{content_fingerprint}
use chief_opportunity_intell.Enums.{OpportunityCategory}

abbrev never : Unit {0} → Unit {0} → Ratio
never a b = record { num = 0; den = 1 }

-- A date is its second.
abbrev seconds : Readers ℕ
seconds = record {
  canonicalize_url = λ s. some s;
  parse_deadline = λ d first. record { value = d; outcome = parsed };
  show = λ d. "";
  decay = λ now anchor days. 10000;
}

abbrev posting : String → String → Option ℕ → RawOpportunity ℕ
posting url description deadline = record {
  title = "engineer";
  source_url = url;
  category = OpportunityCategory.job;
  external_id = none;
  organization_name = some "acme";
  organization_domain = none;
  description = some description;
  summary = none;
  language = none;
  location_country = none;
  location_city = none;
  remote_status = remote_text none;
  compensation_min = none;
  compensation_max = none;
  compensation_currency = none;
  compensation_period = text none;
  requirements = "[]";
  eligibility = "{}";
  required_skills = "[]";
  preferred_skills = "[]";
  posted_at = none;
  deadline = deadline;
  raw = none;
  day_first = none;
}

abbrev blank : Session (Unit {0})
blank = record { rows = []; events = []; next_id = 1 }

abbrev session_of :
    Session (Unit {0})
    → Result DatabaseError (Session (Unit {0}) × IngestionResult (Unit {0}))
    → Session (Unit {0})
session_of s (ok (n, res)) = n
session_of s (err e) = s

abbrev nothing_told : IngestionResult (Unit {0})
nothing_told = record {
  outcome = rejected;
  opportunity = none;
  duplicate_of = none;
  match_found = none;
  reason = none;
  notes = [];
}

abbrev result_of :
    Result DatabaseError (Session (Unit {0}) × IngestionResult (Unit {0}))
    → IngestionResult (Unit {0})
result_of (ok (n, res)) = res
result_of (err e) = nothing_told

abbrev first_posting : RawOpportunity ℕ
first_posting = posting "a" "x" (some 500)

abbrev second_posting : RawOpportunity ℕ
second_posting = posting "b" "y" (some 500)

abbrev one : Session (Unit {0})
one = session_of blank (ingest plain never seconds blank first_posting none 100)

abbrev both : Session (Unit {0})
both = session_of one (ingest plain never seconds one second_posting none 200)

first_created :
    ingest plain never seconds blank first_posting none 100
    ≡ ok (one, result_of (ingest plain never seconds blank first_posting none 100))
unfolding content_fingerprint any_row first_row find_duplicate store fingerprint_of candidate_of
    ingest
first_created = refl

second_flagged :
    ingest plain never seconds one second_posting none 200
    ≡ ok (both, result_of (ingest plain never seconds one second_posting none 200))
unfolding content_fingerprint any_row first_row is_exact_method find_duplicate similarity
    titles_compatible store fingerprint_of candidate_of new_row ingest
second_flagged = refl

-- Afterwards a third posting is taken in, with another title.
abbrev third_posting : RawOpportunity ℕ
third_posting = record (posting "c" "z" (some 900)) { title = "designer" }

abbrev three_rows : Session (Unit {0})
three_rows = session_of both (ingest plain never seconds both third_posting none 250)

flagged-ingest_example :
    ingest plain never seconds three_rows second_posting none 300 ≡ err integrity_error
unfolding is_outcome content_fingerprint any_row first_row is_exact_method find_duplicate trigrams
    ratio_of similarity same_texts seniority_tokens titles_compatible record_outcome record_stored
    store remote_status_of fingerprint_of assess_raw candidate_of new_row settle addressed titled
    ingest is_known
flagged-ingest_example =
    flagged-ingest plain never seconds one both three_rows second_posting none none 200 300 _
      (drop 2 three_rows.rows) "engineer" "b" second_flagged refl refl refl refl refl

-- The first posting again, with another text.
created-is_merged_example :
    is_merged (ingest plain never seconds one (posting "a" "z" none) none 300) ≡ true
unfolding is_outcome content_fingerprint any_row first_row find_duplicate store fingerprint_of
    candidate_of ingest
created-is_merged_example =
    created-is_merged plain never seconds blank one first_posting (posting "a" "z" none) none none
      100 300 _ "engineer" "a" first_created refl refl refl refl refl

ingest-is_merged_example :
    is_merged (ingest plain never seconds one second_posting none 300)
    ≡ is_known plain never seconds one.rows second_posting "engineer" "b"
unfolding content_fingerprint
ingest-is_merged_example =
    ingest-is_merged plain never seconds one second_posting none 300 "engineer" "b" refl refl

abbrev nothing_done : BatchState (Unit {0})
nothing_done = record { session = blank; report = no_report; results = [] }

abbrev progress_of : Result DatabaseError (BatchState (Unit {0})) → BatchState (Unit {0})
progress_of (ok p) = p
progress_of (err e) = nothing_done

abbrev batch : BatchState (Unit {0})
batch = progress_of (
    ingest_many plain never seconds blank (first_posting ∷ second_posting ∷ first_posting ∷ []) none
      100)

batch_done :
    ingest_many plain never seconds blank
      (first_posting ∷ second_posting ∷ first_posting ∷ [])
      none
      100
    ≡ ok batch
unfolding ingest_many content_fingerprint row_at any_row first_row is_exact_method find_duplicate
    similarity titles_compatible store fingerprint_of candidate_of new_row ingest
batch_done = refl

ingest_many-counts_example :
    (length batch.results ≡ 3)
    × (total batch.report ≡ 3)
    × (length batch.session.rows ≡ 0 + batch.report.created_count + batch.report.flagged_count)
ingest_many-counts_example =
    ingest_many-counts plain never seconds blank
      (first_posting ∷ second_posting ∷ first_posting ∷ []) none 100 batch batch_done

ingest_many-IsDistinct_example : IsDistinct batch.session.rows
unfolding IsDistinct
ingest_many-IsDistinct_example =
    ingest_many-IsDistinct plain never seconds blank
      (first_posting ∷ second_posting ∷ first_posting ∷ []) none 100 batch tt batch_done

-- The first row, on the day after its deadline.
abbrev old : Opportunity (Unit {0})
old = new_row plain seconds 1 first_posting none 100 "engineer" "a" none

refresh-is_settled_example :
    (t : Session (Unit {0})) × (refresh seconds one old 90000
      ≡ ok (t, assess_row seconds 90000 old old.last_verified_at))
    × (is_settled 90000 (row_at t.rows 1) ≡ true)
unfolding content_fingerprint row_at any_row first_row find_duplicate store fingerprint_of
    candidate_of new_row ingest
refresh-is_settled_example = refresh-is_settled seconds one old 90000 refl

abbrev candidate : Candidate (Unit {0})
candidate = candidate_of plain second_posting "engineer" "b"

abbrev found_row : DuplicateMatch
found_row = record { opportunity_id = 1; method = by_title_similarity; similarity = 10000 }

found_by_title : find_duplicate plain never one.rows candidate none ≡ some found_row
unfolding content_fingerprint any_row first_row is_exact_method find_duplicate similarity
    titles_compatible store fingerprint_of candidate_of new_row ingest half_even
found_by_title = refl

find_duplicate-shown_example : is_shown plain never one.rows candidate none found_row ≡ true
find_duplicate-shown_example =
    find_duplicate-shown plain never one.rows candidate none found_row found_by_title

find_duplicate-is_exact_example : is_exact (find_duplicate plain never one.rows candidate none) ≡ (
    any_row (λ r. has_url candidate r && is_candidate none r) one.rows
    || any_row (λ r. has_hash candidate r && is_candidate none r) one.rows)
find_duplicate-is_exact_example = find_duplicate-is_exact plain never one.rows candidate none
