-- ===== src/Ingestion/Batch.antt =====
-- `ingest_many`: a list of items, and the counts of the outcomes.
use chief_opportunity_intell.Prelude.{
  arith, arith, arith, arith, arith, arith, ℕ, ◌+◌, ◌≡◌, refl, inl, inr, Option, none, some, List,
  [], ◌∷◌, ◌++◌, arith, length, length-append, Result, ok, ◌>>=◌, Result-cases, ok-same, refused_ok,
}
use chief_opportunity_intell.Ingestion.{
  seen_again, DatabaseError, flagged_duplicate, RawOpportunity, Readers, merged, IngestionResult,
  created, IngestionOutcome, rejected,
}
use chief_opportunity_intell.Ingestion.Rows.{stored_outcome}
use chief_opportunity_intell.Ingestion.Store.{ingest}
use chief_opportunity_intell.Opportunities.{Opportunity, Session, replace}
use chief_opportunity_intell.Normalization.{Platform}
use chief_opportunity_intell.Dedup.{DuplicateMatch}
use chief_opportunity_intell.Dedup.Titles.{Ratio}
use chief_opportunity_intell.Ingestion.Courses.{
  Ingested, turned_away, joined, stored, ingest-Ingested, match_of,
}

pub record IngestionReport : Type 0 where
  pub created_count : ℕ
  pub merged_count : ℕ
  pub flagged_count : ℕ
  pub rejected_count : ℕ

abbrev pub no_report : IngestionReport
no_report = record { created_count = 0; merged_count = 0; flagged_count = 0; rejected_count = 0 }

unfoldable pub total : IngestionReport → ℕ
total r = r.created_count + r.merged_count + r.flagged_count + r.rejected_count

-- `match result.outcome`
unfoldable pub count : IngestionReport → IngestionOutcome → IngestionReport
count r created = record r { created_count = r.created_count + 1 }
count r merged = record r { merged_count = r.merged_count + 1 }
count r flagged_duplicate = record r { flagged_count = r.flagged_count + 1 }
count r rejected = record r { rejected_count = r.rejected_count + 1 }

-- What the loop has so far, and what it returns.
pub record BatchState (E : Type 0) : Type 0 where
  pub session : Session E
  pub report : IngestionReport
  pub results : List (IngestionResult E)

module _ {E : Type 0} where
  unfoldable pub advance : BatchState E → Session E × IngestionResult E → BatchState E
  unfolding count
  advance p (s, result) = record {
    session = s;
    report = count p.report result.outcome;
    results = p.results ++ result ∷ [];
  }

module _ {D E : Type 0} (platform : Platform) (cosine : E → E → Ratio) (readers : Readers D) where
  unfoldable pub ingest_rest :
      BatchState E → List (RawOpportunity D) → Option ℕ → ℕ → Result DatabaseError (BatchState E)
  unfolding advance
  ingest_rest p [] source_id now = ok p
  ingest_rest p (raw ∷ items) source_id now =
      ingest platform cosine readers p.session raw source_id now >>= λ result.
      ingest_rest (advance p result) items source_id now

  unfoldable pub ingest_many :
      Session E → List (RawOpportunity D) → Option ℕ → ℕ → Result DatabaseError (BatchState E)
  unfolding ingest_rest
  ingest_many s items source_id now =
      ingest_rest (record { session = s; report = no_report; results = [] }) items source_id now

-- How many rows an outcome adds.
unfoldable pub rows_of : IngestionOutcome → ℕ
rows_of created = 1
rows_of merged = 0
rows_of flagged_duplicate = 1
rows_of rejected = 0

unfoldable pub stored_count : IngestionReport → ℕ
stored_count r = r.created_count + r.flagged_count

stored_count-count :
    (r : IngestionReport) (o : IngestionOutcome)
    → (stored_count (count r o) ≡ stored_count r + rows_of o) × (total (count r o) ≡ total r + 1)
unfolding stored_count count rows_of total
stored_count-count r created = (ground arith, ground arith)
stored_count-count r merged = (ground arith, ground arith)
stored_count-count r flagged_duplicate = (ground arith, ground arith)
stored_count-count r rejected = (ground arith, ground arith)

length-replace :
    {E : Type 0} (rows : List (Opportunity E)) (id : ℕ) (new : Opportunity E)
    → length (replace rows id new) ≡ length rows
unfolding replace
length-replace [] id new = refl
length-replace (r ∷ rows) id new = let ih = length-replace rows id new in ground arith

rows_of-stored : (m : Option DuplicateMatch) → rows_of (stored_outcome m) ≡ 1
unfolding rows_of stored_outcome
rows_of-stored none = refl
rows_of-stored (some m) = refl

module _ {D E : Type 0} (platform : Platform) (cosine : E → E → Ratio) (readers : Readers D) where
  length-Ingested :
      (s n : Session E) (raw : RawOpportunity D) (source_id : Option ℕ) (now : ℕ)
      (res : IngestionResult E)
      → Ingested platform cosine readers s raw source_id now n res
      → length n.rows ≡ length s.rows + rows_of res.outcome
  unfolding rows_of
  length-Ingested s n raw source_id now res (turned_away same told) = rw (same, told) (omega arith)
  length-Ingested s n raw source_id now res
        (joined title url existing named at_url found rows told) =
      rw (rows, told, length-replace s.rows existing.id (seen_again readers existing now))
        (omega arith)
  length-Ingested s n raw source_id now res (stored title url named at_url found free rows told) =
      rw
        (
          rows,
          told,
          rows_of-stored (match_of platform cosine readers s raw title url),
          length-append,
        )
        (omega arith)

  ingest_rest-counts :
      (p q : BatchState E) (items : List (RawOpportunity D)) (source_id : Option ℕ) (now : ℕ)
      → ingest_rest platform cosine readers p items source_id now ≡ ok q
      → (total q.report + length p.results ≡ total p.report + length q.results)
        × (length q.results ≡ length p.results + length items)
        × (length q.session.rows + stored_count p.report
            ≡ length p.session.rows + stored_count q.report)
  unfolding ingest_rest advance
  ingest_rest-counts p q [] source_id now h =
      let same = ok-same p q h in rw same (omega arith, omega arith, omega arith)
  ingest_rest-counts p q (raw ∷ items) source_id now h =
      elim (Result-cases (ingest platform cosine readers p.session raw source_id now)) [
        | inl (e, failed) ↦ absurd (refused_ok e q (rw failed at h))
        | inr ((s, res), done) ↦
            let ih = ingest_rest-counts (advance p (s, res)) q items source_id now (rw done at h) in
            let grown =
              length-Ingested p.session s raw source_id now res
                (ingest-Ingested platform cosine readers p.session s raw source_id now res done) in
            let longer = length-append p.results (res ∷ []) in
            let counted = stored_count-count p.report res.outcome in
            let (totals, lengths, stores) = ih in (ground arith, ground arith, ground arith)
      ]

  -- Where no item fails, there is one result for each item, the counts of the report add up to the
  -- number of items, and the table has grown by the items that were created or flagged.
  pub ingest_many-counts :
      (s : Session E) (items : List (RawOpportunity D)) (source_id : Option ℕ) (now : ℕ)
      (q : BatchState E)
      → ingest_many platform cosine readers s items source_id now ≡ ok q
      → (length q.results ≡ length items)
        × (total q.report ≡ length items)
        × (length q.session.rows ≡ length s.rows + q.report.created_count + q.report.flagged_count)
  unfolding ingest_many total stored_count
  ingest_many-counts s items source_id now q h =
      let (totals, lengths, stores) = ingest_rest-counts _ q items source_id now h in
      (ground arith, ground arith, ground arith)
