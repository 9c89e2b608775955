-- ===== src/Ingestion/Unique.antt =====
-- No posting is stored twice.
use chief_opportunity_intell.Prelude.{
  arith, arith, arith, arith, arith, arith, Result-cases, ok, ℕ, String, ◌≡◌, refl, ◌∙◌, inl, inr,
  true, false, not, ◌&&◌, ◌||◌, Option, none, some, List, [], ◌∷◌, ◌++◌, arith, ok-same, refused_ok,
}
use chief_opportunity_intell.Dedup.{
  find_duplicate, is_present, DuplicateMatch, Candidate, is_candidate, is_url, has_url, same_column,
}
use chief_opportunity_intell.Opportunities.{Session, any_row, Opportunity}
use chief_opportunity_intell.Ingestion.{IngestionResult, RawOpportunity, Readers, seen_again}
use chief_opportunity_intell.Normalization.{Platform}
use chief_opportunity_intell.Dedup.Titles.{Ratio}
use chief_opportunity_intell.Ingestion.Rows.{stored_status, violates}
use chief_opportunity_intell.Ingestion.Store.{ingest, fingerprint_of, candidate_of, new_row}
use chief_opportunity_intell.Ingestion.Batch.{advance, BatchState, ingest_rest, ingest_many}
use chief_opportunity_intell.Dedup.Exact.{
  any_row-none, find_duplicate-is_exact, any_row-or, is_exact,
}
use chief_opportunity_intell.Ingestion.Courses.{
  ingest-Ingested, turned_away, joined, stored, Ingested,
}
use chief_opportunity_intell.Ingestion.Clashes.{
  is_live, clashes, IsDistinct, IsDistinct-append, IsDistinct-replace, seen_again-IsLike,
  any_row-narrower, merge_target-row, some_url-same, hash-or, found-or,
}

module _ {D E : Type 0} (platform : Platform) (cosine : E → E → Ratio) (readers : Readers D) where
  -- A new row clashes with no other, when it keeps the constraints and, unless it is marked as a
  -- duplicate, the probes found nothing.
  new_row-clashes :
      (raw : RawOpportunity D) (source_id : Option ℕ) (id now : ℕ) (title url : String)
      (m : Option DuplicateMatch) (r : Opportunity E)
      → clashes (new_row platform readers id raw source_id now title url m) r ≡ true
      → (violates (new_row platform readers id raw source_id now title url m) r
          || (not (is_present m)
              && (has_url (candidate_of platform raw title url) r && is_candidate none r)))
        ≡ true
  unfolding clashes violates has_url is_url is_candidate new_row is_live stored_status candidate_of
  new_row-clashes raw source_id id now title url none r h =
      found-or (same_column r.content_hash (some (fingerprint_of platform raw title))) _ _ _ _ _ _ h
        (some_url-same {E = E} (candidate_of platform raw title url) url r.canonical_url refl)
  new_row-clashes raw source_id id now title url (some m) r h =
      hash-or (same_column r.content_hash (some (fingerprint_of platform raw title))) _ h

  -- What the probes leave free, when they found nothing.
  missed :
      (rows : List (Opportunity E)) (c : Candidate E) (m : Option DuplicateMatch)
      → find_duplicate platform cosine rows c none ≡ m
      → any_row (λ r. not (is_present m) && (has_url c r && is_candidate none r)) rows ≡ false
  unfolding is_exact
  missed rows c none h =
      let exactly = find_duplicate-is_exact platform cosine rows c none in ground arith
  missed rows c (some m) h = any_row-none _ rows (λ r. refl)

  stored-IsDistinct :
      (s : Session E) (raw : RawOpportunity D) (source_id : Option ℕ) (now : ℕ) (title url : String)
      (m : Option DuplicateMatch)
      → find_duplicate platform cosine s.rows (candidate_of platform raw title url) none ≡ m
      → any_row (violates (new_row platform readers s.next_id raw source_id now title url m)) s.rows
        ≡ false
      → IsDistinct s.rows
      → IsDistinct (s.rows ++ new_row platform readers s.next_id raw source_id now title url m ∷ [])
  stored-IsDistinct s raw source_id now title url m found free distinct =
      let new = new_row platform readers s.next_id raw source_id now title url m in
      let apart =
        any_row-or (violates new)
          (λ r.
            not (is_present m)
            && (has_url (candidate_of platform raw title url) r && is_candidate none r))
          s.rows in
      let nowhere = missed s.rows (candidate_of platform raw title url) m found in
      IsDistinct-append s.rows new distinct (
        any_row-narrower _ _ s.rows (new_row-clashes raw source_id s.next_id now title url m)
          (apart ∙ rw (free, nowhere) refl))

  Ingested-IsDistinct :
      (s n : Session E) (raw : RawOpportunity D) (source_id : Option ℕ) (now : ℕ)
      (res : IngestionResult E)
      → Ingested platform cosine readers s raw source_id now n res
      → IsDistinct s.rows
      → IsDistinct n.rows
  Ingested-IsDistinct s n raw source_id now res (turned_away same told) distinct = rw same distinct
  Ingested-IsDistinct s n raw source_id now res
        (joined title url existing named at_url found rows told) distinct =
      rw rows (
        IsDistinct-replace s.rows existing.id existing (seen_again readers existing now)
          (merge_target-row s.rows _ existing found) (seen_again-IsLike readers existing now)
          distinct)
  Ingested-IsDistinct s n raw source_id now res (stored title url named at_url found free rows told)
        distinct =
      rw rows (stored-IsDistinct s raw source_id now title url _ refl free distinct)

  ingest_rest-IsDistinct :
      (p q : BatchState E) (items : List (RawOpportunity D)) (source_id : Option ℕ) (now : ℕ)
      → IsDistinct p.session.rows
      → ingest_rest platform cosine readers p items source_id now ≡ ok q
      → IsDistinct q.session.rows
  unfolding ingest_rest advance
  ingest_rest-IsDistinct p q [] source_id now distinct h = rw (← ok-same p q h) distinct
  ingest_rest-IsDistinct p q (raw ∷ items) source_id now distinct h =
      elim (Result-cases (ingest platform cosine readers p.session raw source_id now)) [
        | inl (e, failed) ↦ absurd (refused_ok e q (rw failed at h))
        | inr ((s, res), done) ↦
            ingest_rest-IsDistinct (advance p (s, res)) q items source_id now
              (Ingested-IsDistinct p.session s raw source_id now res
                (ingest-Ingested platform cosine readers p.session s raw source_id now res done)
                distinct)
              (rw done at h)
      ]

  -- Where no two rows have one content hash, and no two rows that are not marked as duplicates have
  -- one canonical URL, this is so after any list of items that is taken in without an error.
  pub ingest_many-IsDistinct :
      (s : Session E) (items : List (RawOpportunity D)) (source_id : Option ℕ) (now : ℕ)
      (q : BatchState E)
      → IsDistinct s.rows
      → ingest_many platform cosine readers s items source_id now ≡ ok q
      → IsDistinct q.session.rows
  unfolding ingest_many
  ingest_many-IsDistinct s items source_id now q distinct h =
      ingest_rest-IsDistinct _ q items source_id now distinct h
