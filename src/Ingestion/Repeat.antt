-- ===== src/Ingestion/Repeat.antt =====
-- The second time that an item comes.
use chief_opportunity_intell.Dedup.Exact.{is_exact, find_duplicate-is_exact}
use chief_opportunity_intell.Ingestion.Clashes.{some-same, any_row-append}
use chief_opportunity_intell.Normalization.{Platform, normalize_text}
use chief_opportunity_intell.Dedup.Titles.{Ratio}
use chief_opportunity_intell.Enums.{OpportunityStatus, status_eq}
use chief_opportunity_intell.Opportunities.{Session, Opportunity, any_row}
use chief_opportunity_intell.Ingestion.Again.{
  ingest-is_merged, is_known, is_merged, is_outcome, merge_target-is_exact, ingest-addressed,
}
use chief_opportunity_intell.Ingestion.Rows.{stored_status, violates}
use chief_opportunity_intell.Ingestion.Store.{
  new_row, assess_raw, candidate_of, ingest, settle, fingerprint_of,
}
use chief_opportunity_intell.Ingestion.Courses.{
  turned_away, joined, stored, Ingested, ingest-Ingested, match_of,
}
use chief_opportunity_intell.Dedup.{
  is_url, DuplicateMatch, is_present, truthy, find_duplicate, is_candidate, has_url, has_hash,
}
use chief_opportunity_intell.Ingestion.{
  created, flagged_duplicate, RawOpportunity, Readers, IngestionResult, integrity_error,
}
use chief_opportunity_intell.Prelude.{
  ℕ, String, ◌≡◌, refl, sym, ap, ◌∙◌, Bool, true, false, ◌&&◌, Option, none, some, List, [], ◌∷◌,
  ◌++◌, arith, eq_refl, ok, err,
}
use chief_opportunity_intell.Ingestion.Outcomes.{
  created-none, flagged-some, is_present-none, false-true, found-last, violates_same, store-refused,
  or_true, and_false, neither, live_status, any_row-join,
}

module _ {D E : Type 0} (platform : Platform) (cosine : E → E → Ratio) (readers : Readers D) where
  -- The row of a new item is found by its URL.
  new_row-has_url :
      (raw again : RawOpportunity D) (source_id : Option ℕ) (id now : ℕ) (title other url : String)
      → truthy (some url) ≡ true
      → (has_url
            (candidate_of platform again other url)
            (new_row {E = E} platform readers id raw source_id now title url none)
          && is_candidate none
              (new_row {E = E} platform readers id raw source_id now title url none))
        ≡ true
  unfolding has_url is_url is_candidate candidate_of new_row
  new_row-has_url raw again source_id id now title other url there =
      let same = eq_refl url in
      let live = live_status (assess_raw readers raw now) in rw (there, same, live) refl

  known :
      (s n : Session E) (raw again : RawOpportunity D) (source_id : Option ℕ) (now : ℕ)
      (res : IngestionResult E) (other url : String)
      → truthy (some url) ≡ true
      → readers.canonicalize_url raw.source_url ≡ some url
      → is_outcome res.outcome created ≡ true
      → Ingested platform cosine readers s raw source_id now n res
      → is_known platform cosine readers n.rows again other url ≡ true
  unfolding is_outcome is_known
  known s n raw again source_id now res other url there at_url fresh (turned_away same told) =
      absurd (false-true (rw told at fresh))
  known s n raw again source_id now res other url there at_url fresh
        (joined title own existing named own_url found rows told) =
      absurd (false-true (rw told at fresh))
  known s n raw again source_id now res other url there at_url fresh
        (stored title own named own_url found free rows told) =
      let nothing =
        created-none (match_of platform cosine readers s raw title own) (rw told at fresh) in
      let same_url : own ≡ url = some-same own url (sym own_url ∙ at_url) in
      let new = new_row {E = E} platform readers s.next_id raw source_id now title url none in
      let grown : n.rows ≡ s.rows ++ new ∷ [] = rw (nothing, same_url) at rows in
      rw grown (
        found-last (λ r. has_url (candidate_of platform again other url) r && is_candidate none r)
          s.rows new _ (new_row-has_url raw again source_id s.next_id now title other url there))

  -- After an item was created, every item with the same URL and a title that is not blank is merged,
  -- without an error.
  pub created-is_merged :
      (s n : Session E) (raw again : RawOpportunity D) (source_id other_source : Option ℕ)
      (now later : ℕ) (res : IngestionResult E) (other url : String)
      → ingest platform cosine readers s raw source_id now ≡ ok (n, res)
      → is_outcome res.outcome created ≡ true
      → readers.canonicalize_url raw.source_url ≡ some url
      → truthy (some url) ≡ true
      → normalize_text platform (some again.title) ≡ some other
      → readers.canonicalize_url again.source_url ≡ some url
      → is_merged (ingest platform cosine readers n again other_source later) ≡ true
  created-is_merged s n raw again source_id other_source now later res other url h fresh at_url
        there named again_url =
      ingest-is_merged platform cosine readers n again other_source later other url named again_url
      ∙ known s n raw again source_id now res other url there at_url fresh
          (ingest-Ingested platform cosine readers s n raw source_id now res h)

  settle-refused :
      (n : Session E) (raw : RawOpportunity D) (source_id : Option ℕ) (now : ℕ) (title url : String)
      (m : Option DuplicateMatch) (target : Option (Opportunity E))
      → target ≡ none
      → any_row (violates (new_row platform readers n.next_id raw source_id now title url m)) n.rows
        ≡ true
      → settle platform readers n raw source_id now title url m target ≡ err integrity_error
  unfolding settle
  settle-refused n raw source_id now title url m (some r) nothing taken = ground arith
  settle-refused n raw source_id now title url m none nothing taken =
      store-refused n (new_row platform readers n.next_id raw source_id now title url m) m _ _ taken

  -- The row of an item takes the item's content hash.
  taken :
      (rows : List (Opportunity E)) (raw : RawOpportunity D) (source_id other_source : Option ℕ)
      (id next now later : ℕ) (title url : String) (m k : Option DuplicateMatch)
      → any_row
          (violates (new_row platform readers next raw other_source later title url k))
          (rows ++ new_row {E = E} platform readers id raw source_id now title url m ∷ [])
        ≡ true
  unfolding new_row
  taken rows raw source_id other_source id next now later title url m k =
      let new = new_row {E = E} platform readers next raw other_source later title url k in
      let old = new_row {E = E} platform readers id raw source_id now title url m in
      any_row-append (violates new) rows old
      ∙ rw (violates_same new old (fingerprint_of platform raw title) refl refl) (or_true _)

  -- A row that is marked as a duplicate is not found.
  hidden :
      (p : Opportunity E → Bool) (rows : List (Opportunity E)) (new : Opportunity E)
      → status_eq new.status OpportunityStatus.duplicate ≡ true
      → any_row (λ r. p r && is_candidate none r) rows ≡ false
      → any_row (λ r. p r && is_candidate none r) (rows ++ new ∷ []) ≡ false
  unfolding is_candidate
  hidden p rows new marked h = any_row-append _ rows new ∙ rw (h, marked) (and_false (p new))

  hidden_behind :
      (p : Opportunity E → Bool) (rows more : List (Opportunity E)) (new : Opportunity E)
      → status_eq new.status OpportunityStatus.duplicate ≡ true
      → any_row (λ r. p r && is_candidate none r) rows ≡ false
      → any_row (λ r. p r && is_candidate none r) more ≡ false
      → any_row (λ r. p r && is_candidate none r) ((rows ++ new ∷ []) ++ more) ≡ false
  hidden_behind p rows more new marked h k =
      any_row-join _ (rows ++ new ∷ []) more ∙ rw (hidden p rows new marked h, k) refl

  marked_row :
      (raw : RawOpportunity D) (source_id : Option ℕ) (id now : ℕ) (title url : String)
      (m : Option DuplicateMatch) (d : DuplicateMatch)
      → m ≡ some d
      → status_eq
          (new_row {E = E} platform readers id raw source_id now title url m).status
          OpportunityStatus.duplicate
        ≡ true
  unfolding new_row stored_status
  marked_row raw source_id id now title url m d h = rw h refl

  refused :
      (s n t : Session E) (raw : RawOpportunity D) (source_id other_source : Option ℕ)
      (now later : ℕ) (res : IngestionResult E) (more : List (Opportunity E)) (title url : String)
      → is_outcome res.outcome flagged_duplicate ≡ true
      → t.rows ≡ n.rows ++ more
      → is_known platform cosine readers more raw title url ≡ false
      → normalize_text platform (some raw.title) ≡ some title
      → readers.canonicalize_url raw.source_url ≡ some url
      → Ingested platform cosine readers s raw source_id now n res
      → ingest platform cosine readers t raw other_source later ≡ err integrity_error
  unfolding is_outcome is_known
  refused s n t raw source_id other_source now later res more title url flagged grown strange named
        at_url (turned_away same told) =
      absurd (false-true (rw told at flagged))
  refused s n t raw source_id other_source now later res more title url flagged grown strange named
        at_url (joined own_title own existing _ own_url found rows told) =
      absurd (false-true (rw told at flagged))
  refused s n t raw source_id other_source now later res more title url flagged grown strange named
        at_url (stored own_title own own_named own_url found free rows told) =
      let c = candidate_of {E = E} platform raw own_title own in
      let m = match_of platform cosine readers s raw own_title own in
      let new = new_row {E = E} platform readers s.next_id raw source_id now own_title own m in
      let (d, is_d) = flagged-some m (rw told at flagged) in
      let marked = marked_row raw source_id s.next_id now own_title own m d is_d in
      let inexact : is_exact m ≡ false =
        sym (merge_target-is_exact platform cosine readers s.rows c m refl) ∙ ap is_present found in
      let unknown_before = sym (find_duplicate-is_exact platform cosine s.rows c none) ∙ inexact in
      let (no_url, no_hash) = neither _ _ unknown_before in
      let same_title = some-same title own_title (sym named ∙ own_named) in
      let same_url = some-same url own (sym at_url ∙ own_url) in
      let (other_url, other_hash) = neither _ _ (rw (same_title, same_url) at strange) in
      let all_rows : t.rows ≡ (s.rows ++ new ∷ []) ++ more = grown ∙ ap (λ l. l ++ more) rows in
      let unknown_after : is_exact (find_duplicate platform cosine t.rows c none) ≡ false =
        find_duplicate-is_exact platform cosine t.rows c none
        ∙ rw
            (
              all_rows,
              hidden_behind (has_url c) s.rows more new marked no_url other_url,
              hidden_behind (has_hash c) s.rows more new marked no_hash other_hash,
            )
            refl in
      ingest-addressed platform cosine readers t raw other_source later own_title own own_named
        own_url
      ∙ settle-refused t raw other_source later own_title own _ _
          (is_present-none _
            (merge_target-is_exact platform cosine readers t.rows c _ refl ∙ unknown_after))
          (rw all_rows (
            any_row-join _ (s.rows ++ new ∷ []) more
            ∙ rw
                (taken s.rows raw source_id other_source s.next_id t.next_id now later own_title own
                  m _)
                refl))

  -- An item that was flagged as a duplicate can not be taken in again while rows are only added
  -- behind its own, and none of these that is not marked as a duplicate has its URL or its content
  -- hash: no row is found for it, and a second one violates the unique content hash.
  pub flagged-ingest :
      (s n t : Session E) (raw : RawOpportunity D) (source_id other_source : Option ℕ)
      (now later : ℕ) (res : IngestionResult E) (more : List (Opportunity E)) (title url : String)
      → ingest platform cosine readers s raw source_id now ≡ ok (n, res)
      → is_outcome res.outcome flagged_duplicate ≡ true
      → t.rows ≡ n.rows ++ more
      → normalize_text platform (some raw.title) ≡ some title
      → readers.canonicalize_url raw.source_url ≡ some url
      → is_known platform cosine readers more raw title url ≡ false
      → ingest platform cosine readers t raw other_source later ≡ err integrity_error
  flagged-ingest s n t raw source_id other_source now later res more title url h flagged grown named
        at_url strange =
      refused s n t raw source_id other_source now later res more title url flagged grown strange
        named at_url (ingest-Ingested platform cosine readers s n raw source_id now res h)
