-- ===== src/Ingestion/Courses.antt =====
-- The three courses that a call of `ingest` takes when it returns.
use chief_opportunity_intell.Prelude.{
  arith, arith, arith, arith, arith, arith, ℕ, String, ◌≡◌, refl, sym, ap, ◌∙◌, inl, inr, false,
  Option, none, some, [], ◌∷◌, ◌++◌, arith, Bool-cases, Result, ok, refused_ok,
}
use chief_opportunity_intell.Ingestion.Rows.{
  stored_outcome, merge_target, violates, flush, store, record_stored, record_outcome,
}
use chief_opportunity_intell.Ingestion.Store.{
  new_row, titled, addressed, settle, ingest, candidate_of,
}
use chief_opportunity_intell.Normalization.{Platform}
use chief_opportunity_intell.Dedup.Titles.{Ratio}
use chief_opportunity_intell.Normalization.{normalize_text}
use chief_opportunity_intell.Opportunities.{any_row, replace, Opportunity, Session, record_event}
use chief_opportunity_intell.Ingestion.{
  rejected, merged, integrity_error, seen_again, revalidate, IngestionResult, FreshnessAssessment,
  RawOpportunity, Readers,
}
use chief_opportunity_intell.Dedup.{find_duplicate, DuplicateMatch}
use chief_opportunity_intell.Prelude.Dict.{Dict}

ok-pair :
    {X A B : Type 0} (a c : A) (b d : B)
    → ◌≡◌ {A = Result X (A × B)} (ok (a, b)) (ok (c, d))
    → (a ≡ c) × (b ≡ d)
ok-pair a c b d h = (ground arith, ground arith)

module _ {E : Type 0} where
  record_outcome-rows :
      (s : Session E) (id : ℕ) (m : Option DuplicateMatch) (a : FreshnessAssessment)
      → (record_outcome s id m a).rows ≡ s.rows
  unfolding record_outcome record_event
  record_outcome-rows s id (some m) a = refl
  record_outcome-rows s id none a = elim (Bool-cases a.is_expired) [
    | inl past ↦ rw past refl
    | inr open_to ↦ rw open_to refl
  ]

  record_stored-rows :
      (s : Session E) (new : Opportunity E) (m : Option DuplicateMatch) (a : FreshnessAssessment)
      (notes : Dict String)
      → (record_stored s new m a notes).rows ≡ s.rows
  unfolding record_stored record_event
  record_stored-rows s new m a notes = record_outcome-rows _ new.id m a

  store-ok :
      (s n : Session E) (new : Opportunity E) (m : Option DuplicateMatch) (a : FreshnessAssessment)
      (notes : Dict String) (res : IngestionResult E)
      → store s new m a notes ≡ ok (n, res)
      → (any_row (violates new) s.rows ≡ false)
        × (n.rows ≡ s.rows ++ new ∷ [])
        × (res.outcome ≡ stored_outcome m)
  unfolding store flush
  store-ok s n new m a notes res h = elim (Bool-cases (any_row (violates new) s.rows)) [
    | inl taken ↦ absurd (refused_ok integrity_error _ (rw taken at h))
    | inr free ↦
        let (same, told) = ok-pair _ n _ res (rw free at h) in
        (
          free,
          ap (λ t. t.rows) (sym same) ∙ record_stored-rows _ new m a notes,
          ap (λ t. t.outcome) (sym told),
        )
  ]

module _ {D E : Type 0} (platform : Platform) (cosine : E → E → Ratio) (readers : Readers D) where
  -- The match of an item with a title and a URL.
  abbrev pub match_of : Session E → RawOpportunity D → String → String → Option DuplicateMatch
  match_of s raw title url =
      find_duplicate platform cosine s.rows (candidate_of platform raw title url) none

  pub data Ingested (s : Session E) (raw : RawOpportunity D) (source_id : Option ℕ) (now : ℕ)
      (n : Session E) (res : IngestionResult E) : Type 0 where
    turned_away : n ≡ s → res.outcome ≡ rejected → Ingested s raw source_id now n res
    joined :
        (title url : String) (existing : Opportunity E)
        → normalize_text platform (some raw.title) ≡ some title
        → readers.canonicalize_url raw.source_url ≡ some url
        → merge_target s.rows (match_of s raw title url) ≡ some existing
        → n.rows ≡ replace s.rows existing.id (seen_again readers existing now)
        → res.outcome ≡ merged
        → Ingested s raw source_id now n res
    stored :
        (title url : String)
        → normalize_text platform (some raw.title) ≡ some title
        → readers.canonicalize_url raw.source_url ≡ some url
        → merge_target s.rows (match_of s raw title url) ≡ none
        → any_row
            (violates (
              new_row platform readers s.next_id raw source_id now title url
                (match_of s raw title url)))
            s.rows
          ≡ false
        → n.rows
          ≡ s.rows
            ++ new_row platform readers s.next_id raw source_id now title url
                (match_of s raw title url)
              ∷ []
        → res.outcome ≡ stored_outcome (match_of s raw title url)
        → Ingested s raw source_id now n res

  settle-Ingested :
      (s n : Session E) (raw : RawOpportunity D) (source_id : Option ℕ) (now : ℕ)
      (res : IngestionResult E) (title url : String) (target : Option (Opportunity E))
      → normalize_text platform (some raw.title) ≡ some title
      → readers.canonicalize_url raw.source_url ≡ some url
      → merge_target s.rows (match_of s raw title url) ≡ target
      → settle platform readers s raw source_id now title url (match_of s raw title url) target
        ≡ ok (n, res)
      → Ingested s raw source_id now n res
  unfolding settle revalidate record_event
  settle-Ingested s n raw source_id now res title url (some existing) named at_url found h =
      let (same, told) = ok-pair _ n _ res h in
      joined title url existing named at_url found (ap (λ t. t.rows) (sym same))
        (ap (λ t. t.outcome) (sym told))
  settle-Ingested s n raw source_id now res title url none named at_url found h =
      let (free, rows, told) = store-ok s n _ (match_of s raw title url) _ _ res h in
      stored title url named at_url found free rows told

  addressed-Ingested :
      (s n : Session E) (raw : RawOpportunity D) (source_id : Option ℕ) (now : ℕ)
      (res : IngestionResult E) (title : String) (url : Option String)
      → normalize_text platform (some raw.title) ≡ some title
      → readers.canonicalize_url raw.source_url ≡ url
      → addressed platform cosine readers s raw source_id now title url ≡ ok (n, res)
      → Ingested s raw source_id now n res
  unfolding addressed
  addressed-Ingested s n raw source_id now res title none named at_url h =
      let (same, told) = ok-pair s n _ res h in
      turned_away (sym same) (ap (λ t. t.outcome) (sym told))
  addressed-Ingested s n raw source_id now res title (some url) named at_url h =
      settle-Ingested s n raw source_id now res title url _ named at_url refl h

  titled-Ingested :
      (s n : Session E) (raw : RawOpportunity D) (source_id : Option ℕ) (now : ℕ)
      (res : IngestionResult E) (title : Option String)
      → normalize_text platform (some raw.title) ≡ title
      → titled platform cosine readers s raw source_id now title ≡ ok (n, res)
      → Ingested s raw source_id now n res
  unfolding titled
  titled-Ingested s n raw source_id now res none named h =
      let (same, told) = ok-pair s n _ res h in
      turned_away (sym same) (ap (λ t. t.outcome) (sym told))
  titled-Ingested s n raw source_id now res (some title) named h =
      addressed-Ingested s n raw source_id now res title _ named refl h

  pub ingest-Ingested :
      (s n : Session E) (raw : RawOpportunity D) (source_id : Option ℕ) (now : ℕ)
      (res : IngestionResult E)
      → ingest platform cosine readers s raw source_id now ≡ ok (n, res)
      → Ingested s raw source_id now n res
  unfolding ingest
  ingest-Ingested s n raw source_id now res h = titled-Ingested s n raw source_id now res _ refl h
