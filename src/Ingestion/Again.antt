-- ===== src/Ingestion/Again.antt =====
-- What comes of an item that is there already, or that comes a second time.
use chief_opportunity_intell.Prelude.{
  ℕ, String, ◌≡◌, refl, ap, ◌∙◌, inl, inr, Bool, true, false, ◌&&◌, ◌||◌, Option, none, some, List,
  [], ◌∷◌, arith, ◌==◌, Bool-cases, Result, ok, err,
}
use chief_opportunity_intell.Ingestion.{
  FreshnessAssessment, RawOpportunity, Readers, merged, IngestionResult, DatabaseError,
  IngestionOutcome, created, flagged_duplicate, rejected,
}
use chief_opportunity_intell.Normalization.{normalize_text, Platform}
use chief_opportunity_intell.Opportunities.{Opportunity, Session, any_row, row_at}
use chief_opportunity_intell.Ingestion.Rows.{violates, merge_target, flush, store, stored_outcome}
use chief_opportunity_intell.Ingestion.Store.{
  addressed, new_row, candidate_of, titled, ingest, settle,
}
use chief_opportunity_intell.Dedup.{
  is_exact_method, Candidate, has_url, is_present, DuplicateMatch, find_duplicate, is_candidate,
  has_hash,
}
use chief_opportunity_intell.Dedup.Titles.{Ratio}
use chief_opportunity_intell.Prelude.Dict.{Dict}
use chief_opportunity_intell.Dedup.Exact.{find_duplicate-is_exact, is_exact}
use chief_opportunity_intell.Dedup.Found.{find_duplicate-shown}

-- The outcome, of a call that returned.
unfoldable pub is_outcome : IngestionOutcome → IngestionOutcome → Bool
is_outcome created created = true
is_outcome merged merged = true
is_outcome flagged_duplicate flagged_duplicate = true
is_outcome rejected rejected = true
is_outcome _ _ = false

unfoldable pub is_merged :
    {E : Type 0} → Result DatabaseError (Session E × IngestionResult E) → Bool
unfolding is_outcome
is_merged (err e) = false
is_merged (ok (n, res)) = is_outcome res.outcome merged

never_merged : (m : Option DuplicateMatch) → is_outcome (stored_outcome m) merged ≡ false
unfolding is_outcome stored_outcome
never_merged none = refl
never_merged (some m) = refl

is_merged-stored :
    {E : Type 0} (s : Session E) (new : Opportunity E) (m : Option DuplicateMatch)
    (a : FreshnessAssessment) (notes : Dict String)
    → is_merged (store s new m a notes) ≡ false
unfolding is_merged store flush is_outcome stored_outcome
is_merged-stored s new m a notes = elim (Bool-cases (any_row (violates new) s.rows)) [
  | inl taken ↦ rw taken refl
  | inr free ↦ rw free (never_merged m)
]

module _ {E : Type 0} where
  -- A row that some row's id names is found under it.
  row_at-present :
      (rows : List (Opportunity E)) (id : ℕ) (p : Opportunity E → Bool)
      → any_row (λ r. r.id == id && p r) rows ≡ true
      → is_present (row_at rows id) ≡ true
  unfolding row_at any_row
  row_at-present [] id p h = h
  row_at-present (r ∷ rows) id p h = ground (arith, row_at-present rows id p)

module _ {D E : Type 0} (platform : Platform) (cosine : E → E → Ratio) (readers : Readers D) where
  pub merge_target-is_exact :
      (rows : List (Opportunity E)) (c : Candidate E) (m : Option DuplicateMatch)
      → find_duplicate platform cosine rows c none ≡ m
      → is_present (merge_target rows m) ≡ is_exact m
  unfolding merge_target is_exact
  merge_target-is_exact rows c none h = refl
  merge_target-is_exact rows c (some m) h = elim (Bool-cases (is_exact_method m.method)) [
    | inl exactly ↦ rw exactly (
        row_at-present rows m.opportunity_id _
          (find_duplicate-shown platform cosine rows c none m h))
    | inr loosely ↦ rw loosely refl
  ]

  settle-is_merged :
      (s : Session E) (raw : RawOpportunity D) (source_id : Option ℕ) (now : ℕ) (title url : String)
      (m : Option DuplicateMatch) (target : Option (Opportunity E))
      → is_merged (settle platform readers s raw source_id now title url m target)
        ≡ is_present target
  unfolding settle is_merged is_outcome
  settle-is_merged s raw source_id now title url m (some existing) = refl
  settle-is_merged s raw source_id now title url m none =
      is_merged-stored s (new_row platform readers s.next_id raw source_id now title url m) m _ _

  -- Whether a live row has the URL, or the hash.
  unfoldable pub is_known : List (Opportunity E) → RawOpportunity D → String → String → Bool
  is_known rows raw title url =
      let c = candidate_of platform raw title url in
      any_row (λ r. has_url c r && is_candidate none r) rows
      || any_row (λ r. has_hash c r && is_candidate none r) rows

  pub ingest-addressed :
      (s : Session E) (raw : RawOpportunity D) (source_id : Option ℕ) (now : ℕ) (title url : String)
      → normalize_text platform (some raw.title) ≡ some title
      → readers.canonicalize_url raw.source_url ≡ some url
      → ingest platform cosine readers s raw source_id now
        ≡ settle platform readers s raw source_id now title url
            (find_duplicate platform cosine s.rows (candidate_of platform raw title url) none)
            (merge_target s.rows
              (find_duplicate platform cosine s.rows (candidate_of platform raw title url) none))
  unfolding ingest titled addressed
  ingest-addressed s raw source_id now title url named at_url = rw (named, at_url) refl

  -- An item whose title is not blank and whose URL is usable is merged into a row, without an error,
  -- exactly when a row that is not marked as a duplicate has its URL or its content hash.
  pub ingest-is_merged :
      (s : Session E) (raw : RawOpportunity D) (source_id : Option ℕ) (now : ℕ) (title url : String)
      → normalize_text platform (some raw.title) ≡ some title
      → readers.canonicalize_url raw.source_url ≡ some url
      → is_merged (ingest platform cosine readers s raw source_id now)
        ≡ is_known s.rows raw title url
  unfolding is_known
  ingest-is_merged s raw source_id now title url named at_url =
      let c = candidate_of platform raw title url in
      ap is_merged (ingest-addressed s raw source_id now title url named at_url)
      ∙ settle-is_merged s raw source_id now title url _ _
      ∙ merge_target-is_exact s.rows c _ refl
      ∙ find_duplicate-is_exact platform cosine s.rows c none
