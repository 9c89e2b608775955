-- ===== src/Ingestion/Store.antt =====
-- `ingest`: the checks, the merge of an exact duplicate and the row that is stored otherwise.
use chief_opportunity_intell.Prelude.{
  ℕ, String, Option, none, some, [], str_eq, if◌then◌else◌, Result, ok,
}
use chief_opportunity_intell.Dedup.{find_duplicate, Candidate, DuplicateMatch}
use chief_opportunity_intell.Opportunities.{Session, Opportunity}
use chief_opportunity_intell.Normalization.{
  normalize_country, normalize_text, content_fingerprint, Platform,
}
use chief_opportunity_intell.Ingestion.{
  seen_again, notes_of, remote_text, remote_member, title_is_empty, unusable_source_url, merged,
  assess, RawOpportunity, RemoteInput, revalidate, IngestionResult, remote_named, Readers,
  DatabaseError, FreshnessAssessment,
}
use chief_opportunity_intell.Dedup.Titles.{Ratio}
use chief_opportunity_intell.Enums.{unknown, RemoteStatus}
use chief_opportunity_intell.Normalization.Money.{normalize_compensation}
use chief_opportunity_intell.Prelude.Texts.{strip}
use chief_opportunity_intell.Ingestion.Rows.{reject, id_of, stored_status, merge_target, store}

module _ (platform : Platform) where
  unfoldable pub remote_status_of : RemoteInput → RemoteStatus
  unfolding remote_named
  remote_status_of (remote_member r) = r
  remote_status_of (remote_text none) = unknown
  remote_status_of (remote_text (some s)) =
      if str_eq s "" then unknown else remote_named (platform.lower (strip s))

module _ {D : Type 0} (platform : Platform) where
  unfoldable pub fingerprint_of : RawOpportunity D → String → String
  fingerprint_of raw title =
      content_fingerprint platform (some title) (normalize_text platform raw.organization_name)
        (normalize_text platform raw.description)

module _ {D : Type 0} (readers : Readers D) where
  unfoldable pub assess_raw : RawOpportunity D → ℕ → FreshnessAssessment
  unfolding assess
  assess_raw raw moment =
      assess readers moment raw.category
        (record {
          explicit = none;
          deadline = (readers.parse_deadline raw.deadline raw.day_first).value;
          posted_at = (readers.parse_deadline raw.posted_at raw.day_first).value;
          discovered_at = some moment;
        })
        none

module _ {D E : Type 0} (platform : Platform) where
  unfoldable pub candidate_of : RawOpportunity D → String → String → Candidate E
  candidate_of raw title url = record {
    title = title;
    canonical_url = some url;
    source_url = some url;
    content_hash = some (fingerprint_of platform raw title);
    organization_name = normalize_text platform raw.organization_name;
    organization_domain = normalize_text platform raw.organization_domain;
    embedding = none;
  }

module _ {D E : Type 0} (platform : Platform) (readers : Readers D) where
  unfoldable pub new_row :
      ℕ → RawOpportunity D → Option ℕ → ℕ → String → String → Option DuplicateMatch → Opportunity E
  unfolding remote_status_of stored_status assess_raw
  new_row id raw source_id moment title url m =
      let compensation =
        normalize_compensation platform raw.compensation_min raw.compensation_max
          raw.compensation_currency raw.compensation_period in
      record {
        id = id;
        source_id = source_id;
        external_id = raw.external_id;
        title = title;
        category = raw.category;
        organization_name = normalize_text platform raw.organization_name;
        organization_domain = normalize_text platform raw.organization_domain;
        description = normalize_text platform raw.description;
        summary = normalize_text platform raw.summary;
        language = normalize_text platform raw.language;
        raw = raw.raw;
        location_country = normalize_country platform raw.location_country;
        location_city = normalize_text platform raw.location_city;
        remote_status = remote_status_of platform raw.remote_status;
        compensation_min = compensation.minimum;
        compensation_max = compensation.maximum;
        compensation_currency = compensation.currency;
        compensation_period = compensation.period;
        requirements = raw.requirements;
        eligibility = raw.eligibility;
        required_skills = raw.required_skills;
        preferred_skills = raw.preferred_skills;
        posted_at = (readers.parse_deadline raw.posted_at raw.day_first).value;
        deadline = (readers.parse_deadline raw.deadline raw.day_first).value;
        discovered_at = some moment;
        last_verified_at = some moment;
        expires_at = (assess_raw readers raw moment).expires_at;
        freshness_score = some (assess_raw readers raw moment).score;
        source_url = url;
        canonical_url = some url;
        content_hash = some (fingerprint_of platform raw title);
        status = stored_status m (assess_raw readers raw moment);
        duplicate_of_id = id_of m;
        embedding = none;
      }

  -- An exact duplicate that is there is merged; all else is stored.
  unfoldable pub settle :
      Session E
      → RawOpportunity D
      → Option ℕ
      → ℕ
      → String
      → String
      → Option DuplicateMatch
      → Option (Opportunity E)
      → Result DatabaseError (Session E × IngestionResult E)
  unfolding revalidate
  settle s raw source_id moment title url m (some existing) = ok (
    revalidate readers s existing moment,
    record {
      outcome = merged;
      opportunity = some (seen_again readers existing moment);
      duplicate_of = some existing.id;
      match_found = m;
      reason = none;
      notes = [];
    },
  )
  settle s raw source_id moment title url m none =
      store s (new_row s.next_id raw source_id moment title url m) m (assess_raw readers raw moment)
        (notes_of readers (readers.parse_deadline raw.deadline raw.day_first).outcome raw.deadline)

module _ {D E : Type 0} (platform : Platform) (cosine : E → E → Ratio) (readers : Readers D) where
  unfoldable pub addressed :
      Session E
      → RawOpportunity D
      → Option ℕ
      → ℕ
      → String
      → Option String
      → Result DatabaseError (Session E × IngestionResult E)
  unfolding settle merge_target
  addressed s raw source_id moment title none = ok (reject s (unusable_source_url raw.source_url))
  addressed s raw source_id moment title (some url) =
      let m = find_duplicate platform cosine s.rows (candidate_of platform raw title url) none in
      settle platform readers s raw source_id moment title url m (merge_target s.rows m)

  unfoldable pub titled :
      Session E
      → RawOpportunity D
      → Option ℕ
      → ℕ
      → Option String
      → Result DatabaseError (Session E × IngestionResult E)
  unfolding addressed
  titled s raw source_id moment none = ok (reject s title_is_empty)
  titled s raw source_id moment (some title) =
      addressed s raw source_id moment title (readers.canonicalize_url raw.source_url)

  unfoldable pub ingest :
      Session E
      → RawOpportunity D
      → Option ℕ
      → ℕ
      → Result DatabaseError (Session E × IngestionResult E)
  unfolding titled
  ingest s raw source_id moment =
      titled s raw source_id moment (normalize_text platform (some raw.title))
