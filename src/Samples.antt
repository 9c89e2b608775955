-- ===== src/Samples.antt =====
-- Rows for the worked examples of several modules.
use chief_opportunity_intell.Prelude.{ℕ, String, true, false, none, some, [], ◌∷◌}
use chief_opportunity_intell.Enums.{unknown, OpportunityCategory, OpportunityStatus}
use chief_opportunity_intell.Scoring.Engine.{Weights}
use chief_opportunity_intell.Normalization.{Platform}
use chief_opportunity_intell.Opportunities.{Opportunity}
use chief_opportunity_intell.Scoring.Dimensions.{
  strategic, probability, fit, value, time_sensitivity, learning, network, long_term,
}
use chief_opportunity_intell.Decimal.{dec}

-- A row of "acme" with a title, an address and a status; the address stands for the hash.
abbrev pub sample_row : ℕ → String → String → OpportunityStatus → Opportunity (Unit {0})
sample_row id title url status = record {
  id = id;
  source_id = none;
  external_id = none;
  title = title;
  category = OpportunityCategory.job;
  organization_name = some "acme";
  organization_domain = none;
  description = none;
  summary = none;
  language = none;
  raw = none;
  location_country = none;
  location_city = none;
  remote_status = unknown;
  compensation_min = none;
  compensation_max = none;
  compensation_currency = none;
  compensation_period = none;
  requirements = "[]";
  eligibility = "{}";
  required_skills = "[]";
  preferred_skills = "[]";
  posted_at = none;
  deadline = none;
  discovered_at = some 100;
  last_verified_at = some 100;
  expires_at = some 500;
  freshness_score = some 10000;
  source_url = url;
  canonical_url = some url;
  content_hash = some url;
  status = status;
  duplicate_of_id = none;
  embedding = none;
}

-- Texts that are in canonical form already; the text stands for its hash.
abbrev pub plain : Platform
plain = record {
  nfkc = λ s. s;
  is_other = λ c. false;
  casefold = λ s. s;
  upper = λ s. s;
  lower = λ s. s;
  is_alpha = λ s. true;
  sha256 = λ s. s;
  sql_lower = λ s. s;
}

-- The weights of the profile "career".
abbrev pub career : Weights
career = record {
  version = "career.v1";
  benefit =
      (fit, dec 22000000 8)
      ∷ (value, dec 14000000 8)
      ∷ (probability, dec 16000000 8)
      ∷ (strategic, dec 14000000 8)
      ∷ (time_sensitivity, dec 6000000 8)
      ∷ (learning, dec 10000000 8)
      ∷ (network, dec 6000000 8)
      ∷ (long_term, dec 12000000 8)
      ∷ [];
  effort = dec 35 2;
  risk = dec 45 2;
}
