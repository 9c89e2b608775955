-- ===== src/Listing/Tests.antt =====
-- A worked example of the listing.
use chief_opportunity_intell.Prelude.{
  ℕ, ◌≡◌, refl, false, Option, none, some, List, [], ◌∷◌, arith, length,
}
use chief_opportunity_intell.Listing.{
  is_behind, order_by, passes, follows, list_opportunities, by_score, OpportunityFilters,
  OpportunityRow,
}
use chief_opportunity_intell.Listing.Pages.{follow_on-behind, follow_on, behind}
use chief_opportunity_intell.Listing.Order.{IsDistinct}
use chief_opportunity_intell.Enums.{OpportunityStatus}

abbrev offer : ℕ → Option ℕ → OpportunityStatus → OpportunityRow
offer id overall_score status = record {
  id = id;
  category = "job";
  status = status;
  location_country = some "IN";
  remote_status = "remote";
  deadline = none;
  created_at = 100;
  overall_score = overall_score;
}

-- Two rows share a score, one has none, one is archived.
abbrev table : List OpportunityRow
table =
    offer 1 (some 7000) OpportunityStatus.scored
    ∷ offer 2 none OpportunityStatus.discovered
    ∷ offer 3 (some 7000) OpportunityStatus.scored
    ∷ offer 4 (some 9000) OpportunityStatus.archived
    ∷ []

abbrev no_filters : OpportunityFilters
no_filters = record {
  category = none;
  status = none;
  include_expired = false;
  country = none;
  remote_status = none;
  deadline_before = none;
  min_score = none;
  q = none;
}

pages_of_one :
    follow_on 4 table no_filters 1 none by_score
    ≡ offer 3 (some 7000) OpportunityStatus.scored
      ∷ offer 1 (some 7000) OpportunityStatus.scored
      ∷ offer 2 none OpportunityStatus.discovered
      ∷ []
unfolding follow_on list_opportunities follows
pages_of_one = refl

table-IsDistinct : IsDistinct table
unfolding IsDistinct
table-IsDistinct = ((refl, (refl, (refl, tt))), ((refl, (refl, tt)), ((refl, tt), (tt, tt))))

three_behind : length (behind table no_filters none by_score) ≡ 3
unfolding behind passes follows order_by is_behind
three_behind = refl

follow_on-behind_example :
    follow_on 4 table no_filters 1 none by_score ≡ behind table no_filters none by_score
follow_on-behind_example =
    follow_on-behind 4 0 table no_filters none by_score table-IsDistinct
      (ground (arith, three_behind))
