-- ===== src/Listing.antt =====
-- backend/app/services/opportunity_service.py: the listing of opportunities with filters and keyset
-- pagination. A row is an opportunity joined with its latest score. Ids and moments are numbers in
-- their order, scores are in hundredths; a cursor is its sort value and id, its text form being
-- JSON in base64. Categories and remote statuses are their values; the country of a filter is in
-- upper case already. The SQL `ilike` of the text query is a test on the row.
pub mod Order
pub mod Pages
mod Tests
use chief_opportunity_intell.Prelude.{
  ℕ, ◌+◌, ◌-◌, ◌/◌, String, Bool, true, false, not, ◌&&◌, ◌||◌, Option, none, some, List, [], ◌∷◌,
  str_eq, ltb, leb, ◌==◌, if◌then◌else◌, length, take, select,
}
use chief_opportunity_intell.Enums.{status_eq, OpportunityStatus}
use chief_opportunity_intell.Lifecycle.{inactive, contains}

pub data SortKey : Type 0 where
  by_score by_deadline by_recent : SortKey

-- What the listing reads of an opportunity and of its score row.
pub record OpportunityRow : Type 0 where
  pub id : ℕ
  pub category : String
  pub status : OpportunityStatus
  pub location_country : Option String
  pub remote_status : String
  pub deadline : Option ℕ
  pub created_at : ℕ
  pub overall_score : Option ℕ

-- `OpportunityFilters`; `q` is the test that a given query makes of a row.
pub record OpportunityFilters : Type 0 where
  pub category : Option String
  pub status : Option OpportunityStatus
  pub include_expired : Bool
  pub country : Option String
  pub remote_status : Option String
  pub deadline_before : Option ℕ
  pub min_score : Option ℕ
  pub q : Option (OpportunityRow → Bool)

-- A filter that is not given lets every row pass.
abbrev pub if_given : {A : Type 0} → Option A → (A → Bool) → Bool
if_given none test = true
if_given (some a) test = test a

-- A comparison with NULL does not hold.
abbrev pub if_known : {A : Type 0} → Option A → (A → Bool) → Bool
if_known none test = false
if_known (some a) test = test a

abbrev by_status : Option OpportunityStatus → Bool → OpportunityStatus → Bool
by_status (some wanted) include_expired status = status_eq status wanted
by_status none include_expired status = include_expired || not (contains inactive status)

-- `_apply_filters`
unfoldable pub passes : OpportunityFilters → OpportunityRow → Bool
passes f r =
    if_given f.category (λ c. str_eq r.category c)
    && by_status f.status f.include_expired r.status
    && if_given f.country (λ c. if_known r.location_country (λ d. str_eq d c))
    && if_given f.remote_status (λ s. str_eq r.remote_status s)
    && if_given f.deadline_before (λ d. if_known r.deadline (λ e. leb e d))
    && if_given f.min_score (λ m. if_known r.overall_score (λ s. leb m s))
    && if_given f.q (λ test. test r)

-- `FAR_FUTURE`, the last day of the year 9999 in seconds.
abbrev pub far_future : ℕ
far_future = 253402214400

-- `_sort_expression`: NO_SCORE lies below every score.
unfoldable pub sort_value : SortKey → OpportunityRow → ℕ
sort_value by_score r = elim r.overall_score [ none ↦ 0 | some s ↦ s + 1 ]
sort_value by_deadline r = elim r.deadline [ none ↦ far_future | some d ↦ d ]
sort_value by_recent r = r.created_at

unfoldable pub is_descending : SortKey → Bool
is_descending by_deadline = false
is_descending _ = true

-- `Cursor`
pub record Cursor : Type 0 where
  pub value : ℕ
  pub row_id : ℕ

-- `_cursor_value` with the id
unfoldable pub cursor_of : SortKey → OpportunityRow → Cursor
unfolding sort_value
cursor_of sort r = record { value = sort_value sort r; row_id = r.id }

-- The `where` of a cursor, and the order of `order_by`: `b` comes after `a`.
unfoldable pub comes_after : Bool → Cursor → Cursor → Bool
comes_after true a b = ltb b.value a.value || (b.value == a.value && ltb b.row_id a.row_id)
comes_after false a b = ltb a.value b.value || (b.value == a.value && ltb a.row_id b.row_id)

-- The same between rows.
unfoldable pub follows : SortKey → OpportunityRow → OpportunityRow → Bool
unfolding comes_after cursor_of is_descending
follows sort a b = comes_after (is_descending sort) (cursor_of sort a) (cursor_of sort b)

-- ORDER BY
unfoldable pub insert_row : SortKey → OpportunityRow → List OpportunityRow → List OpportunityRow
insert_row sort r [] = r ∷ []
insert_row sort r (s ∷ rows) = if follows sort s r then s ∷ insert_row sort r rows else r ∷ s ∷ rows

unfoldable pub order_by : SortKey → List OpportunityRow → List OpportunityRow
unfolding insert_row
order_by sort [] = []
order_by sort (r ∷ rows) = insert_row sort r (order_by sort rows)

-- The rows behind the cursor, all where there is none.
unfoldable pub is_behind : SortKey → Option Cursor → OpportunityRow → Bool
is_behind sort none r = true
is_behind sort (some c) r = comes_after (is_descending sort) c (cursor_of sort r)

pub record OpportunityPage : Type 0 where
  pub rows : List OpportunityRow
  pub next_cursor : Option Cursor
  pub has_more : Bool

-- The cursor of `rows[-1]`
unfoldable pub last_cursor : SortKey → List OpportunityRow → Option Cursor
last_cursor sort [] = none
last_cursor sort (r ∷ []) = some (cursor_of sort r)
last_cursor sort (r ∷ s ∷ rows) = last_cursor sort (s ∷ rows)

-- What `list_opportunities` makes of the rows behind the cursor, in order: the query takes one row
-- more than the page holds, to know whether there are more.
unfoldable pub page_of : SortKey → ℕ → List OpportunityRow → OpportunityPage
unfolding last_cursor
page_of sort limit behind =
    let found = take (limit + 1) behind in
    let has_more = ltb limit (length found) in
    record {
      rows = take limit found;
      next_cursor = if has_more then last_cursor sort (take limit found) else none;
      has_more = has_more;
    }

unfoldable pub list_opportunities :
    List OpportunityRow → OpportunityFilters → ℕ → Option Cursor → SortKey → OpportunityPage
unfolding page_of order_by is_behind passes
list_opportunities table filters limit cursor sort =
    page_of sort limit
      (order_by sort (select (is_behind sort cursor) (select (passes filters) table)))
