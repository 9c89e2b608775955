-- ===== src/Listing/Pages.antt =====
-- Following the cursors of `list_opportunities` from the first page on gives the whole listing.
use mathlib.Core.Path.{subst}
use chief_opportunity_intell.Prelude.{
  ℕ, zero, suc, ◌+◌, ◌<◌, ◌≡◌, refl, sym, ap, ◌∙◌, ◌≢◌, inl, inr, true, false, Option, none, some,
  List, [], ◌∷◌, ◌++◌, arith, ltb, if◌then◌else◌, Bool-cases, Option-cases, length, take, drop,
  select, length-take, All, append-nil, take-drop, take-take, take_whole, length-drop, select_every,
  select-All, select_narrow,
}
use chief_opportunity_intell.Listing.{
  page_of, passes, order_by, list_opportunities, is_descending, cursor_of, OpportunityFilters,
  Cursor, SortKey, follows, is_behind, OpportunityRow, last_cursor,
}
use chief_opportunity_intell.Listing.Order.{
  order_by-IsOrdered, order_by-select, select-IsDistinct, IsDistinct, follows_self, follows-back,
  comes_after_trans, IsOrdered,
}

last_cursor-behind :
    (sort : SortKey) (r : OpportunityRow) (k : ℕ) (rows : List OpportunityRow) (c : Cursor)
    → All (λ s. follows sort r s ≡ true) rows
    → last_cursor sort (take k rows) ≡ some c
    → is_behind sort (some c) r ≡ false
unfolding last_cursor is_behind follows
last_cursor-behind sort r zero rows c all h = ground arith
last_cursor-behind sort r (suc k) [] c all h = ground arith
last_cursor-behind sort r (suc zero) (s ∷ rows) c (k, all) h =
    let same : cursor_of sort s ≡ c = ground arith in rw (← same) (follows-back sort r s k)
last_cursor-behind sort r (suc (suc n)) (s ∷ []) c (k, all) h =
    let same : cursor_of sort s ≡ c = ground arith in rw (← same) (follows-back sort r s k)
last_cursor-behind sort r (suc (suc n)) (s ∷ t ∷ rows) c (k, all) h =
    last_cursor-behind sort r (suc n) (t ∷ rows) c all h

first_gone :
    (sort : SortKey) (r : OpportunityRow) (rows : List OpportunityRow)
    → All (λ s. follows sort r s ≡ true) rows
    → select (is_behind sort (some (cursor_of sort r))) (r ∷ rows) ≡ rows
unfolding is_behind follows
first_gone sort r rows above =
    let never : is_behind sort (some (cursor_of sort r)) r ≡ false = follows_self sort r in
    rw never (select_every (is_behind sort (some (cursor_of sort r))) rows above)

-- The rows behind the last one of a page are those that follow the page.
select-behind :
    (sort : SortKey) (n : ℕ) (rows : List OpportunityRow) (c : Cursor)
    → IsOrdered sort rows
    → last_cursor sort (take (suc n) rows) ≡ some c
    → select (is_behind sort (some c)) rows ≡ drop (suc n) rows
unfolding IsOrdered last_cursor is_behind follows
select-behind sort n [] c sorted h = refl
select-behind sort zero (r ∷ rows) c (above, sorted) h =
    let same : cursor_of sort r ≡ c = ground arith in
    let whole = first_gone sort r rows above in
    subst (λ b. select (is_behind sort (some b)) (r ∷ rows) ≡ rows) same whole
select-behind sort (suc n) (r ∷ []) c (above, sorted) h =
    let same : cursor_of sort r ≡ c = ground arith in
    let never : is_behind sort (some (cursor_of sort r)) r ≡ false = follows_self sort r in
    rw (← same, never) refl
select-behind sort (suc n) (r ∷ s ∷ rows) c (above, sorted) h =
    let before = last_cursor-behind sort r (suc n) (s ∷ rows) c above h in
    let ih = select-behind sort n (s ∷ rows) c sorted h in rw before ih

-- The cursor of a page lies behind the one that the page was asked with.
is_behind-last :
    (sort : SortKey) (cursor : Option Cursor) (k : ℕ) (rows : List OpportunityRow) (c : Cursor)
    → All (λ s. is_behind sort cursor s ≡ true) rows
    → last_cursor sort (take k rows) ≡ some c
    → (t : OpportunityRow) → is_behind sort (some c) t ≡ true
    → is_behind sort cursor t ≡ true
unfolding last_cursor is_behind
is_behind-last sort none k rows c all h t behind = refl
is_behind-last sort (some b) zero rows c all h t behind = ground arith
is_behind-last sort (some b) (suc k) [] c all h t behind = ground arith
is_behind-last sort (some b) (suc zero) (s ∷ rows) c (first, all) h t behind =
    let same : cursor_of sort s ≡ c = ground arith in
    comes_after_trans (is_descending sort) b c (cursor_of sort t) (rw (← same) first) behind
is_behind-last sort (some b) (suc (suc k)) (s ∷ []) c (first, all) h t behind =
    let same : cursor_of sort s ≡ c = ground arith in
    comes_after_trans (is_descending sort) b c (cursor_of sort t) (rw (← same) first) behind
is_behind-last sort (some b) (suc (suc k)) (s ∷ r ∷ rows) c (first, all) h t behind =
    is_behind-last sort (some b) (suc k) (r ∷ rows) c all h t behind

-- The rows of `fuel` pages, from a cursor on.
unfoldable pub follow_on :
    ℕ → List OpportunityRow → OpportunityFilters → ℕ → Option Cursor → SortKey → List OpportunityRow
follow_on zero table filters limit cursor sort = []
follow_on (suc fuel) table filters limit cursor sort =
    let page = list_opportunities table filters limit cursor sort in
    page.rows ++ elim page.next_cursor [
      | none ↦ []
      | some c ↦ follow_on fuel table filters limit (some c) sort
    ]

-- What a listing behind a cursor holds.
unfoldable pub behind :
    List OpportunityRow → OpportunityFilters → Option Cursor → SortKey → List OpportunityRow
behind table filters cursor sort =
    select (is_behind sort cursor) (order_by sort (select (passes filters) table))

list_opportunities-behind :
    (table : List OpportunityRow) (filters : OpportunityFilters) (limit : ℕ)
    (cursor : Option Cursor) (sort : SortKey)
    → IsDistinct table
    → list_opportunities table filters limit cursor sort
      ≡ page_of sort limit (behind table filters cursor sort)
unfolding list_opportunities behind
list_opportunities-behind table filters limit cursor sort distinct = ap (page_of sort limit) (
    order_by-select sort (is_behind sort cursor) (select (passes filters) table)
      (select-IsDistinct (passes filters) table distinct))

behind-IsOrdered :
    (table : List OpportunityRow) (filters : OpportunityFilters) (cursor : Option Cursor)
    (sort : SortKey)
    → IsDistinct table
    → IsOrdered sort (behind table filters cursor sort)
unfolding behind
behind-IsOrdered table filters cursor sort distinct =
    let passing = select-IsDistinct (passes filters) table distinct in
    subst (IsOrdered sort)
      (order_by-select sort (is_behind sort cursor) (select (passes filters) table) passing)
      (order_by-IsOrdered sort (select (is_behind sort cursor) (select (passes filters) table))
        (select-IsDistinct (is_behind sort cursor) (select (passes filters) table) passing))

-- What lies behind the last row of a page is what is left of the listing that it began.
behind-next :
    (table : List OpportunityRow) (filters : OpportunityFilters) (cursor : Option Cursor)
    (sort : SortKey) (n : ℕ) (c : Cursor)
    → IsDistinct table
    → last_cursor sort (take (suc n) (behind table filters cursor sort)) ≡ some c
    → behind table filters (some c) sort ≡ drop (suc n) (behind table filters cursor sort)
unfolding behind
behind-next table filters cursor sort n c distinct h =
    let whole = order_by sort (select (passes filters) table) in
    sym (
      select_narrow (is_behind sort cursor) (is_behind sort (some c)) whole (
        is_behind-last sort cursor (suc n) (behind table filters cursor sort) c
          (select-All (is_behind sort cursor) whole) h))
    ∙ select-behind sort n (behind table filters cursor sort) c
        (behind-IsOrdered table filters cursor sort distinct) h

last_cursor-some :
    (sort : SortKey) (r : OpportunityRow) (rows : List OpportunityRow)
    → last_cursor sort (r ∷ rows) ≢ none
unfolding last_cursor
last_cursor-some sort r [] h = ground arith
last_cursor-some sort r (s ∷ rows) h = last_cursor-some sort s rows h

last_cursor-take :
    (sort : SortKey) (n : ℕ) (rows : List OpportunityRow)
    → 0 < length rows
    → last_cursor sort (take (suc n) rows) ≢ none
last_cursor-take sort n [] some_row h = ground arith
last_cursor-take sort n (r ∷ rows) some_row h = last_cursor-some sort r (take n rows) h

page_of-rows :
    (sort : SortKey) (limit : ℕ) (rows : List OpportunityRow)
    → (page_of sort limit rows).rows ≡ take limit rows
unfolding page_of
page_of-rows sort limit rows = take-take limit (limit + 1) rows (ground arith)

page_of-next :
    (sort : SortKey) (limit : ℕ) (rows : List OpportunityRow)
    → (page_of sort limit rows).next_cursor
      ≡ (if ltb limit (length rows) then last_cursor sort (take limit rows) else none)
unfolding page_of
page_of-next sort limit rows =
    let le = take-take limit (limit + 1) rows (ground arith) in
    let counted = length-take (limit + 1) rows in
    rw le (elim (Bool-cases (ltb limit (length rows))) [
      | inl more ↦
          let more_too : ltb limit (length (take (limit + 1) rows)) ≡ true = ground arith in
          rw (more, more_too) refl
      | inr all ↦
          let all_too : ltb limit (length (take (limit + 1) rows)) ≡ false = ground arith in
          rw (all, all_too) refl
    ])

-- Following `next_cursor` from a cursor on, on a table whose ids differ and with pages of at least
-- one row, gives exactly the rows behind the cursor in order: each once, none left out. Fuel for more
-- pages than there are rows is enough.
pub follow_on-behind :
    (fuel n : ℕ) (table : List OpportunityRow) (filters : OpportunityFilters)
    (cursor : Option Cursor) (sort : SortKey)
    → IsDistinct table
    → length (behind table filters cursor sort) < fuel
    → follow_on fuel table filters (suc n) cursor sort ≡ behind table filters cursor sort
unfolding follow_on
follow_on-behind zero n table filters cursor sort distinct enough = ground arith
follow_on-behind (suc fuel) n table filters cursor sort distinct enough =
    let rows = behind table filters cursor sort in
    rw (list_opportunities-behind table filters (suc n) cursor sort distinct) (
      rw (page_of-rows, page_of-next)
        (elim (Bool-cases (ltb (suc n) (length rows))) [
          | inl more ↦ elim (Option-cases (last_cursor sort (take (suc n) rows))) [
            | inl nothing_last ↦ absurd (last_cursor-take sort n rows (ground arith) nothing_last)
            | inr (c, last) ↦
                let next = behind-next table filters cursor sort n c distinct last in
                let short = length-drop (suc n) rows in
                let rest =
                  follow_on-behind fuel n table filters (some c) sort distinct
                    (rw next (ground arith)) in
                rw (more, last, rest, next) (take-drop (suc n) rows)
          ]
          | inr all ↦ rw (all, take_whole (suc n) rows (ground arith)) (append-nil rows)
        ]))
