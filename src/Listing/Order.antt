-- ===== src/Listing/Order.antt =====
-- The order of a listing is a strict total order on rows with different ids, and a query behind a
-- cursor is a part of the whole listing.
use chief_opportunity_intell.Prelude.{
  ◌≡◌, refl, inl, inr, Bool, true, false, List, [], ◌∷◌, arith, ◌==◌, if◌then◌else◌, Bool-cases,
  select, All,
}
use chief_opportunity_intell.Listing.{
  Cursor, is_descending, cursor_of, comes_after, SortKey, follows, insert_row, OpportunityRow,
  order_by,
}

pub comes_after_trans :
    (down : Bool) (a b c : Cursor)
    → comes_after down a b ≡ true
    → comes_after down b c ≡ true
    → comes_after down a c ≡ true
unfolding comes_after
comes_after_trans true a b c h k = ground arith
comes_after_trans false a b c h k = ground arith

comes_after_self : (down : Bool) (a : Cursor) → comes_after down a a ≡ false
unfolding comes_after
comes_after_self true a = ground arith
comes_after_self false a = ground arith

comes_after-total :
    (down : Bool) (a b : Cursor)
    → (a.row_id == b.row_id) ≡ false
    → comes_after down a b ≡ false
    → comes_after down b a ≡ true
unfolding comes_after
comes_after-total true a b other h = ground arith
comes_after-total false a b other h = ground arith

pub follows_trans :
    (sort : SortKey) (a b c : OpportunityRow)
    → follows sort a b ≡ true
    → follows sort b c ≡ true
    → follows sort a c ≡ true
unfolding follows
follows_trans sort a b c h k = comes_after_trans (is_descending sort) _ (cursor_of sort b) _ h k

pub follows_self : (sort : SortKey) (a : OpportunityRow) → follows sort a a ≡ false
unfolding follows
follows_self sort a = comes_after_self (is_descending sort) (cursor_of sort a)

follows-total :
    (sort : SortKey) (a b : OpportunityRow)
    → (a.id == b.id) ≡ false
    → follows sort a b ≡ false
    → follows sort b a ≡ true
unfolding follows cursor_of
follows-total sort a b other h =
    comes_after-total (is_descending sort) (cursor_of sort a) (cursor_of sort b) other h

pub follows-back :
    (sort : SortKey) (a b : OpportunityRow) → follows sort a b ≡ true → follows sort b a ≡ false
follows-back sort a b h = elim (Bool-cases (follows sort b a)) [
  | inl back ↦ let round = follows_trans sort a b a h back in let never = follows_self sort a in cc
  | inr not_back ↦ not_back
]

-- Every two rows of a list have different ids.
unfoldable pub IsDistinct : List OpportunityRow → Type 0
IsDistinct [] = Unit {0}
IsDistinct (r ∷ rows) = All (λ s. (r.id == s.id) ≡ false) rows × IsDistinct rows

-- Each row is followed by all later ones.
unfoldable pub IsOrdered : SortKey → List OpportunityRow → Type 0
IsOrdered sort [] = Unit {0}
IsOrdered sort (r ∷ rows) = All (λ s. follows sort r s ≡ true) rows × IsOrdered sort rows

module _ (P : OpportunityRow → Type 0) where
  All-select :
      (p : OpportunityRow → Bool) (rows : List OpportunityRow) → All P rows → All P (select p rows)
  All-select p [] all = tt
  All-select p (r ∷ rows) (h, all) = elim (Bool-cases (p r)) [
    | inl kept ↦ rw kept (h, All-select p rows all)
    | inr dropped ↦ rw dropped (All-select p rows all)
  ]

  All-insert_row :
      (sort : SortKey) (r : OpportunityRow) (rows : List OpportunityRow)
      → P r
      → All P rows
      → All P (insert_row sort r rows)
  unfolding insert_row
  All-insert_row sort r [] h all = (h, tt)
  All-insert_row sort r (s ∷ rows) h (k, all) = elim (Bool-cases (follows sort s r)) [
    | inl later ↦ rw later (k, All-insert_row sort r rows h all)
    | inr sooner ↦ rw sooner (h, (k, all))
  ]

  All-order_by :
      (sort : SortKey) (rows : List OpportunityRow) → All P rows → All P (order_by sort rows)
  unfolding order_by
  All-order_by sort [] all = tt
  All-order_by sort (r ∷ rows) (h, all) =
      All-insert_row sort r (order_by sort rows) h (All-order_by sort rows all)

All-follows :
    (sort : SortKey) (r s : OpportunityRow) (rows : List OpportunityRow)
    → follows sort r s ≡ true
    → All (λ t. follows sort s t ≡ true) rows
    → All (λ t. follows sort r t ≡ true) rows
All-follows sort r s [] h all = tt
All-follows sort r s (t ∷ rows) h (k, all) =
    (follows_trans sort r s t h k, All-follows sort r s rows h all)

insert_row-IsOrdered :
    (sort : SortKey) (r : OpportunityRow) (rows : List OpportunityRow)
    → All (λ s. (r.id == s.id) ≡ false) rows
    → IsOrdered sort rows
    → IsOrdered sort (insert_row sort r rows)
unfolding insert_row IsOrdered
insert_row-IsOrdered sort r [] other sorted = (tt, tt)
insert_row-IsOrdered sort r (s ∷ rows) (o, other) (above, sorted) =
    elim (Bool-cases (follows sort s r)) [
      | inl later ↦ rw later (
        All-insert_row (λ t. follows sort s t ≡ true) sort r rows later above,
        insert_row-IsOrdered sort r rows other sorted,
      )
      | inr sooner ↦
          let first = follows-total sort s r (ground arith) sooner in
          rw sooner ((first, All-follows sort r s rows first above), (above, sorted))
    ]

pub order_by-IsOrdered :
    (sort : SortKey) (rows : List OpportunityRow)
    → IsDistinct rows
    → IsOrdered sort (order_by sort rows)
unfolding order_by IsOrdered IsDistinct
order_by-IsOrdered sort [] distinct = tt
order_by-IsOrdered sort (r ∷ rows) (other, distinct) =
    insert_row-IsOrdered sort r (order_by sort rows)
      (All-order_by (λ s. (r.id == s.id) ≡ false) sort rows other)
      (order_by-IsOrdered sort rows distinct)

pub select-IsDistinct :
    (p : OpportunityRow → Bool) (rows : List OpportunityRow)
    → IsDistinct rows
    → IsDistinct (select p rows)
unfolding IsDistinct
select-IsDistinct p [] distinct = tt
select-IsDistinct p (r ∷ rows) (other, distinct) = elim (Bool-cases (p r)) [
  | inl kept ↦
      rw kept
        (All-select (λ s. (r.id == s.id) ≡ false) p rows other, select-IsDistinct p rows distinct)
  | inr dropped ↦ rw dropped (select-IsDistinct p rows distinct)
]

insert_row-front :
    (sort : SortKey) (r : OpportunityRow) (rows : List OpportunityRow)
    → All (λ s. follows sort s r ≡ false) rows
    → insert_row sort r rows ≡ r ∷ rows
unfolding insert_row
insert_row-front sort r [] all = refl
insert_row-front sort r (s ∷ rows) (h, all) = rw h refl

-- What follows a row that does not come before `r` does not come before `r` either.
All-sooner :
    (sort : SortKey) (r s : OpportunityRow) (rows : List OpportunityRow)
    → follows sort s r ≡ false
    → All (λ t. follows sort s t ≡ true) rows
    → All (λ t. follows sort t r ≡ false) rows
All-sooner sort r s [] h all = tt
All-sooner sort r s (t ∷ rows) h (k, all) = (
  elim (Bool-cases (follows sort t r)) [
    | inl before ↦ let reach = follows_trans sort s t r k before in cc
    | inr not_before ↦ not_before
  ],
  All-sooner sort r s rows h all,
)

-- Choosing rows and putting them in order commute, on an ordered list with one row more.
insert_row-select :
    (sort : SortKey) (p : OpportunityRow → Bool) (r : OpportunityRow) (rows : List OpportunityRow)
    → IsOrdered sort rows
    → select p (insert_row sort r rows)
      ≡ (if p r then insert_row sort r (select p rows) else select p rows)
unfolding insert_row IsOrdered
insert_row-select sort p r [] sorted = ground arith
insert_row-select sort p r (s ∷ rows) (above, sorted) = elim (Bool-cases (follows sort s r)) [
  | inl later ↦ let ih = insert_row-select sort p r rows sorted in ground arith
  | inr sooner ↦
      let front = insert_row-front sort r (select p (s ∷ rows)) (
        All-select (λ t. follows sort t r ≡ false) p (s ∷ rows)
          (sooner, All-sooner sort r s rows sooner above)) in
      ground arith
]

pub order_by-select :
    (sort : SortKey) (p : OpportunityRow → Bool) (rows : List OpportunityRow)
    → IsDistinct rows
    → order_by sort (select p rows) ≡ select p (order_by sort rows)
unfolding order_by IsDistinct
order_by-select sort p [] distinct = refl
order_by-select sort p (r ∷ rows) (other, distinct) =
    let ih = order_by-select sort p rows distinct in
    let step =
      insert_row-select sort p r (order_by sort rows) (order_by-IsOrdered sort rows distinct) in
    elim (Bool-cases (p r)) [ inl kept ↦ ground arith | inr dropped ↦ ground arith ]
