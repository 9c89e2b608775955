-- ===== src/Memory/Recall.antt =====
-- What is read belongs to the reader.
use chief_opportunity_intell.Prelude.{
  ℕ, zero, suc, ◌≤◌, ◌≡◌, inl, inr, true, List, [], ◌∷◌, arith, ltb, Bool-cases, length, take,
  select, length-take, All,
}
use chief_opportunity_intell.Memory.{
  MemoryStore, is_recalled, recall, insert_newest, MemoryRecord, newest_first, MemoryType,
}

unfoldable pub IsRecalled : ℕ → MemoryType → MemoryRecord → Type 0
IsRecalled user_id memory_type r = is_recalled user_id memory_type r ≡ true

All-select :
    (u : ℕ) (t : MemoryType) (rows : List MemoryRecord)
    → All (IsRecalled u t) (select (is_recalled u t) rows)
unfolding IsRecalled
All-select u t [] = tt
All-select u t (r ∷ rows) = elim (Bool-cases (is_recalled u t r)) [
  | inl yes_it_is ↦ rw yes_it_is (yes_it_is, All-select u t rows)
  | inr no_it_is ↦ rw no_it_is (All-select u t rows)
]

All-insert_newest :
    (P : MemoryRecord → Type 0) (r : MemoryRecord) (rows : List MemoryRecord)
    → P r
    → All P rows
    → All P (insert_newest r rows)
unfolding insert_newest
All-insert_newest P r [] p all = (p, tt)
All-insert_newest P r (s ∷ rows) p (q, all) = elim (Bool-cases (ltb r.created_at s.created_at)) [
  | inl older ↦ rw older (q, All-insert_newest P r rows p all)
  | inr newer ↦ rw newer (p, (q, all))
]

All-newest_first :
    (P : MemoryRecord → Type 0) (rows : List MemoryRecord) → All P rows → All P (newest_first rows)
unfolding newest_first
All-newest_first P [] all = tt
All-newest_first P (r ∷ rows) (p, all) =
    All-insert_newest P r (newest_first rows) p (All-newest_first P rows all)

All-take :
    (P : MemoryRecord → Type 0) (n : ℕ) (rows : List MemoryRecord)
    → All P rows
    → All P (take n rows)
All-take P zero rows all = tt
All-take P (suc n) [] all = tt
All-take P (suc n) (r ∷ rows) (p, all) = (p, All-take P n rows all)

-- The rows in order of creation, latest first.
pub IsNewestFirst : List MemoryRecord → Type 0
IsNewestFirst [] = Unit {0}
IsNewestFirst (r ∷ rows) = All (λ s. s.created_at ≤ r.created_at) rows × IsNewestFirst rows

IsNewestFirst-insert_newest :
    (r : MemoryRecord) (rows : List MemoryRecord)
    → IsNewestFirst rows
    → IsNewestFirst (insert_newest r rows)
unfolding insert_newest IsNewestFirst
IsNewestFirst-insert_newest r [] sorted = (tt, tt)
IsNewestFirst-insert_newest r (s ∷ rows) (above, sorted) =
    elim (Bool-cases (ltb r.created_at s.created_at)) [
      | inl older ↦ rw older (
        All-insert_newest (λ t. t.created_at ≤ s.created_at) r rows (ground arith) above,
        IsNewestFirst-insert_newest r rows sorted,
      )
      | inr newer ↦ rw newer (
        (ground arith, All-below s.created_at r.created_at rows (ground arith) above),
        (above, sorted),
      )
    ]
  where
    All-below :
        (a b : ℕ) (rows : List MemoryRecord)
        → a ≤ b
        → All (λ t. t.created_at ≤ a) rows
        → All (λ t. t.created_at ≤ b) rows
    All-below a b [] le all = tt
    All-below a b (t ∷ rows) le (h, all) = (ground arith, All-below a b rows le all)

IsNewestFirst-newest_first : (rows : List MemoryRecord) → IsNewestFirst (newest_first rows)
unfolding newest_first IsNewestFirst
IsNewestFirst-newest_first [] = tt
IsNewestFirst-newest_first (r ∷ rows) =
    IsNewestFirst-insert_newest r (newest_first rows) (IsNewestFirst-newest_first rows)

IsNewestFirst-take :
    (n : ℕ) (rows : List MemoryRecord) → IsNewestFirst rows → IsNewestFirst (take n rows)
unfolding IsNewestFirst
IsNewestFirst-take zero rows sorted = tt
IsNewestFirst-take (suc n) [] sorted = tt
IsNewestFirst-take (suc n) (r ∷ rows) (above, sorted) =
    (All-take (λ s. s.created_at ≤ r.created_at) n rows above, IsNewestFirst-take n rows sorted)

-- `recall` returns at most `limit` rows, the latest first, and each is the user's own, of the type
-- that was asked for and still believed.
pub recall-IsRecalled :
    (m : MemoryStore) (user_id : ℕ) (memory_type : MemoryType) (limit : ℕ)
    → (length (recall m user_id memory_type limit) ≤ limit)
      × IsNewestFirst (recall m user_id memory_type limit)
      × All (IsRecalled user_id memory_type) (recall m user_id memory_type limit)
unfolding recall
recall-IsRecalled m u t limit =
    let rows = select (is_recalled u t) m.rows in
    (
      ground (arith, length-take limit (newest_first rows)),
      IsNewestFirst-take limit (newest_first rows) (IsNewestFirst-newest_first rows),
      All-take (IsRecalled u t) limit (newest_first rows)
          (All-newest_first (IsRecalled u t) rows (All-select u t m.rows)),
    )
