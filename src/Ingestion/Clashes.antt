-- ===== src/Ingestion/Clashes.antt =====
-- When two rows clash, and what keeps a table free of clashes.
use chief_opportunity_intell.Prelude.{
  arith, arith, arith, arith, arith, arith, ap, ℕ, String, ◌≡◌, refl, ◌∙◌, inl, inr, Bool, true,
  false, not, ◌&&◌, ◌||◌, Option, none, some, List, [], ◌∷◌, ◌++◌, arith, ◌==◌, Bool-cases,
}
use chief_opportunity_intell.Dedup.{
  is_exact_method, DuplicateMatch, is_some_url, Candidate, is_url, truthy, same_column,
}
use chief_opportunity_intell.Opportunities.{row_at, any_row, Opportunity, replace}
use chief_opportunity_intell.Enums.{OpportunityStatus, status_eq}
use chief_opportunity_intell.Ingestion.{Readers, seen_again}
use chief_opportunity_intell.Ingestion.Rows.{merge_target}
use chief_opportunity_intell.Dedup.Rows.{any_row_mono}

nothing_some : {A : Type 0} (a : A) → none ≡ some a → ⊥
nothing_some a h = ground arith

pub some-same : {A : Type 0} (a b : A) → some a ≡ some b → a ≡ b
some-same a b h = ground arith

module _ {E : Type 0} where
  unfoldable pub is_live : Opportunity E → Bool
  is_live r = not (status_eq r.status OpportunityStatus.duplicate)

  -- Two rows clash when they have one content hash, or when neither is marked as a duplicate and they
  -- have one canonical URL.
  unfoldable pub clashes : Opportunity E → Opportunity E → Bool
  unfolding is_live same_column truthy
  clashes new r =
      same_column r.content_hash new.content_hash
      || (is_live new
          && is_live r
          && (truthy new.canonical_url && same_column new.canonical_url r.canonical_url))

  -- No row clashes with one that comes later.
  unfoldable pub IsDistinct : List (Opportunity E) → Type 0
  IsDistinct [] = Unit
  IsDistinct (r ∷ rows) = (any_row (λ new. clashes new r) rows ≡ false) × IsDistinct rows

  pub any_row-append :
      (p : Opportunity E → Bool) (rows : List (Opportunity E)) (new : Opportunity E)
      → any_row p (rows ++ new ∷ []) ≡ (any_row p rows || p new)
  unfolding any_row
  any_row-append p [] new = ground arith
  any_row-append p (r ∷ rows) new = ground (arith, any_row-append p rows new)

  any_row-same :
      (p q : Opportunity E → Bool) (rows : List (Opportunity E))
      → ((r : Opportunity E) → p r ≡ q r)
      → any_row p rows ≡ any_row q rows
  unfolding any_row
  any_row-same p q [] same = refl
  any_row-same p q (r ∷ rows) same = rw (same r, any_row-same p q rows same) refl

  pub IsDistinct-append :
      (rows : List (Opportunity E)) (new : Opportunity E)
      → IsDistinct rows
      → any_row (clashes new) rows ≡ false
      → IsDistinct (rows ++ new ∷ [])
  unfolding IsDistinct any_row
  IsDistinct-append [] new distinct free = (refl, tt)
  IsDistinct-append (r ∷ rows) new (apart, distinct) free =
      let grown = any_row-append (λ q. clashes q r) rows new in
      (ground arith, IsDistinct-append rows new distinct (ground arith))

  -- Two rows that clash with the same rows.
  abbrev IsLike : Opportunity E → Opportunity E → Type 0
  IsLike new old =
      ((r : Opportunity E) → clashes new r ≡ clashes old r)
      × ((r : Opportunity E) → clashes r new ≡ clashes r old)

  any_row-replace :
      (p : Opportunity E → Bool) (rows : List (Opportunity E)) (id : ℕ) (old new : Opportunity E)
      → row_at rows id ≡ some old
      → p new ≡ p old
      → any_row p (replace rows id new) ≡ any_row p rows
  unfolding any_row replace row_at
  any_row-replace p [] id old new h same = refl
  any_row-replace p (r ∷ rows) id old new h same = elim (Bool-cases (r.id == id)) [
    | inl hit ↦
        let same_row : r ≡ old = some-same r old (rw hit at h) in rw (hit, same, same_row) refl
    | inr miss ↦ rw (miss, any_row-replace p rows id old new (rw miss at h) same) refl
  ]

  pub IsDistinct-replace :
      (rows : List (Opportunity E)) (id : ℕ) (old new : Opportunity E)
      → row_at rows id ≡ some old
      → IsLike new old
      → IsDistinct rows
      → IsDistinct (replace rows id new)
  unfolding IsDistinct replace row_at
  IsDistinct-replace [] id old new h like distinct = distinct
  IsDistinct-replace (r ∷ rows) id old new h (left, right) (apart, distinct) =
      elim (Bool-cases (r.id == id)) [
        | inl hit ↦
            let same_row : r ≡ old = some-same r old (rw hit at h) in
            rw (hit, any_row-same (λ q. clashes q new) (λ q. clashes q old) rows right, ← same_row)
              (apart, distinct)
        | inr miss ↦ rw miss (
          any_row-replace (λ q. clashes q r) rows id old new (rw miss at h) (left r) ∙ apart,
          IsDistinct-replace rows id old new (rw miss at h) (left, right) distinct,
        )
      ]

-- A row that is seen again clashes with the same rows as before.
pub seen_again-IsLike :
    {D E : Type 0} (readers : Readers D) (old : Opportunity E) (now : ℕ)
    → IsLike (seen_again readers old now) old
unfolding clashes seen_again
seen_again-IsLike readers old now = ((λ r. refl), (λ r. refl))

pub any_row-narrower :
    {E : Type 0} (p q : Opportunity E → Bool) (rows : List (Opportunity E))
    → ((r : Opportunity E) → p r ≡ true → q r ≡ true)
    → any_row q rows ≡ false
    → any_row p rows ≡ false
any_row-narrower p q rows narrow h = elim (Bool-cases (any_row p rows)) [
  | inl hit ↦ let wide = any_row_mono p q rows narrow hit in ground arith
  | inr miss ↦ miss
]

row_at-id :
    {E : Type 0} (rows : List (Opportunity E)) (id : ℕ) (r : Opportunity E)
    → row_at rows id ≡ some r
    → r.id ≡ id
unfolding row_at
row_at-id [] id r h = ground arith
row_at-id (s ∷ rows) id r h = elim (Bool-cases (s.id == id)) [
  | inl hit ↦ let same = some-same s r (rw hit at h) in rw (← same) (ground arith)
  | inr miss ↦ row_at-id rows id r (rw miss at h)
]

pub merge_target-row :
    {E : Type 0} (rows : List (Opportunity E)) (m : Option DuplicateMatch) (r : Opportunity E)
    → merge_target rows m ≡ some r
    → row_at rows r.id ≡ some r
unfolding merge_target
merge_target-row rows none r h = absurd (nothing_some r h)
merge_target-row rows (some m) r h = elim (Bool-cases (is_exact_method m.method)) [
  | inl exactly ↦
      let found : row_at rows m.opportunity_id ≡ some r = rw exactly at h in
      ap (row_at rows) (row_at-id rows m.opportunity_id r found) ∙ found
  | inr loosely ↦ absurd (nothing_some r (rw loosely at h))
]

pub some_url-same :
    {E : Type 0} (c : Candidate E) (url : String) (own : Option String)
    → c.canonical_url ≡ some url
    → (truthy (some url) && same_column (some url) own) ≡ true
    → is_some_url c own ≡ true
unfolding same_column is_url
some_url-same c url none same h = absurd (ground arith)
some_url-same c url (some u) same h = rw same (ground arith)

pub hash-or : (hash other : Bool) → (hash || false) ≡ true → ((hash || other) || false) ≡ true
hash-or hash other h = ground arith

pub found-or :
    (hash new live url other some_url source : Bool)
    → (hash || (new && live && url)) ≡ true
    → (url ≡ true → some_url ≡ true)
    → ((hash || other) || (true && ((some_url || source) && (live && true)))) ≡ true
found-or hash new live url other some_url source h same = elim (Bool-cases url) [
  | inl yes_url ↦ let k = same yes_url in ground arith
  | inr no_url ↦ ground arith
]
