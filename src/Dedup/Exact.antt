-- ===== src/Dedup/Exact.antt =====
-- When a candidate is an exact duplicate.
use chief_opportunity_intell.Prelude.{
  ℕ, String, ◌≡◌, refl, sym, ◌∙◌, inl, inr, Bool, true, false, not, ◌&&◌, ◌||◌, Option, none, some,
  List, [], ◌∷◌, arith, if◌then◌else◌,
}
use chief_opportunity_intell.Opportunities.{Opportunity, any_row}
use chief_opportunity_intell.Dedup.{
  is_some_url, find_duplicate, by_content_hash, probe_embedding, probe_title, has_hash, is_url,
  probe_hash, by_canonical_url, truthy, is_candidate, has_url, Candidate, MatchMethod, is_present,
  or_match, exact, is_exact_method, probe_url, DuplicateMatch,
}
use chief_opportunity_intell.Normalization.{Platform}
use chief_opportunity_intell.Dedup.Rows.{any_row-first_none}
use chief_opportunity_intell.Dedup.Found.{some-none, best_title-found, embedded-shown}
use chief_opportunity_intell.Dedup.Titles.{Ratio}

-- Whether a match is one by URL or by hash.
unfoldable pub is_exact : Option DuplicateMatch → Bool
unfolding is_exact_method
is_exact none = false
is_exact (some m) = is_exact_method m.method

is_present-exact :
    {E : Type 0} (method : MatchMethod) (found : Option (Opportunity E))
    → is_exact_method method ≡ true
    → is_exact (exact method found) ≡ is_present found
unfolding exact is_exact
is_present-exact method none h = refl
is_present-exact method (some r) h = h

test-guarded :
    (test : Option DuplicateMatch → Bool) (asked any : Bool) (found : Option DuplicateMatch)
    → test none ≡ false
    → test found ≡ any
    → (asked ≡ false → any ≡ false)
    → test (if not asked then none else found) ≡ any
test-guarded test true any found nothing h unasked = h
test-guarded test false any found nothing h unasked = nothing ∙ sym (unasked refl)

pub any_row-none :
    {E : Type 0} (p : Opportunity E → Bool) (rows : List (Opportunity E))
    → ((r : Opportunity E) → p r ≡ false)
    → any_row p rows ≡ false
unfolding any_row
any_row-none p [] h = refl
any_row-none p (r ∷ rows) h = rw (h r, any_row-none p rows h) refl

pub any_row-or :
    {E : Type 0} (p q : Opportunity E → Bool) (rows : List (Opportunity E))
    → any_row (λ r. p r || q r) rows ≡ (any_row p rows || any_row q rows)
unfolding any_row
any_row-or p q [] = refl
any_row-or p q (r ∷ rows) = ground (arith, any_row-or p q rows)

or_false : (b : Bool) → (b || false) ≡ b
or_false b = ground arith

is_exact-or_match :
    (a b : Option DuplicateMatch) (x y : Bool)
    → is_exact a ≡ x
    → is_present a ≡ x
    → is_exact b ≡ y
    → is_exact (or_match a b) ≡ (x || y)
unfolding is_exact or_match
is_exact-or_match none b x y h present k = ground arith
is_exact-or_match (some a) b x y h present k = ground arith

is_present-exact_of :
    {E : Type 0} (method : MatchMethod) (found : Option (Opportunity E))
    → is_present (exact method found) ≡ is_present found
unfolding exact
is_present-exact_of method none = refl
is_present-exact_of method (some r) = refl

module _ {E : Type 0} where
  without_urls :
      (c : Candidate E) (url : String)
      → (truthy c.canonical_url || truthy c.source_url) ≡ false
      → is_url c url ≡ false
  unfolding is_url
  without_urls c url h = ground arith

  without_some_url :
      (c : Candidate E) (own : Option String)
      → (truthy c.canonical_url || truthy c.source_url) ≡ false
      → is_some_url c own ≡ false
  without_some_url c none h = refl
  without_some_url c (some url) h = without_urls c url h

  without_url :
      (c : Candidate E) (r : Opportunity E) (exclude_id : Option ℕ)
      → (truthy c.canonical_url || truthy c.source_url) ≡ false
      → (has_url c r && is_candidate exclude_id r) ≡ false
  unfolding has_url
  without_url c r exclude_id h =
      rw (without_some_url c r.canonical_url h, without_urls c r.source_url h) refl

  -- What an exact probe finds, under either test of its result.
  probe_url-test :
      (test : Option DuplicateMatch → Bool) (rows : List (Opportunity E)) (c : Candidate E)
      (exclude_id : Option ℕ)
      → test none ≡ false
      → ((found : Option (Opportunity E)) → test (exact by_canonical_url found) ≡ is_present found)
      → test (probe_url rows c exclude_id)
        ≡ any_row (λ r. has_url c r && is_candidate exclude_id r) rows
  unfolding probe_url
  probe_url-test test rows c exclude_id nothing found =
      test-guarded test (truthy c.canonical_url || truthy c.source_url) _ _ nothing
        (found _ ∙ any_row-first_none _ rows)
        (λ blank. any_row-none _ rows (λ r. without_url c r exclude_id blank))

  probe_hash-test :
      (test : Option DuplicateMatch → Bool) (rows : List (Opportunity E)) (c : Candidate E)
      (exclude_id : Option ℕ)
      → test none ≡ false
      → ((found : Option (Opportunity E)) → test (exact by_content_hash found) ≡ is_present found)
      → test (probe_hash rows c exclude_id)
        ≡ any_row (λ r. has_hash c r && is_candidate exclude_id r) rows
  unfolding probe_hash has_hash
  probe_hash-test test rows c exclude_id nothing found =
      test-guarded test (truthy c.content_hash) _ _ nothing (found _ ∙ any_row-first_none _ rows)
        (λ blank. any_row-none _ rows (λ r. rw blank refl))

module _ {E : Type 0} (platform : Platform) (cosine : E → E → Ratio) where
  probe_title-inexact :
      (rows : List (Opportunity E)) (c : Candidate E) (exclude_id : Option ℕ)
      (found : Option DuplicateMatch)
      → probe_title platform rows c exclude_id ≡ found
      → is_exact found ≡ false
  unfolding probe_title is_exact is_exact_method
  probe_title-inexact rows c exclude_id none h = refl
  probe_title-inexact rows c exclude_id (some m) h =
      elim (best_title-found platform c.title _ none m h) [
        | inl nothing ↦ absurd (some-none m nothing)
        | inr (method, found) ↦ rw method refl
      ]

  probe_embedding-inexact :
      (rows : List (Opportunity E)) (c : Candidate E) (exclude_id : Option ℕ)
      (found : Option DuplicateMatch)
      → probe_embedding cosine rows c exclude_id ≡ found
      → is_exact found ≡ false
  unfolding probe_embedding is_exact is_exact_method
  probe_embedding-inexact rows c exclude_id none h = refl
  probe_embedding-inexact rows c exclude_id (some m) h =
      let (method, found) = embedded-shown platform cosine c.embedding _ m h in rw method refl

  inexact-or_match :
      (a b : Option DuplicateMatch)
      → is_exact a ≡ false
      → is_exact b ≡ false
      → is_exact (or_match a b) ≡ false
  unfolding or_match is_exact
  inexact-or_match none b h k = k
  inexact-or_match (some m) b h k = h

  -- A candidate is an exact duplicate, by URL or by hash, exactly when some row that is not marked
  -- as a duplicate and not the excluded one has one of its URLs, or has its hash.
  pub find_duplicate-is_exact :
      (rows : List (Opportunity E)) (c : Candidate E) (exclude_id : Option ℕ)
      → is_exact (find_duplicate platform cosine rows c exclude_id) ≡ (
          any_row (λ r. has_url c r && is_candidate exclude_id r) rows
          || any_row (λ r. has_hash c r && is_candidate exclude_id r) rows)
  unfolding find_duplicate is_exact_method is_exact
  find_duplicate-is_exact rows c exclude_id =
      let hash_level =
        is_exact-or_match (probe_hash rows c exclude_id) _ _ _
          (probe_hash-test is_exact rows c exclude_id refl
            (λ found. is_present-exact by_content_hash found refl))
          (probe_hash-test is_present rows c exclude_id refl (is_present-exact_of by_content_hash))
          (inexact-or_match _ _ (probe_title-inexact rows c exclude_id _ refl)
            (probe_embedding-inexact rows c exclude_id _ refl)) in
      is_exact-or_match (probe_url rows c exclude_id) _ _ _
        (probe_url-test is_exact rows c exclude_id refl
          (λ found. is_present-exact by_canonical_url found refl))
        (probe_url-test is_present rows c exclude_id refl (is_present-exact_of by_canonical_url))
        (hash_level ∙ or_false _)
