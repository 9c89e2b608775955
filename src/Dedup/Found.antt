-- ===== src/Dedup/Found.antt =====
-- What a match tells of the row that it names.
use chief_opportunity_intell.Prelude.{
  not, if◌then◌else◌, ◌||◌, ℕ, ◌*◌, String, ◌≡◌, refl, ◌⊎◌, inl, inr, Bool, true, false, ◌&&◌,
  Option, none, some, List, [], ◌∷◌, arith, leb, ◌==◌, Bool-cases,
}
use chief_opportunity_intell.Opportunities.{Opportunity, any_row, first_row}
use chief_opportunity_intell.Dedup.{
  find_duplicate, probe_embedding, probe_hash, truthy, embedded, candidate_limit, or_match,
  probe_title, is_candidate, exact, probe_url, by_embedding, best_embedding, compare_embedding,
  by_content_hash, by_canonical_url, same_organization, similarity, has_hash, has_url,
  title_similarity_threshold, by_title_similarity, embedding_similarity_threshold, best_title,
  Candidate, DuplicateMatch, is_present, MatchMethod,
}
use chief_opportunity_intell.Dedup.Titles.{Ratio}
use chief_opportunity_intell.Normalization.{Platform}
use chief_opportunity_intell.Dedup.Seniority.{titles_compatible}
use chief_opportunity_intell.Dedup.Rows.{
  any_row-first, any_row-select, any_row-take, any_row_mono, keep_best-cases,
}

-- Why a row is a match of a candidate, by the method.
module _ {E : Type 0} (cosine : E → E → Ratio) where
  unfoldable pub is_near : Option E → Option E → Bool
  is_near (some e) (some own) =
      leb (embedding_similarity_threshold * (cosine e own).den) ((cosine e own).num * 100)
  is_near _ _ = false

module _ {E : Type 0} (platform : Platform) where
  unfoldable pub is_alike : String → Opportunity E → Bool
  is_alike title r =
      titles_compatible platform title r.title
      && leb (title_similarity_threshold * (similarity platform title r.title).den)
          ((similarity platform title r.title).num * 100)

  pub best_title-found :
      (title : String) (rows : List (Opportunity E)) (best : Option DuplicateMatch)
      (m : DuplicateMatch)
      → best_title platform title rows best ≡ some m
      → (best ≡ some m)
        ⊎ ((m.method ≡ by_title_similarity)
            × (any_row (λ r. r.id == m.opportunity_id && is_alike title r) rows ≡ true))
  unfolding best_title any_row is_alike
  best_title-found title [] best m h = inl h
  best_title-found title (r ∷ rows) best m h =
      elim (Bool-cases (titles_compatible platform title r.title)) [
        | inl compatible ↦ elim (best_title-found title rows _ m (rw compatible at h)) [
          | inl earlier ↦
              elim (keep_best-cases by_title_similarity title_similarity_threshold r.id
                (similarity platform title r.title) best m earlier) [
                  | inl before ↦ inl before
                  | inr (id, method, near) ↦ inr (method, ground arith)
                ]
          | inr (method, later) ↦ inr (method, ground arith)
        ]
        | inr other ↦ elim (best_title-found title rows best m (rw other at h)) [
          | inl earlier ↦ inl earlier
          | inr (method, later) ↦ inr (method, ground arith)
        ]
      ]

module _ {E : Type 0} (platform : Platform) (cosine : E → E → Ratio) where
  unfoldable pub is_reason : Candidate E → MatchMethod → Opportunity E → Bool
  unfolding is_near is_alike
  is_reason c by_canonical_url r = has_url c r
  is_reason c by_content_hash r = has_hash c r
  is_reason c by_title_similarity r = same_organization platform c r && is_alike platform c.title r
  is_reason c by_embedding r = is_near cosine c.embedding r.embedding

module _ {E : Type 0} (cosine : E → E → Ratio) where
  compare_embedding-cases :
      (e : E) (id : ℕ) (own : Option E) (best : Option DuplicateMatch) (m : DuplicateMatch)
      → compare_embedding cosine e id own best ≡ some m
      → (best ≡ some m)
        ⊎ ((m.opportunity_id ≡ id)
            × (m.method ≡ by_embedding)
            × (is_near cosine (some e) own ≡ true))
  unfolding compare_embedding is_near
  compare_embedding-cases e id none best m h = inl h
  compare_embedding-cases e id (some own) best m h =
      keep_best-cases by_embedding embedding_similarity_threshold id (cosine e own) best m h

  best_embedding-found :
      (e : E) (rows : List (Opportunity E)) (best : Option DuplicateMatch) (m : DuplicateMatch)
      → best_embedding cosine e rows best ≡ some m
      → (best ≡ some m)
        ⊎ ((m.method ≡ by_embedding)
            × (any_row (λ r. r.id == m.opportunity_id && is_near cosine (some e) r.embedding) rows
                ≡ true))
  unfolding best_embedding any_row
  best_embedding-found e [] best m h = inl h
  best_embedding-found e (r ∷ rows) best m h = elim (best_embedding-found e rows _ m h) [
    | inl earlier ↦ elim (compare_embedding-cases e r.id r.embedding best m earlier) [
      | inl before ↦ inl before
      | inr (id, method, near) ↦ inr (method, ground arith)
    ]
    | inr (method, later) ↦ inr (method, ground arith)
  ]

pub some-none : (m : DuplicateMatch) → none ≡ some m → ⊥
some-none m h = ground arith

guarded :
    (asked : Bool) (found : Option DuplicateMatch) (m : DuplicateMatch)
    → (if not asked then none else found) ≡ some m
    → found ≡ some m
guarded true found m h = h
guarded false found m h = absurd (some-none m h)

regroup : (a b c d : Bool) → (a && b && (c && d)) ≡ true → (a && (d && (c && b))) ≡ true
regroup a b c d h = ground arith

narrowed : (a b c d : Bool) → (a && b && (c && d)) ≡ true → (a && (d && b)) ≡ true
narrowed a b c d h = ground arith

exact-cases :
    {E : Type 0} (method : MatchMethod) (found : Option (Opportunity E)) (m : DuplicateMatch)
    → exact method found ≡ some m
    → (r : Opportunity E) × (found ≡ some r) × (m.opportunity_id ≡ r.id) × (m.method ≡ method)
unfolding exact
exact-cases method none m h = absurd (ground arith)
exact-cases method (some r) m h = (r, refl, ground arith, ground arith)

or_match-cases :
    (a b : Option DuplicateMatch) (m : DuplicateMatch)
    → or_match a b ≡ some m
    → (a ≡ some m) ⊎ (b ≡ some m)
unfolding or_match
or_match-cases none b m h = inr h
or_match-cases (some a) b m h = inl h

module _ {E : Type 0} (platform : Platform) (cosine : E → E → Ratio) where
  -- What a match must show: a row of its id that the statements admit, and its reason.
  abbrev pub is_shown : List (Opportunity E) → Candidate E → Option ℕ → DuplicateMatch → Bool
  is_shown rows c exclude_id m =
      any_row
        (λ r.
          r.id == m.opportunity_id
          && (is_candidate exclude_id r && is_reason platform cosine c m.method r))
        rows

  exact-shown :
      (method : MatchMethod) (has : Opportunity E → Bool) (rows : List (Opportunity E))
      (c : Candidate E) (exclude_id : Option ℕ) (m : DuplicateMatch)
      → ((r : Opportunity E) → has r ≡ true → is_reason platform cosine c method r ≡ true)
      → exact method (first_row (λ r. has r && is_candidate exclude_id r) rows) ≡ some m
      → is_shown rows c exclude_id m ≡ true
  exact-shown method has rows c exclude_id m reason h =
      let (r, found, id, by) = exact-cases method _ m h in
      let shown =
        any_row-first _ (λ s. is_candidate exclude_id s && is_reason platform cosine c method s)
          rows r found (λ s hit. ground (arith, reason s)) in
      rw (id, by) shown

  probe_url-shown :
      (rows : List (Opportunity E)) (c : Candidate E) (exclude_id : Option ℕ) (m : DuplicateMatch)
      → probe_url rows c exclude_id ≡ some m
      → is_shown rows c exclude_id m ≡ true
  unfolding probe_url is_reason
  probe_url-shown rows c exclude_id m h =
      exact-shown by_canonical_url (has_url c) rows c exclude_id m (λ r own. own)
        (guarded (truthy c.canonical_url || truthy c.source_url) _ m h)

  probe_hash-shown :
      (rows : List (Opportunity E)) (c : Candidate E) (exclude_id : Option ℕ) (m : DuplicateMatch)
      → probe_hash rows c exclude_id ≡ some m
      → is_shown rows c exclude_id m ≡ true
  unfolding probe_hash is_reason
  probe_hash-shown rows c exclude_id m h =
      exact-shown by_content_hash (has_hash c) rows c exclude_id m (λ r own. own)
        (guarded (truthy c.content_hash) _ m h)

  probe_title-shown :
      (rows : List (Opportunity E)) (c : Candidate E) (exclude_id : Option ℕ) (m : DuplicateMatch)
      → probe_title platform rows c exclude_id ≡ some m
      → is_shown rows c exclude_id m ≡ true
  unfolding probe_title is_reason
  probe_title-shown rows c exclude_id m h = elim (best_title-found platform c.title _ none m h) [
    | inl nothing ↦ absurd (ground arith)
    | inr (method, found) ↦
        let kept = any_row-select _ _ rows (any_row-take candidate_limit _ _ found) in
        any_row_mono _ _ rows
          (λ r kept_row. rw method (
            regroup (r.id == m.opportunity_id) (is_alike platform c.title r)
              (same_organization platform c r) (is_candidate exclude_id r) kept_row))
          kept
  ]

  pub embedded-shown :
      (e : Option E) (rows : List (Opportunity E)) (m : DuplicateMatch)
      → embedded cosine e rows ≡ some m
      → (m.method ≡ by_embedding)
        × (any_row (λ r. r.id == m.opportunity_id && is_near cosine e r.embedding) rows ≡ true)
  unfolding embedded
  embedded-shown none rows m h = absurd (some-none m h)
  embedded-shown (some e) rows m h = elim (best_embedding-found cosine e rows none m h) [
    | inl nothing ↦ absurd (some-none m nothing)
    | inr found ↦ found
  ]

  probe_embedding-shown :
      (rows : List (Opportunity E)) (c : Candidate E) (exclude_id : Option ℕ) (m : DuplicateMatch)
      → probe_embedding cosine rows c exclude_id ≡ some m
      → is_shown rows c exclude_id m ≡ true
  unfolding probe_embedding is_reason
  probe_embedding-shown rows c exclude_id m h =
      let (method, found) = embedded-shown c.embedding _ m h in
      let kept = any_row-select _ _ rows (any_row-take candidate_limit _ _ found) in
      any_row_mono _ _ rows
        (λ r kept_row. rw method (
          narrowed (r.id == m.opportunity_id) (is_near cosine c.embedding r.embedding)
            (is_present r.embedding) (is_candidate exclude_id r) kept_row))
        kept

  -- Whatever is reported as a duplicate names a row of the table that is not itself marked as a
  -- duplicate and is not the excluded one, and that has what the method claims: one of the
  -- candidate's URLs; its hash; the same organisation or domain, the same rungs of seniority and a
  -- title that is at least 0.62 alike; or an embedding at least 0.92 alike.
  pub find_duplicate-shown :
      (rows : List (Opportunity E)) (c : Candidate E) (exclude_id : Option ℕ) (m : DuplicateMatch)
      → find_duplicate platform cosine rows c exclude_id ≡ some m
      → is_shown rows c exclude_id m ≡ true
  unfolding find_duplicate
  find_duplicate-shown rows c exclude_id m h =
      elim (or_match-cases (probe_url rows c exclude_id) _ m h) [
        | inl url ↦ probe_url-shown rows c exclude_id m url
        | inr later ↦ elim (or_match-cases (probe_hash rows c exclude_id) _ m later) [
          | inl hash ↦ probe_hash-shown rows c exclude_id m hash
          | inr latest ↦ elim (or_match-cases (probe_title platform rows c exclude_id) _ m latest) [
            | inl alike ↦ probe_title-shown rows c exclude_id m alike
            | inr near ↦ probe_embedding-shown rows c exclude_id m near
          ]
        ]
      ]
