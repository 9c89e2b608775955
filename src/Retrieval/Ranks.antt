-- ===== src/Retrieval/Ranks.antt =====
-- What a fusion of ranked lists gives.
use chief_opportunity_intell.Prelude.{
  ℕ, suc, ◌≡◌, refl, sym, ap, ◌∙◌, inl, inr, false, List, [], ◌∷◌, map, Bool-cases, take, All, ◌||◌,
  zero, Bool,
}
use chief_opportunity_intell.Retrieval.{
  Floats, ScoredPassage, PassageKey, same_key, Entry, sorted_by, passage_key, bump, add_ranked,
  add_lists, as_fused, reciprocal_rank_fusion,
}
use chief_opportunity_intell.Retrieval.Fused.{
  same_key-eq, IsDistinct, IsFresh, sorted_by-All, sorted_by-IsDistinct, add_lists-IsDistinct,
}
use chief_opportunity_intell.Retrieval.Sums.{rank_sums, score_in, score_in-add_lists, total_own}
use chief_opportunity_intell.Retrieval.Cover.{
  IsOrder, IsFalling, sorted_by-IsFalling, has_key, has_key-sorted_by, has_key-add_lists, is_listed,
  is_in_lists,
}

module _ {S : Type 0} (floats : Floats S) where
  abbrev IsKeyed : Entry S → Type 0
  IsKeyed e = passage_key floats e.passage ≡ e.key

  bump-IsKeyed :
      (key : PassageKey) (table : List (Entry S)) (share : S) (p : ScoredPassage S)
      → passage_key floats p ≡ key
      → All IsKeyed table
      → All IsKeyed (bump floats table key share p)
  unfolding bump
  bump-IsKeyed key [] share p h keyed = (h, tt)
  bump-IsKeyed key (e ∷ table) share p h (own, keyed) = elim (Bool-cases (same_key e.key key)) [
    | inl same ↦ rw same (h ∙ sym (same_key-eq e.key key same), keyed)
    | inr other ↦ rw other (own, bump-IsKeyed key table share p h keyed)
  ]

  add_ranked-IsKeyed :
      (rank : ℕ) (ranked : List (ScoredPassage S)) (table : List (Entry S))
      → All IsKeyed table
      → All IsKeyed (add_ranked floats rank ranked table)
  unfolding add_ranked
  add_ranked-IsKeyed rank [] table keyed = keyed
  add_ranked-IsKeyed rank (p ∷ ranked) table keyed =
      add_ranked-IsKeyed (suc rank) ranked _ (bump-IsKeyed _ table _ p refl keyed)

  add_lists-IsKeyed :
      (lists : List (List (ScoredPassage S))) (table : List (Entry S))
      → All IsKeyed table
      → All IsKeyed (add_lists floats lists table)
  unfolding add_lists
  add_lists-IsKeyed [] table keyed = keyed
  add_lists-IsKeyed (ranked ∷ lists) table keyed =
      add_lists-IsKeyed lists _ (add_ranked-IsKeyed 1 ranked table keyed)

  -- What the score of a passage is to be.
  abbrev pub rrf_score : List (List (ScoredPassage S)) → ScoredPassage S → S
  rrf_score lists p = rank_sums floats (passage_key floats p) lists floats.nought

  abbrev IsSummed : List (List (ScoredPassage S)) → Entry S → Type 0
  IsSummed lists e = IsKeyed e × (e.total ≡ rrf_score lists e.passage)

  summed :
      (lists : List (List (ScoredPassage S))) (table entries : List (Entry S))
      → ((k : PassageKey) → score_in floats k table ≡ rank_sums floats k lists floats.nought)
      → All IsKeyed entries
      → All (λ e. e.total ≡ score_in floats e.key table) entries
      → All (IsSummed lists) entries
  summed lists table [] total keyed own = tt
  summed lists table (e ∷ entries) total (key, keyed) (mine, own) = (
    (key, mine ∙ total e.key ∙ ap (λ k. rank_sums floats k lists floats.nought) (sym key)),
    summed lists table entries total keyed own,
  )

  add_lists-IsSummed :
      (lists : List (List (ScoredPassage S))) → All (IsSummed lists) (add_lists floats lists [])
  unfolding score_in
  add_lists-IsSummed lists =
      summed lists (add_lists floats lists []) (add_lists floats lists [])
        (λ k. score_in-add_lists floats k lists []) (add_lists-IsKeyed lists [] tt)
        (total_own floats (add_lists floats lists []) (add_lists-IsDistinct floats lists [] tt))

  -- Each passage is listed once.
  abbrev pub AreApart : List (ScoredPassage S) → Type 0
  AreApart [] = Unit
  AreApart (p ∷ ps) =
      All (λ q. same_key (passage_key floats p) (passage_key floats q) ≡ false) ps × AreApart ps

  all_apart :
      (j k : PassageKey) (entries : List (Entry S))
      → j ≡ k
      → IsFresh k entries
      → All IsKeyed entries
      → All (λ q. same_key j (passage_key floats q) ≡ false) (map (as_fused floats) entries)
  unfolding as_fused passage_key
  all_apart j k [] same fresh keyed = tt
  all_apart j k (e ∷ entries) same (apart, fresh) (key, keyed) = (
    ap (same_key j) key ∙ ap (λ i. same_key i e.key) same ∙ apart,
    all_apart j k entries same fresh keyed,
  )

  as_fused-AreApart :
      (entries : List (Entry S))
      → IsDistinct entries
      → All IsKeyed entries
      → AreApart (map (as_fused floats) entries)
  unfolding as_fused passage_key
  as_fused-AreApart [] distinct keyed = tt
  as_fused-AreApart (e ∷ entries) (fresh, distinct) (key, keyed) = (
    all_apart (passage_key floats e.passage) e.key entries key fresh keyed,
    as_fused-AreApart entries distinct keyed,
  )

  as_fused-scores :
      (lists : List (List (ScoredPassage S))) (entries : List (Entry S))
      → All (IsSummed lists) entries
      → All (λ p. p.score ≡ rrf_score lists p) (map (as_fused floats) entries)
  unfolding as_fused passage_key
  as_fused-scores lists [] summed = tt
  as_fused-scores lists (e ∷ entries) ((key, total), rest) =
      (total, as_fused-scores lists entries rest)

  as_fused-listed :
      (k : PassageKey) (entries : List (Entry S))
      → All IsKeyed entries
      → is_listed floats k (map (as_fused floats) entries) ≡ has_key k entries
  unfolding as_fused passage_key is_listed has_key
  as_fused-listed k [] keyed = refl
  as_fused-listed k (e ∷ entries) (key, keyed) =
      ap (λ j. same_key j k || is_listed floats k (map (as_fused floats) entries)) key
      ∙ ap (λ b. same_key e.key k || b) (as_fused-listed k entries keyed)

  -- The order of `sorted` in the fusion, on entries and on what they become.
  abbrev by_total : Entry S → Entry S → Bool
  by_total d e = floats.is_less d.total e.total

  abbrev pub by_score : ScoredPassage S → ScoredPassage S → Bool
  by_score p q = floats.is_less p.score q.score

  all_behind :
      (e : Entry S) (entries : List (Entry S))
      → All (λ d. by_total e d ≡ false) entries
      → All (λ q. by_score (as_fused floats e) q ≡ false) (map (as_fused floats) entries)
  unfolding as_fused
  all_behind e [] all = tt
  all_behind e (d ∷ entries) (h, all) = (h, all_behind e entries all)

  as_fused-IsFalling :
      (entries : List (Entry S))
      → IsFalling by_total entries
      → IsFalling by_score (map (as_fused floats) entries)
  as_fused-IsFalling [] falling = tt
  as_fused-IsFalling (e ∷ entries) (own, falling) =
      (all_behind e entries own, as_fused-IsFalling entries falling)

  map-take :
      (n : ℕ) (entries : List (Entry S))
      → map (as_fused floats) (take n entries) ≡ take n (map (as_fused floats) entries)
  map-take zero entries = refl
  map-take (suc n) [] = refl
  map-take (suc n) (e ∷ entries) = ap (λ l. as_fused floats e ∷ l) (map-take n entries)

  -- The fusion is the first part, as long as the limit allows, of a ranking of all passages: where the
  -- scores are ordered, that ranking has each key of the lists exactly once and no other, the score
  -- of each passage in it is the sum of 1 / (60 + rank) over the places that its key has in the lists,
  -- added in their order, and no passage in it has a lower score than a later one.
  pub reciprocal_rank_fusion-ranking :
      (lists : List (List (ScoredPassage S))) (limit : ℕ)
      → IsOrder floats.is_less
      → (ranking : List (ScoredPassage S)) × (reciprocal_rank_fusion floats lists limit
          ≡ take limit ranking)
        × AreApart ranking
        × ((k : PassageKey) → is_listed floats k ranking ≡ is_in_lists floats k lists)
        × All (λ p. p.score ≡ rrf_score lists p) ranking
        × IsFalling by_score ranking
  unfolding reciprocal_rank_fusion has_key
  reciprocal_rank_fusion-ranking lists limit order =
      let table = add_lists floats lists [] in
      let entries = sorted_by by_total table in
      let keyed : All IsKeyed entries =
        sorted_by-All IsKeyed by_total table (add_lists-IsKeyed lists [] tt) in
      let ordered : IsOrder by_total =
        ((λ d e. order.0 d.total e.total), (λ d e f. order.1 d.total e.total f.total)) in
      (
        map (as_fused floats) entries,
        map-take limit entries,
        as_fused-AreApart entries
            (sorted_by-IsDistinct by_total table (add_lists-IsDistinct floats lists [] tt)) keyed,
        (λ k.
            as_fused-listed k entries keyed
            ∙ has_key-sorted_by k by_total table
            ∙ has_key-add_lists floats k lists []),
        as_fused-scores lists entries
            (sorted_by-All (IsSummed lists) by_total table (add_lists-IsSummed lists)),
        as_fused-IsFalling entries (sorted_by-IsFalling by_total table ordered),
      )
