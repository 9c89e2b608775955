-- ===== src/Retrieval/Cover.antt =====
-- The order of a sorted list, and the keys that a fusion holds.
use chief_opportunity_intell.Prelude.{
  ℕ, suc, ◌≡◌, refl, sym, ap, ◌∙◌, inl, inr, Bool, true, false, ◌||◌, List, [], ◌∷◌, arith,
  Bool-cases, All,
}
use chief_opportunity_intell.Retrieval.{
  Floats, ScoredPassage, PassageKey, same_key, Entry, insert_by, sorted_by, passage_key, bump,
  add_ranked, add_lists,
}
use chief_opportunity_intell.Retrieval.Fused.{insert_by-All, same_key-eq}

-- What a strict order is on floats that are no NaN.
abbrev pub IsOrder : {A : Type 0} → (A → A → Bool) → Type 0
IsOrder {A} lt =
    ((a b : A) → lt a b ≡ true → lt b a ≡ false)
    × ((a b c : A) → lt a b ≡ false → lt b c ≡ false → lt a c ≡ false)

or_exchange : (a b c : Bool) → (a || (b || c)) ≡ (b || (a || c))
or_exchange a b c = ground arith

or_swap : (a : Bool) → (a || false) ≡ (false || a)
or_swap a = ground arith

or_false : (a : Bool) → a ≡ (a || false)
or_false a = ground arith

or_regroup : (a b c : Bool) → (a || (b || c)) ≡ ((a || b) || c)
or_regroup a b c = ground arith

or_again : (a b c : Bool) → a ≡ c → (a || b) ≡ ((a || b) || c)
or_again a b c h = ground arith

module _ {A : Type 0} (lt : A → A → Bool) where
  -- No element is less than a later one.
  abbrev pub IsFalling : List A → Type 0
  IsFalling [] = Unit
  IsFalling (x ∷ xs) = All (λ y. lt x y ≡ false) xs × IsFalling xs

  all_below :
      (x y : A) (ys : List A)
      → IsOrder lt
      → lt x y ≡ false
      → All (λ z. lt y z ≡ false) ys
      → All (λ z. lt x z ≡ false) ys
  all_below x y [] order h all = tt
  all_below x y (z ∷ ys) order h (own, all) = (order.1 x y z h own, all_below x y ys order h all)

  insert_by-IsFalling :
      (x : A) (ys : List A) → IsOrder lt → IsFalling ys → IsFalling (insert_by lt x ys)
  unfolding insert_by
  insert_by-IsFalling x [] order falling = (tt, tt)
  insert_by-IsFalling x (y ∷ ys) order (own, falling) = elim (Bool-cases (lt x y)) [
    | inl below ↦ rw below (
      insert_by-All (λ z. lt y z ≡ false) lt x ys (order.0 x y below) own,
      insert_by-IsFalling x ys order falling,
    )
    | inr above ↦ rw above ((above, all_below x y ys order above own), (own, falling))
  ]

  pub sorted_by-IsFalling : (xs : List A) → IsOrder lt → IsFalling (sorted_by lt xs)
  unfolding sorted_by
  sorted_by-IsFalling [] order = tt
  sorted_by-IsFalling (x ∷ xs) order =
      insert_by-IsFalling x (sorted_by lt xs) order (sorted_by-IsFalling xs order)

module _ {S : Type 0} where
  unfoldable pub has_key : PassageKey → List (Entry S) → Bool
  has_key k [] = false
  has_key k (e ∷ table) = same_key e.key k || has_key k table

  has_key-insert_by :
      (k : PassageKey) (lt : Entry S → Entry S → Bool) (e : Entry S) (table : List (Entry S))
      → has_key k (insert_by lt e table) ≡ (same_key e.key k || has_key k table)
  unfolding has_key insert_by
  has_key-insert_by k lt e [] = refl
  has_key-insert_by k lt e (d ∷ table) = elim (Bool-cases (lt e d)) [
    | inl below ↦
        rw (below, has_key-insert_by k lt e table)
          (or_exchange (same_key d.key k) (same_key e.key k) (has_key k table))
    | inr above ↦ rw above refl
  ]

  pub has_key-sorted_by :
      (k : PassageKey) (lt : Entry S → Entry S → Bool) (table : List (Entry S))
      → has_key k (sorted_by lt table) ≡ has_key k table
  unfolding has_key sorted_by
  has_key-sorted_by k lt [] = refl
  has_key-sorted_by k lt (e ∷ table) =
      has_key-insert_by k lt e (sorted_by lt table)
      ∙ ap (λ b. same_key e.key k || b) (has_key-sorted_by k lt table)

module _ {S : Type 0} (floats : Floats S) where
  -- Whether some passage has the key.
  unfoldable pub is_listed : PassageKey → List (ScoredPassage S) → Bool
  is_listed k [] = false
  is_listed k (p ∷ passages) = same_key (passage_key floats p) k || is_listed k passages

  unfoldable pub is_in_lists : PassageKey → List (List (ScoredPassage S)) → Bool
  unfolding is_listed
  is_in_lists k [] = false
  is_in_lists k (ranked ∷ lists) = is_listed k ranked || is_in_lists k lists

  has_key-bump :
      (k key : PassageKey) (table : List (Entry S)) (share : S) (p : ScoredPassage S)
      → has_key k (bump floats table key share p) ≡ (has_key k table || same_key key k)
  unfolding has_key bump
  has_key-bump k key [] share p = or_swap (same_key key k)
  has_key-bump k key (e ∷ table) share p = elim (Bool-cases (same_key e.key key)) [
    | inl same ↦ rw same (
        or_again (same_key e.key k) (has_key k table) (same_key key k)
          (ap (λ j. same_key j k) (same_key-eq e.key key same)))
    | inr other ↦
        rw (other, has_key-bump k key table share p)
          (or_regroup (same_key e.key k) (has_key k table) (same_key key k))
  ]

  has_key-add_ranked :
      (k : PassageKey) (rank : ℕ) (ranked : List (ScoredPassage S)) (table : List (Entry S))
      → has_key k (add_ranked floats rank ranked table) ≡ (has_key k table || is_listed k ranked)
  unfolding add_ranked is_listed
  has_key-add_ranked k rank [] table = or_false (has_key k table)
  has_key-add_ranked k rank (p ∷ ranked) table =
      has_key-add_ranked k (suc rank) ranked _
      ∙ ap (λ b. b || is_listed k ranked) (has_key-bump k (passage_key floats p) table _ p)
      ∙ sym (or_regroup (has_key k table) (same_key (passage_key floats p) k) (is_listed k ranked))

  pub has_key-add_lists :
      (k : PassageKey) (lists : List (List (ScoredPassage S))) (table : List (Entry S))
      → has_key k (add_lists floats lists table) ≡ (has_key k table || is_in_lists k lists)
  unfolding add_lists is_in_lists
  has_key-add_lists k [] table = or_false (has_key k table)
  has_key-add_lists k (ranked ∷ lists) table =
      has_key-add_lists k lists _
      ∙ ap (λ b. b || is_in_lists k lists) (has_key-add_ranked k 1 ranked table)
      ∙ sym (or_regroup (has_key k table) (is_listed k ranked) (is_in_lists k lists))
