-- ===== src/Retrieval/Fused.antt =====
-- The table of a fusion has no key twice, and sorting keeps what holds of its entries.
use chief_opportunity_intell.Prelude.{
  ℕ, suc, ◌≡◌, refl, ap, ◌∙◌, inl, inr, Bool, true, false, List, [], ◌∷◌, arith, ==_iff, Bool-cases,
  All,
}
use chief_opportunity_intell.Retrieval.{
  Floats, ScoredPassage, PassageKey, chunk, hashed, same_key, Entry, insert_by, sorted_by, bump,
  add_ranked, add_lists,
}

pub same_key-eq : (a b : PassageKey) → same_key a b ≡ true → a ≡ b
unfolding same_key
same_key-eq (chunk i) (chunk j) h = ap chunk ((==_iff i j).0 h)
same_key-eq (chunk i) (hashed j) h = ground arith
same_key-eq (hashed i) (chunk j) h = ground arith
same_key-eq (hashed i) (hashed j) h = ap hashed ((==_iff i j).0 h)

pub same_key_refl : (a : PassageKey) → same_key a a ≡ true
unfolding same_key
same_key_refl (chunk i) = ground arith
same_key_refl (hashed i) = ground arith

pub same_key_sym : (a b : PassageKey) → same_key a b ≡ same_key b a
unfolding same_key
same_key_sym (chunk i) (chunk j) = ground arith
same_key_sym (chunk i) (hashed j) = refl
same_key_sym (hashed i) (chunk j) = refl
same_key_sym (hashed i) (hashed j) = ground arith

module _ {A : Type 0} (P : A → Type 0) where
  pub insert_by-All :
      (lt : A → A → Bool) (x : A) (xs : List A) → P x → All P xs → All P (insert_by lt x xs)
  unfolding insert_by
  insert_by-All lt x [] h all = (h, tt)
  insert_by-All lt x (y ∷ ys) h (own, all) = elim (Bool-cases (lt x y)) [
    | inl below ↦ rw below (own, insert_by-All lt x ys h all)
    | inr above ↦ rw above (h, (own, all))
  ]

  pub sorted_by-All : (lt : A → A → Bool) (xs : List A) → All P xs → All P (sorted_by lt xs)
  unfolding sorted_by
  sorted_by-All lt [] all = tt
  sorted_by-All lt (x ∷ xs) (h, all) =
      insert_by-All lt x (sorted_by lt xs) h (sorted_by-All lt xs all)

module _ {S : Type 0} where
  -- No entry has the key.
  abbrev pub IsFresh : PassageKey → List (Entry S) → Type 0
  IsFresh k table = All (λ e. same_key k e.key ≡ false) table

  abbrev pub IsDistinct : List (Entry S) → Type 0
  IsDistinct [] = Unit
  IsDistinct (e ∷ table) = IsFresh e.key table × IsDistinct table

  insert_by-IsDistinct :
      (lt : Entry S → Entry S → Bool) (e : Entry S) (table : List (Entry S))
      → IsFresh e.key table
      → IsDistinct table
      → IsDistinct (insert_by lt e table)
  unfolding insert_by
  insert_by-IsDistinct lt e [] fresh distinct = (tt, tt)
  insert_by-IsDistinct lt e (d ∷ table) (apart, fresh) (own, distinct) =
      elim (Bool-cases (lt e d)) [
        | inl below ↦ rw below (
          insert_by-All (λ f. same_key d.key f.key ≡ false) lt e table
              (same_key_sym d.key e.key ∙ apart) own,
          insert_by-IsDistinct lt e table fresh distinct,
        )
        | inr above ↦ rw above ((apart, fresh), (own, distinct))
      ]

  pub sorted_by-IsDistinct :
      (lt : Entry S → Entry S → Bool) (table : List (Entry S))
      → IsDistinct table
      → IsDistinct (sorted_by lt table)
  unfolding sorted_by
  sorted_by-IsDistinct lt [] distinct = tt
  sorted_by-IsDistinct lt (e ∷ table) (fresh, distinct) =
      insert_by-IsDistinct lt e (sorted_by lt table)
        (sorted_by-All (λ f. same_key e.key f.key ≡ false) lt table fresh)
        (sorted_by-IsDistinct lt table distinct)

module _ {S : Type 0} (floats : Floats S) where
  bump-IsFresh :
      (k key : PassageKey) (table : List (Entry S)) (share : S) (p : ScoredPassage S)
      → same_key k key ≡ false
      → IsFresh k table
      → IsFresh k (bump floats table key share p)
  unfolding bump
  bump-IsFresh k key [] share p apart fresh = (apart, tt)
  bump-IsFresh k key (e ∷ table) share p apart (own, fresh) =
      elim (Bool-cases (same_key e.key key)) [
        | inl same ↦ rw same (own, fresh)
        | inr other ↦ rw other (own, bump-IsFresh k key table share p apart fresh)
      ]

  bump-IsDistinct :
      (key : PassageKey) (table : List (Entry S)) (share : S) (p : ScoredPassage S)
      → IsDistinct table
      → IsDistinct (bump floats table key share p)
  unfolding bump
  bump-IsDistinct key [] share p distinct = (tt, tt)
  bump-IsDistinct key (e ∷ table) share p (fresh, distinct) =
      elim (Bool-cases (same_key e.key key)) [
        | inl same ↦ rw same (fresh, distinct)
        | inr other ↦ rw other (
          bump-IsFresh e.key key table share p other fresh,
          bump-IsDistinct key table share p distinct,
        )
      ]

  add_ranked-IsDistinct :
      (rank : ℕ) (ranked : List (ScoredPassage S)) (table : List (Entry S))
      → IsDistinct table
      → IsDistinct (add_ranked floats rank ranked table)
  unfolding add_ranked
  add_ranked-IsDistinct rank [] table distinct = distinct
  add_ranked-IsDistinct rank (p ∷ ranked) table distinct =
      add_ranked-IsDistinct (suc rank) ranked _ (bump-IsDistinct _ table _ p distinct)

  pub add_lists-IsDistinct :
      (lists : List (List (ScoredPassage S))) (table : List (Entry S))
      → IsDistinct table
      → IsDistinct (add_lists floats lists table)
  unfolding add_lists
  add_lists-IsDistinct [] table distinct = distinct
  add_lists-IsDistinct (ranked ∷ lists) table distinct =
      add_lists-IsDistinct lists _ (add_ranked-IsDistinct 1 ranked table distinct)
