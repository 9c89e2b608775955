-- ===== src/Prelude/Window.antt =====
-- Sliding windows over lists of time stamps, oldest first, as both rate limiters keep them.
use chief_opportunity_intell.Prelude.Tests.{leb, if◌then◌else◌, Bool-cases}
use chief_opportunity_intell.Prelude.Lists.{length, select, length-select, All}
use Prim.Native.Nat.{ℕ, ◌+◌, ◌≤◌, ◌<◌}
use mathlib.Core.Path.{◌≡◌, refl}
use mathlib.Core.Logic.{inl, inr}
use mathlib.Core.Bool.{Bool, true, not, ◌&&◌}
use mathlib.Core.List.{List, [], ◌∷◌, ◌++◌}
use native.Mathlib.Omega.{arith}

-- `while q and test(q[0]): q.popleft()`
unfoldable pub drop_while : (ℕ → Bool) → List ℕ → List ℕ
drop_while test [] = []
drop_while test (e ∷ q) = let rest = drop_while test q in if test e then rest else e ∷ q

-- What the loop removes.
pub taken : (ℕ → Bool) → List ℕ → List ℕ
taken test [] = []
taken test (e ∷ q) = let rest = taken test q in if test e then e ∷ rest else []

pub taken-append-drop : (test : ℕ → Bool) (q : List ℕ) → taken test q ++ drop_while test q ≡ q
unfolding taken drop_while
taken-append-drop test [] = refl
taken-append-drop test (e ∷ q) = ground (arith, taken-append-drop test q)

pub All-taken : (test : ℕ → Bool) (q : List ℕ) → All (λ e. test e ≡ true) (taken test q)
unfolding taken
All-taken test [] = tt
All-taken test (e ∷ q) = elim (Bool-cases (test e)) [
  | inl h ↦ rw h (h, All-taken test q)
  | inr h ↦ rw h tt
]

pub All-append {κ} : (P : ℕ → Type κ) (xs ys : List ℕ) → All P xs → All P ys → All P (xs ++ ys)
All-append P [] ys hx hy = hy
All-append P (x ∷ xs) ys hx hy = (hx.0, All-append P xs ys hx.1 hy)

module _ (expired : ℕ → ℕ → Bool) where
  -- The stamps of `log` that are in the window which ends at `x`.
  abbrev pub in_window : ℕ → ℕ → Bool
  in_window x e = leb e x && not (expired x e)

  abbrev pub hits_at : ℕ → List ℕ → ℕ
  hits_at x log = length (select (in_window x) log)

module _ (expired : ℕ → ℕ → Bool)
    (stays : (t x e : ℕ) → t ≤ x → expired t e ≡ true → expired x e ≡ true) where
  hits_at-append :
      (x : ℕ) (xs ys : List ℕ)
      → hits_at expired x (xs ++ ys) ≡ hits_at expired x xs + hits_at expired x ys
  hits_at-append x [] ys = omega arith
  hits_at-append x (e ∷ xs) ys = elim (Bool-cases (in_window expired x e)) [
    | inl h ↦ rw h (omega (arith, hits_at-append x xs ys))
    | inr h ↦ rw h (hits_at-append x xs ys)
  ]

  hits_at_gone :
      (t x : ℕ) (old : List ℕ)
      → t ≤ x
      → All (λ e. expired t e ≡ true) old
      → hits_at expired x old ≡ 0
  hits_at_gone t x [] le h = refl
  hits_at_gone t x (e ∷ old) le h = ground (arith, stays t x e le h.0, hits_at_gone t x old le h.1)

  -- A log whose stamps are all old but the queue's, and a queue shorter than the limit: one more
  -- stamp keeps every window within the limit.
  pub hits_at_admit :
      (limit t x : ℕ) (old q : List ℕ)
      → All (λ e. expired t e ≡ true) old
      → length q < limit
      → hits_at expired x (old ++ q) ≤ limit
      → hits_at expired x ((old ++ q) ++ t ∷ []) ≤ limit
  hits_at_admit limit t x old q h short le = elim (Bool-cases (leb t x)) [
    | inl before ↦ omega (
      arith,
      hits_at-append x (old ++ q) (t ∷ []),
      hits_at-append x old q,
      hits_at_gone t x old (ground arith) h,
      length-select (in_window expired x) q,
      length-select (in_window expired x) (t ∷ []),
    )
    | inr after ↦ rw (hits_at-append x (old ++ q) (t ∷ [])) (rw after (omega arith))
  ]
