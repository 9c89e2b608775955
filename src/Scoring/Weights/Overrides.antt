-- ===== src/Scoring/Weights/Overrides.antt =====
-- Overrides of weights come from users: nothing in them is dropped silently.
use chief_opportunity_intell.Prelude.Dict
use chief_opportunity_intell.Prelude.{
  String, ◌≡◌, ◌≢◌, inl, inr, none, some, [], ◌∷◌, map, arith, eq_iff, ok, Result-cases,
}
use chief_opportunity_intell.Scoring.Weights.{
  with_override, override_one, dimensions, named_in, Merged, override_all,
}
use chief_opportunity_intell.Prelude.Dict.{Dict, get}
use chief_opportunity_intell.Scoring.Dimensions.{number, dimension_value, Factor}
use chief_opportunity_intell.Scoring.Engine.{Weights}

override_one-unknown :
    (key : String) (value : Factor) (m n : Merged) → override_one none key value m ≢ ok n
unfolding override_one
override_one-unknown key value m n h = ground arith

override_all-unknown :
    (override : Dict Factor) (m n : Merged) (key : String) (value : Factor)
    → Dict.get override key ≡ some value
    → named_in dimensions key ≡ none
    → override_all m override ≢ ok n
unfolding override_all Dict.get
override_all-unknown [] m n key value h unknown = ground arith
override_all-unknown ((k, v) ∷ items) m n key value h unknown =
    elim (Result-cases (override_one (named_in dimensions k) k v m)) [
      | inl (e, refused) ↦ ground arith
      | inr (next, merged) ↦
          let never = override_one-unknown k v m next in
          ground (arith, override_all-unknown items next n key value, eq_iff k key)
    ]

-- An override with a key that names no dimension is refused, whatever else it holds.
pub with_override-unknown :
    (self w : Weights) (override : Dict Factor) (version key : String) (value : Factor)
    → Dict.get override key ≡ some value
    → named_in dimensions key ≡ none
    → with_override self override version ≢ ok w
unfolding with_override Dict.get
with_override-unknown self w [] version key value h unknown = ground arith
with_override-unknown self w (item ∷ items) version key value h unknown =
    let start : Merged = record {
      weights = map (λ (d, x). (dimension_value d, number x)) self.benefit;
      effort = number self.effort;
      risk = number self.risk;
    } in
    elim (Result-cases (override_all start (item ∷ items))) [
      | inl (e, refused) ↦ ground arith
      | inr (m, merged) ↦
          let never = override_all-unknown (item ∷ items) start m key value h unknown in
          ground arith
    ]
