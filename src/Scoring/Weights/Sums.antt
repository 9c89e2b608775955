-- ===== src/Scoring/Weights/Sums.antt =====
-- A vector that `build` or `with_override` returns sums to one.
use chief_opportunity_intell.Prelude.{
  map, ◌+◌, ◌-◌, ◌^◌, String, ◌≡◌, refl, inl, inr, Option, none, some, List, [], ◌∷◌, arith, ok,
  Result-cases,
}
use chief_opportunity_intell.Scoring.Weights.{
  override_all, Merged, with_override, fill, total_of, to_weight, quantised_of, finish, post_init,
  read_weights, heaviest, put_at, build, absorb, settle_at, units,
}
use chief_opportunity_intell.Prelude.Dict.{Dict}
use chief_opportunity_intell.Decimal.{dec, Decimal}
use chief_opportunity_intell.Scoring.Dimensions.{
  number, dimension_value, benefit_dimensions, Factor, Dimension,
}
use chief_opportunity_intell.Scoring.Engine.{Weights, value_at}

units-put_at :
    (items : List (Dimension × Decimal)) (d : Dimension) (w v : Decimal)
    → value_at items d ≡ some w
    → units (put_at items d v) + w.coeff ≡ units items + v.coeff
unfolding units put_at value_at
units-put_at [] d w v h = ground arith
units-put_at ((e, u) ∷ items) d w v h = ground (arith, units-put_at items d w v)

settle_at-units :
    (found : Option Decimal) (items : List (Dimension × Decimal)) (d : Dimension)
    (benefit : List (Dimension × Decimal))
    → value_at items d ≡ found
    → settle_at found items d ≡ ok benefit
    → units benefit ≡ 10 ^ 8
unfolding settle_at
settle_at-units none items d benefit at h = ground arith
settle_at-units (some w) items d benefit at h =
    ground (arith, units-put_at items d w (dec ((w.coeff + 10 ^ 8) - units items) 8))

absorb-units :
    (items benefit : List (Dimension × Decimal))
    → absorb items ≡ ok benefit
    → units benefit ≡ 10 ^ 8
unfolding absorb
absorb-units [] benefit h = ground arith
absorb-units ((d, w) ∷ items) benefit h =
    settle_at-units _ ((d, w) ∷ items) (heaviest d w items) benefit refl h

post_init-kept : (v w : Weights) → post_init v ≡ ok w → v ≡ w
unfolding post_init
post_init-kept v w h = ground arith

finish-units :
    (version : String) (quantised : List (Dimension × Decimal)) (effort_raw risk_raw : Factor)
    (w : Weights)
    → finish version quantised effort_raw risk_raw ≡ ok w
    → units w.benefit ≡ 10 ^ 8
unfolding finish
finish-units version quantised effort_raw risk_raw w h = elim (Result-cases (absorb quantised)) [
  | inl (e, refused) ↦ ground arith
  | inr (b, settled) ↦
      let sum = absorb-units quantised b settled in
      elim (Result-cases (to_weight effort_raw "effort")) [
        | inl (e, refused) ↦ ground arith
        | inr (x, read) ↦ elim (Result-cases (to_weight risk_raw "risk")) [
          | inl (e, refused) ↦ ground arith
          | inr (y, read_too) ↦
              let kept =
                post_init-kept (record { version = version; benefit = b; effort = x; risk = y })
                  w in
              ground arith
        ]
      ]
]

-- Where `build` returns a vector, its benefit weights, read in units of 10^-8, sum to exactly one.
pub build-units :
    (version : String) (benefit : Dict Factor) (effort_raw risk_raw : Factor) (w : Weights)
    → build version benefit effort_raw risk_raw ≡ ok w
    → units w.benefit ≡ 10 ^ 8
unfolding build
build-units version benefit effort_raw risk_raw w h =
    elim (Result-cases (read_weights [] benefit)) [
      | inl (e, refused) ↦ ground arith
      | inr (given, read) ↦ ground (
        arith,
        finish-units version
            (quantised_of (total_of (fill benefit_dimensions given))
              (fill benefit_dimensions given))
            effort_raw risk_raw w,
      )
    ]

-- So do those of a vector that an override changed.
pub with_override-units :
    (self w : Weights) (override : Dict Factor) (version : String)
    → units self.benefit ≡ 10 ^ 8
    → with_override self override version ≡ ok w
    → units w.benefit ≡ 10 ^ 8
unfolding with_override
with_override-units self w [] version sum h = ground arith
with_override-units self w (item ∷ items) version sum h =
    let start : Merged = record {
      weights = map (λ (d, x). (dimension_value d, number x)) self.benefit;
      effort = number self.effort;
      risk = number self.risk;
    } in
    elim (Result-cases (override_all start (item ∷ items))) [
      | inl (e, refused) ↦ ground arith
      | inr (m, merged) ↦ ground (arith, build-units version m.weights m.effort m.risk w)
    ]
