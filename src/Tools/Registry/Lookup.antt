-- ===== src/Tools/Registry/Lookup.antt =====
-- A registry holds every tool it was built from, under its own name.
use chief_opportunity_intell.Prelude.{
  suc, ◌+◌, ◌≤◌, String, ◌≡◌, refl, ap, ◌⊎◌, inl, inr, none, some, List, [], ◌∷◌, arith, str_eq,
  eq_iff, Bool-cases, length, All, ok,
}
use chief_opportunity_intell.Prelude.Dict
use chief_opportunity_intell.Prelude.Dict.{Dict, get-put, get-put_self}
use chief_opportunity_intell.Tools.Types.{BaseTool}
use chief_opportunity_intell.Tools.Registry.{by_name, from_instances, find}

module _ {ℓ} {V : Type ℓ} where
  length-put :
      (d : Dict V) (k : String) (v : V)
      → (length (Dict.put d k v) ≤ length d + 1)
        × (Dict.get d k ≡ none ⊎ (length (Dict.put d k v) ≡ length d))
  unfolding Dict.put Dict.get
  length-put [] k v = (omega arith, inl refl)
  length-put ((j, w) ∷ d) k v = elim (Bool-cases (str_eq j k)) [
    | inl e ↦ rw e (omega arith, inr refl)
    | inr e ↦ rw e (
      omega (arith, (length-put d k v).0),
      elim (length-put d k v).1 [ inl f ↦ inl f | inr f ↦ inr (ap suc f) ],
    )
  ]

module _ {A V P : Type 0} where
  length-by_name :
      (d : Dict (BaseTool A V P)) (ts : List (BaseTool A V P))
      → length (by_name d ts) ≤ length d + length ts
  unfolding by_name
  length-by_name d [] = omega arith
  length-by_name d (t ∷ ts) =
      omega (arith, length-by_name (Dict.put d t.name t) ts, (length-put d t.name t).0)

  -- No name came twice, so what was in the dictionary is still there at the end.
  get-by_name :
      (d : Dict (BaseTool A V P)) (ts : List (BaseTool A V P)) (k : String) (x : BaseTool A V P)
      → length (by_name d ts) ≡ length d + length ts
      → Dict.get d k ≡ some x
      → Dict.get (by_name d ts) k ≡ some x
  unfolding by_name
  get-by_name d [] k x len h = h
  get-by_name d (t ∷ ts) k x len h = elim (length-put d t.name t).1 [
    | inl fresh ↦
        get-by_name (Dict.put d t.name t) ts k x
          (omega (arith, length-by_name (Dict.put d t.name t) ts, (length-put d t.name t).0))
          (ground (arith, get-put d t.name k t, eq_iff t.name k))
    | inr old ↦ absurd (omega (arith, length-by_name (Dict.put d t.name t) ts, old))
  ]

  find-All :
      (d : Dict (BaseTool A V P)) (ts : List (BaseTool A V P))
      → length (by_name d ts) ≡ length d + length ts
      → All (λ t. Dict.get (by_name d ts) t.name ≡ some t) ts
  unfolding by_name
  find-All d [] len = tt
  find-All d (t ∷ ts) len = elim (length-put d t.name t).1 [
    | inl fresh ↦
        let len' : length (by_name (Dict.put d t.name t) ts)
            ≡ length (Dict.put d t.name t) + length ts =
          omega (arith, length-by_name (Dict.put d t.name t) ts, (length-put d t.name t).0) in
        (
          get-by_name (Dict.put d t.name t) ts t.name t len' (get-put_self d t.name t),
          find-All (Dict.put d t.name t) ts len',
        )
    | inr old ↦ absurd (omega (arith, length-by_name (Dict.put d t.name t) ts, old))
  ]

  find_lem :
      (tools : Dict (BaseTool A V P)) (ts : List (BaseTool A V P))
      → All (λ t. Dict.get tools t.name ≡ some t) ts
      → All (λ t. find tools t.name ≡ ok t) ts
  unfolding find
  find_lem tools [] h = tt
  find_lem tools (t ∷ ts) h = (ground (arith, h.0), find_lem tools ts h.1)

  -- When a registry can be built from a list of tools, `get` returns each of them under its name.
  pub find-from_instances :
      (ts : List (BaseTool A V P)) {tools : Dict (BaseTool A V P)}
      → from_instances ts ≡ ok tools
      → All (λ t. find tools t.name ≡ ok t) ts
  unfolding from_instances find
  find-from_instances ts {tools} h =
      let count : length (by_name [] ts) ≡ length {A = String × BaseTool A V P} [] + length ts =
        ground arith in
      let built : by_name [] ts ≡ tools = ground arith in
      find_lem tools ts (rw built at (find-All [] ts count))
