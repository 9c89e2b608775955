-- ===== src/Investigation/Bounds.antt =====
-- How many visits the graph takes, and that its loop is bounded by the iterations alone.
use chief_opportunity_intell.Prelude.{
  zero, ◌∙◌, ap, inr, inl, Option-cases, none, ℕ, suc, ◌+◌, ◌-◌, ◌*◌, ◌≤◌, ◌<◌, max, ◌≡◌, refl,
  some, arith, Result, ok, err, String, ◌⊎◌, ◌/◌, ◌%◌,
}
use chief_opportunity_intell.Investigation.{
  ainvoke, or_default, run_from, Node, understand, load_context, plan, discover, triage, evaluate,
  verify, replan, score, contrarian, decide, report, InvestigationState, Env, iteration_limit,
  visit, next_node, GraphError, node_raised,
}

-- The visits of the replans to come, when `limit` iterations are allowed and `i` are made: three
-- for each, and two more for each that looks for new sources, which are those with an odd number.
abbrev pub replan_visits : ℕ → ℕ → ℕ
replan_visits limit i = 3 * (limit - i) + 2 * ((limit + 1) / 2 - (i + 1) / 2)

-- How many visits are left at most, from a node on: those of the replans, and the way to the report.
abbrev pub visits_left : Node → ℕ → ℕ → ℕ
visits_left understand limit i = 11 + replan_visits limit i
visits_left load_context limit i = 10 + replan_visits limit i
visits_left plan limit i = 9 + replan_visits limit i
visits_left discover limit i = 8 + replan_visits limit i
visits_left triage limit i = 7 + replan_visits limit i
visits_left evaluate limit i = 6 + replan_visits limit i
visits_left verify limit i = 5 + replan_visits limit i
visits_left replan limit i = 7 + 2 * ((i + 1) % 2) + replan_visits limit (i + 1)
visits_left score limit i = 4
visits_left contrarian limit i = 3
visits_left decide limit i = 2
visits_left report limit i = 1

visits_left-pos : (n : Node) (limit i : ℕ) → 1 ≤ visits_left n limit i
visits_left-pos report limit i = omega arith
visits_left-pos _ limit i = omega arith

-- No more replans than the limit allows, or than were made before the start.
abbrev pub Within : ℕ → Node → ℕ → ℕ → Type 0
Within start replan limit i = i < limit
Within start _ limit i = i ≤ max limit start

module _ {C : Type 0} (env : Env C) where
  visit-budget : (n : Node) (s : InvestigationState C) → (visit env n s).budget ≡ s.budget
  unfolding visit
  visit-budget score s = ground arith
  visit-budget plan s = refl
  visit-budget discover s = refl
  visit-budget verify s = refl
  visit-budget replan s = refl
  visit-budget _ s = refl

  step_bounded :
      (n m : Node) (s : InvestigationState C)
      → next_node n (visit env n s) ≡ some m
      → suc (visits_left m (iteration_limit s) (visit env n s).iterations)
        ≤ visits_left n (iteration_limit s) s.iterations
  unfolding visit next_node
  step_bounded n m s e = ground arith

  step-Within :
      (start : ℕ) (n m : Node) (s : InvestigationState C)
      → next_node n (visit env n s) ≡ some m
      → Within start n (iteration_limit s) s.iterations
      → Within start m (iteration_limit s) (visit env n s).iterations
  unfolding visit next_node
  step-Within start n m s e w = ground arith

  -- What a run from a node leaves, when its limit is not reached: a final state, or what one of its
  -- nodes raised.
  abbrev Ended : ℕ → Result GraphError (InvestigationState C) → InvestigationState C → Type 0
  Ended start outcome s =
      ((s' : InvestigationState C) × (outcome ≡ ok s')
        × (s'.iterations ≤ max (iteration_limit s) start)
        × (s'.budget ≡ s.budget))
      ⊎ ((n : Node) × (k : ℕ) × (e : String) × (env.raises n k ≡ some e)
          × (outcome ≡ err (node_raised e)))

  last_iterations :
      (start : ℕ) (n : Node) (s : InvestigationState C)
      → next_node n (visit env n s) ≡ none
      → Within start n (iteration_limit s) s.iterations
      → (visit env n s).iterations ≤ max (iteration_limit s) start
  unfolding visit next_node
  last_iterations start n s e w = ground arith

  moved_on :
      (start : ℕ) (outcome : Result GraphError (InvestigationState C)) (n : Node)
      (s : InvestigationState C)
      → Ended start outcome (visit env n s)
      → Ended start outcome s
  moved_on start outcome n s (inr raised) = inr raised
  moved_on start outcome n s (inl (s', ran, bound, budget)) =
      let same : iteration_limit (visit env n s) ≡ iteration_limit s =
        ap (λ b. or_default b.max_iterations 3) (visit-budget n s) in
      inl (s', ran, rw same at bound, budget ∙ visit-budget n s)

  run_from-Ended :
      (start fuel : ℕ) (n : Node) (s : InvestigationState C)
      → visits_left n (iteration_limit s) s.iterations ≤ fuel
      → Within start n (iteration_limit s) s.iterations
      → Ended start (run_from env fuel n s) s
  unfolding run_from
  run_from-Ended start zero n s enough w =
      absurd (omega (arith, visits_left-pos n (iteration_limit s) s.iterations))
  run_from-Ended start (suc fuel) n s enough w = elim (Option-cases (env.raises n s.iterations)) [
    | inr (e, raised) ↦ rw (raised, run_from) (inr (n, s.iterations, e, raised, refl))
    | inl quiet ↦ elim (Option-cases (next_node n (visit env n s))) [
      | inl stop ↦
          rw (quiet, stop, run_from)
            (inl (visit env n s, refl, last_iterations start n s stop w, visit-budget n s))
      | inr (m, go) ↦
          let same : iteration_limit (visit env n s) ≡ iteration_limit s =
            ap (λ b. or_default b.max_iterations 3) (visit-budget n s) in
          rw (quiet, go, run_from)
            (moved_on start (run_from env fuel m (visit env n s)) n s (
              run_from-Ended start fuel m (visit env n s)
                (rw same (omega (arith, step_bounded n m s go)))
                (rw same (step-Within start n m s go w))))
    ]
  ]

  -- An investigation ends where the recursion limit is at least 11 visits, three more for each
  -- iteration that is allowed and not yet made, and two more for each of these with an odd number:
  -- then the graph comes to its report, or raises what one of its nodes raised, and is not stopped by
  -- the limit. At the report it has made no more iterations than allowed (or than it began with), and
  -- the budget that routing reads is the one it began with: no node takes from `remaining_usd`, so
  -- that test never ends the loop.
  pub ainvoke-Ended :
      (recursion_limit : ℕ) (s : InvestigationState C)
      → 11
          + 3 * (iteration_limit s - s.iterations)
          + 2 * ((iteration_limit s + 1) / 2 - (s.iterations + 1) / 2)
        ≤ recursion_limit
      → ((s' : InvestigationState C) × (ainvoke env recursion_limit s ≡ ok s')
          × (s'.iterations ≤ max (iteration_limit s) s.iterations)
          × (s'.budget ≡ s.budget))
        ⊎ ((n : Node) × (k : ℕ) × (e : String) × (env.raises n k ≡ some e)
            × (ainvoke env recursion_limit s ≡ err (node_raised e)))
  unfolding ainvoke
  ainvoke-Ended recursion_limit s enough =
      run_from-Ended s.iterations recursion_limit understand s (omega arith) (omega arith)
