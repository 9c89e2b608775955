-- ===== src/Investigation/Tests.antt =====
-- Tests and instances for the investigation graph.
use chief_opportunity_intell.Prelude.{
  ℕ, ◌≤◌, max, ◌≡◌, refl, true, false, none, some, [], ◌∷◌, arith, Result, ok, err, String, ◌⊎◌,
}
use chief_opportunity_intell.Investigation.{
  InvestigationState, Env, iteration_limit, ainvoke, run_from, visit, next_node, GraphError,
  graph_recursion, node_raised, Node, default_recursion_limit,
}
use chief_opportunity_intell.Investigation.Stages.{required_stages, has_all}
use chief_opportunity_intell.Investigation.Bounds.{ainvoke-Ended}
use chief_opportunity_intell.Investigation.Complete.{ainvoke-has_all}

-- One candidate, whose claims stay unresolved.
abbrev env : Env ℕ
env = record {
  rows = λ k. 7 ∷ [];
  mentions = λ c. true;
  max_candidates = 5;
  unresolved = λ k c. 1;
  goal_found = true;
  raises = λ n k. none;
}

-- The same graph over an empty database.
abbrev empty_env : Env ℕ
empty_env = record env { rows = λ k. [] }

abbrev initial : InvestigationState ℕ
initial = record {
  candidates = [];
  iterations = 0;
  unresolved_high_impact_claims = 0;
  needs_new_sources = false;
  budget = record { max_iterations = none; remaining_usd = some 1 };
  errors = [];
  events = [];
}

abbrev result_of : Result GraphError (InvestigationState ℕ) → InvestigationState ℕ
result_of (err e) = initial
result_of (ok s) = s

-- Three replans by default: the first and the third look for new sources.
three_iterations : (result_of (ainvoke env 24 initial)).iterations ≡ 3
unfolding ainvoke run_from visit next_node
three_iterations = refl

-- Three replans take 24 visits, which the default limit allows; the 27 of four replans are more.
abbrev patient : InvestigationState ℕ
patient = record initial { budget = record { max_iterations = some 4; remaining_usd = some 1 } }

four_iterations : ainvoke env default_recursion_limit patient ≡ err graph_recursion
unfolding ainvoke run_from visit next_node
four_iterations = refl

ainvoke-Ended_example :
    ((s' : InvestigationState ℕ) × (ainvoke env default_recursion_limit initial ≡ ok s')
      × (s'.iterations ≤ max (iteration_limit initial) 0)
      × (s'.budget ≡ initial.budget))
    ⊎ ((n : Node) × (k : ℕ) × (e : String) × (env.raises n k ≡ some e)
        × (ainvoke env default_recursion_limit initial ≡ err (node_raised e)))
ainvoke-Ended_example = ainvoke-Ended env default_recursion_limit initial (omega arith)

ainvoke-has_all_example :
    has_all required_stages (result_of (ainvoke empty_env 20 initial)).events ≡ false
unfolding ainvoke run_from visit next_node
ainvoke-has_all_example =
    ainvoke-has_all empty_env 20 initial (result_of (ainvoke empty_env 20 initial)) refl refl
