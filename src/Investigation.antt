-- ===== src/Investigation.antt =====
-- backend/app/agents/{graph,routing,nodes,state}.py: the investigation graph. A state holds what
-- routing and the trace read; the agents' answers, the database's rows and the goal lookup are the
-- environment `Env`. A node's visit is told from its other visits by the number of replans so far,
-- which no two visits of `discover` or of `verify` share.
pub mod Bounds
pub mod Stages
pub mod Complete
mod Tests
use chief_opportunity_intell.Prelude.{
  ℕ, zero, suc, ◌+◌, ◌-◌, ◌/◌, ◌%◌, String, Bool, true, false, not, ◌&&◌, Option, none, some, List,
  [], ◌∷◌, ◌++◌, ltb, ◌==◌, if◌then◌else◌, take, select, Result, ok, err,
}

pub data Node : Type 0 where
  understand load_context plan discover triage evaluate verify replan score contrarian decide : Node
  report : Node

-- `state["budget"]`, with missing keys as `none`.
pub record Budget : Type 0 where
  pub max_iterations : Option ℕ
  pub remaining_usd : Option ℕ

-- `events` are the stages of the events that the nodes return, in order.
pub record InvestigationState (C : Type 0) : Type 0 where
  pub candidates : List C
  pub iterations : ℕ
  pub unresolved_high_impact_claims : ℕ
  pub needs_new_sources : Bool
  pub budget : Budget
  pub errors : List String
  pub events : List Node

-- `rows k` is what the query of `discover` returns after `k` replans, `mentions` whether a row's
-- text holds one of the objective's keywords (or there are none), `unresolved k c` the verification
-- agent's count for a candidate, and `raises n k` what a node raises when it is visited after `k`
-- replans.
pub record Env (C : Type 0) : Type 0 where
  pub rows : ℕ → List C
  pub mentions : C → Bool
  pub max_candidates : ℕ
  pub unresolved : ℕ → C → ℕ
  pub goal_found : Bool
  pub raises : Node → ℕ → Option String

abbrev pub or_default : Option ℕ → ℕ → ℕ
or_default none n = n
or_default (some m) n = m

abbrev pub is_nonempty {ℓ} : {A : Type ℓ} → List A → Bool
is_nonempty [] = false
is_nonempty (_ ∷ _) = true

-- `int(budget.get("max_iterations", 3))`
abbrev pub iteration_limit : {C : Type 0} → InvestigationState C → ℕ
iteration_limit s = or_default s.budget.max_iterations 3

unfoldable pub route_after_triage : {C : Type 0} → InvestigationState C → Node
route_after_triage s = if is_nonempty s.candidates then evaluate else report

unfoldable pub route_after_verify : {C : Type 0} → InvestigationState C → Node
route_after_verify s =
    if ltb 0 s.unresolved_high_impact_claims
      && ltb s.iterations (iteration_limit s)
      && ltb 0 (or_default s.budget.remaining_usd 0)
    then replan
    else score

unfoldable pub route_after_replan : {C : Type 0} → InvestigationState C → Node
route_after_replan s = if s.needs_new_sources then discover else evaluate

module _ {C : Type 0} (env : Env C) where
  -- The filter of `discover_node`, with its fall-back to all rows, and the plan's limit.
  unfoldable pub discovered : List C → List C
  discovered rows =
      let filtered = select env.mentions rows in
      take env.max_candidates (if is_nonempty filtered then filtered else rows)

  -- The loop of `verify_node` over the candidates.
  unfoldable pub unresolved_total : ℕ → List C → ℕ
  unresolved_total k [] = 0
  unresolved_total k (c ∷ cs) = env.unresolved k c + unresolved_total k cs

  abbrev pub logged : Node → InvestigationState C → InvestigationState C
  logged n s = record s { events = s.events ++ n ∷ [] }

  -- What a node returns, merged into the state. `plan.model_dump()` has no `needs_new_sources`.
  unfoldable pub visit : Node → InvestigationState C → InvestigationState C
  unfolding discovered unresolved_total
  visit plan s = logged plan (record s { needs_new_sources = false })
  visit discover s = logged discover (record s { candidates = discovered (env.rows s.iterations) })
  visit verify s =
      logged verify
        (record s { unresolved_high_impact_claims = unresolved_total s.iterations s.candidates })
  visit replan s = logged replan (record s {
    iterations = s.iterations + 1;
    needs_new_sources = (s.iterations + 1) % 2 == 1;
    unresolved_high_impact_claims = 0;
  })
  visit score s =
      if env.goal_found
      then logged score s
      else record s { errors = s.errors ++ "Goal not found" ∷ [] }
  visit n s = logged n s

-- The edges of `build_investigation_graph`; `none` is END.
unfoldable pub next_node : {C : Type 0} → Node → InvestigationState C → Option Node
unfolding route_after_triage route_after_verify route_after_replan
next_node understand s = some load_context
next_node load_context s = some plan
next_node plan s = some discover
next_node discover s = some triage
next_node triage s = some (route_after_triage s)
next_node evaluate s = some verify
next_node verify s = some (route_after_verify s)
next_node replan s = some (route_after_replan s)
next_node score s = some contrarian
next_node contrarian s = some decide
next_node decide s = some report
next_node report s = none

-- What a call of the compiled graph raises: LangGraph's `GraphRecursionError`, or what a node raised.
pub data GraphError : Type 0 where
  graph_recursion : GraphError
  node_raised : String → GraphError

module _ {C : Type 0} (env : Env C) where
  -- The compiled graph from a node on: LangGraph stops it when `recursion_limit` visits do not end it.
  unfoldable pub run_from :
      ℕ → Node → InvestigationState C → Result GraphError (InvestigationState C)
  run_from zero n s = err graph_recursion
  run_from (suc limit) n s = elim (env.raises n s.iterations) [
    | some e ↦ err (node_raised e)
    | none ↦
        let s' = visit env n s in
        elim (next_node n s') [ none ↦ ok s' | some m ↦ run_from limit m s' ]
  ]

  unfoldable pub ainvoke : ℕ → InvestigationState C → Result GraphError (InvestigationState C)
  ainvoke recursion_limit s = run_from recursion_limit understand s

-- The limit of LangGraph where the call's `config` names none.
abbrev pub default_recursion_limit : ℕ
default_recursion_limit = 25
