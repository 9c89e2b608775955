-- ===== src/Investigation/Complete.antt =====
-- Which stages a finished investigation has gone through, against those that the audit asks for.
use mathlib.Core.Path.{subst}
use chief_opportunity_intell.Prelude.{
  ℕ, zero, suc, ◌≤◌, ◌<◌, ◌≡◌, refl, sym, ◌≢◌, ◌⊎◌, inl, inr, true, false, ◌&&◌, none, some, [],
  ◌∷◌, ◌++◌, arith, Bool-cases, Option-cases, ok, ok-same, refused_ok,
}
use chief_opportunity_intell.Investigation.{
  Node, understand, replan, score, report, InvestigationState, Env, is_nonempty, visit, next_node,
  run_from, ainvoke, graph_recursion, node_raised,
}
use chief_opportunity_intell.Investigation.Stages.{
  rank, seen, required_stages, has_all, seen_later, seen_last, unseen, has_all-true,
  has_all_unscored,
}

module _ {C : Type 0} (env : Env C) where
  -- Whether the visit of a node logs its stage.
  abbrev Logs : Node → Type 0
  Logs m = (m ≢ score) ⊎ (env.goal_found ≡ true)

  -- Whether the way to this node came through evaluation and scoring, should it be the report.
  abbrev Live : Node → InvestigationState C → Type 0
  Live n s = (rank n ≤ 10) ⊎ (is_nonempty s.candidates ≡ true)

  -- What is known of a state before a node is visited.
  record Before (n : Node) (s : InvestigationState C) : Type 0 where
    past : (k : Node) → rank k < rank n → Live n s → k ≢ replan → Logs k → seen k s.events ≡ true
    some_candidates : 4 < rank n → rank n ≤ 10 → is_nonempty s.candidates ≡ true
    unscored : (rank n ≤ 8) ⊎ (is_nonempty s.candidates ≡ false) → seen score s.events ≡ false
    goalless : env.goal_found ≡ false → seen score s.events ≡ false

  visit-events :
      (n : Node) (s : InvestigationState C) → Logs n → (visit env n s).events ≡ s.events ++ n ∷ []
  unfolding visit
  visit-events n s h = ground arith

  unlogged-events :
      (s : InvestigationState C) → env.goal_found ≡ false → (visit env score s).events ≡ s.events
  unfolding visit
  unlogged-events s h = ground arith

  seen-visit :
      (k n : Node) (s : InvestigationState C)
      → seen k s.events ≡ true
      → seen k (visit env n s).events ≡ true
  unfolding visit
  seen-visit k n s h = ground (arith, seen_later k n s.events h)

  seen-visit_self :
      (n : Node) (s : InvestigationState C) → Logs n → seen n (visit env n s).events ≡ true
  seen-visit_self n s h = rw (visit-events n s h) (seen_last n s.events)

  unseen-visit :
      (n : Node) (s : InvestigationState C)
      → n ≢ score
      → seen score s.events ≡ false
      → seen score (visit env n s).events ≡ false
  unseen-visit n s ne h = rw (visit-events n s (inl ne)) (unseen n s.events ne h)

  edge-past :
      (n m k : Node) (s : InvestigationState C)
      → next_node n (visit env n s) ≡ some m
      → rank k < rank m
      → Live m (visit env n s)
      → k ≢ replan
      → (rank k < rank n) ⊎ (k ≡ n)
  unfolding next_node
  edge-past n m k s e lt live ne = ground arith

  edge-live :
      (n m : Node) (s : InvestigationState C) → next_node n (visit env n s) ≡ some m → rank n ≤ 10
  unfolding next_node
  edge-live n m s e = ground arith

  edge-candidates :
      (n m : Node) (s : InvestigationState C)
      → next_node n (visit env n s) ≡ some m
      → (4 < rank n → rank n ≤ 10 → is_nonempty s.candidates ≡ true)
      → 4 < rank m
      → rank m ≤ 10
      → is_nonempty (visit env n s).candidates ≡ true
  unfolding next_node visit
  edge-candidates n m s e had lt le = ground arith

  edge-unscored :
      (n m : Node) (s : InvestigationState C)
      → next_node n (visit env n s) ≡ some m
      → (4 < rank n → rank n ≤ 10 → is_nonempty s.candidates ≡ true)
      → (rank m ≤ 8) ⊎ (is_nonempty (visit env n s).candidates ≡ false)
      → rank n ≤ 7
  unfolding next_node visit
  edge-unscored n m s e had h = ground arith

  goalless-visit :
      (n : Node) (s : InvestigationState C)
      → env.goal_found ≡ false
      → seen score s.events ≡ false
      → seen score (visit env n s).events ≡ false
  goalless-visit score s missing h = rw (unlogged-events s missing) h
  goalless-visit n s missing h = unseen-visit n s (λ e. ground arith) h

  step-Before :
      (n m : Node) (s : InvestigationState C)
      → next_node n (visit env n s) ≡ some m
      → Before n s
      → Before m (visit env n s)
  step-Before n m s e b = record {
    past = λ k lt live ne logs. elim (edge-past n m k s e lt live ne) [
      | inl earlier ↦ seen-visit k n s (b.past k earlier (inl (edge-live n m s e)) ne logs)
      | inr same ↦
          subst (λ j. Logs j → seen j (visit env n s).events ≡ true) (sym same)
            (seen-visit_self n s) logs
    ];
    some_candidates = edge-candidates n m s e b.some_candidates;
    unscored = λ h.
        let early = edge-unscored n m s e b.some_candidates h in
        unseen-visit n s (early_ne n early) (b.unscored (inl (omega (arith, early))));
    goalless = λ missing. goalless-visit n s missing (b.goalless missing);
  }
    where
      early_ne : (n : Node) → rank n ≤ 7 → n ≢ score
      early_ne n le eq = ground arith

  -- Every stage that the audit asks for has been seen at the end, or scoring has not.
  abbrev Finished : InvestigationState C → Type 0
  Finished s =
      (is_nonempty s.candidates ≡ true
        → env.goal_found ≡ true
        → (k : Node) → k ≢ replan
        → seen k s.events ≡ true)
      × ((is_nonempty s.candidates ≡ false) ⊎ (env.goal_found ≡ false)
          → seen score s.events ≡ false)

  last_or_earlier : (k : Node) → (rank k < 11) ⊎ (k ≡ report)
  last_or_earlier k = ground arith

  only_report_ends :
      (n : Node) (s : InvestigationState C) → next_node n (visit env n s) ≡ none → n ≡ report
  unfolding next_node
  only_report_ends n s e = ground arith

  report-Finished : (s : InvestigationState C) → Before report s → Finished (visit env report s)
  unfolding visit
  report-Finished s b = (
    λ live goal k ne. elim (last_or_earlier k) [
      | inl earlier ↦ seen-visit k report s (b.past k earlier (inr live) ne (inr goal))
      | inr last ↦ rw last (seen-visit_self report s (inr goal))
    ],
    λ h.
        unseen-visit report s (λ e. ground arith)
          (elim h [ inl empty ↦ b.unscored (inr empty) | inr missing ↦ b.goalless missing ]),
  )

  run_from-Finished :
      (limit : ℕ) (n : Node) (s s' : InvestigationState C)
      → Before n s
      → run_from env limit n s ≡ ok s'
      → Finished s'
  unfolding run_from
  run_from-Finished zero n s s' b e = absurd (refused_ok graph_recursion s' e)
  run_from-Finished (suc limit) n s s' b e = elim (Option-cases (env.raises n s.iterations)) [
    | inr (text, raised) ↦ absurd (refused_ok (node_raised text) s' (rw (raised, run_from) at e))
    | inl quiet ↦ elim (Option-cases (next_node n (visit env n s))) [
      | inl stop ↦
          let at_report = only_report_ends n s stop in
          let ended = ok-same (visit env n s) s' (rw (quiet, stop, run_from) at e) in
          subst Finished ended (rw at_report (report-Finished s (rw at_report at b)))
      | inr (m, go) ↦
          run_from-Finished limit m (visit env n s) s' (step-Before n m s go b)
            (rw (quiet, go, run_from) at e)
    ]
  ]

  start-Before : (s : InvestigationState C) → s.events ≡ [] → Before understand s
  unfolding seen
  start-Before s fresh = record {
    past = λ k lt live ne logs. absurd (omega arith);
    some_candidates = λ lt le. absurd (omega arith);
    unscored = λ h. rw fresh refl;
    goalless = λ h. rw fresh refl;
  }

  -- The stage part of the trace audit passes for a finished investigation exactly when candidates
  -- were left and the goal was found. So a run that finds no candidates, which routing sends from
  -- triage straight to the report, succeeds and is still audited as incomplete.
  pub ainvoke-has_all :
      (recursion_limit : ℕ) (s s' : InvestigationState C)
      → s.events ≡ []
      → ainvoke env recursion_limit s ≡ ok s'
      → has_all required_stages s'.events ≡ (is_nonempty s'.candidates && env.goal_found)
  unfolding ainvoke
  ainvoke-has_all recursion_limit s s' fresh e =
      let f = run_from-Finished recursion_limit understand s s' (start-Before s fresh) e in
      elim (Bool-cases (is_nonempty s'.candidates && env.goal_found)) [
        | inl both ↦
            rw both (has_all-true s'.events (λ k ne. f.0 (ground arith) (ground arith) k ne))
        | inr missing ↦ rw missing (has_all_unscored s'.events (f.1 (ground arith)))
      ]
