-- ===== src/Runs/Ends.antt =====
-- How a background run ends.
use chief_opportunity_intell.Prelude.{
  ◌≡◌, ◌⊎◌, Bool, true, false, not, ◌&&◌, Option, none, some, List, [], ◌∷◌, Result, ok, err,
}
use chief_opportunity_intell.Runs.{
  Background, AgentRun, Course, AgentRunStatus, Raised, exception, base_exception,
}

-- The statuses that a run does not leave.
unfoldable pub is_over : AgentRunStatus → Bool
is_over AgentRunStatus.succeeded = true
is_over AgentRunStatus.failed = true
is_over AgentRunStatus.cancelled = true
is_over _ = false

-- The status of the last `done` event.
unfoldable pub last_done : List AgentRunStatus → Option AgentRunStatus
last_done [] = none
last_done (s ∷ []) = some s
last_done (s ∷ t ∷ done) = last_done (t ∷ done)

-- Nothing is raised, or an `Exception` that leaves the session usable.
unfoldable pub is_harmless : {A : Type 0} → Result Raised A → Bool
is_harmless (ok _) = true
is_harmless (err (exception text has_failed)) = not has_failed
is_harmless (err (base_exception text)) = false

unfoldable pub is_ok : {A : Type 0} → Result Raised A → Bool
is_ok (ok _) = true
is_ok (err e) = false

module _ {J : Type 0} where
  abbrev pub is_calm : Course J → Bool
  is_calm c =
      is_harmless c.graph
      && is_harmless c.stored
      && is_harmless c.audit
      && is_ok c.flush
      && is_ok c.commit

  -- Before the last commit: the row in the session is over and the last event says so, or something
  -- escapes; the database has not changed.
  abbrev IsPaused : Course J → AgentRun J → Background J → Type 0
  IsPaused c start b =
      (b.saved ≡ start)
      × (((b.escaped ≡ none)
            × (is_over b.run.status ≡ true)
            × (b.run.finished_at ≡ some c.ended)
            × (last_done b.done ≡ some b.run.status))
          ⊎ ((e : Raised) × (b.escaped ≡ some e) × (is_calm c ≡ false)))

  -- The stream of events is closed, and either nothing escapes, and the database's row is over and
  -- the last event says so, or something does, and the database holds the row of the start.
  abbrev pub IsEnded : Course J → AgentRun J → Background J → Type 0
  IsEnded c start b =
      (b.is_closed ≡ true)
      × (((b.escaped ≡ none)
            × (is_over b.saved.status ≡ true)
            × (b.saved.finished_at ≡ some c.ended)
            × (last_done b.done ≡ some b.saved.status))
          ⊎ ((e : Raised) × (b.escaped ≡ some e) × (b.saved ≡ start) × (is_calm c ≡ false)))
