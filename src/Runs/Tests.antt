-- ===== src/Runs/Tests.antt =====
-- Worked examples of runs and tasks. JSON values are texts here.
use chief_opportunity_intell.Prelude.{
  String, ◌≡◌, refl, false, true, Option, none, some, [], ◌∷◌, Result, ok, err,
}
use chief_opportunity_intell.Runs.{
  close, mark_succeeded, after_graph, catch, after_result, run_graph, run_unless, exception, Raised,
  mark_running, create_run, AgentRunStatus, AgentRun, Course, run_background,
}
use chief_opportunity_intell.Runs.Earned.{run_background-IsEarned, IsEarned}

abbrev pending_run : AgentRun String
pending_run = create_run 1 7 2 "Find a grant" none

-- What the graph and the audit do; all else goes well.
abbrev course : Result Raised String → Result Raised (Unit {0}) → Course String
course graph audit = record {
  is_cancelled = false;
  cancelling = ok tt;
  graph = graph;
  stored = ok tt;
  audit = audit;
  flush = ok tt;
  commit = ok tt;
  started = 10;
  ended = 25;
}

abbrev lost : Course String
lost = course (err (exception "value too long" true)) (ok tt)

-- A node's failed flush leaves the run as running in the database, without an event.
stays_running :
    ((run_background lost pending_run).saved.status ≡ AgentRunStatus.running)
    × ((run_background lost pending_run).done ≡ [])
unfolding run_background run_unless run_graph catch mark_running
stays_running = (refl, refl)

-- An audit that raises turns the stored success into a failure, after both were reported.
fails_late :
    (run_background (course (ok "report") (err (exception "no rows" false))) pending_run).done
    ≡ AgentRunStatus.succeeded ∷ AgentRunStatus.failed ∷ []
unfolding run_background run_unless run_graph after_result after_graph catch
fails_late = refl

abbrev smooth : Course String
smooth = course (ok "report") (ok tt)

smooth-succeeded : (run_background smooth pending_run).saved.status ≡ AgentRunStatus.succeeded
unfolding run_background run_unless run_graph after_result after_graph mark_succeeded close
smooth-succeeded = refl

run_background-IsEarned_example :
    (false ≡ false) × IsEarned smooth (ok "report") (run_background smooth pending_run)
run_background-IsEarned_example = run_background-IsEarned smooth pending_run smooth-succeeded

abbrev plan_output : Option String
plan_output = some "plan"
