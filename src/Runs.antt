-- ===== src/Runs.antt =====
-- backend/app/services/agent_run_service.py, the rows of runs and tasks, and
-- backend/app/services/investigation_service.py, which runs an investigation in the background. The
-- clock and fresh ids are in the store; moments are in milliseconds of a clock that does not go
-- back. What the graph, the audit and the caller's cancellation do is given to the run.
pub mod Ends
pub mod Earned
pub mod Tasks
mod Tests
use chief_opportunity_intell.Prelude.{
  ℕ, ◌+◌, ◌-◌, ◌/◌, String, Bool, true, false, not, ◌&&◌, Option, none, some, List, [], ◌∷◌, ◌++◌,
  ◌==◌, if◌then◌else◌, Result, ok, err,
}

pub data AgentRunStatus : Type 0 where
  pending running awaiting_approval succeeded failed cancelled : AgentRunStatus

pub data AgentTaskStatus : Type 0 where
  pending running succeeded failed skipped : AgentTaskStatus

-- The budget that a run is stored with.
pub record RunBudget : Type 0 where
  pub max_iterations : ℕ
  pub remaining_micro_usd : ℕ
  pub max_tool_calls_total : ℕ

-- `J` is the type of JSON values.
pub record AgentRun (J : Type 0) : Type 0 where
  pub id : ℕ
  pub user_id : ℕ
  pub goal_id : ℕ
  pub status : AgentRunStatus
  pub objective_text : String
  pub graph_version : String
  pub budget : RunBudget
  pub started_at : Option ℕ
  pub finished_at : Option ℕ
  pub latency_ms : Option ℕ
  pub error : Option String
  pub result : Option J

pub record AgentTask (J : Type 0) : Type 0 where
  pub id : ℕ
  pub agent_run_id : ℕ
  pub agent_name : String
  pub capability : Option String
  pub status : AgentTaskStatus
  pub input : Option J
  pub output : Option J
  pub error : Option String
  pub started_at : Option ℕ
  pub finished_at : Option ℕ
  pub latency_ms : Option ℕ

pub data RunError : Type 0 where
  run_not_found : RunError

-- The budget of `create_run` where none is given.
abbrev pub default_budget : RunBudget
default_budget = record {
  max_iterations = 3;
  remaining_micro_usd = 1000000;
  max_tool_calls_total = 60;
}

-- `finished_at - started_at`, where the start is known.
abbrev pub latency : Option ℕ → ℕ → Option ℕ → Option ℕ
latency none finished old = old
latency (some started) finished old = some (finished - started)

module _ {J : Type 0} where
  unfoldable pub create_run : ℕ → ℕ → ℕ → String → Option RunBudget → AgentRun J
  create_run id user_id goal_id objective budget = record {
    id = id;
    user_id = user_id;
    goal_id = goal_id;
    status = AgentRunStatus.pending;
    objective_text = objective;
    graph_version = "investigation.v1";
    budget = elim budget [ none ↦ default_budget | some b ↦ b ];
    started_at = none;
    finished_at = none;
    latency_ms = none;
    error = none;
    result = none;
  }

  -- `get_run`: another user's run is not found.
  unfoldable pub get_run : List (AgentRun J) → ℕ → ℕ → Result RunError (AgentRun J)
  get_run [] user_id run_id = err run_not_found
  get_run (r ∷ runs) user_id run_id =
      if r.id == run_id && r.user_id == user_id then ok r else get_run runs user_id run_id

  unfoldable pub mark_running : ℕ → AgentRun J → AgentRun J
  mark_running now run = record run { status = AgentRunStatus.running; started_at = some now }

  unfoldable pub mark_succeeded : ℕ → J → AgentRun J → AgentRun J
  mark_succeeded now result run = record run {
    status = AgentRunStatus.succeeded;
    finished_at = some now;
    result = some result;
    latency_ms = latency run.started_at now run.latency_ms;
  }

  unfoldable pub mark_failed : ℕ → String → AgentRun J → AgentRun J
  mark_failed now error run = record run {
    status = AgentRunStatus.failed;
    finished_at = some now;
    error = some error;
  }

  unfoldable pub mark_cancelled : ℕ → AgentRun J → AgentRun J
  mark_cancelled now run = record run { status = AgentRunStatus.cancelled; finished_at = some now }

  unfoldable pub start_task :
      ℕ → ℕ → ℕ → String → Option String → Option J → List (AgentTask J) → List (AgentTask J)
  start_task id now run_id agent_name capability input tasks =
      tasks
      ++ record {
        id = id;
        agent_run_id = run_id;
        agent_name = agent_name;
        capability = capability;
        status = AgentTaskStatus.running;
        input = input;
        output = none;
        error = none;
        started_at = some now;
        finished_at = none;
        latency_ms = none;
      }
        ∷ []

  -- A task as `finish_task` leaves it.
  abbrev pub finished : ℕ → AgentTaskStatus → Option J → Option String → AgentTask J → AgentTask J
  finished now status output error task = record task {
    status = status;
    output = output;
    error = error;
    finished_at = some now;
    latency_ms = latency task.started_at now task.latency_ms;
  }

  -- `session.get` finds the one row with the id; without it nothing is done.
  unfoldable pub finish_task :
      ℕ → ℕ → AgentTaskStatus → Option J → Option String → List (AgentTask J) → List (AgentTask J)
  finish_task now task_id status output error [] = []
  finish_task now task_id status output error (t ∷ tasks) =
      if t.id == task_id
      then finished now status output error t ∷ tasks
      else t ∷ finish_task now task_id status output error tasks

-- What a statement raises: an `Exception`, with its text and whether it leaves the session in a
-- transaction that has failed, or a `BaseException` such as `CancelledError`.
pub data Raised : Type 0 where
  exception : String → Bool → Raised
  base_exception : String → Raised

-- What happens during one background run: whether it was cancelled before the graph starts, and what
-- is raised by the flush and commit of a cancellation, by the graph, by the flush of
-- `mark_succeeded` and the cost report behind it, by the audit and its logging, by the flush of
-- `mark_failed` in a session whose transaction has not failed, and by the last commit.
pub record Course (J : Type 0) : Type 0 where
  pub is_cancelled : Bool
  pub cancelling : Result Raised (Unit {0})
  pub graph : Result Raised J
  pub stored : Result Raised (Unit {0})
  pub audit : Result Raised (Unit {0})
  pub flush : Result Raised (Unit {0})
  pub commit : Result Raised (Unit {0})
  pub started : ℕ
  pub ended : ℕ

-- The row in the session, the row that the database holds, the statuses that the `done` events
-- report, whether the store of events is closed, and what leaves the function.
pub record Background (J : Type 0) : Type 0 where
  pub run : AgentRun J
  pub saved : AgentRun J
  pub done : List AgentRunStatus
  pub is_closed : Bool
  pub escaped : Option Raised

module _ {J : Type 0} where
  -- A flush in a transaction that has failed raises SQLAlchemy's `PendingRollbackError`.
  unfoldable pub flushed : Course J → Bool → Result Raised (Unit {0})
  flushed c true = err (exception "PendingRollbackError" true)
  flushed c false = c.flush

  -- The `except` clause behind the flush of `mark_failed`.
  unfoldable pub report_failure : Result Raised (Unit {0}) → Background J → Background J
  report_failure (ok _) b = record b { done = b.done ++ AgentRunStatus.failed ∷ [] }
  report_failure (err e) b = record b { escaped = some e }

  -- `except Exception`
  unfoldable pub catch : Course J → Raised → Background J → Background J
  unfolding flushed report_failure mark_failed
  catch c (base_exception text) b = record b { escaped = some (base_exception text) }
  catch c (exception text has_failed) b =
      report_failure (flushed c has_failed) (record b { run = mark_failed c.ended text b.run })

  -- The `try` block from the audit on.
  unfoldable pub after_graph : Course J → Result Raised (Unit {0}) → Background J → Background J
  unfolding catch
  after_graph c (ok _) b = b
  after_graph c (err e) b = catch c e b

  -- The `try` block behind the flush of `mark_succeeded`.
  unfoldable pub after_result : Course J → Result Raised (Unit {0}) → Background J → Background J
  unfolding after_graph catch
  after_result c (err e) b = catch c e b
  after_result c (ok _) b =
      after_graph c c.audit (record b { done = b.done ++ AgentRunStatus.succeeded ∷ [] })

  -- The `try` block from the call of the graph on.
  unfoldable pub run_graph : Course J → Result Raised J → Background J → Background J
  unfolding after_result catch mark_succeeded
  run_graph c (err e) b = catch c e b
  run_graph c (ok result) b =
      after_result c c.stored (record b { run = mark_succeeded c.ended result b.run })

  -- The last commit, where nothing was raised before it.
  unfoldable pub commit_run : Result Raised (Unit {0}) → Option Raised → Background J → Background J
  commit_run commit (some e) b = b
  commit_run (ok _) none b = record b { saved = b.run }
  commit_run (err e) none b = record b { escaped = some e }

  -- The `finally` clause and what follows.
  unfoldable pub close : Course J → Background J → Background J
  unfolding commit_run
  close c b = commit_run c.commit b.escaped (record b { is_closed = true })

  -- A run that was cancelled: it is marked, committed and left, or the `except` clause follows.
  unfoldable pub cancel : Course J → Result Raised (Unit {0}) → Background J → Background J
  unfolding close catch
  cancel c (ok _) b = record b { saved = b.run; is_closed = true }
  cancel c (err e) b = close c (catch c e b)

  -- The `try` block with its clauses.
  unfoldable pub run_unless : Course J → Bool → Background J → Background J
  unfolding run_graph mark_cancelled cancel close
  run_unless c true b = cancel c c.cancelling (record b { run = mark_cancelled c.ended b.run })
  run_unless c false b = close c (run_graph c c.graph b)

  -- `run_investigation_background`, once the run is found and committed as running.
  unfoldable pub run_background : Course J → AgentRun J → Background J
  unfolding run_unless mark_running
  run_background c run = run_unless c c.is_cancelled (record {
    run = mark_running c.started run;
    saved = mark_running c.started run;
    done = [];
    is_closed = false;
    escaped = none;
  })
