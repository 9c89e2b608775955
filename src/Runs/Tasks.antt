-- ===== src/Runs/Tasks.antt =====
-- Tasks are started and finished one by one.
use chief_opportunity_intell.Prelude.{
  ℕ, ◌-◌, String, ◌≡◌, Option, none, some, List, [], ◌∷◌, ◌++◌, arith, ◌==◌, if◌then◌else◌,
}
use chief_opportunity_intell.Runs.{start_task, AgentTaskStatus, finish_task, AgentTask}

module _ {J : Type 0} where
  -- The task with an id, as `session.get` finds it.
  unfoldable pub task_at : List (AgentTask J) → ℕ → Option (AgentTask J)
  task_at [] id = none
  task_at (t ∷ tasks) id = if t.id == id then some t else task_at tasks id

  -- A task that was started under a fresh id and is then finished stands behind the others, which
  -- stay, with the status, the output and the error that it was finished with, and with the time
  -- between the two as its latency.
  pub finish_task-start_task :
      (id begun now run_id : ℕ) (name : String) (capability : Option String)
      (input output : Option J) (status : AgentTaskStatus) (error : Option String)
      (tasks : List (AgentTask J))
      → task_at tasks id ≡ none
      → finish_task now id status output error
          (start_task id begun run_id name capability input tasks)
        ≡ tasks
          ++ record {
            id = id;
            agent_run_id = run_id;
            agent_name = name;
            capability = capability;
            status = status;
            input = input;
            output = output;
            error = error;
            started_at = some begun;
            finished_at = some now;
            latency_ms = some (now - begun);
          }
            ∷ []
  unfolding finish_task start_task task_at
  finish_task-start_task id begun now run_id name capability input output status error [] fresh =
      ground arith
  finish_task-start_task id begun now run_id name capability input output status error (t ∷ tasks)
        fresh =
      let ih =
        finish_task-start_task id begun now run_id name capability input output status error
          tasks in
      ground (arith, ih)
