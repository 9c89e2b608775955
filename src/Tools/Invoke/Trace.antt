-- ===== src/Tools/Invoke/Trace.antt =====
-- What a call writes to `tool_calls`.
use chief_opportunity_intell.Prelude.{String, ◌≡◌, Bool, List, [], ◌∷◌, ◌++◌}
use chief_opportunity_intell.Prelude.Dict.{Dict}
use chief_opportunity_intell.Tools.Executor.{ToolCall}
use chief_opportunity_intell.Tools.Executor.Attempts.{is_succeeded}

-- One row was added, for this tool in this run, and its status says how the call ended.
abbrev pub Recorded :
    {A P : Type 0} → String → String → List (ToolCall A P) → Bool → List (ToolCall A P) → Type 0
Recorded {A} {P} run_id name rows is_ok rows' =
    (row : ToolCall A P) × (rows' ≡ rows ++ row ∷ [])
    × (row.agent_run_id ≡ run_id)
    × (row.tool_name ≡ name)
    × (is_succeeded row.status ≡ is_ok)
