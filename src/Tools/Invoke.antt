-- ===== src/Tools/Invoke.antt =====
-- backend/app/tools/executor.py: `ToolExecutor.invoke`, put together from the parts in `Executor`.
pub mod Trace
pub mod Spending
use mathlib.Core.Option
use chief_opportunity_intell.Prelude.{
  ℕ, ◌+◌, ◌-◌, ◌/◌, String, true, false, Option, none, some, List, [], ◌∷◌, ◌++◌, map, Result, ok,
  err,
}
use chief_opportunity_intell.Prelude.Dict.{Dict}
use chief_opportunity_intell.Enums.{ToolTransport, ToolCallStatus}
use chief_opportunity_intell.Tools.Types
use chief_opportunity_intell.Tools.Types.{ToolOutcome, BaseTool}
use chief_opportunity_intell.Tools.Budget.{record_call}
use chief_opportunity_intell.Tools.Registry.{RegistryError, find}
use chief_opportunity_intell.Tools.Executor.{
  Refusal, ToolContext, Encoding, ToolCall, Progress, prepare_result, admit, attempts_from,
}

module _ {A P : Type 0} where
  -- `_persist`: without a run nothing is written.
  unfoldable pub persist :
      Encoding P
      → Option String
      → String
      → ToolTransport
      → ToolCallStatus
      → A
      → Option P
      → Option String
      → ℕ
      → List (ToolCall A P)
      → List (ToolCall A P)
  unfolding prepare_result
  persist enc none name transport status arguments result error cost rows = rows
  persist enc (some run_id) name transport status arguments result error cost rows =
      let (stored, hash) = prepare_result enc result in
      rows
      ++ record {
        agent_run_id = run_id;
        tool_name = name;
        transport = transport;
        status = status;
        arguments = arguments;
        result = stored;
        result_hash = hash;
        error = error;
        cost_usd = cost;
      }
        ∷ []

module _ {P : Type 0} where
  -- `ctx.budget.record(...)`, which the loop calls once when the tool returns.
  unfoldable pub spend : Option P → String → ℕ → ToolContext → ToolContext
  spend none name cost ctx = ctx
  spend (some _) name cost ctx = record ctx {
    budget = Option.map (λ b. record_call b name cost) ctx.budget;
  }

  abbrev pub start : Progress P
  start = record {
    result_payload = none;
    status = ToolCallStatus.failed;
    error_code = none;
    last_error = none;
  }

  unfoldable pub outcome_of : Progress P → ToolOutcome P
  outcome_of p = elim p.result_payload [
    | some payload ↦ record {
      is_ok = true;
      payload = some payload;
      error = none;
      error_code = none;
    }
    | none ↦ record {
      is_ok = false;
      payload = none;
      error = p.last_error;
      error_code = p.error_code;
    }
  ]

-- What a call gives back: its outcome, the context that it leaves and the session's rows.
abbrev pub Called : Type 0 → Type 0 → Type 0
Called A P = ToolOutcome P × ToolContext × List (ToolCall A P)

module _ {A V P : Type 0} where
  -- What follows the admission: the error outcome of a refused call, or the loop over attempts.
  unfoldable pub settle :
      Encoding P
      → BaseTool A V P
      → String
      → A
      → ToolTransport
      → List (ToolCall A P)
      → Result Refusal V
      → ToolContext
      → Called A P
  settle enc tool name arguments transport rows (err r) ctx = (
    record { is_ok = false; payload = none; error = some r.message; error_code = some r.code },
    ctx,
    persist enc ctx.run_id name transport r.status arguments none (some r.message) 0 rows,
  )
  settle enc tool name arguments transport rows (ok v) ctx =
      let p = attempts_from (tool.run v) 0 (tool.max_retries + 1) start in
      let cost : ℕ = elim p.result_payload [ none ↦ 0 | some _ ↦ tool.cost_usd ] in
      (
        outcome_of p,
        spend p.result_payload name tool.cost_usd ctx,
        persist enc ctx.run_id name transport p.status arguments p.result_payload p.last_error cost
            rows,
      )

  -- The call of a registered tool.
  unfoldable pub call :
      Encoding P
      → BaseTool A V P
      → String
      → A
      → ToolTransport
      → ℕ
      → ToolContext
      → List (ToolCall A P)
      → Called A P
  call enc tool name arguments transport now ctx rows =
      let (admitted, ctx') = admit tool name arguments ctx now in
      settle enc tool name arguments transport rows admitted ctx'

  -- `invoke`, once the registry has been asked: an unknown tool, or the call of a known one.
  unfoldable pub dispatch :
      Encoding P
      → Result RegistryError (BaseTool A V P)
      → String
      → A
      → ToolTransport
      → ℕ
      → ToolContext
      → List (ToolCall A P)
      → Called A P
  dispatch enc (err _) name arguments transport now ctx rows = (
    record {
      is_ok = false;
      payload = none;
      error = some "Unknown tool";
      error_code = some Types.not_found;
    },
    ctx,
    persist enc ctx.run_id name transport ToolCallStatus.failed arguments none (some "Unknown tool")
        0 rows,
  )
  dispatch enc (ok tool) name arguments transport now ctx rows =
      call enc tool name arguments transport now ctx rows

  -- `ToolExecutor.invoke`
  unfoldable pub invoke :
      Encoding P
      → Dict (BaseTool A V P)
      → String
      → A
      → ToolTransport
      → ℕ
      → ToolContext
      → List (ToolCall A P)
      → Called A P
  unfolding dispatch
  invoke enc registry name arguments transport now ctx rows =
      dispatch enc (find registry name) name arguments transport now ctx rows
