-- ===== src/Tools/Executor.antt =====
-- backend/app/tools/executor.py: one call of a tool with its permission, its budget, its retries
-- and its trace row. The clock reading, the JSON text of a payload and its SHA-256 digest come
-- from Python's library and enter as arguments; a row leaves out the latency and the task id.
pub mod Attempts
use chief_opportunity_intell.Prelude.{
  ℕ, zero, suc, ◌-◌, ◌/◌, String, not, Option, none, some, List, ltb, if◌then◌else◌, length, take,
  Result, ok, err, ◌>>◌, ◌>>=◌,
}
use mathlib.Core.Option
use chief_opportunity_intell.Prelude.Dict
use chief_opportunity_intell.Prelude.Dict.{Dict}
use chief_opportunity_intell.Enums.{ToolTransport, ToolCallStatus}
use chief_opportunity_intell.Tools.Types
use chief_opportunity_intell.Tools.Types.{
  ErrorCode, ToolError, Attempt, ParseError, BaseTool, require_scope,
}
use chief_opportunity_intell.Tools.Budget.{ToolBudget, check_total, check_tool}
use chief_opportunity_intell.Tools.RateLimit
use chief_opportunity_intell.Tools.RateLimit.{ToolRateLimiter}

-- `_RESULT_MAX_CHARS`
abbrev pub result_max_chars : ℕ
result_max_chars = 8000

-- `ToolContext`, as far as the executor reads it.
pub record ToolContext : Type 0 where
  pub run_id : Option String
  pub granted_scopes : List String
  pub budget : Option ToolBudget
  pub rate_limiter : ToolRateLimiter

-- `json.dumps` and the digest of its text, both as lists of characters.
pub record Encoding (P : Type 0) : Type 0 where
  pub dumps : P → List ℕ
  pub digest : List ℕ → List ℕ

-- A result as it is stored: whole, or the start of its text.
pub data Stored (P : Type 0) : Type 0 where
  whole : P → Stored P
  preview : List ℕ → Stored P

-- The columns of a `ToolCall` row.
pub record ToolCall (A P : Type 0) : Type 0 where
  pub agent_run_id : String
  pub tool_name : String
  pub transport : ToolTransport
  pub status : ToolCallStatus
  pub arguments : A
  pub result : Option (Stored P)
  pub result_hash : Option (List ℕ)
  pub error : Option String
  pub cost_usd : ℕ

-- What stopped a call before the tool ran, as the `except` clauses file it.
pub record Refusal : Type 0 where
  pub status : ToolCallStatus
  pub code : ErrorCode
  pub message : String

-- What the retry loop leaves in `result_payload`, `status`, `error_code` and `last_error`.
pub record Progress (P : Type 0) : Type 0 where
  pub result_payload : Option P
  pub status : ToolCallStatus
  pub error_code : Option ErrorCode
  pub last_error : Option String

-- `_prepare_result`
unfoldable pub prepare_result :
    {P : Type 0} → Encoding P → Option P → Option (Stored P) × Option (List ℕ)
prepare_result enc none = (none, none)
prepare_result enc (some result) =
    let encoded = enc.dumps result in
    if ltb result_max_chars (length encoded)
    then (some (preview (take result_max_chars encoded)), some (enc.digest encoded))
    else (some (whole result), some (enc.digest encoded))

-- A refusal by a `ToolError`, filed under a code and a status.
abbrev pub denied_as : ErrorCode → ToolError → Refusal
denied_as code e = record { status = ToolCallStatus.denied; code = code; message = e.message }

unfoldable pub refuse_tool : {B : Type 0} → ErrorCode → Result ToolError B → Result Refusal B
refuse_tool code (ok b) = ok b
refuse_tool code (err e) = err (denied_as code e)

unfoldable pub refuse_parse : {V : Type 0} → Result ParseError V → Result Refusal V
refuse_parse (ok v) = ok v
refuse_parse (err (ParseError.pydantic message)) =
    err
      (record { status = ToolCallStatus.failed; code = Types.invalid_arguments; message = message })
refuse_parse (err (ParseError.tool_argument message)) =
    err
      (record { status = ToolCallStatus.failed; code = Types.invalid_arguments; message = message })

-- `if ctx.budget is not None: …`
unfoldable pub check_budget : Option ToolBudget → String → ℕ → Result Refusal (Unit {0})
unfolding refuse_tool check_total check_tool
check_budget none name max_calls = ok tt
check_budget (some b) name max_calls = do
  refuse_tool Types.budget_exhausted (check_total b)
  refuse_tool Types.budget_exhausted (check_tool b name max_calls)

-- The loop `for attempt in range(attempts)`, from `attempt` on, with `left` rounds to go. Only
-- errors that the tool raises on purpose are tried again.
unfoldable pub attempts_from : {P : Type 0} → (ℕ → Attempt P) → ℕ → ℕ → Progress P → Progress P
attempts_from run attempt zero progress = progress
attempts_from run attempt (suc left) progress = elim (run attempt) [
  | Attempt.returns raw ↦ record progress {
    result_payload = some raw;
    status = ToolCallStatus.succeeded;
  }
  | Attempt.times_out ↦ record progress {
    status = ToolCallStatus.timeout;
    error_code = some Types.timeout;
    last_error = some "Tool timed out";
  }
  | Attempt.raises_tool_error e ↦
      let failed = record progress { error_code = some e.code; last_error = some e.message } in
      elim e.code [ Types.not_found ↦ failed | _ ↦ attempts_from run (suc attempt) left failed ]
  | Attempt.raises_app_error message ↦
      attempts_from run (suc attempt) left
        (record progress { error_code = some Types.validation_error; last_error = some message })
  | Attempt.raises_other ↦ record progress {
    error_code = some Types.internal_error;
    last_error = some "Tool execution failed";
  }
]

module _ {A V P : Type 0} where
  -- The `try` block before the loop: budget, rate, permission, arguments, in this order. The
  -- limiter has counted the call as soon as the budget lets it through.
  unfoldable pub admit :
      BaseTool A V P → String → A → ToolContext → ℕ → Result Refusal V × ToolContext
  unfolding check_budget refuse_tool refuse_parse
  admit tool name arguments ctx now = elim (check_budget ctx.budget name tool.max_calls_per_run) [
    | err r ↦ (err r, ctx)
    | ok _ ↦
        let (limited, limiter) = RateLimit.check ctx.rate_limiter name now in
        (
          do
            refuse_tool Types.rate_limited limited
            refuse_tool Types.permission_denied
                (require_scope ctx.granted_scopes tool.permission_scope)
            refuse_parse (tool.parse_args arguments),
          record ctx { rate_limiter = limiter },
        )
  ]
