-- ===== src/Tools/Types.antt =====
-- backend/app/tools/{types,errors,permissions,base}.py: a tool, what it may raise and what a call
-- of it gives back. The arguments, the validated arguments and the payload are JSON values that
-- this layer only hands on: they are type parameters.
use chief_opportunity_intell.Prelude.{
  ℕ, String, Bool, false, ◌||◌, Option, List, [], ◌∷◌, str_eq, if◌then◌else◌, Result, ok, err,
}

-- The literals of `ToolOutcome.error_code`, which are the `code`s of the `ToolError` classes too.
pub data ErrorCode : Type 0 where
  invalid_arguments permission_denied budget_exhausted rate_limited timeout not_found : ErrorCode
  validation_error dependency_unavailable internal_error : ErrorCode

pub record ToolOutcome (P : Type 0) : Type 0 where
  pub is_ok : Bool
  pub payload : Option P
  pub error : Option String
  pub error_code : Option ErrorCode

-- A `ToolError` is known by its class, of which there is one for each code here, and its message.
pub record ToolError : Type 0 where
  pub code : ErrorCode
  pub message : String

-- What one awaited `tool.run` does.
pub data Attempt (P : Type 0) : Type 0 where
  returns : P → Attempt P
  times_out : Attempt P
  raises_tool_error : ToolError → Attempt P
  -- a `ValidationError` or another `AppError`, by its text: it has no `code` and no `message`
  raises_app_error : String → Attempt P
  raises_other : Attempt P

-- What `parse_args` may raise.
pub data ParseError : Type 0 where
  pydantic : String → ParseError
  tool_argument : String → ParseError

-- `BaseTool`. `run` is the tool's own code: what its n-th attempt in one call does.
pub record BaseTool (A V P : Type 0) : Type 0 where
  pub name : String
  pub description : String
  pub permission_scope : String
  pub timeout_s : ℕ
  pub max_calls_per_run : ℕ
  pub max_retries : ℕ
  pub cost_usd : ℕ
  pub parse_args : A → Result ParseError V
  pub run : V → ℕ → Attempt P

-- `scope in granted`
unfoldable pub is_granted : List String → String → Bool
is_granted [] scope = false
is_granted (s ∷ granted) scope = str_eq scope s || is_granted granted scope

unfoldable pub require_scope : List String → String → Result ToolError (Unit {0})
require_scope granted required =
    if is_granted granted required
    then ok tt
    else err (record { code = permission_denied; message = "Missing required scope" })

-- `DEFAULT_INVESTIGATION_SCOPES`
abbrev pub default_investigation_scopes : List String
default_investigation_scopes =
    "profile:read" ∷ "document:read" ∷ "opportunity:read" ∷ "opportunity:write"
    ∷ "application:write" ∷ "web:fetch" ∷ []
