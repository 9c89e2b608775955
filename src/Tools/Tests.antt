-- ===== src/Tools/Tests.antt =====
-- Tests and instances for the tool layer.
use chief_opportunity_intell.Prelude.{
  ℕ, zero, suc, ◌+◌, ◌≤◌, String, ◌≡◌, refl, some, [], ◌∷◌, arith, ok,
}
use chief_opportunity_intell.Prelude.Dict
use chief_opportunity_intell.Prelude.Dict.{Dict}
use chief_opportunity_intell.Prelude.Window.{hits_at}
use chief_opportunity_intell.Enums.{ToolTransport}
use chief_opportunity_intell.Tools.Types.{
  Attempt, BaseTool, require_scope, is_granted, default_investigation_scopes,
}
use chief_opportunity_intell.Tools.Registry.{find}
use chief_opportunity_intell.Tools.RateLimit
use chief_opportunity_intell.Tools.RateLimit.{ToolRateLimiter, is_old, events_of, limit_of}
use chief_opportunity_intell.Tools.RateLimit.Limits.{calls, calls-within-limit}
use chief_opportunity_intell.Tools.Budget.{ToolBudget, get_or}
use chief_opportunity_intell.Tools.Budget.Bounds.{IsWithin}
use chief_opportunity_intell.Tools.Executor.{ToolContext, Encoding, admit, attempts_from}
use chief_opportunity_intell.Tools.Executor.Attempts.{after, after_all, attempts_from-first_final}
use chief_opportunity_intell.Tools.Invoke.{start, settle, outcome_of, call, invoke}
use chief_opportunity_intell.Tools.Invoke.Spending.{Affords, limits, invoke_all, invoke_all-Affords}

-- A tool that fails once and then returns its argument.
abbrev flaky : ℕ → ℕ → Attempt ℕ
flaky v zero = Attempt.raises_app_error "busy"
flaky v (suc n) = Attempt.returns v

abbrev echo : BaseTool ℕ ℕ ℕ
echo = record {
  name = "echo";
  description = "returns its argument";
  permission_scope = "web:fetch";
  timeout_s = 30;
  max_calls_per_run = 2;
  max_retries = 1;
  cost_usd = 3;
  parse_args = λ a. ok a;
  run = flaky;
}

abbrev tools : Dict (BaseTool ℕ ℕ ℕ)
tools = ("echo", echo) ∷ []

abbrev limiter : ToolRateLimiter
limiter = record { window_s = 60; default_limit = 2; per_tool_limit = []; events = [] }

abbrev budget : ToolBudget
budget = record { max_total = 5; remaining_usd = 10; calls_used = 0; per_tool = [] }

abbrev ctx : ToolContext
ctx = record {
  run_id = some "run";
  granted_scopes = default_investigation_scopes;
  budget = some budget;
  rate_limiter = limiter;
}

abbrev enc : Encoding ℕ
enc = record { dumps = λ n. n ∷ []; digest = λ text. text }

echo_works : (invoke enc tools "echo" 7 ToolTransport.native 0 ctx []).0.payload ≡ some 7
unfolding invoke call settle admit attempts_from outcome_of require_scope is_granted find Dict.get
    get_or RateLimit.check
echo_works = refl

budget-IsWithin : (limit : String → ℕ) → IsWithin limit budget
unfolding get_or Dict.get
budget-IsWithin limit = record {
  total_within = omega arith;
  tool_within = λ name. omega arith;
  total_counts = refl;
}

calls-within-limit_example :
    hits_at (is_old 60) 70 (calls limiter "echo" [] (0 ∷ 10 ∷ 20 ∷ 65 ∷ []))
    ≤ limit_of limiter "echo"
unfolding events_of Dict.get
calls-within-limit_example =
    calls-within-limit limiter "echo" (0 ∷ 10 ∷ 20 ∷ 65 ∷ []) 70 refl (omega arith)

attempts_from-first_final_example :
    attempts_from (flaky 7) 0 (1 + suc 4) start ≡ after (flaky 7 1) (after_all (flaky 7) 0 1 start)
attempts_from-first_final_example = attempts_from-first_final (flaky 7) 0 1 4 start (refl, tt) refl

invoke_all-Affords_example :
    Affords
      (limits tools)
      (invoke_all enc ToolTransport.native tools
        (("echo", 7, 0) ∷ ("none", 1, 5) ∷ [])
        ctx
        []).0.budget
invoke_all-Affords_example =
    invoke_all-Affords enc ToolTransport.native tools (("echo", 7, 0) ∷ ("none", 1, 5) ∷ []) ctx []
      (budget-IsWithin (limits tools))

abbrev bare : ToolContext
bare = record ctx { granted_scopes = [] }
