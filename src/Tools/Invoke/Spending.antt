-- ===== src/Tools/Invoke/Spending.antt =====
-- Budgets across calls, and what a refused call cannot do.
use mathlib.Core.Option
use chief_opportunity_intell.Prelude.{
  ℕ, ◌+◌, String, ◌≡◌, refl, false, Option, none, some, List, [], ◌∷◌, arith, Result, ok, err,
}
use chief_opportunity_intell.Prelude.Dict.{Dict}
use chief_opportunity_intell.Enums.{ToolTransport}
use chief_opportunity_intell.Tools.Types.{BaseTool, Attempt, is_granted, require_scope}
use chief_opportunity_intell.Tools.Registry.{RegistryError, find}
use chief_opportunity_intell.Tools.Budget.{ToolBudget, check_total, check_tool, record_call}
use chief_opportunity_intell.Tools.Budget.Bounds.{IsWithin, record_call-IsWithin}
use chief_opportunity_intell.Tools.Executor.{
  ToolContext, Encoding, ToolCall, Refusal, admit, attempts_from, check_budget,
}
use chief_opportunity_intell.Tools.Invoke.{spend, settle, start, call, dispatch, invoke}

-- The budget of a context, if it has one, is within its limits.
abbrev pub Affords : (String → ℕ) → Option ToolBudget → Type 0
Affords limit none = Unit
Affords limit (some b) = IsWithin limit b

-- The calls per run that a looked-up tool allows.
abbrev pub allowance : {A V P : Type 0} → Result RegistryError (BaseTool A V P) → ℕ
allowance (err _) = 0
allowance (ok tool) = tool.max_calls_per_run

-- Each tool's own limit, as the registry has it.
abbrev pub limits : {A V P : Type 0} → Dict (BaseTool A V P) → String → ℕ
limits registry name = allowance (find registry name)

check_budget-ok :
    (b : ToolBudget) (name : String) (n : ℕ)
    → check_budget (some b) name n ≡ ok tt
    → (check_total b ≡ ok tt) × (check_tool b name n ≡ ok tt)
unfolding check_budget check_total check_tool
check_budget-ok b name n h = ground arith

module _ {A V P : Type 0} (tool : BaseTool A V P) (name : String) (arguments : A) (now : ℕ) where
  admit-budget : (ctx : ToolContext) → (admit tool name arguments ctx now).1.budget ≡ ctx.budget
  unfolding admit
  admit-budget ctx = ground arith

  admit-affordable :
      (ctx : ToolContext) {v : V}
      → (admit tool name arguments ctx now).0 ≡ ok v
      → check_budget ctx.budget name tool.max_calls_per_run ≡ ok tt
  unfolding admit
  admit-affordable ctx h = ground arith

spend-Affords :
    {P : Type 0} (limit : String → ℕ) (payload : Option P) (name : String) (cost : ℕ)
    (ctx : ToolContext)
    → check_budget ctx.budget name (limit name) ≡ ok tt
    → Affords limit ctx.budget
    → Affords limit (spend payload name cost ctx).budget
unfolding spend
spend-Affords limit none name cost ctx c h = h
spend-Affords limit (some _) name cost ctx c h = spend_option ctx.budget c h
  where
    spend_option :
        (o : Option ToolBudget)
        → check_budget o name (limit name) ≡ ok tt
        → Affords limit o
        → Affords limit (Option.map (λ b. record_call b name cost) o)
    spend_option none c h = tt
    spend_option (some b) c h =
        record_call-IsWithin limit b name cost h (check_budget-ok b name (limit name) c).0
          (check_budget-ok b name (limit name) c).1

module _ {A V P : Type 0} (enc : Encoding P) (transport : ToolTransport)
    (registry : Dict (BaseTool A V P)) where
  settle-Affords :
      (limit : String → ℕ) (tool : BaseTool A V P) (name : String) (arguments : A)
      (rows : List (ToolCall A P)) (admitted : Result Refusal V) (ctx : ToolContext)
      → ((v : V) → admitted ≡ ok v → check_budget ctx.budget name (limit name) ≡ ok tt)
      → Affords limit ctx.budget
      → Affords limit (settle enc tool name arguments transport rows admitted ctx).1.budget
  unfolding settle
  settle-Affords limit tool name arguments rows (err r) ctx c h = h
  settle-Affords limit tool name arguments rows (ok v) ctx c h =
      spend-Affords limit (attempts_from (tool.run v) 0 (tool.max_retries + 1) start).result_payload
        name tool.cost_usd ctx (c v refl) h

  dispatch-Affords :
      (limit : String → ℕ) (found : Result RegistryError (BaseTool A V P)) (name : String)
      (arguments : A) (now : ℕ) (ctx : ToolContext) (rows : List (ToolCall A P))
      → limit name ≡ allowance found
      → Affords limit ctx.budget
      → Affords limit (dispatch enc found name arguments transport now ctx rows).1.budget
  unfolding dispatch call
  dispatch-Affords limit (err _) name arguments now ctx rows e h = h
  dispatch-Affords limit (ok tool) name arguments now ctx rows e h =
      let same = admit-budget tool name arguments now ctx in
      settle-Affords limit tool name arguments rows (admit tool name arguments ctx now).0
        (admit tool name arguments ctx now).1
        (λ v ok_v. rw (same, e) (admit-affordable tool name arguments now ctx ok_v)) (rw same h)

  -- An invocation keeps the budget within its limits: the run's total, and for every tool its own
  -- `max_calls_per_run`; and the total still counts the calls of the single tools.
  invoke-Affords :
      (name : String) (arguments : A) (now : ℕ) (ctx : ToolContext) (rows : List (ToolCall A P))
      → Affords (limits registry) ctx.budget
      → Affords
          (limits registry)
          (invoke enc registry name arguments transport now ctx rows).1.budget
  unfolding invoke
  invoke-Affords name arguments now ctx rows h =
      dispatch-Affords (limits registry) (find registry name) name arguments now ctx rows refl h

  -- A sequence of calls in one run: for each the tool's name, its arguments and the clock.
  pub invoke_all :
      List (String × A × ℕ) → ToolContext → List (ToolCall A P) → ToolContext × List (ToolCall A P)
  invoke_all [] ctx rows = (ctx, rows)
  invoke_all ((name, arguments, now) ∷ requests) ctx rows =
      let (_, ctx', rows') = invoke enc registry name arguments transport now ctx rows in
      invoke_all requests ctx' rows'

  -- Any sequence of invocations that starts within the budget ends within it: no more recorded calls
  -- than the budget has, and none of one tool beyond what that tool allows.
  pub invoke_all-Affords :
      (requests : List (String × A × ℕ)) (ctx : ToolContext) (rows : List (ToolCall A P))
      → Affords (limits registry) ctx.budget
      → Affords (limits registry) (invoke_all requests ctx rows).0.budget
  unfolding invoke_all
  invoke_all-Affords [] ctx rows h = h
  invoke_all-Affords ((name, arguments, now) ∷ requests) ctx rows h =
      let (_, ctx', rows') = invoke enc registry name arguments transport now ctx rows in
      invoke_all-Affords requests ctx' rows' (invoke-Affords name arguments now ctx rows h)

module _ {A V P : Type 0} (enc : Encoding P) (transport : ToolTransport) where
  -- A tool without its scope does not run: the call ends the same whatever the tool's code would do,
  -- it is not ok, and the budget is left alone.
  pub call-ungranted :
      (tool : BaseTool A V P) (name : String) (arguments : A) (now : ℕ) (ctx : ToolContext)
      (rows : List (ToolCall A P)) (other : V → ℕ → Attempt P)
      → is_granted ctx.granted_scopes tool.permission_scope ≡ false
      → (call enc (record tool { run = other }) name arguments transport now ctx rows
          ≡ call enc tool name arguments transport now ctx rows)
        × ((call enc tool name arguments transport now ctx rows).0.is_ok ≡ false)
        × ((call enc tool name arguments transport now ctx rows).1.budget ≡ ctx.budget)
  unfolding call settle admit require_scope
  call-ungranted tool name arguments now ctx rows other h =
      (ground arith, ground arith, ground arith)
