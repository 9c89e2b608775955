-- ===== src/Tools/Budget.antt =====
-- backend/app/tools/budget.py: the tool-call budget of a run. Money is counted in whole units of
-- the smallest amount in use, so `max(0.0, a - b)` is the subtraction of the natural numbers; a
-- call limit below zero is met from the start, as zero is.
pub mod Bounds
use chief_opportunity_intell.Prelude.{
  ℕ, zero, ◌+◌, ◌-◌, ◌/◌, max, String, Option, none, some, [], leb, Result, raise_if,
}
use chief_opportunity_intell.Prelude.Dict
use chief_opportunity_intell.Prelude.Dict.{Dict}
use chief_opportunity_intell.Tools.Types.{ToolError, budget_exhausted}

pub record ToolBudget : Type 0 where
  pub max_total : ℕ
  pub remaining_usd : ℕ
  pub calls_used : ℕ
  pub per_tool : Dict ℕ

-- `from_run_budget`, on a run's `max_tool_calls_total` and `remaining_usd` where they are given as
-- numbers; money is in millionths of a dollar.
unfoldable pub from_run_budget : Option ℕ → Option ℕ → ToolBudget
from_run_budget max_raw remaining_raw = record {
  max_total = elim max_raw [ none ↦ 60 | some n ↦ n ];
  remaining_usd = elim remaining_raw [ none ↦ 1000000 | some n ↦ n ];
  calls_used = 0;
  per_tool = [];
}

-- `d.get(key, default)`
unfoldable pub get_or : Dict ℕ → String → ℕ → ℕ
get_or d k n = elim (Dict.get d k) [ none ↦ n | some v ↦ v ]

unfoldable pub check_total : ToolBudget → Result ToolError (Unit {0})
check_total b =
    raise_if (leb b.max_total b.calls_used)
      (record { code = budget_exhausted; message = "Run tool-call budget exhausted" })

unfoldable pub check_tool : ToolBudget → String → ℕ → Result ToolError (Unit {0})
check_tool b tool_name max_calls =
    raise_if (leb max_calls (get_or b.per_tool tool_name 0))
      (record { code = budget_exhausted; message = "Per-tool budget exhausted" })

unfoldable pub record_call : ToolBudget → String → ℕ → ToolBudget
record_call b tool_name cost_usd = record b {
  remaining_usd = b.remaining_usd - cost_usd;
  calls_used = b.calls_used + 1;
  per_tool = Dict.put b.per_tool tool_name (get_or b.per_tool tool_name 0 + 1);
}
