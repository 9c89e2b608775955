-- ===== src/Tools/Budget/Bounds.antt =====
-- The invariant of a tool budget.
use chief_opportunity_intell.Prelude.{
  if◌then◌else◌, eq_iff, ℕ, ◌+◌, ◌≤◌, String, ◌≡◌, [], ◌∷◌, arith, str_eq, eq_iff, if◌then◌else◌,
  ok,
}
use chief_opportunity_intell.Prelude.Dict
use chief_opportunity_intell.Prelude.Dict.{Dict, get-put}
use chief_opportunity_intell.Tools.Budget.{ToolBudget, get_or, check_total, check_tool, record_call}

-- The calls of all tools together.
abbrev pub total : Dict ℕ → ℕ
total [] = 0
total ((k, n) ∷ d) = n + total d

-- No limit is passed, and the total counts the calls of the single tools. `limit` is each tool's
-- own number of calls.
pub record IsWithin (limit : String → ℕ) (b : ToolBudget) : Type 0 where
  pub total_within : b.calls_used ≤ b.max_total
  pub tool_within : (name : String) → get_or b.per_tool name 0 ≤ limit name
  pub total_counts : b.calls_used ≡ total b.per_tool

total-put : (d : Dict ℕ) (k : String) (n : ℕ) → total (Dict.put d k n) + get_or d k 0 ≡ total d + n
unfolding Dict.put Dict.get get_or
total-put [] k n = omega arith
total-put ((j, m) ∷ d) k n = ground (arith, total-put d k n)

pub get_or-put :
    (d : Dict ℕ) (k j : String) (n : ℕ)
    → get_or (Dict.put d k n) j 0 ≡ (if str_eq k j then n else get_or d j 0)
unfolding get_or
get_or-put d k j n = ground (arith, get-put d k j n)

-- A call that both checks let through keeps the budget within its limits when it is recorded: no
-- more calls than the run may make, none beyond the limit of its tool, and the total is the sum of
-- the tools' counts.
pub record_call-IsWithin :
    (limit : String → ℕ) (b : ToolBudget) (name : String) (cost : ℕ)
    → IsWithin limit b
    → check_total b ≡ ok tt
    → check_tool b name (limit name) ≡ ok tt
    → IsWithin limit (record_call b name cost)
unfolding record_call check_total check_tool
record_call-IsWithin limit b name cost h ct cn = record {
  total_within = ground (arith, h.total_within);
  tool_within = λ j. ground (
    arith,
    h.tool_within j,
    eq_iff name j,
    get_or-put b.per_tool name j (get_or b.per_tool name 0 + 1),
  );
  total_counts =
      ground (arith, h.total_counts, total-put b.per_tool name (get_or b.per_tool name 0 + 1));
}
