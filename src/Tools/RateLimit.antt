-- ===== src/Tools/RateLimit.antt =====
-- backend/app/tools/rate_limit.py: the sliding window of each tool. Times are readings of the
-- monotonic clock in whole ticks. `events[0] < now - window_s` is tested as
-- `events[0] + window_s < now`, since the difference may lie below zero.
pub mod Limits
use chief_opportunity_intell.Prelude.{Bool}
use chief_opportunity_intell.Prelude.Window.{drop_while}
use chief_opportunity_intell.Prelude.{
  ℕ, ◌+◌, String, none, some, List, [], ◌∷◌, ◌++◌, ltb, leb, if◌then◌else◌, length, Result, ok, err,
}
use chief_opportunity_intell.Prelude.Dict
use chief_opportunity_intell.Prelude.Dict.{Dict}
use chief_opportunity_intell.Tools.Types.{ToolError, rate_limited}

pub record ToolRateLimiter : Type 0 where
  pub window_s : ℕ
  pub default_limit : ℕ
  pub per_tool_limit : Dict ℕ
  pub events : Dict (List ℕ)

-- `events[0] < window_start`
abbrev pub is_old : ℕ → ℕ → ℕ → Bool
is_old window now e = ltb (e + window) now

unfoldable pub events_of : ToolRateLimiter → String → List ℕ
events_of l name = elim (Dict.get l.events name) [ none ↦ [] | some events ↦ events ]

unfoldable pub limit_of : ToolRateLimiter → String → ℕ
limit_of l name = elim (Dict.get l.per_tool_limit name) [ none ↦ l.default_limit | some n ↦ n ]

-- The deque is pruned in place, so it stays pruned when the call raises.
unfoldable pub check : ToolRateLimiter → String → ℕ → Result ToolError (Unit {0}) × ToolRateLimiter
unfolding drop_while events_of limit_of
check l name now =
    let kept = drop_while (is_old l.window_s now) (events_of l name) in
    if leb (limit_of l name) (length kept)
    then (
      err (record { code = rate_limited; message = "Rate limit exceeded" }),
      record l { events = Dict.put l.events name kept },
    )
    else (ok tt, record l { events = Dict.put l.events name (kept ++ now ∷ []) })
