-- ===== src/Http/RateLimiter.antt =====
-- backend/app/api/middleware.py: `InMemoryRateLimiter` and `RateLimitMiddleware`. Times are readings
-- of the monotonic clock in microseconds, so a float of seconds is a whole number of ticks, and
-- `int()` of a difference in seconds is a division. The cutoff test `window[0] <= now - window_s` is
-- made as `window[0] + window_s <= now`, since the difference may lie below zero.
pub mod Retry
use text.Mathlib.Text.{starts_with}
use Prim.Native.String.{◌++◌ as join}
use chief_opportunity_intell.Prelude.{
  ℕ, zero, ◌+◌, ◌-◌, ◌*◌, ◌/◌, ◌<◌, max, String, Bool, true, false, not, ◌||◌, Option, none, some,
  List, [], ◌∷◌, ◌++◌, str_eq, leb, if◌then◌else◌, length, Result, ok, err, ◌>>=◌,
}
use chief_opportunity_intell.Prelude.Dict
use chief_opportunity_intell.Prelude.Dict.{Dict}
use chief_opportunity_intell.Prelude.Window.{drop_while}

-- Ticks in a second.
abbrev pub second : ℕ
second = 1000000

-- `self._hits`, one deque for each key.
abbrev pub Hits : Type 0
Hits = Dict (List ℕ)

-- `window[0]` of an empty deque.
pub data IndexError : Type 0 where
  empty_deque : IndexError

unfoldable pub window_of : Hits → String → List ℕ
window_of hits key = elim (Dict.get hits key) [ none ↦ [] | some window ↦ window ]

abbrev pub is_past : ℕ → ℕ → ℕ → Bool
is_past window_s now e = leb (e + window_s * second) now

-- `max(1, int(window[0] + window_s - now) + 1)`
unfoldable pub retry_after : List ℕ → ℕ → ℕ → Result IndexError ℕ
retry_after [] window_s now = err empty_deque
retry_after (e ∷ window) window_s now = ok (max 1 ((e + window_s * second - now) / second + 1))

-- `hit`, once the deque of the key is pruned to `window`: whether the request is allowed and after
-- how many seconds to try again, with the deques that it leaves.
unfoldable pub hit_on : Hits → String → ℕ → ℕ → ℕ → List ℕ → Result IndexError (Bool × ℕ) × Hits
hit_on hits key limit window_s now window =
    if leb limit (length window)
    then (do r ← retry_after window window_s now; ok (false, r), Dict.put hits key window)
    else (ok (true, 0), Dict.put hits key (window ++ now ∷ []))

-- `hit`: the deque is pruned in place whatever follows.
unfoldable pub hit : Hits → String → ℕ → ℕ → ℕ → Result IndexError (Bool × ℕ) × Hits
hit hits key limit window_s now =
    hit_on hits key limit window_s now (drop_while (is_past window_s now) (window_of hits key))

-- The settings that `dispatch` reads.
pub record RateLimits : Type 0 where
  pub rate_limit_enabled : Bool
  pub rate_limit_requests : ℕ
  pub rate_limit_window_s : ℕ
  pub auth_rate_limit_requests : ℕ

-- A request: its path, the header and the client's host.
pub record Request : Type 0 where
  pub path : String
  pub authorization : String
  pub client_host : Option String

pub data Answer : Type 0 where
  forwarded : Answer
  too_many : ℕ → ℕ → Answer

-- `path in paths`
unfoldable pub is_listed : List String → String → Bool
is_listed [] path = false
is_listed (p ∷ paths) path = str_eq p path || is_listed paths path

unfoldable pub ends_with : String → String → Bool
ends_with String.[] t = str_eq "" t
ends_with (String.◌∷◌ c s) t = str_eq (String.◌∷◌ c s) t || ends_with s t

-- `token_hash` is the text of Python's hash of a bearer token, as `_identity` formats it.
module _ (token_hash : String → String) where
  -- `_identity`: the hash of the bearer token, or the client's host.
  unfoldable pub identity : Request → String
  identity r =
      if starts_with r.authorization "Bearer "
      then join "tok:" (token_hash r.authorization)
      else elim r.client_host [ none ↦ "ip:unknown" | some host ↦ join "ip:" host ]

  -- What `dispatch` does with the answer of `hit`.
  unfoldable pub answer : ℕ → Result IndexError (Bool × ℕ) → Result IndexError Answer
  answer limit (err e) = err e
  answer limit (ok (true, retry)) = ok forwarded
  answer limit (ok (false, retry)) = ok (too_many limit retry)

  -- `dispatch`: probes pass, the auth routes have a bucket and a limit of their own.
  unfoldable pub dispatch :
      RateLimits → List String → Request → ℕ → Hits → Result IndexError Answer × Hits
  unfolding ends_with
  dispatch cfg auth_paths r now hits =
      if not cfg.rate_limit_enabled || (ends_with r.path "/live" || ends_with r.path "/ready")
      then (ok forwarded, hits)
      else let is_auth = is_listed auth_paths r.path in
        let limit = if is_auth then cfg.auth_rate_limit_requests else cfg.rate_limit_requests in
        let key = join (if is_auth then "auth:" else "api:") (identity r) in
        let (result, hits') = hit hits key limit cfg.rate_limit_window_s now in
        (answer limit result, hits')
