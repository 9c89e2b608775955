-- ===== src/Http/Tests.antt =====
-- Tests and instances for the rate limiter.
use chief_opportunity_intell.Prelude.{◌≡◌, refl, true, [], ◌∷◌, arith}
use chief_opportunity_intell.Prelude.Dict
use chief_opportunity_intell.Prelude.Window.{drop_while}
use chief_opportunity_intell.Http.RateLimiter.{Hits, hit, hit_on, window_of, retry_after}
use chief_opportunity_intell.Http.RateLimiter.Retry.{is_allowed, hit-after_retry}

-- Two hits of one key at a limit of two in a window of 60 seconds.
abbrev two_hits : Hits
two_hits = ("api:ip:a", 1000000 ∷ 2500000 ∷ []) ∷ []

hit-after_retry_example :
    is_allowed (hit (hit two_hits "api:ip:a" 2 60 3000000).1 "api:ip:a" 2 60 62000000).0 ≡ true
unfolding hit hit_on window_of retry_after drop_while Dict.get
hit-after_retry_example =
    hit-after_retry two_hits "api:ip:a" 2 60 3000000 62000000 59 (omega arith) (omega arith) refl
      (omega arith)
