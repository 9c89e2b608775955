-- ===== src/Http/RateLimiter/Retry.antt =====
-- The `Retry-After` that a refused request is given.
use chief_opportunity_intell.Prelude.{
  ℕ, ◌+◌, ◌-◌, ◌*◌, ◌/◌, ◌≤◌, ◌<◌, max, String, ◌≡◌, Bool, true, false, List, [], ◌∷◌, arith,
  le→leb, length, Result, ok, err,
}
use chief_opportunity_intell.Prelude.Dict
use chief_opportunity_intell.Prelude.Dict.{get-put_self}
use chief_opportunity_intell.Prelude.Window.{drop_while}
use chief_opportunity_intell.Http.RateLimiter.{
  hit_on, Hits, IndexError, second, is_past, window_of, retry_after, hit,
}

-- `hit` is given the queue that it finds.
window_of-put : (hits : Hits) (key : String) (q : List ℕ) → window_of (Dict.put hits key q) key ≡ q
unfolding window_of
window_of-put hits key q = rw (get-put_self hits key q, window_of)

length-drop_while : (test : ℕ → Bool) (q : List ℕ) → length (drop_while test q) ≤ length q
unfolding drop_while
length-drop_while test [] = omega arith
length-drop_while test (e ∷ q) = ground (arith, length-drop_while test q)

first_drops :
    (test : ℕ → Bool) (e : ℕ) (q : List ℕ)
    → test e ≡ true
    → length (drop_while test (e ∷ q)) ≤ length q
unfolding drop_while
first_drops test e q h = rw h (length-drop_while test q)

-- The oldest stamp has left the window when the announced seconds are over.
past_later :
    (window_s e now later r : ℕ) (q : List ℕ)
    → retry_after (e ∷ q) window_s now ≡ ok r
    → now + r * second ≤ later
    → is_past window_s later e ≡ true
unfolding retry_after
past_later window_s e now later r q h le =
    let wait : max 1 ((e + window_s * second - now) / second + 1) ≡ r = cc in
    le→leb (e + window_s * second) later (omega arith)

-- Whether a hit was allowed.
abbrev pub is_allowed : Result IndexError (Bool × ℕ) → Bool
is_allowed (ok (b, _)) = b
is_allowed (err _) = false

allowed_of_short :
    (hits : Hits) (key : String) (limit window_s now : ℕ) (window : List ℕ)
    → length window < limit
    → is_allowed (hit_on hits key limit window_s now window).0 ≡ true
unfolding hit_on
allowed_of_short hits key limit window_s now window h = ground arith

-- A refusal leaves the pruned deque, and tells the wait that its oldest stamp needs.
refused_on :
    (hits : Hits) (key : String) (limit window_s now r : ℕ) (window : List ℕ)
    → (hit_on hits key limit window_s now window).0 ≡ ok (false, r)
    → ((hit_on hits key limit window_s now window).1 ≡ Dict.put hits key window)
      × (retry_after window window_s now ≡ ok r)
unfolding hit_on retry_after
refused_on hits key limit window_s now r [] h = ground arith
refused_on hits key limit window_s now r (e ∷ window) h = ground arith

refused_later :
    (hits : Hits) (key : String) (limit window_s now later r : ℕ) (window : List ℕ)
    → length window ≤ limit
    → 0 < limit
    → retry_after window window_s now ≡ ok r
    → now + r * second ≤ later
    → is_allowed (hit (Dict.put hits key window) key limit window_s later).0 ≡ true
refused_later hits key limit window_s now later r [] full pos h le = unfold retry_after in cc
refused_later hits key limit window_s now later r (e ∷ q) full pos h le =
    unfold hit in
    rw (window_of-put hits key (e ∷ q)) (
      allowed_of_short (Dict.put hits key (e ∷ q)) key limit window_s later
        (drop_while (is_past window_s later) (e ∷ q))
        (omega (
          arith,
          first_drops (is_past window_s later) e q (past_later window_s e now later r q h le),
          full,
        )))

-- A key whose deque is not over its limit, refused with `Retry-After: r`, is allowed at any time
-- from `r` seconds on, if no request of that key came in between.
pub hit-after_retry :
    (hits : Hits) (key : String) (limit window_s now later r : ℕ)
    → 0 < limit
    → length (window_of hits key) ≤ limit
    → (hit hits key limit window_s now).0 ≡ ok (false, r)
    → now + r * second ≤ later
    → is_allowed (hit (hit hits key limit window_s now).1 key limit window_s later).0 ≡ true
unfolding hit
hit-after_retry hits key limit window_s now later r pos full refused le =
    let kept = drop_while (is_past window_s now) (window_of hits key) in
    let (left, wait) = refused_on hits key limit window_s now r kept refused in
    let short : length kept ≤ limit =
      omega (arith, length-drop_while (is_past window_s now) (window_of hits key), full) in
    rw left (refused_later hits key limit window_s now later r kept short pos wait le)
