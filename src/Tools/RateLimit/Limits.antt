-- ===== src/Tools/RateLimit/Limits.antt =====
-- No window of a tool's limiter holds more accepted calls than the limit.
use mathlib.Core.List.{append_assoc}
use chief_opportunity_intell.Prelude.{
  ℕ, ◌≤◌, ◌<◌, String, ◌≡◌, refl, sym, ap, ◌∙◌, inl, inr, true, List, [], ◌∷◌, ◌++◌, arith, leb,
  Bool-cases, length, All, Result, ok, err,
}
use chief_opportunity_intell.Prelude.Dict
use chief_opportunity_intell.Prelude.Dict.{get-put_self, get-put}
use chief_opportunity_intell.Prelude.Window.{
  drop_while, taken, taken-append-drop, All-taken, All-append, hits_at, hits_at_admit,
}
use chief_opportunity_intell.Tools.Types.{ToolError}
use chief_opportunity_intell.Tools.RateLimit.{ToolRateLimiter, is_old, events_of, limit_of, check}

-- The stamps of the accepted calls of `name`, when it is called at each of `times`.
abbrev log_after : List ℕ → ℕ → Result ToolError (Unit {0}) → List ℕ
log_after log t (ok _) = log ++ t ∷ []
log_after log t (err _) = log

pub calls : ToolRateLimiter → String → List ℕ → List ℕ → List ℕ
calls l name log [] = log
calls l name log (t ∷ times) =
    let (r, l') = check l name t in calls l' name (log_after log t r) times

-- The times do not fall.
abbrev pub Ascending : ℕ → List ℕ → Type 0
Ascending t [] = Unit
Ascending t (u ∷ us) = (t ≤ u) × Ascending u us

-- What the limiter remembers of the log: all of it but stamps that are old by now, and every
-- window of the log is within the limit.
record Remembers (l : ToolRateLimiter) (name : String) (log : List ℕ) (now : ℕ) : Type 0 where
  forgotten : List ℕ
  splits : log ≡ forgotten ++ events_of l name
  old : All (λ e. is_old l.window_s now e ≡ true) forgotten
  within : (x : ℕ) → hits_at (is_old l.window_s) x log ≤ limit_of l name

is_old-later : (window t x e : ℕ) → t ≤ x → is_old window t e ≡ true → is_old window x e ≡ true
is_old-later window t x e le h = ground arith

-- A check changes neither the window nor any limit.
check-settings :
    (l : ToolRateLimiter) (name : String) (now : ℕ)
    → ((check l name now).1.window_s ≡ l.window_s)
      × (limit_of (check l name now).1 name ≡ limit_of l name)
unfolding check
check-settings l name now = ground arith

All-old-later :
    (window t x : ℕ) (es : List ℕ)
    → t ≤ x
    → All (λ e. is_old window t e ≡ true) es
    → All (λ e. is_old window x e ≡ true) es
All-old-later window t x [] le h = tt
All-old-later window t x (e ∷ es) le h =
    (is_old-later window t x e le h.0, All-old-later window t x es le h.1)

module _ (l : ToolRateLimiter) (name : String) (log : List ℕ) (now t : ℕ) where
  abbrev old_of : Remembers l name log now → List ℕ
  old_of m = m.forgotten ++ taken (is_old l.window_s t) (events_of l name)

  abbrev kept_of : List ℕ
  kept_of = drop_while (is_old l.window_s t) (events_of l name)

  log-splits : (m : Remembers l name log now) → log ≡ old_of m ++ kept_of
  log-splits m =
      m.splits
      ∙ ap (λ q. m.forgotten ++ q)
          (sym (taken-append-drop (is_old l.window_s t) (events_of l name)))
      ∙ sym (append_assoc m.forgotten (taken (is_old l.window_s t) (events_of l name)) kept_of)

  old_of-old :
      (m : Remembers l name log now) → now ≤ t → All (λ e. is_old l.window_s t e ≡ true) (old_of m)
  old_of-old m le =
      All-append _ m.forgotten _ (All-old-later l.window_s now t m.forgotten le m.old)
        (All-taken (is_old l.window_s t) (events_of l name))

  within_admit :
      (m : Remembers l name log now)
      → now ≤ t
      → length kept_of < limit_of l name
      → (x : ℕ) → hits_at (is_old l.window_s) x (log ++ t ∷ []) ≤ limit_of l name
  within_admit m le short x = rw (log-splits m) (
      hits_at_admit (is_old l.window_s) (is_old-later l.window_s) (limit_of l name) t x (old_of m)
        kept_of (old_of-old m le) short (rw (log-splits m) at (m.within x)))

  -- The limiter that remembers `q` for `name`.
  abbrev with_queue : List ℕ → ToolRateLimiter
  with_queue q = record l { events = Dict.put l.events name q }

  events_of-with_queue : (q : List ℕ) → events_of (with_queue q) name ≡ q
  unfolding events_of
  events_of-with_queue q = rw (get-put_self l.events name q, events_of)

  limit_of-with_queue : (q : List ℕ) → limit_of (with_queue q) name ≡ limit_of l name
  unfolding limit_of
  limit_of-with_queue q = refl

  Remembers-with_queue :
      (old q log' : List ℕ)
      → log' ≡ old ++ q
      → All (λ e. is_old l.window_s t e ≡ true) old
      → ((x : ℕ) → hits_at (is_old l.window_s) x log' ≤ limit_of l name)
      → Remembers (with_queue q) name log' t
  Remembers-with_queue old q log' splits gone within = record {
    forgotten = old;
    splits = splits ∙ ap (λ es. old ++ es) (sym (events_of-with_queue q));
    old = gone;
    within = λ x. rw (limit_of-with_queue q) (within x);
  }

  check-Remembers :
      Remembers l name log now
      → now ≤ t
      → Remembers (check l name t).1 name (log_after log t (check l name t).0) t
  unfolding check
  check-Remembers m le = elim (Bool-cases (leb (limit_of l name) (length kept_of))) [
    | inl full ↦
        rw full
          (Remembers-with_queue (old_of m) kept_of log (log-splits m) (old_of-old m le) m.within)
    | inr room ↦ rw room (
        Remembers-with_queue (old_of m) (kept_of ++ t ∷ []) (log ++ t ∷ [])
          (ap (λ q. q ++ t ∷ []) (log-splits m) ∙ append_assoc (old_of m) kept_of (t ∷ []))
          (old_of-old m le) (within_admit m le (ground arith)))
  ]

calls-within :
    (l : ToolRateLimiter) (name : String) (log times : List ℕ) (now x : ℕ)
    → Remembers l name log now
    → Ascending now times
    → hits_at (is_old l.window_s) x (calls l name log times) ≤ limit_of l name
unfolding calls
calls-within l name log [] now x m up = m.within x
calls-within l name log (t ∷ times) now x m up =
    let rest =
      calls-within (check l name t).1 name (log_after log t (check l name t).0) times t x
        (check-Remembers l name log now t m up.0) up.1 in
    rw ((check-settings l name t).0, (check-settings l name t).1) at rest

-- A limiter that has seen no call of `name` accepts, among calls at times that do not fall, at most
-- the tool's limit in any window: at no time `x` do more than that many accepted calls lie between
-- `x - window_s` and `x`.
pub calls-within-limit :
    (l : ToolRateLimiter) (name : String) (times : List ℕ) (x : ℕ)
    → events_of l name ≡ []
    → Ascending 0 times
    → hits_at (is_old l.window_s) x (calls l name [] times) ≤ limit_of l name
calls-within-limit l name times x fresh up =
    calls-within l name [] times 0 x
      (record { forgotten = []; splits = sym fresh; old = tt; within = λ y. omega arith }) up
