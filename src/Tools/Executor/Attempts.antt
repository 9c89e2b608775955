-- ===== src/Tools/Executor/Attempts.antt =====
-- The retry loop of the executor.
use chief_opportunity_intell.Prelude.{
  ℕ, zero, suc, ◌+◌, ◌≡◌, ap, ◌∙◌, inl, inr, Bool, true, false, none, some, arith, Bool-cases,
}
use chief_opportunity_intell.Enums.{ToolCallStatus}
use chief_opportunity_intell.Tools.Types
use chief_opportunity_intell.Tools.Types.{ErrorCode, ToolError, Attempt}
use chief_opportunity_intell.Tools.Executor.{Progress, attempts_from}

-- Whether an attempt ends the loop, whatever rounds are left.
abbrev pub is_final : {P : Type 0} → Attempt P → Bool
is_final (Attempt.returns raw) = true
is_final Attempt.times_out = true
is_final (Attempt.raises_tool_error e) = elim e.code [ Types.not_found ↦ true | _ ↦ false ]
is_final (Attempt.raises_app_error message) = false
is_final Attempt.raises_other = true

-- What one attempt writes into the loop's variables.
abbrev pub after : {P : Type 0} → Attempt P → Progress P → Progress P
after (Attempt.returns raw) p = record p {
  result_payload = some raw;
  status = ToolCallStatus.succeeded;
}
after Attempt.times_out p = record p {
  status = ToolCallStatus.timeout;
  error_code = some Types.timeout;
  last_error = some "Tool timed out";
}
after (Attempt.raises_tool_error e) p = record p {
  error_code = some e.code;
  last_error = some e.message;
}
after (Attempt.raises_app_error message) p = record p {
  error_code = some Types.validation_error;
  last_error = some message;
}
after Attempt.raises_other p = record p {
  error_code = some Types.internal_error;
  last_error = some "Tool execution failed";
}

-- A payload is there exactly when the status says so.
abbrev pub is_settled : {P : Type 0} → Progress P → Bool
is_settled p = elim p.result_payload [ some _ ↦ true | none ↦ false ]

abbrev pub is_succeeded : ToolCallStatus → Bool
is_succeeded ToolCallStatus.succeeded = true
is_succeeded _ = false

module _ {P : Type 0} (run : ℕ → Attempt P) where
  -- The first `k` attempts fail in a way that is tried again.
  abbrev pub Retried : ℕ → ℕ → Type 0
  Retried n zero = Unit
  Retried n (suc k) = (is_final (run n) ≡ false) × Retried (suc n) k

  -- What `k` attempts from the n-th on write, one after the other.
  abbrev pub after_all : ℕ → ℕ → Progress P → Progress P
  after_all n zero p = p
  after_all n (suc k) p = after_all (suc n) k (after (run n) p)

  step_retry :
      (n left : ℕ) (p : Progress P)
      → is_final (run n) ≡ false
      → attempts_from run n (suc left) p ≡ attempts_from run (suc n) left (after (run n) p)
  unfolding attempts_from
  step_retry n left p h = ground arith

  step_final :
      (n left : ℕ) (p : Progress P)
      → is_final (run n) ≡ true
      → attempts_from run n (suc left) p ≡ after (run n) p
  unfolding attempts_from
  step_final n left p h = ground arith

  -- The loop makes exactly the attempts up to the first final one, if that comes within its rounds:
  -- after `k` attempts that are tried again and a final one, later attempts and further rounds do
  -- not matter.
  pub attempts_from-first_final :
      (n k left : ℕ) (p : Progress P)
      → Retried n k
      → is_final (run (n + k)) ≡ true
      → attempts_from run n (k + suc left) p ≡ after (run (n + k)) (after_all n k p)
  attempts_from-first_final n zero left p r f =
      let e : n + 0 ≡ n = omega arith in
      let rounds : 0 + suc left ≡ suc left = omega arith in
      rw (e, rounds) (step_final n left p (rw e at f))
  attempts_from-first_final n (suc k) left p r f =
      let e : n + suc k ≡ suc n + k = omega arith in
      let rounds : suc k + suc left ≡ suc (k + suc left) = omega arith in
      rw (e, rounds)
        (step_retry n (k + suc left) p r.0
          ∙ attempts_from-first_final (suc n) k left (after (run n) p) r.1 (rw e at f))

  settled_final :
      (n : ℕ) (p : Progress P)
      → p.result_payload ≡ none
      → is_succeeded p.status ≡ false
      → is_final (run n) ≡ true
      → is_settled (after (run n) p) ≡ is_succeeded (after (run n) p).status
  settled_final n p none_yet h f = ground arith

  after_retried :
      (n : ℕ) (p : Progress P)
      → is_final (run n) ≡ false
      → ((after (run n) p).result_payload ≡ p.result_payload)
        × ((after (run n) p).status ≡ p.status)
  after_retried n p f = ground arith

  -- From a state that has no payload and no success, the loop ends with a payload exactly when it
  -- ends with the status `succeeded`.
  pub attempts_from-settled :
      (n left : ℕ) (p : Progress P)
      → p.result_payload ≡ none
      → is_succeeded p.status ≡ false
      → is_settled (attempts_from run n left p) ≡ is_succeeded (attempts_from run n left p).status
  attempts_from-settled n zero p none_yet h = unfold attempts_from in ground arith
  attempts_from-settled n (suc left) p none_yet h = elim (Bool-cases (is_final (run n))) [
    | inl f ↦ rw (step_final n left p f) (settled_final n p none_yet h f)
    | inr f ↦ rw (step_retry n left p f) (
        attempts_from-settled (suc n) left (after (run n) p) ((after_retried n p f).0 ∙ none_yet)
          (ap is_succeeded (after_retried n p f).1 ∙ h))
  ]
