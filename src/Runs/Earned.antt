-- ===== src/Runs/Earned.antt =====
-- What a run rests on that the database holds as succeeded.
use chief_opportunity_intell.Prelude.{
  String, ◌≡◌, refl, sym, ap, ◌∙◌, ◌⊎◌, inl, inr, Bool, true, false, none, some, List, [], ◌∷◌,
  arith, Result, ok, err,
}
use chief_opportunity_intell.Runs.{
  run_unless, mark_running, mark_cancelled, mark_succeeded, mark_failed, run_background, Background,
  after_graph, after_result, catch, flushed, report_failure, commit_run, close, cancel, AgentRun,
  Course, run_graph, AgentRunStatus, Raised, exception, base_exception,
}

running_succeeded : AgentRunStatus.running ≡ AgentRunStatus.succeeded → ⊥
running_succeeded h = ground arith

cancelled_succeeded : AgentRunStatus.cancelled ≡ AgentRunStatus.succeeded → ⊥
cancelled_succeeded h = ground arith

failed_succeeded : AgentRunStatus.failed ≡ AgentRunStatus.succeeded → ⊥
failed_succeeded h = ground arith

module _ {J : Type 0} where
  -- The state before something is raised.
  abbrev going_on : AgentRun J → AgentRun J → List AgentRunStatus → Background J
  going_on run saved done = record {
    run = run;
    saved = saved;
    done = done;
    is_closed = false;
    escaped = none;
  }

  abbrev IsUnsucceeded : AgentRun J → Background J → Type 0
  IsUnsucceeded saved b = (b.saved ≡ saved) ⊎ (b.saved.status ≡ AgentRunStatus.failed)

  close_failure :
      (c : Course J) (flush commit : Result Raised (Unit {0})) (text : String)
      (run saved : AgentRun J) (done : List AgentRunStatus)
      → IsUnsucceeded saved (
          commit_run commit
            (report_failure flush (going_on (mark_failed c.ended text run) saved done)).escaped
            (record (report_failure flush (going_on (mark_failed c.ended text run) saved done)) {
              is_closed = true;
            }))
  unfolding commit_run report_failure mark_failed
  close_failure c (err e) commit text run saved done = inl refl
  close_failure c (ok _) (err e) text run saved done = inl refl
  close_failure c (ok _) (ok _) text run saved done = inr refl

  close_caught :
      (c : Course J) (e : Raised) (run saved : AgentRun J) (done : List AgentRunStatus)
      → IsUnsucceeded saved (close c (catch c e (going_on run saved done)))
  unfolding close catch flushed commit_run
  close_caught c (base_exception text) run saved done = inl refl
  close_caught c (exception text true) run saved done =
      close_failure c (err (exception "PendingRollbackError" true)) c.commit text run saved done
  close_caught c (exception text false) run saved done =
      close_failure c c.flush c.commit text run saved done

  not_succeeded :
      (saved : AgentRun J) (b : Background J)
      → saved.status ≡ AgentRunStatus.running
      → IsUnsucceeded saved b
      → b.saved.status ≡ AgentRunStatus.succeeded
      → ⊥
  not_succeeded saved b runs (inl same) h =
      running_succeeded (sym runs ∙ sym (ap (λ r. r.status) same) ∙ h)
  not_succeeded saved b runs (inr failed) h = failed_succeeded (sym failed ∙ h)

  caught_succeeded :
      (c : Course J) (e : Raised) (run saved : AgentRun J) (done : List AgentRunStatus)
      → saved.status ≡ AgentRunStatus.running
      → (close c (catch c e (going_on run saved done))).saved.status ≡ AgentRunStatus.succeeded
      → ⊥
  caught_succeeded c e run saved done runs h =
      not_succeeded saved (close c (catch c e (going_on run saved done))) runs
        (close_caught c e run saved done) h

  -- What a success in the database rests on.
  abbrev pub IsEarned : Course J → Result Raised J → Background J → Type 0
  IsEarned c graph b =
      (r : J) × (graph ≡ ok r)
      × (b.saved.result ≡ some r)
      × (c.stored ≡ ok tt)
      × (c.audit ≡ ok tt)
      × (c.commit ≡ ok tt)
      × (b.done ≡ AgentRunStatus.succeeded ∷ [])
      × (b.escaped ≡ none)

  commit-IsEarned :
      (c : Course J) (commit : Result Raised (Unit {0})) (r : J) (run saved : AgentRun J)
      → saved.status ≡ AgentRunStatus.running
      → c.stored ≡ ok tt
      → c.audit ≡ ok tt
      → c.commit ≡ commit
      → (commit_run commit none
          (record (going_on (mark_succeeded c.ended r run) saved (AgentRunStatus.succeeded ∷ [])) {
            is_closed = true;
          })).saved.status
        ≡ AgentRunStatus.succeeded
      → IsEarned c (ok r) (
          commit_run commit none
            (record (going_on
              (mark_succeeded c.ended r run)
              saved
              (AgentRunStatus.succeeded ∷ [])) { is_closed = true }))
  unfolding commit_run mark_succeeded
  commit-IsEarned c (err e) r run saved runs stored audit commit h =
      absurd (running_succeeded (sym runs ∙ h))
  commit-IsEarned c (ok tt) r run saved runs stored audit commit h =
      (r, refl, refl, stored, audit, commit, refl, refl)

  after_graph-IsEarned :
      (c : Course J) (audit : Result Raised (Unit {0})) (r : J) (run saved : AgentRun J)
      → saved.status ≡ AgentRunStatus.running
      → c.stored ≡ ok tt
      → c.audit ≡ audit
      → (close c (
          after_graph c audit (
            going_on
              (mark_succeeded c.ended r run)
              saved
              (AgentRunStatus.succeeded ∷ [])))).saved.status
        ≡ AgentRunStatus.succeeded
      → IsEarned c (ok r) (
          close c (
            after_graph c audit
              (going_on (mark_succeeded c.ended r run) saved (AgentRunStatus.succeeded ∷ []))))
  unfolding after_graph close
  after_graph-IsEarned c (err e) r run saved runs stored audit h = absurd (
      caught_succeeded c e (mark_succeeded c.ended r run) saved (AgentRunStatus.succeeded ∷ []) runs
        h)
  after_graph-IsEarned c (ok tt) r run saved runs stored audit h =
      commit-IsEarned c c.commit r run saved runs stored audit refl h

  after_result-IsEarned :
      (c : Course J) (outcome : Result Raised (Unit {0})) (r : J) (run saved : AgentRun J)
      → saved.status ≡ AgentRunStatus.running
      → c.stored ≡ outcome
      → (close c
          (after_result c outcome (going_on (mark_succeeded c.ended r run) saved []))).saved.status
        ≡ AgentRunStatus.succeeded
      → IsEarned c
          (ok r)
          (close c (after_result c outcome (going_on (mark_succeeded c.ended r run) saved [])))
  unfolding after_result
  after_result-IsEarned c (err e) r run saved runs stored h =
      absurd (caught_succeeded c e (mark_succeeded c.ended r run) saved [] runs h)
  after_result-IsEarned c (ok tt) r run saved runs stored h =
      after_graph-IsEarned c c.audit r run saved runs stored refl h

  run_graph-IsEarned :
      (c : Course J) (graph : Result Raised J) (run saved : AgentRun J)
      → saved.status ≡ AgentRunStatus.running
      → (close c (run_graph c graph (going_on run saved []))).saved.status
        ≡ AgentRunStatus.succeeded
      → IsEarned c graph (close c (run_graph c graph (going_on run saved [])))
  unfolding run_graph
  run_graph-IsEarned c (err e) run saved runs h = absurd (caught_succeeded c e run saved [] runs h)
  run_graph-IsEarned c (ok r) run saved runs h =
      after_result-IsEarned c c.stored r run saved runs refl h

  cancel_succeeded :
      (c : Course J) (outcome : Result Raised (Unit {0})) (run saved : AgentRun J)
      → saved.status ≡ AgentRunStatus.running
      → (cancel c outcome (going_on (mark_cancelled c.ended run) saved [])).saved.status
        ≡ AgentRunStatus.succeeded
      → ⊥
  unfolding cancel mark_cancelled
  cancel_succeeded c (ok _) run saved runs h = cancelled_succeeded h
  cancel_succeeded c (err e) run saved runs h =
      caught_succeeded c e (mark_cancelled c.ended run) saved [] runs h

  run_unless-IsEarned :
      (c : Course J) (flag : Bool) (run saved : AgentRun J)
      → saved.status ≡ AgentRunStatus.running
      → (run_unless c flag (going_on run saved [])).saved.status ≡ AgentRunStatus.succeeded
      → (flag ≡ false) × IsEarned c c.graph (run_unless c flag (going_on run saved []))
  unfolding run_unless
  run_unless-IsEarned c true run saved runs h =
      absurd (cancel_succeeded c c.cancelling run saved runs h)
  run_unless-IsEarned c false run saved runs h =
      (refl, run_graph-IsEarned c c.graph run saved runs h)

  -- A run that the database holds as succeeded was not cancelled before the graph started; its graph
  -- returned, and the row holds what it returned; storing the result, the audit and the last commit
  -- raised nothing; one `done` event was sent, and nothing escaped. So a run whose audit raises is
  -- never held as succeeded, though its result was stored and its success reported before.
  pub run_background-IsEarned :
      (c : Course J) (run : AgentRun J)
      → (run_background c run).saved.status ≡ AgentRunStatus.succeeded
      → (c.is_cancelled ≡ false) × IsEarned c c.graph (run_background c run)
  unfolding run_background mark_running
  run_background-IsEarned c run h =
      run_unless-IsEarned c c.is_cancelled (mark_running c.started run) (mark_running c.started run)
        refl h
