-- ===== src/Saga/Steps/Recovery.antt =====
-- Backward recovery: if each compensation undoes what its step did, as far as some assertion tells,
-- then a run of the loop that fails ends where it began.
use mathlib.Core.List.{reverse-append}
use plus_api.Common.{String, ◌≡◌, inl, inr, Option, none, some, List, [], ◌∷◌, ◌++◌, reverse}
use plus_api.Common.Result.{ok, err, Error, Result-cases}
use plus_api.Saga.Types.{SagaEventType, SagaContext, Run, SagaStep, SagaConfig, Services}
use plus_api.Saga.Events.{Details}
use plus_api.Saga.Events.Quiet.{IsQuiet, publish_event_quiet}
use mathlib.Core.Path.{subst, sym}
use plus_api.Saga.Steps.{
  emit, emit_here, execute_step, perform_compensation, compensate_each, compensate, fail_step,
  run_steps, run_loop,
}

abbrev pub Assertion : Type 0 → Type 1
Assertion S = S → Type 0

module _ {T V W : Type 0} where
  -- How the loop ended: in `Done` if every step completed, in `Clean` if one failed.
  abbrev pub Ended :
      Assertion (Run T V W)
      → Assertion (Run T V W)
      → List (SagaStep T V W) × Option (String × Error) × Run T V W
      → Type 0
  Ended Clean Done (completed, none, r) = Done r
  Ended Clean Done (completed, some failure, r) = Clean r

module _ {T V W : Type 0} (svc : Services T V W) (config : SagaConfig) where
  -- Publishing an event keeps the assertion.
  abbrev pub IsStable : Assertion (Run T V W) → Type 0
  IsStable Clean =
      (id : String) (type : SagaEventType) (d : Details V) (r : Run T V W)
      → Clean r
      → Clean (emit svc id type d r).1

  -- A step leads from one assertion to the next, or fails and keeps the first; its compensation leads
  -- back.
  pub record StepRule (Before : Assertion (Run T V W)) (step : SagaStep T V W)
      (After : Assertion (Run T V W)) : Type 0 where
    pub stable : IsStable Before
    pub completes :
        (r : Run T V W)
        → Before r
        → (execute_step svc config step r).0 ≡ ok tt
        → After (execute_step svc config step r).1
    pub fails :
        (r : Run T V W) (e : Error)
        → Before r
        → (execute_step svc config step r).0 ≡ err e
        → Before (execute_step svc config step r).1
    pub undoes : (r : Run T V W) → After r → Before (perform_compensation svc step r).1

  -- The same of a step that is never compensated, since it is the last one.
  pub record ForwardRule (Before : Assertion (Run T V W)) (step : SagaStep T V W)
      (After : Assertion (Run T V W)) : Type 0 where
    pub stable : IsStable Before
    pub completes :
        (r : Run T V W)
        → Before r
        → (execute_step svc config step r).0 ≡ ok tt
        → After (execute_step svc config step r).1
    pub fails :
        (r : Run T V W) (e : Error)
        → Before r
        → (execute_step svc config step r).0 ≡ err e
        → Before (execute_step svc config step r).1

  -- A chain of such steps that ends in `Done`.
  pub data Recovers (Done : Assertion (Run T V W))
      : Assertion (Run T V W) → List (SagaStep T V W) → Type 1 where
    last :
        {Before : Assertion (Run T V W)}
        → ((r : Run T V W) → Before r → Done r)
        → Recovers Done Before []
    next :
        {Before After : Assertion (Run T V W)} {step : SagaStep T V W}
        {steps : List (SagaStep T V W)}
        → StepRule Before step After
        → Recovers Done After steps
        → Recovers Done Before (step ∷ steps)
    ending :
        {Before : Assertion (Run T V W)} {step : SagaStep T V W}
        → ForwardRule Before step Done
        → Recovers Done Before (step ∷ [])

  fail_step_recovers :
      (Clean Before : Assertion (Run T V W)) (step : SagaStep T V W) (e : Error)
      (completed : List (SagaStep T V W))
      → IsStable Before
      → ((r : Run T V W) → Before r → Clean (compensate_each svc (reverse completed) r))
      → (r : Run T V W) → Before r
      → Clean (fail_step svc config step e completed r)
  unfolding fail_step compensate emit_here
  fail_step_recovers Clean Before step e completed stable back r h =
      back _ (stable _ _ _ _ (stable _ _ _ r h))

  run_steps-Recovers :
      (Clean Done : Assertion (Run T V W)) {Before : Assertion (Run T V W)}
      (completed : List (SagaStep T V W)) {steps : List (SagaStep T V W)}
      → Recovers Done Before steps
      → ((r : Run T V W) → Before r → Clean (compensate_each svc (reverse completed) r))
      → (r : Run T V W) → Before r
      → Ended Clean Done (run_steps svc config steps completed r)
  unfolding run_steps compensate_each
  run_steps-Recovers Clean Done completed (last done) back r h = done r h
  run_steps-Recovers Clean Done {Before} completed (next {After = After} {step = step} rule rest)
        back r h =
      elim (Result-cases (execute_step svc config step r).0) [
        | inl (a, returned) ↦
            rw (returned, run_steps)
              (run_steps-Recovers Clean Done (completed ++ step ∷ []) rest
                (λ r' h'. rw (reverse-append completed (step ∷ [])) (back _ (rule.undoes r' h'))) _
                (rule.completes r h returned))
        | inr (e, failed) ↦
            rw (failed, run_steps)
              (fail_step_recovers Clean Before step e completed rule.stable back _
                (rule.fails r e h failed))
      ]
  run_steps-Recovers Clean Done {Before} completed (ending {step = step} rule) back r h =
      elim (Result-cases (execute_step svc config step r).0) [
        | inl (a, returned) ↦ rw (returned, run_steps) (rule.completes r h returned)
        | inr (e, failed) ↦
            rw (failed, run_steps)
              (fail_step_recovers Clean Before step e completed rule.stable back _
                (rule.fails r e h failed))
      ]

  pub run_loop-Recovers :
      (Clean Done : Assertion (Run T V W)) (steps : List (SagaStep T V W))
      → Recovers Done Clean steps
      → (r : Run T V W) → Clean r
      → Ended Clean Done (run_loop svc config steps r)
  unfolding run_loop
  run_loop-Recovers Clean Done steps chain r h =
      run_steps-Recovers Clean Done [] chain (λ r' h'. h') r h

-- An assertion on the context and on what an observer sees of the world.
abbrev pub Seen :
    {T V W O : Type 0} → (W → O) → (SagaContext T V → O → Type 0) → Assertion (Run T V W)
Seen observe P r = P r.context (observe r.world)

module _ {T V W O : Type 0} (observe : W → O) (svc : Services T V W) (quiet : IsQuiet observe svc)
    (config : SagaConfig) where
  -- Such an assertion outlives every event.
  pub Seen-IsStable : (P : SagaContext T V → O → Type 0) → IsStable svc config (Seen observe P)
  unfolding emit
  Seen-IsStable P id type d r h =
      subst (P r.context) (sym (publish_event_quiet observe svc quiet id type d r.world)) h
