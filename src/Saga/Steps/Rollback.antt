-- ===== src/Saga/Steps/Rollback.antt =====
-- The order of a saga's calls: the loop executes the steps one by one, and after a failure
-- compensates the completed ones backwards.
use mathlib.Core.List.{append_assoc, append-nil}
use plus_api.Common.{
  String, ◌≡◌, refl, sym, ap, ◌∙◌, inl, inr, Option, none, some, List, [], ◌∷◌, ◌++◌, reverse,
}
use plus_api.Common.Lists.{All, All-append, All-reverse}
use plus_api.Common.Result.{Error, Result-cases}
use plus_api.Saga.Types.{Run, SagaStep, SagaConfig, Services}
use plus_api.Saga.Events.Quiet.{IsQuiet}
use plus_api.Saga.Steps.{
  execute_step, perform_compensation, compensate_each, compensate, fail_step, run_steps, run_loop,
}
use plus_api.Saga.Steps.Trace
use plus_api.Saga.Steps.Trace.{Call, executed, compensated, executions, compensations, IsObserved}

module _ {T V W : Type 0} (observe : W → List Call) where
  -- What a run of the loop has called, by how it ended. On success: every step, in order. On a
  -- failure: some steps, then one that failed, then the compensations of what had completed, the
  -- last one first.
  abbrev pub HasRun :
      List (SagaStep T V W)
      → List (SagaStep T V W)
      → List Call
      → List (SagaStep T V W) × Option (String × Error) × Run T V W
      → Type 0
  HasRun earlier steps before (completed, none, r) =
      (completed ≡ earlier ++ steps) × (observe r.world ≡ before ++ executions steps)
  HasRun earlier steps before (completed, some (name, e), r) =
      (ran : List (SagaStep T V W)) × (s : SagaStep T V W) × (rest : List (SagaStep T V W)) × (steps
        ≡ ran ++ s ∷ rest)
      × (name ≡ s.name)
      × (completed ≡ earlier ++ ran)
      × (observe r.world
          ≡ before
            ++ (executions ran ++ executed s.name ∷ compensations (reverse (earlier ++ ran))))

  module _ (svc : Services T V W) (quiet : IsQuiet observe svc) where
    abbrev calls : Run T V W → List Call
    calls r = observe r.world

    run_loop_lem :
        (config : SagaConfig) (steps : List (SagaStep T V W)) (r : Run T V W)
        → run_loop svc config steps r ≡ run_steps svc config steps [] r
    unfolding run_loop
    run_loop_lem config steps r = refl

    calls-compensate_each :
        (steps : List (SagaStep T V W))
        → All (IsObserved observe) steps
        → (r : Run T V W) → calls (compensate_each svc steps r) ≡ calls r ++ compensations steps
    unfolding compensate_each
    calls-compensate_each [] seen r = sym (append-nil (calls r))
    calls-compensate_each (s ∷ steps) seen r =
        calls-compensate_each steps seen.1 (perform_compensation svc s r).1
        ∙ ap (λ c. c ++ compensations steps)
            (Trace.calls-perform_compensation observe svc quiet s seen.0 r)
        ∙ append_assoc (calls r) (compensated s.name ∷ []) (compensations steps)

    -- An error in one compensation does not keep the others from being called.
    pub compensate_calls :
        (steps : List (SagaStep T V W))
        → All (IsObserved observe) steps
        → (r : Run T V W) → calls (compensate svc steps r) ≡ calls r ++ compensations steps
    unfolding compensate
    compensate_calls steps seen r =
        calls-compensate_each steps seen _
        ∙ ap (λ c. c ++ compensations steps) (Trace.emit_here_quiet observe svc quiet _ _ r)

    calls-fail_step :
        (config : SagaConfig) (s : SagaStep T V W) (e : Error) (completed : List (SagaStep T V W))
        → All (IsObserved observe) completed
        → (r : Run T V W)
        → calls (fail_step svc config s e completed r)
          ≡ calls r ++ compensations (reverse completed)
    unfolding fail_step
    calls-fail_step config s e completed seen r =
        compensate_calls (reverse completed) (All-reverse (IsObserved observe) completed seen) _
        ∙ ap (λ c. c ++ compensations (reverse completed))
            (Trace.emit_quiet observe svc quiet _ _ _ r)

    HasRun-cons :
        (earlier steps : List (SagaStep T V W)) (s : SagaStep T V W) (before after : List Call)
        (result : List (SagaStep T V W) × Option (String × Error) × Run T V W)
        → after ≡ before ++ executed s.name ∷ []
        → HasRun (earlier ++ s ∷ []) steps after result
        → HasRun earlier (s ∷ steps) before result
    HasRun-cons earlier steps s before after (completed, none, r) step (all, seen) =
        (all ∙ append_assoc earlier (s ∷ []) steps, seen ∙ rw step (append_assoc before _ _))
    HasRun-cons earlier steps s before after (completed, some (n, e), r) step
          (ran, f, rest, parts, name, done, seen) =
        (
          s ∷ ran,
          f,
          rest,
          ap (λ l. s ∷ l) parts,
          name,
          done ∙ append_assoc earlier (s ∷ []) ran,
          seen ∙ simp (step, append_assoc),
        )

    run_steps-HasRun :
        (config : SagaConfig) (earlier steps : List (SagaStep T V W))
        → All (IsObserved observe) earlier
        → All (IsObserved observe) steps
        → (r : Run T V W) → HasRun earlier steps (calls r) (run_steps svc config steps earlier r)
    unfolding run_steps
    run_steps-HasRun config earlier [] p q r =
        (sym (append-nil earlier), sym (append-nil (calls r)))
    run_steps-HasRun config earlier (s ∷ steps) p q r =
        elim (Result-cases (execute_step svc config s r).0) [
          | inl (a, ok) ↦
              rw (ok, run_steps)
                (HasRun-cons earlier steps s (calls r) _ _
                  (Trace.calls-execute_step observe svc quiet s q.0 config r)
                  (run_steps-HasRun config (earlier ++ s ∷ []) steps
                    (All-append (IsObserved observe) earlier (s ∷ []) p (q.0, tt)) q.1 _))
          | inr (e, failed) ↦
              rw (failed, run_steps)
                (
                  [],
                  s,
                  steps,
                  refl,
                  refl,
                  sym (append-nil earlier),
                  rw (append-nil earlier) (
                      calls-fail_step config s e earlier p _
                      ∙ ap (λ c. c ++ compensations (reverse earlier))
                          (Trace.calls-execute_step observe svc quiet s q.0 config r)
                      ∙ append_assoc (calls r) (executed s.name ∷ [])
                          (compensations (reverse earlier))),
                )
        ]

    -- The loop that `execute` runs, from no completed step.
    pub run_loop-HasRun :
        (config : SagaConfig) (steps : List (SagaStep T V W))
        → All (IsObserved observe) steps
        → (r : Run T V W) → HasRun [] steps (calls r) (run_loop svc config steps r)
    run_loop-HasRun config steps q r =
        rw (run_loop_lem config steps r) (run_steps-HasRun config [] steps tt q r)
