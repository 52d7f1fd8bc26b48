-- ===== src/ApiRunner/Report.antt =====
-- What the runner reports of a test, against the bare sequence of its steps.
use plus_api.Common.{
  ℕ, zero, suc, ◌+◌, ◌<◌, String, ◌≡◌, ◌∙◌, refl, ap, inl, inr, Option, none, some, List, [], ◌∷◌,
  ◌++◌, map, arith,
}
use mathlib.Core.List.{map-append}
use plus_api.Common.Lists.{length, take}
use plus_api.Common.Result.{Result, ok, err, Async, Result-cases, pure, ◌>>=◌}
use plus_api.TestResult.{StepResult, TestResultStatus}
use plus_api.TestService.{TestCase}
use plus_api.TestExecution.{ExecutionResult}
use plus_api.ApiRunner.Types.{TestStep, Http, Session}
use plus_api.ApiRunner.Steps.{execute_step}
use plus_api.ApiRunner.{
  Progress, steps_or_empty, run_steps, first_progress, passed_step, announced, execute,
}

-- what is told of a step: its number and its status
abbrev pub entry : StepResult → ℕ × TestResultStatus
entry r = (r.step_index, r.status)

abbrev pub entries : ExecutionResult → List (ℕ × TestResultStatus)
entries r = map entry r.step_results

-- the steps before number `n`, all passed
abbrev pub passes : ℕ → List (ℕ × TestResultStatus)
passes zero = []
passes (suc n) = passes n ++ (n, TestResultStatus.passed) ∷ []

-- the session in which a test starts
abbrev pub opened : {J W : Type 0} → W → Session J W
opened w = record { world = w; last_response = none }

later : (i n : ℕ) → i + 1 + n ≡ i + suc n
later i n = omega arith

next : (i : ℕ) → suc i ≡ i + 1
next i = omega arith

none_later : (i : ℕ) → i ≡ i + 0
none_later i = omega arith

module _ {J W : Type 0} (http : Http J W) (base_url : Option String) where
  -- the steps in turn, up to the first that throws
  unfoldable pub in_turn : List (TestStep J) → Async (Session J W) (Unit {0})
  in_turn [] = pure tt
  in_turn (step ∷ steps) = execute_step http base_url step >>= λ log. in_turn steps

  -- The report on steps that are numbered from `i` on, of which `s` is the start.
  abbrev pub IsReport :
      List (TestStep J) → ℕ → Session J W → Result (Unit {0}) → ExecutionResult → Type 0
  IsReport steps i s (ok done) r =
      (r.status ≡ TestResultStatus.passed)
      × (r.error_message ≡ none)
      × (entries r ≡ passes (i + length steps))
  IsReport steps i s (err e) r =
      (r.status ≡ TestResultStatus.failed)
      × (r.error_message ≡ some e.message)
      × ((n : ℕ) × (n < length steps)
          × ((in_turn (take n steps) s).0 ≡ ok tt)
          × (entries r ≡ passes (i + n) ++ (i + n, TestResultStatus.failed) ∷ []))

  -- A step that passes comes before the report of the others.
  IsReport-cons :
      (step : TestStep J) (steps : List (TestStep J)) (i : ℕ) (s : Session J W) (log : String)
      (x : Result (Unit {0})) (r : ExecutionResult)
      → (execute_step http base_url step s).0 ≡ ok log
      → IsReport steps (i + 1) (execute_step http base_url step s).1 x r
      → IsReport (step ∷ steps) i s x r
  unfolding in_turn
  IsReport-cons step steps i s log (ok done) r is (status, message, told) =
      (status, message, told ∙ ap passes (later i (length steps)))
  IsReport-cons step steps i s log (err e) r is (status, message, (n, below, before, told)) = (
    status,
    message,
    (
      suc n,
      omega arith,
      rw is before,
      told ∙ ap (λ k. passes k ++ (k, TestResultStatus.failed) ∷ []) (later i n),
    ),
  )

  run_steps-IsReport :
      (start : ℕ) (steps : List (TestStep J)) (i : ℕ) (p : Progress) (s : Session J W)
      → map entry p.step_results ≡ passes i
      → let (r, s') = run_steps http base_url start steps i p s in
        IsReport steps i s (in_turn steps s).0 r × (s' ≡ (in_turn steps s).1)
  unfolding run_steps in_turn
  run_steps-IsReport start [] i p s told = ((refl, refl, told ∙ ap passes (none_later i)), refl)
  run_steps-IsReport start (step ∷ steps) i p s told =
      elim (Result-cases (execute_step http base_url step s).0) [
        | inl (log, is) ↦
            let s' = (execute_step http base_url step s).1 in
            let p' =
              passed_step http i (http.now s.world) log (announced http step i p s.world)
                s'.world in
            let (report, same) = run_steps-IsReport start steps (i + 1) p' s' (
              map-append entry p.step_results _
              ∙ ap (λ l. l ++ (i, TestResultStatus.passed) ∷ []) told
              ∙ ap passes (next i)) in
            rw (is, run_steps) (IsReport-cons step steps i s log _ _ is report, same)
        | inr (e, is) ↦
            rw (is, run_steps)
              (
                (
                  refl,
                  refl,
                  (
                    0,
                    omega arith,
                    refl,
                    map-append entry p.step_results _
                        ∙ ap (λ l. l ++ (i, TestResultStatus.failed) ∷ []) told
                        ∙ ap (λ k. passes k ++ (k, TestResultStatus.failed) ∷ []) (none_later i),
                  ),
                ),
                refl,
              )
      ]

  -- The execution of a test always returns a result, and leaves the world as its steps in turn do, up
  -- to the first that throws. If none throws, the test has passed and each step is told as passed,
  -- under its number; if step n throws, the steps before it being done, then the test has failed with
  -- that error's message, the steps before n are told as passed, n as failed, and no other is told.
  pub execute-IsReport :
      (c : TestCase (Option (List (TestStep J)))) (w : W)
      → let steps = steps_or_empty c.content in
        let done = in_turn steps (opened w) in
        (r : ExecutionResult) × ((execute http base_url c w).0 ≡ ok r)
        × IsReport steps 0 (opened w) done.0 r
        × ((execute http base_url c w).1 ≡ done.1.world)
  unfolding execute
  execute-IsReport c w =
      let (report, same) =
        run_steps-IsReport (http.now w) (steps_or_empty c.content) 0 (first_progress http c.name w)
          (opened w) refl in
      (_, refl, report, ap (λ s. s.world) same)
