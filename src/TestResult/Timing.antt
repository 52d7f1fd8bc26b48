-- ===== src/TestResult/Timing.antt =====
-- The times of a test's result.
use plus_api.Common.{ℕ, String, ◌≡◌, ◌⊎◌, refl, Option, none, some, List, [], ◌∷◌, arith}
use plus_api.Common.Int.{sub_ℕ}
use plus_api.TestResult.{
  TestRunResult, TestResultStatus, StepResult, duration_since, start, pass, fail, skip, set_error,
  set_step_results, add_artifact,
}

-- a call of one of the methods
pub data Call : Type 0 where
  starts : ℕ → Call
  passes : Option String → ℕ → Call
  fails : String → Option String → Option String → ℕ → Call
  skips : Call
  errs : String → ℕ → Call
  sets_step_results : List StepResult → Call
  adds_artifact : String → Call

abbrev pub perform : Call → TestRunResult → TestRunResult
perform (starts now) = start now
perform (passes logs now) = pass logs now
perform (fails message stack url now) = fail message stack url now
perform skips = skip
perform (errs message now) = set_error message now
perform (sets_step_results steps) = set_step_results steps
perform (adds_artifact url) = add_artifact url

-- the calls in turn
abbrev pub perform_all : List Call → TestRunResult → TestRunResult
perform_all [] r = r
perform_all (c ∷ cs) r = perform_all cs (perform c r)

-- the times of a passed or failed result
abbrev pub IsTimed : TestRunResult → Type 0
IsTimed r =
    (r.status ≡ TestResultStatus.passed) ⊎ (r.status ≡ TestResultStatus.failed)
    → (finished : ℕ) × (r.finished_at ≡ some finished)
      × ((started : ℕ) → r.started_at ≡ some started → r.duration ≡ some (sub_ℕ finished started))

duration_since_lem :
    (at : Option ℕ) (finished : ℕ) (old : _) (started : ℕ)
    → at ≡ some started
    → duration_since at finished old ≡ some (sub_ℕ finished started)
duration_since_lem none finished old started h = ground arith
duration_since_lem (some s) finished old started h = ground arith

perform-IsTimed : (c : Call) (r : TestRunResult) → IsTimed r → IsTimed (perform c r)
unfolding start pass fail skip set_error set_step_results add_artifact
perform-IsTimed (starts now) r h = ground arith
perform-IsTimed (passes logs now) r h =
    λ done. (now, refl, λ started is. duration_since_lem r.started_at now r.duration started is)
perform-IsTimed (fails message stack url now) r h =
    λ done. (now, refl, λ started is. duration_since_lem r.started_at now r.duration started is)
perform-IsTimed skips r h = ground arith
perform-IsTimed (errs message now) r h = ground arith
perform-IsTimed (sets_step_results steps) r h = h
perform-IsTimed (adds_artifact url) r h = h

-- Whatever methods are called on a result in whatever order: while it is passed or failed it has a
-- finishing time, and if it has a starting time too, its duration is the time between them.
pub perform_all-IsTimed :
    (cs : List Call) (r : TestRunResult) → IsTimed r → IsTimed (perform_all cs r)
perform_all-IsTimed [] r h = h
perform_all-IsTimed (c ∷ cs) r h = perform_all-IsTimed cs (perform c r) (perform-IsTimed c r h)
