-- ===== src/TestExecution/View.antt =====
-- A test run as the saga's steps change it: its status and its counters.
use plus_api.Common.{
  ℕ, Bool, true, String, ◌≡◌, ◌⊎◌, ◌∙◌, refl, inl, inr, Option, none, some, List, [], ◌∷◌,
}
use plus_api.Common.Result.{Result, ok, err, Error, Async, Result-cases, pure, try_catch, ◌>>=◌}
use plus_api.Saga.Actions.{call, data_of, get_result}
use plus_api.Saga.Actions.Keeps.{
  Keeps, Keeps-pure, Keeps-throw, Keeps-call, Keeps-data_of, Keeps-get_result, Keeps-bind,
}
use plus_api.TestRun.{TestRun, TestRunStatus}
use plus_api.TestResult.{TestResultStatus}
use plus_api.TestService.{
  TestType, TestCase, RunUpdate, ResultUpdate, TestClient, get_by_id, find_by_id, found_or_throw,
  create_result, update_result, find_by_ids,
}
use plus_api.TestExecution.{
  ExecuteTestRunData, Runners, Counts, no_counts, revert_update, StepOutput, loaded, started,
  executed, completed, count, cases_of, some_cases, runner_of, record_result, record_error,
  try_case, run_case, run_cases, load_data, no_undo, execute_tests,
}

pub record RunView : Type 0 where
  pub status : TestRunStatus
  pub total_tests : ℕ
  pub passed_tests : ℕ
  pub failed_tests : ℕ
  pub skipped_tests : ℕ

-- what an update leaves in a field
abbrev pub updated : {A : Type 0} → Option A → A → A
updated none old = old
updated (some new) old = new

abbrev pub with_update : RunUpdate → RunView → RunView
with_update u v = record {
  status = updated u.status v.status;
  total_tests = updated u.total_tests v.total_tests;
  passed_tests = updated u.passed_tests v.passed_tests;
  failed_tests = updated u.failed_tests v.failed_tests;
  skipped_tests = updated u.skipped_tests v.skipped_tests;
}

-- How the run was changed by `f`, where what has been refused stays so.
abbrev pub After : (RunView → RunView) → RunView × Bool → RunView × Bool → Type 0
After f before after = (before.1 ≡ true → after.1 ≡ true) × (after.0 ≡ f before.0)

-- An update that throws changes nothing in the run.
abbrev pub Updates : {A : Type 0} → RunUpdate → RunView × Bool → Result A → RunView × Bool → Type 0
Updates u before (ok a) after = After (with_update u) before after
Updates u before (err e) after = After (λ v. v) before after

module _ {W : Type 0} (view : W → RunView) (refused : W → Bool) where
  -- the run, and whether setting it back to PENDING has been refused
  abbrev pub see : W → RunView × Bool
  see w = (view w, refused w)

module _ {C O S W : Type 0} (client : TestClient C S W) (runners : Runners O S W)
    (view : W → RunView) (refused : W → Bool) (id : String) where
  -- What the database and the runners do to the run with this id: an update changes the fields that
  -- it names, or throws and changes nothing; setting the status back to PENDING returns or is
  -- refused; nothing else changes the run.
  pub record IsStored : Type 0 where
    pub updates :
        (u : RunUpdate) (w : W)
        → Updates u
            (see view refused w)
            (client.update_run id u w).0
            (see view refused (client.update_run id u w).1)
    pub reverts :
        (w : W)
        → (refused (client.update_run id revert_update w).1 ≡ true)
          ⊎ ((r : TestRun C) × ((client.update_run id revert_update w).0 ≡ ok r))
    pub finds : (j : String) (w : W) → see view refused (client.find_run j w).1 ≡ see view refused w
    pub finds_cases :
        (ids : List String) (w : W)
        → see view refused (client.find_cases ids w).1 ≡ see view refused w
    pub creates_result :
        (r c : String) (s : TestResultStatus) (w : W)
        → see view refused (client.create_result r c s w).1 ≡ see view refused w
    pub updates_result :
        (r : String) (u : ResultUpdate) (w : W)
        → see view refused (client.update_result r u w).1 ≡ see view refused w
    pub runs_web :
        (c : TestCase S) (env : Option String) (o : Option O) (w : W)
        → see view refused (runners.web c env o w).1 ≡ see view refused w
    pub runs_api :
        (c : TestCase S) (env : Option String) (o : Option O) (w : W)
        → see view refused (runners.api c env o w).1 ≡ see view refused w

module _ {W : Type 0} (view : W → RunView × Bool) where
  -- An action of the world that leaves the view alone.
  abbrev pub Quiet : {A : Type 0} → Async W A → Type 0
  Quiet m = (w : W) → view (m w).1 ≡ view w

  Quiet-bind :
      {A B : Type 0} (m : Async W A) (f : A → Async W B)
      → Quiet m
      → ((a : A) → Quiet (f a))
      → Quiet (m >>= f)
  Quiet-bind m f hm hf w = elim (Result-cases (m w).0) [
    | inl (a, is) ↦ rw is (hf a (m w).1 ∙ hm w)
    | inr (e, is) ↦ rw is (hm w)
  ]

  Quiet-catch :
      {A : Type 0} (m : Async W A) (g : Error → Async W A)
      → Quiet m
      → ((e : Error) → Quiet (g e))
      → Quiet (try_catch m pure g)
  Quiet-catch m g hm hg w = elim (Result-cases (m w).0) [
    | inl (a, is) ↦ rw is (hm w)
    | inr (e, is) ↦ rw is (hg e (m w).1 ∙ hm w)
  ]

module _ {C O S W : Type 0} (client : TestClient C S W) (runners : Runners O S W)
    (view : W → RunView) (refused : W → Bool) (id : String)
    (stored : IsStored client runners view refused id) where
  abbrev Seeing : W → RunView × Bool
  Seeing = see view refused

  Quiet-get_by_id : (j : String) → Quiet Seeing (get_by_id client j)
  unfolding get_by_id find_by_id found_or_throw
  Quiet-get_by_id j =
      Quiet-bind Seeing (client.find_run j) (found_or_throw j) (stored.finds j) (Quiet-found j)
    where
      Quiet-found :
          (id : String) (r : Option (TestRun C)) → Quiet Seeing (found_or_throw {W = W} id r)
      Quiet-found id none w = refl
      Quiet-found id (some r) w = refl

  Quiet-runner_of :
      (t : TestType) (c : TestCase S) (env : Option String) (o : Option O)
      → Quiet Seeing (runner_of client runners t c env o)
  Quiet-runner_of TestType.web c env o w = stored.runs_web c env o w
  Quiet-runner_of TestType.api c env o w = stored.runs_api c env o w

  Quiet-try_case :
      (d : ExecuteTestRunData O) (c : TestCase S) (j : String) (k : Counts)
      → Quiet Seeing (try_case client runners d c j k)
  unfolding try_case record_result record_error update_result
  Quiet-try_case d c j k =
      Quiet-catch Seeing
        (runner_of client runners c.type c d.environment d.config
          >>= record_result client runners j k)
        (record_error client runners j k)
        (Quiet-bind Seeing (runner_of client runners c.type c d.environment d.config)
          (record_result client runners j k) (Quiet-runner_of c.type c d.environment d.config)
          (λ x w.
            Quiet-bind Seeing (client.update_result j _) (λ _. pure (count x.status k))
              (stored.updates_result j _) (λ u w'. refl) w))
        (λ e w.
          Quiet-bind Seeing (client.update_result j _) (λ _. pure _) (stored.updates_result j _)
            (λ u w'. refl) w)

  Quiet-run_cases :
      (d : ExecuteTestRunData O) (cs : List (TestCase S)) (k : Counts)
      → Quiet Seeing (run_cases client runners d cs k)
  unfolding run_cases run_case create_result
  Quiet-run_cases d [] k w = refl
  Quiet-run_cases d (c ∷ cs) k w =
      Quiet-bind Seeing (run_case client runners d c k) (run_cases client runners d cs)
        (Quiet-bind Seeing (client.create_result d.test_run_id c.id _)
          (λ result. try_case client runners d c result.id k)
          (stored.creates_result d.test_run_id c.id _) (λ result. Quiet-try_case d c result.id k))
        (Quiet-run_cases d cs) w

  pub load_data-Keeps : Keeps Seeing (load_data client runners)
  unfolding load_data find_by_ids some_cases
  load_data-Keeps = Keeps-bind Seeing data_of _ (Keeps-data_of Seeing) (λ d.
      Keeps-bind Seeing (call _) _ (Keeps-call Seeing _ (Quiet-get_by_id d.test_run_id)) (λ r.
        Keeps-bind Seeing (call _) _ (Keeps-call Seeing _ (stored.finds_cases d.test_case_ids))
          (λ cs. Keeps-some r cs)))
    where
      Keeps-some :
          (r : TestRun C) (cs : List (TestCase S))
          → Keeps {T = ExecuteTestRunData O} {V = StepOutput C S} Seeing (some_cases r cs)
      Keeps-some r [] = Keeps-throw Seeing _
      Keeps-some r (c ∷ cs) = Keeps-pure Seeing _

  pub no_undo-Keeps : (v : Option (StepOutput C S)) → Keeps Seeing (no_undo client runners v)
  unfolding no_undo
  no_undo-Keeps v = Keeps-pure Seeing tt

  pub execute_tests-Keeps : Keeps Seeing (execute_tests client runners)
  unfolding execute_tests cases_of
  execute_tests-Keeps = Keeps-bind Seeing (get_result _) _ (Keeps-get_result Seeing _) (λ result.
      Keeps-bind Seeing (cases_of result) _ (Keeps-cases result) (λ cs.
        Keeps-bind Seeing data_of _ (Keeps-data_of Seeing) (λ d.
          Keeps-bind Seeing (call _) _ (Keeps-call Seeing _ (Quiet-run_cases d cs no_counts))
            (λ k. Keeps-pure Seeing _))))
    where
      Keeps-cases :
          (v : Option (StepOutput C S))
          → Keeps {T = ExecuteTestRunData O} {V = StepOutput C S} Seeing (cases_of v)
      Keeps-cases none = Keeps-throw Seeing _
      Keeps-cases (some (loaded r cs)) = Keeps-pure Seeing _
      Keeps-cases (some (started r)) = Keeps-throw Seeing _
      Keeps-cases (some (executed k)) = Keeps-throw Seeing _
      Keeps-cases (some (completed r s)) = Keeps-throw Seeing _
