-- ===== src/TestRun/Counts.antt =====
-- The counters of a test run, and the status it completes with.
use plus_api.Common.{ℕ, ◌+◌, ◌<◌, ◌≡◌, ◌↔◌, refl, List, [], ◌∷◌, arith}
use plus_api.TestRun.{
  TestRun, TestRunStatus, start, complete, final_status, cancel, set_error, update_counts,
  increment_passed, increment_failed, increment_skipped,
}

-- a call of one of the methods
pub data Call : Type 0 where
  starts completes cancels errs : ℕ → Call
  counts : ℕ → ℕ → ℕ → Call
  passes fails skips : Call

module _ {C : Type 0} where
  abbrev pub perform : Call → TestRun C → TestRun C
  perform (starts now) = start now
  perform (completes now) = complete now
  perform (cancels now) = cancel now
  perform (errs now) = set_error now
  perform (counts n m k) = update_counts n m k
  perform passes = increment_passed
  perform fails = increment_failed
  perform skips = increment_skipped

  -- the calls in turn
  abbrev pub perform_all : List Call → TestRun C → TestRun C
  perform_all [] r = r
  perform_all (c ∷ cs) r = perform_all cs (perform c r)

  -- The total is the sum of the three counters.
  abbrev pub IsBalanced : TestRun C → Type 0
  IsBalanced r = r.total_tests ≡ r.passed_tests + r.failed_tests + r.skipped_tests

  perform-IsBalanced : (c : Call) (r : TestRun C) → IsBalanced r → IsBalanced (perform c r)
  unfolding start complete cancel set_error update_counts increment_passed increment_failed
      increment_skipped
  perform-IsBalanced (starts now) r h = h
  perform-IsBalanced (completes now) r h = h
  perform-IsBalanced (cancels now) r h = h
  perform-IsBalanced (errs now) r h = h
  perform-IsBalanced (counts n m k) r h = refl
  perform-IsBalanced passes r h = omega arith
  perform-IsBalanced fails r h = omega arith
  perform-IsBalanced skips r h = omega arith

  -- Whatever methods are called in whatever order, the total of a test run stays the sum of the
  -- passed, the failed and the skipped tests.
  pub perform_all-IsBalanced :
      (cs : List Call) (r : TestRun C) → IsBalanced r → IsBalanced (perform_all cs r)
  perform_all-IsBalanced [] r h = h
  perform_all-IsBalanced (c ∷ cs) r h =
      perform_all-IsBalanced cs (perform c r) (perform-IsBalanced c r h)

  -- A test run completes as PASSED exactly when some test passed and none failed, as FAILED exactly
  -- when some test failed and none passed, as PARTIAL exactly when some passed and some failed, and
  -- as ERROR exactly when none passed and none failed, be any skipped or not.
  complete_status :
      (now : ℕ) (r : TestRun C)
      → (((complete now r).status ≡ TestRunStatus.passed)
          ↔ ((0 < r.passed_tests) × (r.failed_tests ≡ 0)))
        × (((complete now r).status ≡ TestRunStatus.failed)
            ↔ ((r.passed_tests ≡ 0) × (0 < r.failed_tests)))
        × (((complete now r).status ≡ TestRunStatus.partial)
            ↔ ((0 < r.passed_tests) × (0 < r.failed_tests)))
        × (((complete now r).status ≡ TestRunStatus.error)
            ↔ ((r.passed_tests ≡ 0) × (r.failed_tests ≡ 0)))
  unfolding complete final_status
  complete_status now r = ground arith
