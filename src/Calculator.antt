-- ===== src/Calculator.antt =====
-- ocpdiag/core/results/test_result_calculator.h and .cc. Each method holds the mutex from its first
-- line to its last, so a method is one step.
pub mod Outcomes
use ocp_diag_core_cpp.Base.{Bool, true, false, not, ◌&&◌}
use ocp_diag_core_cpp.Outcome.Action.{Action, ◌>>=◌, ◌>>◌, gets, modify, check, when}
use ocp_diag_core_cpp.Model.Output.{TestResult, TestStatus}

pub record Calculator : Type 0 where
  pub finalized : Bool
  pub run_started : Bool
  pub result : TestResult
  pub status : TestStatus

unfoldable pub initial : Calculator
initial = record {
  finalized = false;
  run_started = false;
  result = TestResult.not_applicable;
  status = TestStatus.unknown;
}

abbrev pub is_unknown : TestStatus → Bool
is_unknown TestStatus.unknown = true
is_unknown TestStatus.complete = false
is_unknown TestStatus.error = false
is_unknown TestStatus.skip = false

abbrev pub is_error : TestStatus → Bool
is_error TestStatus.error = true
is_error TestStatus.unknown = false
is_error TestStatus.complete = false
is_error TestStatus.skip = false

abbrev is_not_applicable : TestResult → Bool
is_not_applicable TestResult.not_applicable = true
is_not_applicable TestResult.pass = false
is_not_applicable TestResult.fail = false

unfoldable pub check_finalized : Action Calculator (Unit {0})
check_finalized = do finalized ← gets (λ c. c.finalized); check (not finalized)

unfoldable pub notify_start_run : Action Calculator (Unit {0})
unfolding check_finalized
notify_start_run = do check_finalized; modify (λ c. record c { run_started = true })

unfoldable pub notify_skip : Action Calculator (Unit {0})
unfolding check_finalized
notify_skip = do
  check_finalized
  status ← gets (λ c. c.status)
  when (is_unknown status)
      (modify (λ c. record c { result = TestResult.not_applicable; status = TestStatus.skip }))

unfoldable pub notify_error : Action Calculator (Unit {0})
unfolding check_finalized
notify_error = do
  check_finalized
  status ← gets (λ c. c.status)
  when (is_unknown status)
      (modify (λ c. record c { result = TestResult.not_applicable; status = TestStatus.error }))

unfoldable pub notify_failure_diagnosis : Action Calculator (Unit {0})
unfolding check_finalized
notify_failure_diagnosis = do
  check_finalized
  result ← gets (λ c. c.result)
  status ← gets (λ c. c.status)
  when (is_not_applicable result && is_unknown status)
      (modify (λ c. record c { result = TestResult.fail }))

-- The two branches of `Finalize`, below its `if (run_started_)`.
abbrev finalize_started : Action Calculator (Unit {0})
finalize_started = do
  status ← gets (λ c. c.status)
  when (is_unknown status) do
    modify (λ c. record c { status = TestStatus.complete })
    result ← gets (λ c. c.result)
    when (is_not_applicable result) (modify (λ c. record c { result = TestResult.pass }))

abbrev finalize_unstarted : Action Calculator (Unit {0})
finalize_unstarted = do
  status ← gets (λ c. c.status)
  when (not (is_error status))
      (modify (λ c. record c { status = TestStatus.skip; result = TestResult.not_applicable }))

unfoldable pub finalize : Action Calculator (Unit {0})
unfolding check_finalized
finalize = do
  check_finalized
  modify (λ c. record c { finalized = true })
  run_started ← gets (λ c. c.run_started)
  when run_started finalize_started
  when (not run_started) finalize_unstarted
