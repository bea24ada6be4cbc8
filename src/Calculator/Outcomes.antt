-- ===== src/Calculator/Outcomes.antt =====
-- The result of a run as a function of the events that were notified.
use ocp_diag_core_cpp.Base.{
  Bool, true, false, ◌||◌, ◌≡◌, List, [], ◌∷◌, Option, none, some, if◌then◌else◌, arith,
}
use ocp_diag_core_cpp.Outcome.{ok}
use ocp_diag_core_cpp.Outcome.Action.{Action, ◌>>◌, pure, blocks}
use ocp_diag_core_cpp.Model.Output.{TestResult, TestStatus}
use ocp_diag_core_cpp.Calculator.{
  Calculator, initial, notify_start_run, notify_skip, notify_error, notify_failure_diagnosis,
  finalize,
}

-- the calls that a run makes before it is finalized
pub data Event : Type 0 where
  start_run skip error failure_diagnosis : Event

unfoldable pub notify : Event → Action Calculator (Unit {0})
unfolding notify_start_run notify_skip notify_error notify_failure_diagnosis
notify Event.start_run = notify_start_run
notify Event.skip = notify_skip
notify Event.error = notify_error
notify Event.failure_diagnosis = notify_failure_diagnosis

unfoldable pub notify_all : List Event → Action Calculator (Unit {0})
notify_all [] = pure tt
notify_all (e ∷ es) = notify e >> notify_all es

-- The specification: was the run started, did a diagnosis fail, and which of skip and error came
-- first.
abbrev was_started : List Event → Bool
was_started [] = false
was_started (Event.start_run ∷ es) = true
was_started (Event.skip ∷ es) = was_started es
was_started (Event.error ∷ es) = was_started es
was_started (Event.failure_diagnosis ∷ es) = was_started es

abbrev has_failed : List Event → Bool
has_failed [] = false
has_failed (Event.failure_diagnosis ∷ es) = true
has_failed (Event.start_run ∷ es) = has_failed es
has_failed (Event.skip ∷ es) = has_failed es
has_failed (Event.error ∷ es) = has_failed es

abbrev first_stop : List Event → Option TestStatus
first_stop [] = none
first_stop (Event.skip ∷ es) = some TestStatus.skip
first_stop (Event.error ∷ es) = some TestStatus.error
first_stop (Event.start_run ∷ es) = first_stop es
first_stop (Event.failure_diagnosis ∷ es) = first_stop es

abbrev final_status : Bool → Option TestStatus → TestStatus
final_status started (some s) = s
final_status started none = if started then TestStatus.complete else TestStatus.skip

abbrev final_result : Bool → Bool → Option TestStatus → TestResult
final_result started failed (some s) = TestResult.not_applicable
final_result started failed none =
    if started
    then (if failed then TestResult.fail else TestResult.pass)
    else TestResult.not_applicable

abbrev pub outcome : List Event → Calculator
outcome es = record {
  finalized = true;
  run_started = was_started es;
  result = final_result (was_started es) (has_failed es) (first_stop es);
  status = final_status (was_started es) (first_stop es);
}

-- A calculator before `Finalize`, by what has been notified.
abbrev open_status : Option TestStatus → TestStatus
open_status none = TestStatus.unknown
open_status (some s) = s

abbrev open_result : Bool → Option TestStatus → TestResult
open_result failed (some s) = TestResult.not_applicable
open_result failed none = if failed then TestResult.fail else TestResult.not_applicable

abbrev running : Bool → Bool → Option TestStatus → Calculator
running started failed stop = record {
  finalized = false;
  run_started = started;
  result = open_result failed stop;
  status = open_status stop;
}

abbrev or_else : Option TestStatus → Option TestStatus → Option TestStatus
or_else none t = t
or_else (some s) t = some s

-- `stop` is skip or error
abbrev IsStop : Option TestStatus → Type 0
IsStop none = Unit
IsStop (some TestStatus.skip) = Unit
IsStop (some TestStatus.error) = Unit
IsStop (some TestStatus.unknown) = ⊥
IsStop (some TestStatus.complete) = ⊥

notify_all-running :
    (es : List Event) (started failed : Bool) (stop : Option TestStatus)
    → IsStop stop
    → notify_all es (running started failed stop) ≡ (
      ok tt,
      running (started || was_started es) (failed || has_failed es) (or_else stop (first_stop es)),
    )
unfolding notify_all notify blocks
notify_all-running [] started failed stop h = ground arith
notify_all-running (Event.start_run ∷ es) started failed stop h =
    ground (arith, notify_all-running es true failed stop h)
notify_all-running (Event.skip ∷ es) started failed stop h = ground (
  arith,
  notify_all-running es started failed stop h,
  notify_all-running es started failed (some TestStatus.skip) tt,
)
notify_all-running (Event.error ∷ es) started failed stop h = ground (
  arith,
  notify_all-running es started failed stop h,
  notify_all-running es started failed (some TestStatus.error) tt,
)
notify_all-running (Event.failure_diagnosis ∷ es) started failed stop h =
    ground (arith, notify_all-running es started true stop h)

first_stop-IsStop : (es : List Event) → IsStop (first_stop es)
first_stop-IsStop [] = tt
first_stop-IsStop (Event.skip ∷ es) = tt
first_stop-IsStop (Event.error ∷ es) = tt
first_stop-IsStop (Event.start_run ∷ es) = first_stop-IsStop es
first_stop-IsStop (Event.failure_diagnosis ∷ es) = first_stop-IsStop es

finalize-running :
    (started failed : Bool) (stop : Option TestStatus)
    → IsStop stop
    → finalize (running started failed stop) ≡ (
      ok tt,
      record {
        finalized = true;
        run_started = started;
        result = final_result started failed stop;
        status = final_status started stop;
      },
    )
unfolding finalize blocks
finalize-running started failed none h = ground arith
finalize-running started failed (some TestStatus.skip) h = ground arith
finalize-running started failed (some TestStatus.error) h = ground arith
finalize-running started failed (some TestStatus.unknown) h = absurd h
finalize-running started failed (some TestStatus.complete) h = absurd h

-- Whatever a run notifies before `Finalize`, in whatever order, the calls return and the calculator
-- ends with the status and result of the specification: the first of skip and error decides; with
-- neither, a run that was started completes and fails or passes by its diagnoses, and one that was
-- not started is skipped.
pub notify_all-outcome :
    (es : List Event) → (notify_all es >> finalize) initial ≡ (ok tt, outcome es)
unfolding initial blocks
notify_all-outcome es =
    rw (notify_all-running es false false none tt)
      (finalize-running (was_started es) (has_failed es) (first_stop es) (first_stop-IsStop es))
