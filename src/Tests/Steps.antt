-- ===== src/Tests/Steps.antt =====
-- The theorems on test steps, measurement series and whole programs, at one run each.
use ocp_diag_core_cpp.Base.{
  not, ◌&&◌, false, ◌≡◌, refl, true, none, List, [], ◌∷◌, ◌++◌, snoc, arith,
}
use ocp_diag_core_cpp.Outcome.{ok}
use ocp_diag_core_cpp.Outcome.Action.{◌>>◌, blocks, when}
use ocp_diag_core_cpp.IntIncrementer.{next}
use ocp_diag_core_cpp.Model.Input.{Error, LogSeverity, double, MeasurementSeriesElement}
use ocp_diag_core_cpp.Model.Output.{TestStatus}
use ocp_diag_core_cpp.Model.ToProto.{
  series_element_to_proto, json_to_proto_or_die, variant_to_proto,
}
use ocp_diag_core_cpp.Validate.{validate_error}
use ocp_diag_core_cpp.Calculator.{is_error, initial, check_finalized, notify_error}
use ocp_diag_core_cpp.Writer.{
  write, write_step, write_to_file, write_to_stream, get_current_time, print_error, flush,
  flush_locked,
}
use ocp_diag_core_cpp.Writer.Sequence.{stamp, IsNumbered}
use ocp_diag_core_cpp.TestRun.{fresh}
use ocp_diag_core_cpp.TestStep.{
  assign_id_and_emit_artifact, check_ended_and_emit_artifact, add_error, finish, emit_end,
  StepState,
}
use ocp_diag_core_cpp.TestRun.Abort.{LastEntries, AddsLogs}
use ocp_diag_core_cpp.TestStep.Writes.{AddCall, StepCall, step_call}
use ocp_diag_core_cpp.TestStep.Ended.{step_calls, file_of, abort_step, finish-last}
use ocp_diag_core_cpp.TestStep.Lifecycle.{
  finish-open, end_artifact, add_error-status, step_call-keeps,
}
use ocp_diag_core_cpp.Series
use ocp_diag_core_cpp.Series.Counting.{add_elements, add_elements-counted, marks, counted}
use ocp_diag_core_cpp.Session.{Session, Call, play, abort_session}
use ocp_diag_core_cpp.Session.Numbering.{play-IsNumbered, session_writer}
use ocp_diag_core_cpp.Tests.Samples.{
  sample_platform, sample_sinks, started_run, open_step, ended_step, open_series,
}

abbrev sample_error : Error
sample_error = record { symptom = "no-link"; message = "the link is down"; software_infos = [] }

-- what absl tells the log sink as the process dies
abbrev last_entries : LastEntries
last_entries c = (LogSeverity.fatal, "Check failed") ∷ []

-- an open step, whose run has its log sink registered
abbrev logged_step : StepState
logged_step = record open_step { run = record open_step.run { log_sink_registered = true } }

-- after the end an error is added, which dies
finish-last_example :
    AddsLogs
      (file_of (finish logged_step).1)
      (abort_step last_entries (
        (finish >> step_calls (StepCall.add (AddCall.error sample_error) ∷ []))
          logged_step)).writer.file
unfolding finish emit_end assign_id_and_emit_artifact write_step write write_to_file write_to_stream
    get_current_time print_error flush flush_locked next fresh initial when blocks
finish-last_example =
    finish-last last_entries (StepCall.add (AddCall.error sample_error) ∷ []) logged_step refl

finish-open_example :
    let s' = (finish open_step).1 in
    ((finish open_step).0 ≡ ok tt)
    × (s'.step ≡ record open_step.step { status = TestStatus.complete; ended = true })
    × (s'.run.writer.file
        ≡ snoc [] (stamp open_step.run.writer (end_artifact "0" TestStatus.complete)))
    × (s'.run.writer.flushed ≡ s'.run.writer.file)
unfolding fresh
finish-open_example = finish-open open_step refl (λ rs a. refl) refl (omega arith)

add_error-status_example :
    ((add_error sample_error open_step).1.step.status ≡ TestStatus.error)
    × ((add_error sample_error open_step).1.run.result_calculator.status ≡ TestStatus.error)
unfolding add_error check_ended_and_emit_artifact assign_id_and_emit_artifact notify_error
    check_finalized validate_error write_step write write_to_file write_to_stream get_current_time
    print_error next fresh initial when blocks
add_error-status_example = add_error-status sample_error open_step refl

step_call-keeps_example :
    let t = (step_call StepCall.end_step ended_step).1.step in
    ((is_error ended_step.step.status && not (is_error t.status)) ≡ false)
    × ((ended_step.step.ended && not t.ended) ≡ false)
    × (t.id ≡ ended_step.step.id)
    × (t.name ≡ ended_step.step.name)
step_call-keeps_example = step_call-keeps StepCall.end_step ended_step

abbrev sample_element : MeasurementSeriesElement
sample_element = record { value = double 42; timestamp = none; metadata_json = "{}" }

add_elements-counted_example :
    marks ((add_elements (sample_element ∷ sample_element ∷ []) >> Series.finish) open_series).1
    ≡ marks open_series ++ counted "0" 0 2
unfolding Series.finish Series.emit_end Series.add_element Series.set_and_check_series_type
    Series.assign_step_id_and_emit_artifact assign_id_and_emit_artifact add_elements
    series_element_to_proto json_to_proto_or_die variant_to_proto write_step write write_to_file
    write_to_stream get_current_time print_error next flush flush_locked fresh initial when blocks
add_elements-counted_example =
    add_elements-counted (sample_element ∷ sample_element ∷ []) open_series refl refl (λ rs a. refl)
      refl

abbrev sample_session : Session
sample_session = record { run = started_run; steps = []; series = [] }

-- a step is made, gets a fatal log, and the program dies
abbrev sample_calls : List Call
sample_calls =
    Call.new_step "step"
    ∷ Call.on_step 0 (StepCall.add (AddCall.error sample_error))
    ∷ Call.on_step 0
        (StepCall.add (AddCall.log (record { severity = LogSeverity.fatal; message = "x" })))
    ∷ Call.on_step 0 StepCall.end_step
    ∷ []

play-IsNumbered_example :
    IsNumbered (session_writer (play sample_calls sample_session).1)
    × IsNumbered (abort_session last_entries (play sample_calls sample_session)).writer
unfolding fresh
play-IsNumbered_example = play-IsNumbered last_entries sample_calls sample_session (omega arith)
