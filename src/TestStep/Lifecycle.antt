-- ===== src/TestStep/Lifecycle.antt =====
-- What the calls do to the status of a test step, and the status that it ends with.
use ocp_diag_core_cpp.Base.{not, ◌&&◌, ◌<◌, String, true, false, ◌≡◌, snoc, arith}
use ocp_diag_core_cpp.Outcome.{ok}
use ocp_diag_core_cpp.Outcome.Action.{blocks}
use ocp_diag_core_cpp.IntIncrementer.{int_max}
use ocp_diag_core_cpp.Platform.{Platform}
use ocp_diag_core_cpp.Model.Input.{Error}
use ocp_diag_core_cpp.Model.Output.{TestStatus}
use ocp_diag_core_cpp.Model.Proto
use ocp_diag_core_cpp.Model.Enums.{test_status_to_proto}
use ocp_diag_core_cpp.Calculator.{check_finalized, notify_error, is_error}
use ocp_diag_core_cpp.Writer.{Sinks, flush, flush_locked, write_step}
use ocp_diag_core_cpp.Writer.Sequence.{IsReliable, stamp, write_lem}
use ocp_diag_core_cpp.TestStep.{
  StepState, check_ended_and_emit_artifact, add_measurement, add_diagnosis, add_error, add_file,
  add_log, add_extension, emit_end, finish, skip, assign_id_and_emit_artifact,
}
use ocp_diag_core_cpp.TestStep.Writes.{AddCall, StepCall, add_call, step_call}

module _ ⦃P : Platform⦄ ⦃S : Sinks⦄ where
  -- The status that a step ends with.
  abbrev pub closed : TestStatus → TestStatus
  closed TestStatus.unknown = TestStatus.complete
  closed TestStatus.complete = TestStatus.complete
  closed TestStatus.error = TestStatus.error
  closed TestStatus.skip = TestStatus.skip

  abbrev pub skipped : TestStatus → TestStatus
  skipped TestStatus.unknown = TestStatus.skip
  skipped TestStatus.complete = TestStatus.complete
  skipped TestStatus.error = TestStatus.error
  skipped TestStatus.skip = TestStatus.skip

  -- the artifact that a step ends with
  abbrev pub end_artifact : String → TestStatus → Proto.OutputCase
  end_artifact id status = Proto.OutputCase.test_step_artifact (record {
    artifact = Proto.TestStepCase.test_step_end (record { status = test_status_to_proto status });
    test_step_id = id;
  })

  -- On a step that has not ended, with a file that takes every record and a count that does not
  -- overflow, `End` returns, ends the step, turns a status that is still unknown into complete, and
  -- writes one record, the end artifact with that status, which is flushed at once.
  pub finish-open :
      (s : StepState)
      → s.step.ended ≡ false
      → IsReliable
      → s.run.writer.has_path ≡ true
      → s.run.writer.sequence_number < int_max
      → let s' = (finish s).1 in
        ((finish s).0 ≡ ok tt)
        × (s'.step ≡ record s.step { status = closed s.step.status; ended = true })
        × (s'.run.writer.file
            ≡ snoc s.run.writer.file
                (stamp s.run.writer (end_artifact s.step.id (closed s.step.status))))
        × (s'.run.writer.flushed ≡ s'.run.writer.file)
  unfolding finish emit_end assign_id_and_emit_artifact write_step flush flush_locked blocks
  finish-open s h r p n =
      ground (arith, write_lem (end_artifact s.step.id (closed s.step.status)) s.run.writer r p n)

  -- `End` on a step that has ended does nothing.
  finish-ended : (s : StepState) → s.step.ended ≡ true → finish s ≡ (ok tt, s)
  unfolding finish blocks
  finish-ended s h = ground arith

  -- `Skip` is `End` on a step whose unknown status has become skip: it overrides no other status.
  skip-finish :
      (s : StepState)
      → skip s ≡ finish (record s { step = record s.step { status = skipped s.step.status } })
  unfolding skip blocks
  skip-finish s = ground arith

  -- what an error makes of the status of the run
  abbrev after_error : TestStatus → TestStatus
  after_error TestStatus.unknown = TestStatus.error
  after_error TestStatus.complete = TestStatus.complete
  after_error TestStatus.error = TestStatus.error
  after_error TestStatus.skip = TestStatus.skip

  -- An error that is added leaves the step with the error status, and the run too if its status
  -- was unknown; a run that was skipped before stays skipped.
  pub add_error-status :
      (e : Error) (s : StepState)
      → (add_error e s).0 ≡ ok tt
      → ((add_error e s).1.step.status ≡ TestStatus.error)
        × ((add_error e s).1.run.result_calculator.status
            ≡ after_error s.run.result_calculator.status)
  unfolding add_error check_ended_and_emit_artifact assign_id_and_emit_artifact notify_error
      check_finalized blocks
  add_error-status e s h = ground arith

  -- No call takes the error status from a step, ends its end, or changes its id or name.
  pub step_call-keeps :
      (c : StepCall) (s : StepState)
      → let t = (step_call c s).1.step in
        ((is_error s.step.status && not (is_error t.status)) ≡ false)
        × ((s.step.ended && not t.ended) ≡ false)
        × (t.id ≡ s.step.id)
        × (t.name ≡ s.step.name)
  unfolding step_call add_call add_measurement add_diagnosis add_error add_file add_log
      add_extension check_ended_and_emit_artifact assign_id_and_emit_artifact skip finish emit_end
      blocks
  step_call-keeps (StepCall.add (AddCall.measurement m)) s = ground arith
  step_call-keeps (StepCall.add (AddCall.diagnosis d)) s = ground arith
  step_call-keeps (StepCall.add (AddCall.error e)) s = ground arith
  step_call-keeps (StepCall.add (AddCall.file f)) s = ground arith
  step_call-keeps (StepCall.add (AddCall.log l)) s = ground arith
  step_call-keeps (StepCall.add (AddCall.extension e)) s = ground arith
  step_call-keeps StepCall.skip_step s = ground arith
  step_call-keeps StepCall.end_step s = ground arith
