-- ===== src/TestStep.antt =====
-- ocpdiag/core/results/test_step.h and .cc. A call on a step works on the step and on the test run
-- that it holds a reference to. A method that emits an artifact takes the mutex twice at most; one
-- thread's calls are one step.
pub mod Writes
pub mod Lifecycle
pub mod Ended
use ocp_diag_core_cpp.Base.{String, is_empty, Bool, true, false, not}
use ocp_diag_core_cpp.Outcome.{fatal_log}
use ocp_diag_core_cpp.Outcome.Action.{
  Action, ◌>>=◌, ◌>>◌, pure, die, lift, gets, modify, check, when, zoom,
}
use ocp_diag_core_cpp.Platform.{Platform}
use ocp_diag_core_cpp.Model.Input.{
  Measurement, Diagnosis, DiagnosisType, Error, File, Log, Extension,
}
use ocp_diag_core_cpp.Model.Output.{TestStatus}
use ocp_diag_core_cpp.Model.Proto
use ocp_diag_core_cpp.Model.Proto.{TestStepCase}
use ocp_diag_core_cpp.Model.Enums.{test_status_to_proto}
use ocp_diag_core_cpp.Model.ToProto.{
  measurement_to_proto, diagnosis_to_proto, error_to_proto, file_to_proto, log_to_proto,
  extension_to_proto,
}
use ocp_diag_core_cpp.Validate.{
  validate_measurement, validate_diagnosis, validate_error, validate_file, validate_log,
  validate_extension,
}
use ocp_diag_core_cpp.Calculator
use ocp_diag_core_cpp.Calculator.{is_unknown}
use ocp_diag_core_cpp.Writer.{Sinks, write_step}
use ocp_diag_core_cpp.Writer
use ocp_diag_core_cpp.TestRun.{TestRun, on_writer, on_calculator, get_next_step_id, is_fatal}

pub record TestStep : Type 0 where
  pub id : String
  pub name : String
  pub status : TestStatus
  pub ended : Bool

abbrev is_fail : DiagnosisType → Bool
is_fail DiagnosisType.fail = true
is_fail DiagnosisType.pass = false
is_fail DiagnosisType.unknown = false

module _ ⦃P : Platform⦄ where
  pub record StepState : Type 0 where
    pub run : TestRun
    pub step : TestStep

  abbrev pub on_run : {A : Type 0} → Action TestRun A → Action StepState A
  on_run m = zoom (λ s. s.run) (λ r s. record s { run = r }) m

  abbrev pub on_step : {A : Type 0} → Action TestStep A → Action StepState A
  on_step m = zoom (λ s. s.step) (λ t s. record s { step = t }) m

module _ ⦃P : Platform⦄ ⦃S : Sinks⦄ where
  unfoldable pub assign_id_and_emit_artifact : String → TestStepCase → Action TestRun (Unit {0})
  assign_id_and_emit_artifact id artifact =
      on_writer (write_step (record { artifact = artifact; test_step_id = id }))

  unfoldable pub emit_start : TestStep → Action TestRun (Unit {0})
  emit_start t = do
    check (not (is_empty t.name))
    assign_id_and_emit_artifact t.id (TestStepCase.test_step_start (record { name = t.name }))
    on_writer Writer.flush

  -- the constructor
  unfoldable pub create : String → Action TestRun TestStep
  create name = do
    id ← get_next_step_id
    started ← gets (λ r. r.started)
    check started
    let step : TestStep = record {
      id = id;
      name = name;
      status = TestStatus.unknown;
      ended = false;
    }
    emit_start step
    pure step

  unfoldable pub check_ended_and_emit_artifact : TestStepCase → Action StepState (Unit {0})
  check_ended_and_emit_artifact artifact = do
    step ← gets (λ s. s.step)
    check (not step.ended)
    on_run (assign_id_and_emit_artifact step.id artifact)

  unfoldable pub add_measurement : Measurement → Action StepState (Unit {0})
  add_measurement measurement = do
    lift (validate_measurement measurement)
    proto ← lift (measurement_to_proto measurement)
    check_ended_and_emit_artifact (TestStepCase.measurement proto)

  unfoldable pub add_diagnosis : Diagnosis → Action StepState (Unit {0})
  add_diagnosis diagnosis = do
    lift (validate_diagnosis diagnosis)
    when (is_fail diagnosis.type) (on_run (on_calculator Calculator.notify_failure_diagnosis))
    check_ended_and_emit_artifact (TestStepCase.diagnosis (diagnosis_to_proto diagnosis))

  unfoldable pub add_error : Error → Action StepState (Unit {0})
  add_error error = do
    lift (validate_error error)
    on_step (modify (λ t. record t { status = TestStatus.error }))
    on_run (on_calculator Calculator.notify_error)
    check_ended_and_emit_artifact (TestStepCase.error (error_to_proto error))

  unfoldable pub add_file : File → Action StepState (Unit {0})
  add_file file = do
    lift (validate_file file)
    check_ended_and_emit_artifact (TestStepCase.file (file_to_proto file))

  unfoldable pub add_log : Log → Action StepState (Unit {0})
  add_log log = do
    lift (validate_log log)
    check_ended_and_emit_artifact (TestStepCase.log (log_to_proto log))
    when (is_fatal log.severity) do on_run (on_writer Writer.flush); die fatal_log

  unfoldable pub add_extension : Extension → Action StepState (Unit {0})
  add_extension extension = do
    lift (validate_extension extension)
    proto ← lift (extension_to_proto extension)
    check_ended_and_emit_artifact (TestStepCase.extension proto)

  unfoldable pub emit_end : Action StepState (Unit {0})
  emit_end = do
    step ← gets (λ s. s.step)
    on_run (
        assign_id_and_emit_artifact step.id
          (TestStepCase.test_step_end (record { status = test_status_to_proto step.status })))
    on_run (on_writer Writer.flush)

  -- `End`
  unfoldable pub finish : Action StepState (Unit {0})
  finish = do
    ended ← gets (λ s. s.step.ended)
    when (not ended) do
      on_step (modify (λ t. record t { ended = true }))
      status ← gets (λ s. s.step.status)
      when (is_unknown status) (on_step (modify (λ t. record t { status = TestStatus.complete })))
      emit_end

  unfoldable pub skip : Action StepState (Unit {0})
  skip = do
    status ← gets (λ s. s.step.status)
    when (is_unknown status) (on_step (modify (λ t. record t { status = TestStatus.skip })))
    finish
