-- ===== src/TestRun.antt =====
-- ocpdiag/core/results/test_run.h and .cc, and log_sink.h. Each method that takes the mutex holds it
-- to its end, so a method is one step. The process-wide flags that the class sets are fields too:
-- `initialized`, whether the log sink is registered, and the flag of the DutInfo singleton.
pub mod Writes
pub mod Lifecycle
pub mod Abort
use ocp_diag_core_cpp.Base.{ℕ, String, Bool, true, false, not, Option, none, some}
use ocp_diag_core_cpp.Outcome.{Result, ok, crash, fatal_log, check_failed}
use ocp_diag_core_cpp.Outcome
use ocp_diag_core_cpp.Outcome.Action.{
  Action, ◌>>=◌, ◌>>◌, pure, die, lift, gets, modify, check, when, zoom,
}
use ocp_diag_core_cpp.IntIncrementer.{next}
use ocp_diag_core_cpp.Platform.{Platform}
use ocp_diag_core_cpp.Model.Input.{
  TestRunStart, Error, Log, LogSeverity, major_schema_version, minor_schema_version,
}
use ocp_diag_core_cpp.Model.Output.{TestResult, TestStatus}
use ocp_diag_core_cpp.Model.Proto
use ocp_diag_core_cpp.Model.Enums.{
  test_status_to_proto, test_result_to_proto, log_severity_to_proto,
}
use ocp_diag_core_cpp.Model.ToProto.{error_to_proto, log_to_proto, test_run_start_to_proto}
use ocp_diag_core_cpp.Validate.{validate_test_run_start, validate_error, validate_log}
use ocp_diag_core_cpp.Calculator.{Calculator}
use ocp_diag_core_cpp.Calculator
use ocp_diag_core_cpp.DutInfo.{DutInfo, dut_info_to_proto}
use ocp_diag_core_cpp.DutInfo
use ocp_diag_core_cpp.Writer.{Writer, Sinks, write_run, write_schema_version}
use ocp_diag_core_cpp.Writer

module _ ⦃P : Platform⦄ where
  pub record TestRun : Type 0 where
    pub test_run_start : TestRunStart
    pub writer : Writer
    pub result_calculator : Calculator
    pub dut_info : Option DutInfo
    pub step_id : ℕ
    pub measurement_series_id : ℕ
    pub started : Bool
    -- `--ocpdiag_log_to_results`, and the state of the process
    pub log_to_results : Bool
    pub log_sink_registered : Bool
    pub initialized : Bool
    pub dut_info_initialized : Bool

  -- The members before the constructor's body runs.
  unfoldable pub fresh : TestRunStart → Writer → Bool → Bool → Bool → TestRun
  unfolding Calculator.initial
  fresh start writer log_to_results initialized dut_info_initialized = record {
    test_run_start = start;
    writer = writer;
    result_calculator = Calculator.initial;
    dut_info = none;
    step_id = 0;
    measurement_series_id = 0;
    started = false;
    log_to_results = log_to_results;
    log_sink_registered = false;
    initialized = initialized;
    dut_info_initialized = dut_info_initialized;
  }

  abbrev pub on_writer : {A : Type 0} → Action Writer A → Action TestRun A
  on_writer m = zoom (λ r. r.writer) (λ w r. record r { writer = w }) m

  abbrev pub on_calculator : {A : Type 0} → Action Calculator A → Action TestRun A
  on_calculator m = zoom (λ r. r.result_calculator) (λ c r. record r { result_calculator = c }) m

  unfoldable pub skip : Action TestRun (Unit {0})
  skip = on_calculator Calculator.notify_skip

  unfoldable pub check_and_set_initialization_guard : Action TestRun (Unit {0})
  check_and_set_initialization_guard = do
    initialized ← gets (λ r. r.initialized)
    check (not initialized)
    modify (λ r. record r { initialized = true })

  unfoldable pub register_log_sink : Action TestRun (Unit {0})
  register_log_sink = do
    flag ← gets (λ r. r.log_to_results)
    when flag (modify (λ r. record r { log_sink_registered = true }))

  unfoldable pub deregister_log_sink : Action TestRun (Unit {0})
  deregister_log_sink = do
    flag ← gets (λ r. r.log_to_results)
    when flag (modify (λ r. record r { log_sink_registered = false }))

  unfoldable pub unset_initialization_guard : Action TestRun (Unit {0})
  unset_initialization_guard = modify (λ r. record r { initialized = false })

  abbrev pub is_fatal : LogSeverity → Bool
  is_fatal LogSeverity.fatal = true
  is_fatal LogSeverity.info = false
  is_fatal LogSeverity.warning = false
  is_fatal LogSeverity.error = false
  is_fatal LogSeverity.debug = false

  unfoldable pub get_next_step_id : Action TestRun String
  get_next_step_id = do
    n ← zoom (λ r. r.step_id) (λ k r. record r { step_id = k }) next
    pure (P.str_cat n)

  unfoldable pub get_next_measurement_series_id : Action TestRun String
  get_next_measurement_series_id = do
    n ← zoom (λ r. r.measurement_series_id) (λ k r. record r { measurement_series_id = k }) next
    pure (P.str_cat n)

  -- The optional DUT info of a start message.
  abbrev with_dut_info : Option DutInfo → Proto.TestRunStart → Result Proto.TestRunStart
  with_dut_info none start = ok start
  with_dut_info (some d) start =
      Outcome.◌>>=◌ (dut_info_to_proto d) λ info. ok (record start { dut_info = some info })

  -- A new DutInfo takes the place of the old one, which is destroyed.
  abbrev replaced : Option DutInfo → Bool → Bool
  replaced none initialized = initialized
  replaced (some d) initialized = DutInfo.destroy initialized

  abbrev require : Option DutInfo → Action TestRun DutInfo
  require none = die check_failed
  require (some d) = pure d

module _ ⦃P : Platform⦄ ⦃S : Sinks⦄ where
  -- `LogSink::Send`
  unfoldable pub send : LogSeverity → String → Action Writer (Unit {0})
  send severity text = write_run (
      Proto.TestRunArtifact.log
        (record { message = text; severity = log_severity_to_proto severity }))

  -- `LogSink::Flush`
  unfoldable flush_sink : Action Writer (Unit {0})
  flush_sink = Writer.flush

  unfoldable pub emit_schema_version : Action TestRun (Unit {0})
  emit_schema_version =
      on_writer (
        write_schema_version
          (record { major = major_schema_version; minor = minor_schema_version }))

  -- the constructor's body, on the state that `fresh` makes
  unfoldable pub create : Action TestRun (Unit {0})
  create = do
    check_and_set_initialization_guard
    register_log_sink
    start ← gets (λ r. r.test_run_start)
    lift (validate_test_run_start start)
    emit_schema_version

  unfoldable pub add_pre_start_error : Error → Action TestRun (Unit {0})
  add_pre_start_error error = do
    started ← gets (λ r. r.started)
    check (not started)
    lift (validate_error error)
    on_writer (write_run (Proto.TestRunArtifact.error (error_to_proto error)))
    on_calculator Calculator.notify_error

  unfoldable pub add_pre_start_log : Log → Action TestRun (Unit {0})
  add_pre_start_log log = do
    started ← gets (λ r. r.started)
    check (not started)
    lift (validate_log log)
    on_writer (write_run (Proto.TestRunArtifact.log (log_to_proto log)))
    when (is_fatal log.severity) do on_writer Writer.flush; die fatal_log

  unfoldable pub emit_start : Action TestRun (Unit {0})
  emit_start = do
    r ← gets (λ r. r)
    start ← lift (test_run_start_to_proto r.test_run_start)
    start' ← lift (with_dut_info r.dut_info start)
    on_writer (write_run (Proto.TestRunArtifact.test_run_start start'))

  unfoldable pub start_and_register_dut_info : Option DutInfo → Action TestRun (Unit {0})
  start_and_register_dut_info dut_info = do
    info ← require dut_info
    on_calculator Calculator.notify_start_run
    modify (λ r. record r { started = true })
    modify (λ r. record r {
      dut_info = some info;
      dut_info_initialized = replaced r.dut_info r.dut_info_initialized;
    })
    emit_start

  unfoldable pub emit_end : Action TestRun (Unit {0})
  emit_end = do
    calculator ← gets (λ r. r.result_calculator)
    on_writer (
        write_run (
          Proto.TestRunArtifact.test_run_end (record {
            status = test_status_to_proto calculator.status;
            result = test_result_to_proto calculator.result;
          })))
    on_writer Writer.flush

  -- `End`
  unfoldable pub finish : Action TestRun (Unit {0})
  finish = do
    started ← gets (λ r. r.started)
    when (not started) emit_start
    on_calculator Calculator.finalize
    emit_end

  -- `~TestRun`: its body, then its members.
  unfoldable pub destroy : Action TestRun (Unit {0})
  destroy = do
    finish
    deregister_log_sink
    unset_initialization_guard
    modify (λ r. record r { dut_info_initialized = replaced r.dut_info r.dut_info_initialized })
    on_writer Writer.destroy
