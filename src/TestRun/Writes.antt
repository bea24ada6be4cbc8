-- ===== src/TestRun/Writes.antt =====
-- What the methods of a test run do to its writer.
use ocp_diag_core_cpp.Base.{String, Option, none, some}
use ocp_diag_core_cpp.Outcome.Action.{Action}
use ocp_diag_core_cpp.Platform.{Platform}
use ocp_diag_core_cpp.Model.Input.{Error, Log, LogSeverity}
use ocp_diag_core_cpp.Model.Proto
use ocp_diag_core_cpp.DutInfo.{DutInfo}
use ocp_diag_core_cpp.Writer.{Writer, Sinks, write_run, write_schema_version, flush}
use ocp_diag_core_cpp.Writer.Moves.{
  here, writes, flushes, Mover, mover, bind-Mover, then-Mover, when-Mover,
}
use ocp_diag_core_cpp.TestRun.{
  TestRun, on_writer, skip, register_log_sink, check_and_set_initialization_guard,
  emit_schema_version, create, add_pre_start_error, add_pre_start_log, emit_start,
  start_and_register_dut_info, emit_end, finish, send, require,
}

-- The public calls of a test run between its constructor and its destructor, and what other
-- threads do to it: the log sink is sent a message.
module _ ⦃P : Platform⦄ where
  pub data RunCall : Type 0 where
    skip_run : RunCall
    pre_start_error : Error → RunCall
    pre_start_log : Log → RunCall
    start : Option DutInfo → RunCall
    log_message : LogSeverity → String → RunCall

  abbrev pub writer_of : TestRun → Writer
  writer_of r = r.writer

module _ ⦃P : Platform⦄ ⦃S : Sinks⦄ where
  unfoldable pub run_call : RunCall → Action TestRun (Unit {0})
  run_call RunCall.skip_run = skip
  run_call (RunCall.pre_start_error e) = add_pre_start_error e
  run_call (RunCall.pre_start_log l) = add_pre_start_log l
  run_call (RunCall.start d) = start_and_register_dut_info d
  run_call (RunCall.log_message severity text) = on_writer (send severity text)

  write_run-Mover : (a : Proto.TestRunArtifact) → Mover writer_of (on_writer (write_run a))
  unfolding write_run
  write_run-Mover a = mover λ r. writes here _

  pub flush-Mover : Mover writer_of (on_writer flush)
  flush-Mover = mover λ r. flushes here

  emit_start-Mover : Mover writer_of emit_start
  unfolding emit_start
  emit_start-Mover = bind-Mover (mover λ r. here) λ r. bind-Mover (mover λ r. here) λ start.
      bind-Mover (mover λ r. here)
        λ start'. write_run-Mover (Proto.TestRunArtifact.test_run_start start')

  guard-Mover : Mover writer_of check_and_set_initialization_guard
  unfolding check_and_set_initialization_guard
  guard-Mover =
      bind-Mover (mover λ r. here) λ initialized. then-Mover (mover λ r. here) (mover λ r. here)

  create-Mover : Mover writer_of create
  unfolding create register_log_sink emit_schema_version write_schema_version
  create-Mover = then-Mover guard-Mover (
      then-Mover (bind-Mover (mover λ r. here) λ flag. when-Mover flag (mover λ r. here)) (
        bind-Mover (mover λ r. here)
          λ start. then-Mover (mover λ r. here) (mover λ r. writes here _)))

  pre_start_error-Mover : (e : Error) → Mover writer_of (add_pre_start_error e)
  unfolding add_pre_start_error
  pre_start_error-Mover e = bind-Mover (mover λ r. here) λ started.
      then-Mover (mover λ r. here)
        (then-Mover (mover λ r. here) (then-Mover (write_run-Mover _) (mover λ r. here)))

  pre_start_log-Mover : (l : Log) → Mover writer_of (add_pre_start_log l)
  unfolding add_pre_start_log
  pre_start_log-Mover l = bind-Mover (mover λ r. here) λ started. then-Mover (mover λ r. here) (
      then-Mover (mover λ r. here)
        (then-Mover (write_run-Mover _) (when-Mover _ (then-Mover flush-Mover (mover λ r. here)))))

  require-Mover : (d : Option DutInfo) → Mover writer_of (require d)
  require-Mover none = (mover λ r. here)
  require-Mover (some d) = (mover λ r. here)

  start-Mover : (d : Option DutInfo) → Mover writer_of (start_and_register_dut_info d)
  unfolding start_and_register_dut_info
  start-Mover d = bind-Mover (require-Mover d) λ info.
      then-Mover (mover λ r. here)
        (then-Mover (mover λ r. here) (then-Mover (mover λ r. here) emit_start-Mover))

  emit_end-Mover : Mover writer_of emit_end
  unfolding emit_end
  emit_end-Mover = bind-Mover (mover λ r. here) λ c. then-Mover (write_run-Mover _) flush-Mover

  pub finish-Mover : Mover writer_of finish
  unfolding finish
  finish-Mover = bind-Mover (mover λ r. here) λ started.
      then-Mover (when-Mover _ emit_start-Mover) (then-Mover (mover λ r. here) emit_end-Mover)

  pub run_call-Mover : (c : RunCall) → Mover writer_of (run_call c)
  unfolding run_call skip send
  run_call-Mover RunCall.skip_run = (mover λ r. here)
  run_call-Mover (RunCall.pre_start_error e) = pre_start_error-Mover e
  run_call-Mover (RunCall.pre_start_log l) = pre_start_log-Mover l
  run_call-Mover (RunCall.start d) = start-Mover d
  run_call-Mover (RunCall.log_message severity text) = write_run-Mover _
