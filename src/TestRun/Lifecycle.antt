-- ===== src/TestRun/Lifecycle.antt =====
-- One run at a time, what a run refuses once it has started, and how it ends.
use ocp_diag_core_cpp.Base.{◌<◌, true, false, ◌≡◌, snoc, arith}
use ocp_diag_core_cpp.Outcome.{ok, crash, check_failed}
use ocp_diag_core_cpp.Outcome.Action.{blocks}
use ocp_diag_core_cpp.IntIncrementer.{int_max}
use ocp_diag_core_cpp.Platform.{Platform}
use ocp_diag_core_cpp.Model.Input.{Error, Log}
use ocp_diag_core_cpp.Model.Proto
use ocp_diag_core_cpp.Model.Enums.{test_status_to_proto, test_result_to_proto}
use ocp_diag_core_cpp.Calculator.{Calculator, finalize}
use ocp_diag_core_cpp.Writer.{Sinks, flush, flush_locked, write_run}
use ocp_diag_core_cpp.Writer.Sequence.{IsReliable, stamp, write_lem}
use ocp_diag_core_cpp.TestRun.{
  TestRun, check_and_set_initialization_guard, register_log_sink, deregister_log_sink,
  unset_initialization_guard, emit_schema_version, create, add_pre_start_error, add_pre_start_log,
  emit_end, finish, destroy,
}

module _ ⦃P : Platform⦄ ⦃S : Sinks⦄ where
  -- While a run exists no other can be made: once a constructor has returned, a constructor that
  -- sees the process as it was left fails its check and changes nothing.
  create-create :
      (r q : TestRun)
      → (create r).0 ≡ ok tt
      → q.initialized ≡ (create r).1.initialized
      → create q ≡ (crash check_failed, q)
  unfolding create check_and_set_initialization_guard register_log_sink emit_schema_version blocks
  create-create r q h e = ground arith

  -- When the destructor of a run has returned, the guard against a second run is free again.
  destroy-frees : (r : TestRun) → (destroy r).0 ≡ ok tt → (destroy r).1.initialized ≡ false
  unfolding destroy deregister_log_sink unset_initialization_guard blocks
  destroy-frees r h = ground arith

  -- After the start of a run, errors and logs that are meant for the time before it are refused:
  -- the call fails its check and changes nothing.
  pre_start-refused :
      (r : TestRun)
      → r.started ≡ true
      → ((e : Error) → add_pre_start_error e r ≡ (crash check_failed, r))
        × ((l : Log) → add_pre_start_log l r ≡ (crash check_failed, r))
  unfolding add_pre_start_error add_pre_start_log blocks
  pre_start-refused r h = (λ e. ground arith, λ l. ground arith)

  abbrev pub end_artifact : Calculator → Proto.OutputCase
  end_artifact c = Proto.OutputCase.test_run_artifact (
      Proto.TestRunArtifact.test_run_end
        (record { status = test_status_to_proto c.status; result = test_result_to_proto c.result }))

  -- The end of a run that was started, with a file that takes every record and a count that does
  -- not overflow: if the calculator finalizes, `End` returns, and writes one record, the end
  -- artifact with the final status and result, which is flushed at once.
  pub finish-started :
      (r : TestRun)
      → r.started ≡ true
      → (finalize r.result_calculator).0 ≡ ok tt
      → IsReliable
      → r.writer.has_path ≡ true
      → r.writer.sequence_number < int_max
      → let r' = (finish r).1 in
        ((finish r).0 ≡ ok tt)
        × (r'.result_calculator ≡ (finalize r.result_calculator).1)
        × (r'.writer.file
            ≡ snoc r.writer.file (stamp r.writer (end_artifact (finalize r.result_calculator).1)))
        × (r'.writer.flushed ≡ r'.writer.file)
  unfolding finish emit_end write_run flush flush_locked blocks
  finish-started r h f rel p n =
      ground (arith, write_lem (end_artifact (finalize r.result_calculator).1) r.writer rel p n)
