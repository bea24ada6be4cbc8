-- ===== src/TestStep/Writes.antt =====
-- What the methods of a test step do to the writer of its test run.
use ocp_diag_core_cpp.Base.{String}
use ocp_diag_core_cpp.Outcome.Action.{Action}
use ocp_diag_core_cpp.Platform.{Platform}
use ocp_diag_core_cpp.Model.Input.{Measurement, Diagnosis, Error, File, Log, Extension}
use ocp_diag_core_cpp.Model.Proto.{TestStepCase}
use ocp_diag_core_cpp.Writer.{Writer, Sinks, write_step}
use ocp_diag_core_cpp.Writer.Moves.{here, writes, Mover, mover, bind-Mover, then-Mover, when-Mover}
use ocp_diag_core_cpp.TestRun.{TestRun, get_next_step_id}
use ocp_diag_core_cpp.TestRun.Writes.{writer_of, flush-Mover}
use ocp_diag_core_cpp.TestStep.{
  StepState, on_run, assign_id_and_emit_artifact, emit_start, create, check_ended_and_emit_artifact,
  add_measurement, add_diagnosis, add_error, add_file, add_log, add_extension, emit_end, finish,
  skip,
}

module _ ⦃P : Platform⦄ where
  -- The calls that add an artifact to a step, and those that end it.
  pub data AddCall : Type 0 where
    measurement : Measurement → AddCall
    diagnosis : Diagnosis → AddCall
    error : Error → AddCall
    file : File → AddCall
    log : Log → AddCall
    extension : Extension → AddCall

  pub data StepCall : Type 0 where
    add : AddCall → StepCall
    skip_step : StepCall
    end_step : StepCall

  abbrev step_writer : StepState → Writer
  step_writer s = s.run.writer

module _ ⦃P : Platform⦄ ⦃S : Sinks⦄ where
  unfoldable pub add_call : AddCall → Action StepState (Unit {0})
  add_call (AddCall.measurement m) = add_measurement m
  add_call (AddCall.diagnosis d) = add_diagnosis d
  add_call (AddCall.error e) = add_error e
  add_call (AddCall.file f) = add_file f
  add_call (AddCall.log l) = add_log l
  add_call (AddCall.extension e) = add_extension e

  unfoldable pub step_call : StepCall → Action StepState (Unit {0})
  step_call (StepCall.add c) = add_call c
  step_call StepCall.skip_step = skip
  step_call StepCall.end_step = finish

  pub emit-Mover :
      (id : String) (a : TestStepCase) → Mover writer_of (assign_id_and_emit_artifact id a)
  unfolding assign_id_and_emit_artifact write_step
  emit-Mover id a = mover λ r. writes here _

  next_id-Mover : Mover writer_of get_next_step_id
  unfolding get_next_step_id
  next_id-Mover = bind-Mover (mover λ r. here) λ n. mover λ r. here

  pub create-Mover : (name : String) → Mover writer_of (create name)
  unfolding create emit_start
  create-Mover name = bind-Mover next_id-Mover λ id. bind-Mover (mover λ r. here) λ started.
      then-Mover (mover λ r. here) (
        then-Mover (then-Mover (mover λ r. here) (then-Mover (emit-Mover id _) flush-Mover))
          (mover λ r. here))

  -- A call on the run of a step, and one on the step alone.
  pub on_run-Mover :
      {A : Type 0} {m : Action TestRun A} → Mover writer_of m → Mover step_writer (on_run m)
  on_run-Mover p = mover λ s. p.moves s.run

  checked-Mover : (a : TestStepCase) → Mover step_writer (check_ended_and_emit_artifact a)
  unfolding check_ended_and_emit_artifact
  checked-Mover a =
      bind-Mover (mover λ s. here)
        λ step. then-Mover (mover λ s. here) (on_run-Mover (emit-Mover _ a))

  add_call-Mover : (c : AddCall) → Mover step_writer (add_call c)
  unfolding add_call add_measurement add_diagnosis add_error add_file add_log add_extension
  add_call-Mover (AddCall.measurement m) =
      then-Mover (mover λ s. here) (bind-Mover (mover λ s. here) λ p. checked-Mover _)
  add_call-Mover (AddCall.diagnosis d) =
      then-Mover (mover λ s. here) (then-Mover (when-Mover _ (mover λ s. here)) (checked-Mover _))
  add_call-Mover (AddCall.error e) =
      then-Mover (mover λ s. here)
        (then-Mover (mover λ s. here) (then-Mover (mover λ s. here) (checked-Mover _)))
  add_call-Mover (AddCall.file f) = then-Mover (mover λ s. here) (checked-Mover _)
  add_call-Mover (AddCall.log l) = then-Mover (mover λ s. here) (
      then-Mover (checked-Mover _)
        (when-Mover _ (then-Mover (on_run-Mover flush-Mover) (mover λ s. here))))
  add_call-Mover (AddCall.extension e) =
      then-Mover (mover λ s. here) (bind-Mover (mover λ s. here) λ p. checked-Mover _)

  emit_end-Mover : Mover step_writer emit_end
  unfolding emit_end
  emit_end-Mover =
      bind-Mover (mover λ s. here)
        λ step. then-Mover (on_run-Mover (emit-Mover _ _)) (on_run-Mover flush-Mover)

  finish-Mover : Mover step_writer finish
  unfolding finish
  finish-Mover = bind-Mover (mover λ s. here) λ ended. when-Mover _ (
      then-Mover (mover λ s. here) (
        bind-Mover (mover λ s. here)
          λ status. then-Mover (when-Mover _ (mover λ s. here)) emit_end-Mover))

  pub step_call-Mover : (c : StepCall) → Mover step_writer (step_call c)
  unfolding step_call skip
  step_call-Mover (StepCall.add c) = add_call-Mover c
  step_call-Mover StepCall.skip_step =
      bind-Mover (mover λ s. here)
        λ status. then-Mover (when-Mover _ (mover λ s. here)) finish-Mover
  step_call-Mover StepCall.end_step = finish-Mover
