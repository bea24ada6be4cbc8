-- ===== src/Series/Writes.antt =====
-- What the methods of a measurement series do to the writer of the test run.
use ocp_diag_core_cpp.Outcome.Action.{Action}
use ocp_diag_core_cpp.Platform.{Platform}
use ocp_diag_core_cpp.Model.Input.{MeasurementSeriesStart, MeasurementSeriesElement}
use ocp_diag_core_cpp.Model.Proto.{TestStepCase}
use ocp_diag_core_cpp.Writer.{Writer, Sinks}
use ocp_diag_core_cpp.Writer.Moves.{
  here, reads_clock, prints, Mover, mover, bind-Mover, then-Mover, when-Mover,
}
use ocp_diag_core_cpp.TestRun.{TestRun, get_next_measurement_series_id}
use ocp_diag_core_cpp.TestRun.Writes.{writer_of, flush-Mover}
use ocp_diag_core_cpp.TestStep.Writes.{emit-Mover}
use ocp_diag_core_cpp.Series.{
  SeriesState, on_run, assign_step_id_and_emit_artifact, emit_start, create, add_element, emit_end,
  finish,
}

module _ ⦃P : Platform⦄ where
  pub data SeriesCall : Type 0 where
    element : MeasurementSeriesElement → SeriesCall
    end_series : SeriesCall

  abbrev series_writer : SeriesState → Writer
  series_writer s = s.run.writer

module _ ⦃P : Platform⦄ ⦃S : Sinks⦄ where
  unfoldable pub series_call : SeriesCall → Action SeriesState (Unit {0})
  series_call (SeriesCall.element e) = add_element e
  series_call SeriesCall.end_series = finish

  on_run-Mover :
      {A : Type 0} {m : Action TestRun A} → Mover writer_of m → Mover series_writer (on_run m)
  on_run-Mover p = mover λ s. p.moves s.run

  emit_artifact-Mover :
      (a : TestStepCase) → Mover series_writer (assign_step_id_and_emit_artifact a)
  unfolding assign_step_id_and_emit_artifact
  emit_artifact-Mover a = bind-Mover (mover λ s. here) λ step. on_run-Mover (emit-Mover _ a)

  emit_start-Mover : (start : MeasurementSeriesStart) → Mover series_writer (emit_start start)
  unfolding emit_start
  emit_start-Mover start = bind-Mover (mover λ s. here) λ proto.
      bind-Mover (mover λ s. here)
        λ id. then-Mover (emit_artifact-Mover _) (on_run-Mover flush-Mover)

  next_id-Mover : Mover writer_of get_next_measurement_series_id
  unfolding get_next_measurement_series_id
  next_id-Mover = bind-Mover (mover λ r. here) λ n. mover λ r. here

  pub create-Mover : (start : MeasurementSeriesStart) → Mover series_writer (create start)
  unfolding create
  create-Mover start = bind-Mover (on_run-Mover next_id-Mover) λ id. then-Mover (mover λ s. here) (
      bind-Mover (mover λ s. here) λ step.
        then-Mover (mover λ s. here)
          (then-Mover (mover λ s. here) (then-Mover (mover λ s. here) (emit_start-Mover start))))

  add_element-Mover : (e : MeasurementSeriesElement) → Mover series_writer (add_element e)
  unfolding add_element
  add_element-Mover e = bind-Mover (mover λ s. reads_clock here) λ now.
      then-Mover (mover λ s. here) (
        bind-Mover (mover λ s. here) λ proto. bind-Mover (mover λ s. here) λ n.
          bind-Mover (mover λ s. here) λ state.
            then-Mover (mover λ s. here) (then-Mover (mover λ s. here) (emit_artifact-Mover _)))

  emit_end-Mover : Mover series_writer emit_end
  unfolding emit_end
  emit_end-Mover = bind-Mover (mover λ s. here) λ id.
      bind-Mover (mover λ s. here)
        λ n. then-Mover (emit_artifact-Mover _) (on_run-Mover flush-Mover)

  finish-Mover : Mover series_writer finish
  unfolding finish
  finish-Mover = bind-Mover (mover λ s. here) λ state. when-Mover _ (
      then-Mover (when-Mover _ (mover λ s. prints here))
        (then-Mover (mover λ s. here) emit_end-Mover))

  pub series_call-Mover : (c : SeriesCall) → Mover series_writer (series_call c)
  unfolding series_call
  series_call-Mover (SeriesCall.element e) = add_element-Mover e
  series_call-Mover SeriesCall.end_series = finish-Mover
