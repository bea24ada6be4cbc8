-- ===== src/Series.antt =====
-- ocpdiag/core/results/measurement_series.h and .cc. A call on a series works on the series, its
-- step and the test run. One thread's calls are one step.
pub mod Writes
pub mod Counting
use ocp_diag_core_cpp.Base.{
  ℕ, String, ◌==◌, Bool, true, false, not, Option, none, some, List, [], ◌∷◌,
}
use ocp_diag_core_cpp.Outcome.{Result, ok, first}
use ocp_diag_core_cpp.Outcome.Action.{
  Action, ◌>>=◌, ◌>>◌, pure, lift, gets, modify, check, when, zoom,
}
use ocp_diag_core_cpp.IntIncrementer.{next}
use ocp_diag_core_cpp.Platform.{Platform}
use ocp_diag_core_cpp.Model.Input.{
  MeasurementSeriesStart, MeasurementSeriesElement, Validator, index,
}
use ocp_diag_core_cpp.Model.Proto
use ocp_diag_core_cpp.Model.Proto.{TestStepCase}
use ocp_diag_core_cpp.Model.ToProto.{series_start_to_proto, series_element_to_proto}
use ocp_diag_core_cpp.Validate.{validate_series_start}
use ocp_diag_core_cpp.Writer.{Sinks, get_current_time, print_error}
use ocp_diag_core_cpp.Writer
use ocp_diag_core_cpp.TestRun.{TestRun, on_writer, get_next_measurement_series_id}
use ocp_diag_core_cpp.TestStep.{TestStep, StepState, assign_id_and_emit_artifact}

-- `type_index` is absent where the source has -1.
pub record MeasurementSeries : Type 0 where
  pub series_id : String
  pub element_count : ℕ
  pub ended : Bool
  pub type_index : Option ℕ

-- `if (type_index_ == -1) type_index_ = type_index;`
abbrev pub or_set : Option ℕ → ℕ → ℕ
or_set none i = i
or_set (some j) i = j

unfoldable pub set_and_check_series_type : ℕ → Action MeasurementSeries (Unit {0})
set_and_check_series_type type_index = do
  modify (λ s. record s { type_index = some (or_set s.type_index type_index) })
  stored ← gets (λ s. s.type_index)
  check (or_set stored type_index == type_index)

module _ ⦃P : Platform⦄ where
  pub record SeriesState : Type 0 where
    pub run : TestRun
    pub step : TestStep
    pub series : MeasurementSeries

  abbrev pub on_run : {A : Type 0} → Action TestRun A → Action SeriesState A
  on_run m = zoom (λ s. s.run) (λ r s. record s { run = r }) m

  abbrev pub on_series : {A : Type 0} → Action MeasurementSeries A → Action SeriesState A
  on_series m = zoom (λ s. s.series) (λ t s. record s { series = t }) m

  -- The type of the first value of the first validator, where there is a validator.
  abbrev set_type_of_validators : List Validator → Action MeasurementSeries (Unit {0})
  set_type_of_validators [] = pure tt
  set_type_of_validators (v ∷ vs) = do
    head ← lift (first v.value)
    set_and_check_series_type (index head)

  -- The time of an element that brings none.
  abbrev pub or_now : Option P.Timestamp → P.Timestamp → Option P.Timestamp
  or_now none now = some now
  or_now (some t) now = some t

module _ ⦃P : Platform⦄ ⦃S : Sinks⦄ where
  unfoldable pub assign_step_id_and_emit_artifact : TestStepCase → Action SeriesState (Unit {0})
  assign_step_id_and_emit_artifact artifact = do
    step ← gets (λ s. s.step)
    on_run (assign_id_and_emit_artifact step.id artifact)

  unfoldable pub emit_start : MeasurementSeriesStart → Action SeriesState (Unit {0})
  emit_start start = do
    proto ← lift (series_start_to_proto start)
    id ← gets (λ s. s.series.series_id)
    assign_step_id_and_emit_artifact
        (TestStepCase.measurement_series_start (record proto { measurement_series_id = id }))
    on_run (on_writer Writer.flush)

  -- The constructor. `series` is the object under construction; its member initializer draws the id.
  unfoldable pub create : MeasurementSeriesStart → Action SeriesState (Unit {0})
  create start = do
    id ← on_run get_next_measurement_series_id
    on_series (
        modify
          (λ _. record { series_id = id; element_count = 0; ended = false; type_index = none }))
    step ← gets (λ s. s.step)
    check (not step.ended)
    lift (validate_series_start start)
    on_series (set_type_of_validators start.validators)
    emit_start start

  unfoldable pub add_element : MeasurementSeriesElement → Action SeriesState (Unit {0})
  add_element element = do
    now ← on_run (on_writer get_current_time)
    on_series (set_and_check_series_type (index element.value))
    proto ← lift (series_element_to_proto element)
    n ← on_series (zoom (λ s. s.element_count) (λ k s. record s { element_count = k }) next)
    state ← gets (λ s. s)
    check (not state.step.ended)
    check (not state.series.ended)
    assign_step_id_and_emit_artifact (
        TestStepCase.measurement_series_element (record proto {
          timestamp = or_now proto.timestamp now;
          index = n;
          measurement_series_id = state.series.series_id;
        }))

  unfoldable pub emit_end : Action SeriesState (Unit {0})
  emit_end = do
    id ← gets (λ s. s.series.series_id)
    n ← on_series (zoom (λ s. s.element_count) (λ k s. record s { element_count = k }) next)
    assign_step_id_and_emit_artifact (
        TestStepCase.measurement_series_end
          (record { measurement_series_id = id; total_count = n }))
    on_run (on_writer Writer.flush)

  -- `End`. A series that outlives its step is only reported.
  unfoldable pub finish : Action SeriesState (Unit {0})
  finish = do
    state ← gets (λ s. s)
    when (not state.series.ended) do
      when state.step.ended (on_run (on_writer print_error))
      on_series (modify (λ s. record s { ended = true }))
      emit_end
