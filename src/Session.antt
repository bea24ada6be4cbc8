-- ===== src/Session.antt =====
-- A program that uses the results library: one test run, the steps and series that it creates, and
-- its calls on them in any order. It stops at the first call that dies.
pub mod Numbering
use ocp_diag_core_cpp.Base.{
  ℕ, String, false, Option, none, some, List, [], ◌∷◌, get_elem?, set, snoc,
}
use ocp_diag_core_cpp.Outcome.{Result, ok}
use ocp_diag_core_cpp.Outcome.Action.{Action, ◌>>=◌, ◌>>◌, pure, modify, zoom}
use ocp_diag_core_cpp.Platform.{Platform}
use ocp_diag_core_cpp.Model.Input.{MeasurementSeriesStart}
use ocp_diag_core_cpp.Writer.{Sinks}
use ocp_diag_core_cpp.TestRun.{TestRun}
use ocp_diag_core_cpp.TestRun.Writes.{RunCall, run_call}
use ocp_diag_core_cpp.TestRun.Abort.{LastEntries, abort}
use ocp_diag_core_cpp.TestStep
use ocp_diag_core_cpp.TestStep.{TestStep, StepState}
use ocp_diag_core_cpp.TestStep.Writes.{StepCall, step_call}
use ocp_diag_core_cpp.Series
use ocp_diag_core_cpp.Series.{MeasurementSeries, SeriesState}
use ocp_diag_core_cpp.Series.Writes.{SeriesCall, series_call}

module _ ⦃P : Platform⦄ where
  -- A series stands with the position of its step.
  pub record Session : Type 0 where
    pub run : TestRun
    pub steps : List TestStep
    pub series : List (ℕ × MeasurementSeries)

  -- Steps and series are named by the order of their creation.
  pub data Call : Type 0 where
    on_run : RunCall → Call
    new_step : String → Call
    on_step : ℕ → StepCall → Call
    new_series : ℕ → MeasurementSeriesStart → Call
    on_series : ℕ → SeriesCall → Call

  abbrev keep_step : Session → ℕ → Result (Unit {0}) × StepState → Result (Unit {0}) × Session
  keep_step s i (r, t) = (r, record s { run = t.run; steps = set s.steps i t.step })

  abbrev keep_series :
      Session → ℕ → ℕ → Result (Unit {0}) × SeriesState → Result (Unit {0}) × Session
  keep_series s j i (r, t) = (r, record s { run = t.run; series = set s.series j (i, t.series) })

  abbrev add_series : Session → ℕ → Result (Unit {0}) × SeriesState → Result (Unit {0}) × Session
  add_series s i (r, t) = (r, record s { run = t.run; series = snoc s.series (i, t.series) })

  abbrev blank : MeasurementSeries
  blank = record { series_id = ""; element_count = 0; ended = false; type_index = none }

module _ ⦃P : Platform⦄ ⦃S : Sinks⦄ where
  -- A call on a step or series that was not created is no call.
  unfoldable pub call_step : ℕ → StepCall → Option TestStep → Action Session (Unit {0})
  call_step i c none s = (ok tt, s)
  call_step i c (some t) s = keep_step s i (step_call c (record { run = s.run; step = t }))

  unfoldable pub create_series :
      ℕ → MeasurementSeriesStart → Option TestStep → Action Session (Unit {0})
  create_series i start none s = (ok tt, s)
  create_series i start (some t) s =
      add_series s i (Series.create start (record { run = s.run; step = t; series = blank }))

  abbrev call_series_of :
      ℕ → SeriesCall → ℕ → MeasurementSeries → Option TestStep → Action Session (Unit {0})
  call_series_of j c i m none s = (ok tt, s)
  call_series_of j c i m (some t) s =
      keep_series s j i (series_call c (record { run = s.run; step = t; series = m }))

  unfoldable pub call_series :
      ℕ → SeriesCall → Option (ℕ × MeasurementSeries) → Action Session (Unit {0})
  call_series j c none s = (ok tt, s)
  call_series j c (some (i, m)) s = call_series_of j c i m (get_elem? s.steps i) s

  unfoldable pub create_step : String → Action Session (Unit {0})
  create_step name = do
    t ← zoom (λ s. s.run) (λ r s. record s { run = r }) (TestStep.create name)
    modify (λ s. record s { steps = snoc s.steps t })

  unfoldable pub exec : Call → Action Session (Unit {0})
  unfolding call_step create_series call_series create_step
  exec (Call.on_run c) = zoom (λ s. s.run) (λ r s. record s { run = r }) (run_call c)
  exec (Call.new_step name) = create_step name
  exec (Call.on_step i c) = λ s. call_step i c (get_elem? s.steps i) s
  exec (Call.new_series i start) = λ s. create_series i start (get_elem? s.steps i) s
  exec (Call.on_series j c) = λ s. call_series j c (get_elem? s.series j) s

  unfoldable pub play : List Call → Action Session (Unit {0})
  play [] = pure tt
  play (c ∷ cs) = exec c >> play cs

  -- the run as the process leaves it, where a call of the session dies
  abbrev pub abort_session : LastEntries → Result (Unit {0}) × Session → TestRun
  abort_session entries (r, s) = abort entries (r, s.run)
