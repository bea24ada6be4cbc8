-- ===== src/Session/Numbering.antt =====
-- Whatever a program does, what it has written stays in order.
use ocp_diag_core_cpp.Base.{ℕ, arith, Option, none, some, List, [], ◌∷◌, get_elem?}
use ocp_diag_core_cpp.Outcome.Action.{blocks}
use ocp_diag_core_cpp.Platform.{Platform}
use ocp_diag_core_cpp.Model.Input.{MeasurementSeriesStart}
use ocp_diag_core_cpp.Writer.{Writer, Sinks, flush, flush_locked, get_current_time, print_error}
use ocp_diag_core_cpp.Writer.Sequence.{IsNumbered, write-IsNumbered}
use ocp_diag_core_cpp.Writer.Moves.{
  Moves, here, writes, flushes, reads_clock, prints, Mover, mover, then-Mover, bind-Mover,
}
use ocp_diag_core_cpp.TestRun.Writes.{run_call-Mover}
use ocp_diag_core_cpp.TestRun.Abort.{LastEntries, abort-Moves}
use ocp_diag_core_cpp.TestStep.{TestStep}
use ocp_diag_core_cpp.TestStep.Writes.{StepCall, step_call-Mover, create-Mover as new_step-Mover}
use ocp_diag_core_cpp.Series.{MeasurementSeries}
use ocp_diag_core_cpp.Series.Writes.{
  SeriesCall, series_call-Mover, create-Mover as new_series-Mover,
}
use ocp_diag_core_cpp.Session.{
  Session, Call, call_step, create_series, call_series, call_series_of, create_step, exec, play,
  abort_session,
}

module _ ⦃P : Platform⦄ where
  abbrev pub session_writer : Session → Writer
  session_writer s = s.run.writer

module _ ⦃P : Platform⦄ ⦃S : Sinks⦄ where
  flush-IsNumbered : (v : Writer) → IsNumbered v → IsNumbered (flush v).1
  unfolding flush flush_locked blocks
  flush-IsNumbered v h = ground arith

  -- Each of the things that can happen to the writer keeps the records numbered.
  Moves-IsNumbered : {v w : Writer} → Moves v w → IsNumbered v → IsNumbered w
  unfolding get_current_time print_error blocks
  Moves-IsNumbered here h = h
  Moves-IsNumbered (writes m c) h = write-IsNumbered c _ (Moves-IsNumbered m h)
  Moves-IsNumbered (flushes {v = v} m) h = flush-IsNumbered v (Moves-IsNumbered m h)
  Moves-IsNumbered (reads_clock m) h = Moves-IsNumbered m h
  Moves-IsNumbered (prints m) h = Moves-IsNumbered m h

  call_step-Moves :
      (i : ℕ) (c : StepCall) (o : Option TestStep) (s : Session)
      → Moves (session_writer s) (session_writer (call_step i c o s).1)
  unfolding call_step
  call_step-Moves i c none s = here
  call_step-Moves i c (some t) s = (step_call-Mover c).moves (record { run = s.run; step = t })

  create_series-Moves :
      (i : ℕ) (start : MeasurementSeriesStart) (o : Option TestStep) (s : Session)
      → Moves (session_writer s) (session_writer (create_series i start o s).1)
  unfolding create_series
  create_series-Moves i start none s = here
  create_series-Moves i start (some t) s = (new_series-Mover start).moves _

  call_series_of-Moves :
      (j : ℕ) (c : SeriesCall) (i : ℕ) (m : MeasurementSeries) (o : Option TestStep) (s : Session)
      → Moves (session_writer s) (session_writer (call_series_of j c i m o s).1)
  call_series_of-Moves j c i m none s = here
  call_series_of-Moves j c i m (some t) s = (series_call-Mover c).moves _

  call_series-Moves :
      (j : ℕ) (c : SeriesCall) (o : Option (ℕ × MeasurementSeries)) (s : Session)
      → Moves (session_writer s) (session_writer (call_series j c o s).1)
  unfolding call_series
  call_series-Moves j c none s = here
  call_series-Moves j c (some (i, m)) s = call_series_of-Moves j c i m (get_elem? s.steps i) s

  exec-Mover : (c : Call) → Mover session_writer (exec c)
  unfolding exec create_step
  exec-Mover (Call.on_run c) = mover λ s. (run_call-Mover c).moves s.run
  exec-Mover (Call.new_step name) =
      bind-Mover (mover λ s. (new_step-Mover name).moves s.run) λ t. mover λ s. here
  exec-Mover (Call.on_step i c) = mover λ s. call_step-Moves i c (get_elem? s.steps i) s
  exec-Mover (Call.new_series i start) =
      mover λ s. create_series-Moves i start (get_elem? s.steps i) s
  exec-Mover (Call.on_series j c) = mover λ s. call_series-Moves j c (get_elem? s.series j) s

  play-Mover : (cs : List Call) → Mover session_writer (play cs)
  unfolding play
  play-Mover [] = mover λ s. here
  play-Mover (c ∷ cs) = then-Mover (exec-Mover c) (play-Mover cs)

  -- Whatever calls a program makes, and wherever it dies, the records in the output file carry
  -- sequence numbers that grow strictly from record to record, below the next number to be given;
  -- and so after the entries that absl passes to the registered log sink where the program dies.
  pub play-IsNumbered :
      (entries : LastEntries) (cs : List Call) (s : Session)
      → IsNumbered (session_writer s)
      → IsNumbered (session_writer (play cs s).1)
        × IsNumbered (abort_session entries (play cs s)).writer
  play-IsNumbered entries cs s h =
      let numbered = Moves-IsNumbered ((play-Mover cs).moves s) h in
      (numbered, Moves-IsNumbered (abort-Moves entries ((play cs s).0, (play cs s).1.run)) numbered)
