-- ===== src/TestRun/Abort.antt =====
-- ocpdiag/core/results/test_run.cc, RegisterLogSink, and log_sink.h: what reaches the writer as the
-- process dies. absl passes the message of a failed CHECK and of a LOG(FATAL) to the sinks that are
-- registered before it aborts; which entries it passes, and how often, is absl's, a parameter.
use ocp_diag_core_cpp.Base.{
  String, Bool, true, false, List, [], ◌∷◌, snoc, ◌≡◌, refl, ◌⊎◌, inl, inr, arith,
}
use ocp_diag_core_cpp.Outcome.{Crash, check_failed, fatal_log, undefined, Result, ok, crash}
use ocp_diag_core_cpp.Outcome.Action.{Action, ◌>>◌, pure, and_then, blocks}
use ocp_diag_core_cpp.Platform.{Platform}
use ocp_diag_core_cpp.Model.Input.{LogSeverity}
use ocp_diag_core_cpp.Model.Proto
use ocp_diag_core_cpp.Model.Enums.{log_severity_to_proto}
use ocp_diag_core_cpp.Writer.{Writer, Sinks, write, write_run}
use ocp_diag_core_cpp.Writer.Sequence.{stamp}
use ocp_diag_core_cpp.Writer.Moves.{Moves, here, writes, Mover, mover, then-Mover}
use ocp_diag_core_cpp.TestRun.{TestRun, send, on_writer}

-- the entries that absl passes to a sink as the process dies, by the way it dies
abbrev pub LastEntries : Type 0
LastEntries = Crash → List (LogSeverity × String)

module _ ⦃P : Platform⦄ ⦃S : Sinks⦄ where
  -- `LogSink::Send` of each entry
  unfoldable send_entries : List (LogSeverity × String) → Action Writer (Unit {0})
  send_entries [] = pure tt
  send_entries (entry ∷ entries) = send entry.0 entry.1 >> send_entries entries

  abbrev if_registered : Bool → List (LogSeverity × String) → TestRun → TestRun
  if_registered false entries r = r
  if_registered true entries r = (on_writer (send_entries entries) r).1

  -- the run as the process leaves it: undefined behaviour is not logged
  unfoldable pub abort : {A : Type 0} → LastEntries → Result A × TestRun → TestRun
  unfolding send_entries
  abort entries (ok a, r) = r
  abort entries (crash undefined, r) = r
  abort entries (crash check_failed, r) =
      if_registered r.log_sink_registered (entries check_failed) r
  abort entries (crash fatal_log, r) = if_registered r.log_sink_registered (entries fatal_log) r

module _ ⦃P : Platform⦄ where
  -- a log of the test run, which belongs to no step
  abbrev pub IsLog : Proto.OutputArtifact → Type 0
  IsLog a =
      (log : Proto.Log) × (a.artifact
        ≡ Proto.OutputCase.test_run_artifact (Proto.TestRunArtifact.log log))

  -- The records have grown by logs only.
  pub data AddsLogs : List Proto.OutputArtifact → List Proto.OutputArtifact → Type 0 where
    same : {rs : List Proto.OutputArtifact} → AddsLogs rs rs
    log_after :
        {rs ss : List Proto.OutputArtifact} (a : Proto.OutputArtifact)
        → AddsLogs rs ss
        → IsLog a
        → AddsLogs rs (snoc ss a)

  AddsLogs-trans :
      {rs ss ts : List Proto.OutputArtifact} → AddsLogs rs ss → AddsLogs ss ts → AddsLogs rs ts
  AddsLogs-trans h same = h
  AddsLogs-trans h (log_after a k log) = log_after a (AddsLogs-trans h k) log

module _ ⦃P : Platform⦄ ⦃S : Sinks⦄ where
  -- A write adds its record to the file, or leaves the file as it is.
  write-file_cases :
      (c : Proto.OutputCase) (w : Writer)
      → ((write c w).1.file ≡ w.file) ⊎ ((write c w).1.file ≡ snoc w.file (stamp w c))
  unfolding write blocks
  write-file_cases c w = ground arith

  -- what `LogSink::Send` writes
  abbrev log_case : LogSeverity → String → Proto.OutputCase
  log_case severity text = Proto.OutputCase.test_run_artifact (
      Proto.TestRunArtifact.log
        (record { message = text; severity = log_severity_to_proto severity }))

  send-AddsLogs :
      (severity : LogSeverity) (text : String) (w : Writer)
      → AddsLogs w.file (send severity text w).1.file
  unfolding send write_run
  send-AddsLogs severity text w = elim (write-file_cases (log_case severity text) w) [
    | inl kept ↦ rw kept same
    | inr added ↦ rw added (log_after (stamp w (log_case severity text)) same (_, refl))
  ]

  and_then-AddsLogs :
      {rs : List Proto.OutputArtifact} (r : Result (Unit {0}) × Writer)
      (m : Action Writer (Unit {0}))
      → AddsLogs rs r.1.file
      → ((w : Writer) → AddsLogs w.file (m w).1.file)
      → AddsLogs rs (and_then r (λ _. m)).1.file
  and_then-AddsLogs (ok done, v) m h k = AddsLogs-trans h (k v)
  and_then-AddsLogs (crash c, v) m h k = h

  send_entries-AddsLogs :
      (entries : List (LogSeverity × String)) (w : Writer)
      → AddsLogs w.file (send_entries entries w).1.file
  unfolding send_entries blocks
  send_entries-AddsLogs [] w = same
  send_entries-AddsLogs (entry ∷ entries) w =
      and_then-AddsLogs (send entry.0 entry.1 w) (send_entries entries)
        (send-AddsLogs entry.0 entry.1 w) (send_entries-AddsLogs entries)

  registered-AddsLogs :
      (b : Bool) (entries : List (LogSeverity × String)) (r : TestRun)
      → AddsLogs r.writer.file (if_registered b entries r).writer.file
  registered-AddsLogs false entries r = same
  registered-AddsLogs true entries r = send_entries-AddsLogs entries r.writer

  -- However a call ended, what follows it adds logs to the file only.
  pub abort-AddsLogs :
      {A : Type 0} (entries : LastEntries) (r : Result A × TestRun)
      → AddsLogs r.1.writer.file (abort entries r).writer.file
  unfolding abort
  abort-AddsLogs entries (ok a, r) = same
  abort-AddsLogs entries (crash undefined, r) = same
  abort-AddsLogs entries (crash check_failed, r) = registered-AddsLogs _ _ r
  abort-AddsLogs entries (crash fatal_log, r) = registered-AddsLogs _ _ r

  send_entries-Mover :
      (entries : List (LogSeverity × String)) → Mover (λ w. w) (send_entries entries)
  unfolding send_entries send write_run
  send_entries-Mover [] = mover λ w. here
  send_entries-Mover (entry ∷ entries) =
      then-Mover (mover λ w. writes here _) (send_entries-Mover entries)

  registered-Moves :
      (b : Bool) (entries : List (LogSeverity × String)) (r : TestRun)
      → Moves r.writer (if_registered b entries r).writer
  registered-Moves false entries r = here
  registered-Moves true entries r = (send_entries-Mover entries).moves r.writer

  pub abort-Moves :
      {A : Type 0} (entries : LastEntries) (r : Result A × TestRun)
      → Moves r.1.writer (abort entries r).writer
  unfolding abort
  abort-Moves entries (ok a, r) = here
  abort-Moves entries (crash undefined, r) = here
  abort-Moves entries (crash check_failed, r) = registered-Moves _ _ r
  abort-Moves entries (crash fatal_log, r) = registered-Moves _ _ r
