-- ===== src/Writer.antt =====
-- ocpdiag/core/results/artifact_writer.h and .cc, built without EXPAND_JSONL. The record writer is
-- riegeli's and the JSON text protobuf's: which records are accepted, and the text, are parameters.
pub mod Sequence
pub mod Moves
use ocp_diag_core_cpp.Base.{
  ℕ, ◌+◌, String, Bool, true, false, not, ◌&&◌, ◌||◌, List, [], ◌∷◌, snoc, Option, none, some,
}
use ocp_diag_core_cpp.Outcome.Action.{Action, ◌>>=◌, ◌>>◌, pure, gets, modify, check, when, zoom}
use ocp_diag_core_cpp.IntIncrementer.{next}
use ocp_diag_core_cpp.Platform.{Platform}
use ocp_diag_core_cpp.Model.Proto

pub record Sinks ⦃P : Platform⦄ : Type 0 where
  -- whether the record writer opens, and whether it takes one more record after those in the file
  pub open_ok : Bool
  pub record_ok : List Proto.OutputArtifact → Proto.OutputArtifact → Bool
  pub message_to_json : Proto.OutputArtifact → Option String

module _ ⦃P : Platform⦄ where
  -- `has_path` is a file path that is not empty, `has_stream` a stream that is not null. `file` is
  -- what the record writer took, `flushed` what of it a flush has passed on; `lines` went to the
  -- stream. `cerr` counts the messages on the process's stderr, and `clock` the readings of its
  -- clock.
  pub record Writer : Type 0 where
    pub has_path : Bool
    pub has_stream : Bool
    pub flush_each_minute : Bool
    pub file : List Proto.OutputArtifact
    pub flushed : List Proto.OutputArtifact
    pub lines : List String
    pub flush_thread : Bool
    pub stop_flush_routine : Bool
    pub sequence_number : ℕ
    pub cerr : ℕ
    pub clock : ℕ

  unfoldable pub get_current_time : Action Writer P.Timestamp
  get_current_time = do
    n ← gets (λ w. w.clock)
    modify (λ w. record w { clock = n + 1 })
    pure (P.clock n)

  unfoldable pub print_error : Action Writer (Unit {0})
  print_error = modify (λ w. record w { cerr = w.cerr + 1 })

  unfoldable pub flush_locked : Action Writer (Unit {0})
  flush_locked = do
    has_path ← gets (λ w. w.has_path)
    when has_path (modify (λ w. record w { flushed = w.file }))

  unfoldable pub flush : Action Writer (Unit {0})
  unfolding flush_locked
  flush = flush_locked

  -- The thread's loop over the results of its waits: `false` is a minute gone by.
  unfoldable flush_every_minute : List Bool → Action Writer (Unit {0})
  unfolding flush_locked
  flush_every_minute [] = pure tt
  flush_every_minute (true ∷ waits) = pure tt
  flush_every_minute (false ∷ waits) = do flush_locked; flush_every_minute waits

  -- `~ArtifactWriter`: closing the record writer flushes it.
  unfoldable pub destroy : Action Writer (Unit {0})
  destroy = do
    modify (λ w. record w { stop_flush_routine = true })
    has_path ← gets (λ w. w.has_path)
    when has_path do
      modify (λ w. record w { flushed = w.file })
      flush_each_minute ← gets (λ w. w.flush_each_minute)
      when flush_each_minute (modify (λ w. record w { flush_thread = false }))

module _ ⦃P : Platform⦄ ⦃S : Sinks⦄ where
  open S use {open_ok, record_ok, message_to_json}

  unfoldable setup_record_writer : Action Writer (Unit {0})
  setup_record_writer = do has_path ← gets (λ w. w.has_path); when has_path (check open_ok)

  unfoldable setup_periodic_flush : Action Writer (Unit {0})
  setup_periodic_flush = do
    w ← gets (λ w. w)
    when (w.has_path && w.flush_each_minute) (modify (λ w. record w { flush_thread = true }))

  -- the constructor's body, after its member initializers
  unfoldable pub create : Action Writer (Unit {0})
  unfolding setup_record_writer setup_periodic_flush
  create = do
    w ← gets (λ w. w)
    check (w.has_path || w.has_stream)
    setup_record_writer
    setup_periodic_flush

  unfoldable pub write_to_file : Proto.OutputArtifact → Action Writer (Unit {0})
  unfolding print_error
  write_to_file a = do
    w ← gets (λ w. w)
    when w.has_path do
      when (record_ok w.file a) (modify (λ w. record w { file = snoc w.file a }))
      when (not (record_ok w.file a)) print_error

  abbrev print_line : Option String → Action Writer (Unit {0})
  print_line none = print_error
  print_line (some json) = modify (λ w. record w { lines = snoc w.lines json })

  unfoldable pub write_to_stream : Proto.OutputArtifact → Action Writer (Unit {0})
  unfolding print_error
  write_to_stream a = do
    has_stream ← gets (λ w. w.has_stream)
    when has_stream (print_line (message_to_json a))

  -- `Write(OutputArtifact&)`
  unfoldable pub write : Proto.OutputCase → Action Writer (Unit {0})
  unfolding get_current_time next write_to_file write_to_stream
  write artifact = do
    now ← get_current_time
    n ← zoom (λ w. w.sequence_number) (λ k w. record w { sequence_number = k }) next
    let stamped : Proto.OutputArtifact = record {
      artifact = artifact;
      sequence_number = n;
      timestamp = some now;
    }
    write_to_file stamped
    write_to_stream stamped

  unfoldable pub write_run : Proto.TestRunArtifact → Action Writer (Unit {0})
  write_run a = write (Proto.OutputCase.test_run_artifact a)

  unfoldable pub write_step : Proto.TestStepArtifact → Action Writer (Unit {0})
  write_step a = write (Proto.OutputCase.test_step_artifact a)

  unfoldable pub write_schema_version : Proto.SchemaVersion → Action Writer (Unit {0})
  write_schema_version v = write (Proto.OutputCase.schema_version v)
