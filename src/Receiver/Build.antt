-- ===== src/Receiver/Build.antt =====
-- ocpdiag/core/results/output_receiver.cc and the loop of output_iterator.h: building, caching and
-- resetting the model.
use ocp_diag_core_cpp.Base.{Bool, true, false, not, Option, none, some, List, [], ◌∷◌}
use ocp_diag_core_cpp.Outcome.{Result, ok, crash, undefined}
use ocp_diag_core_cpp.Outcome.Action.{Action, ◌>>=◌, ◌>>◌, pure, die, gets, modify, check}
use ocp_diag_core_cpp.Platform.{Platform}
use ocp_diag_core_cpp.Writer.{Writer, Sinks}
use ocp_diag_core_cpp.Writer
use ocp_diag_core_cpp.Model.Output.{OutputArtifact, OutputModel}
use ocp_diag_core_cpp.Model.Proto
use ocp_diag_core_cpp.Model.FromProto.Artifacts.{proto_to_output_artifact}
use ocp_diag_core_cpp.Receiver.{Builder, OutputReceiver, empty_model}
use ocp_diag_core_cpp.Receiver.Handlers.{handle_output_artifact}

module _ ⦃P : Platform⦄ where
  -- One round of the loop, with the converted record.
  unfoldable pub handle_record : Result OutputArtifact → Action Builder (Unit {0})
  handle_record (ok a) = handle_output_artifact a.artifact
  handle_record (crash c) = die c

  -- The loop over the container: the iterator converts a record before it is handled, and checks
  -- at the end of the file that the reader is healthy.
  unfoldable pub handle_all : Bool → List Proto.OutputArtifact → Action Builder (Unit {0})
  handle_all read_ok [] = check read_ok
  handle_all read_ok (p ∷ ps) = do handle_record (proto_to_output_artifact p); handle_all read_ok ps

  -- The builder that `BuildModel` begins with: an empty model, and the maps as they are.
  abbrev pub begin : OutputReceiver → Builder
  begin r = record {
    model = empty_model;
    test_step_id_to_idx = r.test_step_id_to_idx;
    measurement_series_id_to_idx = r.measurement_series_id_to_idx;
  }

  abbrev built : OutputReceiver → Result (Unit {0}) × Builder → Result (Unit {0}) × OutputReceiver
  built r (result, b) = (
    result,
    record r {
      model = some b.model;
      test_step_id_to_idx = b.test_step_id_to_idx;
      measurement_series_id_to_idx = b.measurement_series_id_to_idx;
    },
  )

  -- `CHECK(writer_created_)` stands in `GetOutputContainer`, which the loop calls first.
  unfoldable pub build_model : Action OutputReceiver (Unit {0})
  build_model = do
    modify (λ r. record r { model = some empty_model })
    r ← gets (λ r. r)
    check r.writer_created
    λ r. built r (handle_all r.read_ok r.file (begin r))

  abbrev build_if_absent : Option OutputModel → Action OutputReceiver (Unit {0})
  build_if_absent none = build_model
  build_if_absent (some m) = pure tt

  abbrev deref : Option OutputModel → Action OutputReceiver OutputModel
  deref none r = (crash undefined, r)
  deref (some m) r = (ok m, r)

  unfoldable pub get_output_model : Action OutputReceiver OutputModel
  get_output_model = do
    cached ← gets (λ r. r.model)
    build_if_absent cached
    model ← gets (λ r. r.model)
    deref model

  unfoldable pub reset_model : OutputReceiver → OutputReceiver
  reset_model r = record r { model = none }

module _ ⦃P : Platform⦄ ⦃S : Sinks⦄ where
  abbrev file_writer : Writer
  file_writer = record {
    has_path = true;
    has_stream = false;
    flush_each_minute = false;
    file = [];
    flushed = [];
    lines = [];
    flush_thread = false;
    stop_flush_routine = false;
    sequence_number = 0;
    cerr = 0;
    clock = 0;
  }

  abbrev made : OutputReceiver → Result (Unit {0}) × Writer → Result Writer × OutputReceiver
  made r (ok done, w) = (ok w, r)
  made r (crash c, w) = (crash c, r)

  unfoldable make_artifact_writer : Action OutputReceiver Writer
  make_artifact_writer = do
    writer_created ← gets (λ r. r.writer_created)
    check (not writer_created)
    modify (λ r. record r { writer_created = true })
    λ r. made r (Writer.create file_writer)
