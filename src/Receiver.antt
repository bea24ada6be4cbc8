-- ===== src/Receiver.antt =====
-- ocpdiag/core/results/output_receiver.h and .cc, and the loop over the records of output_iterator.h.
-- The hash maps are association lists. An index past the end of a vector is undefined behaviour.
pub mod Reset
pub mod Steady
pub mod Index
pub mod Handlers
pub mod Build
use text.Mathlib.Text.{◌==◌ as str_eq}
use ocp_diag_core_cpp.Base.{
  ℕ, zero, suc, String, Bool, true, false, not, Option, none, some, List, [], ◌∷◌, length, snoc,
  if◌then◌else◌,
}
use ocp_diag_core_cpp.Outcome.{Result, ok, crash, undefined, check_failed}
use ocp_diag_core_cpp.Outcome
use ocp_diag_core_cpp.Outcome.Action.{Action, ◌>>=◌, ◌>>◌, pure, die, lift, gets, modify, check}
use ocp_diag_core_cpp.Platform.{Platform}
use ocp_diag_core_cpp.Writer.{Writer, Sinks}
use ocp_diag_core_cpp.Writer
use ocp_diag_core_cpp.Model.Output.{
  TestResult, TestStatus, TestRunArtifact, TestRunVariant, TestStepArtifact, TestStepVariant,
  OutputVariant, OutputArtifact, MeasurementSeriesModel, TestStepModel, TestRunModel, OutputModel,
}
use ocp_diag_core_cpp.Model.Proto
use ocp_diag_core_cpp.Model.FromProto.Artifacts.{proto_to_output_artifact}

module _ {ℓ} {A : Type ℓ} where
  -- `map.contains(key) ? map[key] : …`
  unfoldable pub lookup : String → List (String × A) → Option A
  lookup k [] = none
  lookup k ((j, a) ∷ m) = if str_eq j k then some a else lookup k m

  -- An update of `xs[i]`.
  unfoldable pub modify_at : ℕ → (A → Result A) → List A → Result (List A)
  modify_at i f [] = crash undefined
  modify_at zero f (x ∷ xs) = Outcome.◌>>=◌ (f x) λ y. ok (y ∷ xs)
  modify_at (suc i) f (x ∷ xs) = Outcome.◌>>=◌ (modify_at i f xs) λ ys. ok (x ∷ ys)

module _ ⦃P : Platform⦄ where
  -- The model under construction and the two maps.
  pub record Builder : Type 0 where
    pub model : OutputModel
    pub test_step_id_to_idx : List (String × ℕ)
    pub measurement_series_id_to_idx : List (String × ℕ)

  -- `file` is what the container reads, `read_ok` whether it could be read to its end.
  pub record OutputReceiver : Type 0 where
    pub file : List Proto.OutputArtifact
    pub read_ok : Bool
    pub model : Option OutputModel
    pub test_step_id_to_idx : List (String × ℕ)
    pub measurement_series_id_to_idx : List (String × ℕ)
    pub writer_created : Bool

  abbrev empty_run : TestRunModel
  empty_run = record {
    start = record {
      start = record {
        name = "";
        version = "";
        command_line = "";
        parameters_json = "";
        metadata_json = "";
      };
      dut_info = record {
        dut_info_id = "";
        name = "";
        metadata_json = "";
        platform_infos = [];
        hardware_infos = [];
        software_infos = [];
      };
    };
    end = record { status = TestStatus.unknown; result = TestResult.not_applicable };
    pre_start_logs = [];
    pre_start_errors = [];
  }

  -- `OutputModel()`
  abbrev pub empty_model : OutputModel
  empty_model = record {
    schema_version = record { major = 0; minor = 0 };
    test_run = empty_run;
    test_steps = [];
  }

  -- `TestStepModel({.test_step_id = test_step_id})`
  abbrev pub empty_step : String → TestStepModel
  empty_step id = record {
    test_step_id = id;
    start = record { name = "" };
    end = record { status = TestStatus.unknown };
    logs = [];
    errors = [];
    files = [];
    extensions = [];
    measurement_series = [];
    measurements = [];
    diagnoses = [];
  }

  -- `MeasurementSeriesModel()`
  abbrev pub empty_series : MeasurementSeriesModel
  empty_series = record {
    start = record {
      measurement_series_id = "";
      name = "";
      unit = "";
      hardware_info_id = "";
      subcomponent = none;
      validators = [];
      metadata_json = "";
    };
    end = record { measurement_series_id = ""; total_count = 0 };
    elements = [];
  }

  abbrev pub steps_of : Builder → List TestStepModel
  steps_of b = b.model.test_steps

  abbrev pub with_steps : List TestStepModel → Builder → Builder
  with_steps steps b = record b { model = record b.model { test_steps = steps } }
