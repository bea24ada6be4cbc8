-- ===== src/Tests/Data.antt =====
-- The theorems on validation, conversion and the reader of the output, at one value each.
use ocp_diag_core_cpp.Base.{◌≡◌, ◌↔◌, refl, true, none, some, List, [], ◌∷◌, All}
use ocp_diag_core_cpp.Outcome.{ok, crash, undefined, ◌>>=◌}
use ocp_diag_core_cpp.Outcome.Action.{blocks, when}
use ocp_diag_core_cpp.Model.Input.{
  ValidatorType, LogSeverity, double, index, Validator, Measurement, MeasurementSeriesStart,
}
use ocp_diag_core_cpp.Model.Output.{
  OutputModel, TestResult, TestStatus, TestRunVariant, TestRunArtifact,
}
use ocp_diag_core_cpp.Model.Equality.{same_run_artifact}
use ocp_diag_core_cpp.Model.Equality.Decided.Structs.{same_run_artifact_iff}
use ocp_diag_core_cpp.Model.Proto
use ocp_diag_core_cpp.Model.ToProto.{measurement_to_proto, json_to_proto_or_die}
use ocp_diag_core_cpp.Model.FromProto.{proto_to_test_step_start}
use ocp_diag_core_cpp.Model.FromProto.Values.{proto_to_json_or_die}
use ocp_diag_core_cpp.Model.FromProto.Artifacts.{
  proto_to_measurement, proto_to_output_artifact, proto_to_output_variant,
  proto_to_test_step_artifact, proto_to_test_step_variant,
}
use ocp_diag_core_cpp.Model.RoundTrip.{measurement-round_trip, measurement_output}
use ocp_diag_core_cpp.Validate.{
  validate_series_start, validate_measurement, validate_optional, check_validators, check_same_type,
  check_for_type,
}
use ocp_diag_core_cpp.Validate.Spec.{
  IsValid, NonEmpty, IsNamed, HasIndex, StartsBare, validate_measurement_iff,
  validate_series_start_iff, validate_series_start-undefined_iff, AgreeOn,
}
use ocp_diag_core_cpp.Receiver.{OutputReceiver, empty_model, empty_step, modify_at, lookup}
use ocp_diag_core_cpp.Receiver.Build.{
  get_output_model, build_model, reset_model, handle_all, handle_record,
}
use ocp_diag_core_cpp.Receiver.Handlers.{
  handle_output_artifact, handle_test_step_artifact, handle_test_step_variant, get_test_step_idx,
  step_idx_or_new, modify_step,
}
use ocp_diag_core_cpp.Receiver.Index.{get_output_model-IsIndexed}
use ocp_diag_core_cpp.Receiver.Steady.{position}
use ocp_diag_core_cpp.Receiver.Reset.{reset_model-undefined}
use ocp_diag_core_cpp.InputHelpers.{validate_within_exclusive_limits}
use ocp_diag_core_cpp.InputHelpers.Limits.{acceptance, exclusive_limits_accept}
use ocp_diag_core_cpp.Tests.Samples.{sample_platform}

abbrev below_ten : Validator
below_ten = record { type = ValidatorType.less_than; value = double 10 ∷ []; name = "limit" }

abbrev bare_validator : Validator
bare_validator = record below_ten { value = [] }

abbrev sample_measurement : Measurement
sample_measurement = record {
  name = "fan";
  unit = "rpm";
  hardware_info = none;
  subcomponent = none;
  validators = below_ten ∷ [];
  value = double 7;
  metadata_json = "{}";
}

abbrev bare_start : MeasurementSeriesStart
bare_start = record {
  name = "fan";
  unit = "rpm";
  hardware_info = none;
  subcomponent = none;
  validators = bare_validator ∷ [];
  metadata_json = "";
}

validate_measurement_iff_example :
    (validate_measurement sample_measurement ≡ ok tt)
    ↔ NonEmpty "fan"
      × IsNamed none
      × All (λ v. IsValid v × HasIndex (index (double 7)) v.value) (below_ten ∷ [])
validate_measurement_iff_example = validate_measurement_iff sample_measurement

validate_series_start_iff_example :
    (validate_series_start (record bare_start { validators = below_ten ∷ [] }) ≡ ok tt)
    ↔ NonEmpty "fan" × IsNamed none × AgreeOn (below_ten ∷ [])
validate_series_start_iff_example =
    validate_series_start_iff (record bare_start { validators = below_ten ∷ [] })

validate_series_start-undefined_iff_example :
    (validate_series_start bare_start ≡ crash undefined)
    ↔ NonEmpty "fan" × IsNamed none × StartsBare (bare_validator ∷ [])
validate_series_start-undefined_iff_example = validate_series_start-undefined_iff bare_start

measurement-round_trip_example :
    (measurement_to_proto sample_measurement >>= proto_to_measurement)
    ≡ ok (measurement_output sample_measurement "{}")
unfolding validate_measurement validate_optional check_validators check_same_type check_for_type
    json_to_proto_or_die proto_to_json_or_die
measurement-round_trip_example = measurement-round_trip sample_measurement "{}" "{}" refl refl refl

-- a file with the start of one step
abbrev sample_file : List Proto.OutputArtifact
sample_file =
    record {
      artifact = Proto.OutputCase.test_step_artifact (record {
        artifact = Proto.TestStepCase.test_step_start (record { name = "step" });
        test_step_id = "0";
      });
      sequence_number = 0;
      timestamp = some 0;
    }
    ∷ []

abbrev sample_receiver : OutputReceiver
sample_receiver = record {
  file = sample_file;
  read_ok = true;
  model = none;
  test_step_id_to_idx = [];
  measurement_series_id_to_idx = [];
  writer_created = true;
}

abbrev sample_model : OutputModel
sample_model = record empty_model {
  test_steps = record (empty_step "0") { start = record { name = "step" } } ∷ [];
}

get_output_model-IsIndexed_example :
    lookup "0" (get_output_model sample_receiver).1.test_step_id_to_idx
    ≡ position "0" sample_model.test_steps
unfolding get_output_model build_model handle_all handle_record handle_output_artifact
    handle_test_step_artifact handle_test_step_variant get_test_step_idx step_idx_or_new modify_step
    modify_at lookup proto_to_output_artifact proto_to_output_variant proto_to_test_step_artifact
    proto_to_test_step_variant proto_to_test_step_start when blocks
get_output_model-IsIndexed_example =
    get_output_model-IsIndexed sample_receiver sample_model refl refl refl "0"

reset_model-undefined_example :
    (get_output_model (reset_model (get_output_model sample_receiver).1)).0 ≡ crash undefined
unfolding get_output_model build_model handle_all handle_record handle_output_artifact
    handle_test_step_artifact handle_test_step_variant get_test_step_idx step_idx_or_new modify_step
    modify_at lookup proto_to_output_artifact proto_to_output_variant proto_to_test_step_artifact
    proto_to_test_step_variant proto_to_test_step_start when blocks
reset_model-undefined_example =
    reset_model-undefined sample_receiver sample_model refl refl (λ e. cc)

-- The lower limit itself is accepted.
exclusive_limits_accept_example :
    acceptance (validate_within_exclusive_limits 3 9 "rpm") 3 ≡ ok true
exclusive_limits_accept_example = exclusive_limits_accept 3 9 3 "rpm"

abbrev run_end : TestRunArtifact
run_end = record {
  artifact =
      TestRunVariant.test_run_end
        (record { status = TestStatus.complete; result = TestResult.pass });
}

abbrev run_log : TestRunArtifact
run_log = record {
  artifact = TestRunVariant.log (record { severity = LogSeverity.info; message = "done" });
}

same_run_artifact_iff_example : (same_run_artifact run_end run_log ≡ true) ↔ (run_end ≡ run_log)
same_run_artifact_iff_example = same_run_artifact_iff run_end run_log
