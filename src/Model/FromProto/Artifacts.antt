-- ===== src/Model/FromProto/Artifacts.antt =====
-- ocpdiag/core/results/data_model/proto_to_struct.cc: measurements, series and the artifacts.
use ocp_diag_core_cpp.Outcome.{Result, ok, crash, fatal_log, ◌>>=◌, map_each}
use ocp_diag_core_cpp.Platform.{Platform}
use ocp_diag_core_cpp.Model.Input.{Extension}
use ocp_diag_core_cpp.Model.Output.{
  MeasurementOutput, MeasurementSeriesStartOutput, MeasurementSeriesElementOutput, TestStepVariant,
  TestStepArtifact, TestRunVariant, TestRunArtifact, OutputVariant, OutputArtifact,
}
use ocp_diag_core_cpp.Model.Proto
use ocp_diag_core_cpp.Model.FromProto.{
  proto_to_diagnosis, proto_to_error, proto_to_file, proto_to_log, proto_to_optional,
  proto_to_schema_version, proto_to_series_end, proto_to_test_run_end, proto_to_test_step_end,
  proto_to_test_step_start,
}
use ocp_diag_core_cpp.Model.FromProto.Values.{
  proto_to_json_or_die, proto_to_test_run_start, proto_to_validator, proto_to_variant, struct_of,
  timestamp_of, value_of,
}

module _ ⦃P : Platform⦄ where
  open P use {
    Double, Value, Struct, Timestamp, default_value, default_struct, default_timestamp, value_kind,
    struct_to_json, timestamp_to_timeval,
  }

  unfoldable pub proto_to_measurement : Proto.Measurement → Result MeasurementOutput
  unfolding proto_to_optional proto_to_validator proto_to_variant proto_to_json_or_die
  proto_to_measurement m = do
    validators ← map_each proto_to_validator m.validators
    value ← proto_to_variant (value_of m.value)
    json ← proto_to_json_or_die (struct_of m.metadata)
    ok (record {
      name = m.name;
      unit = m.unit;
      hardware_info_id = m.hardware_info_id;
      subcomponent = proto_to_optional m.subcomponent;
      validators = validators;
      value = value;
      metadata_json = json;
    })

  unfoldable proto_to_series_start :
      Proto.MeasurementSeriesStart → Result MeasurementSeriesStartOutput
  unfolding proto_to_optional proto_to_validator proto_to_json_or_die
  proto_to_series_start s = do
    validators ← map_each proto_to_validator s.validators
    json ← proto_to_json_or_die (struct_of s.metadata)
    ok (record {
      measurement_series_id = s.measurement_series_id;
      name = s.name;
      unit = s.unit;
      hardware_info_id = s.hardware_info_id;
      subcomponent = proto_to_optional s.subcomponent;
      validators = validators;
      metadata_json = json;
    })

  unfoldable proto_to_series_element :
      Proto.MeasurementSeriesElement → Result MeasurementSeriesElementOutput
  unfolding proto_to_variant proto_to_json_or_die
  proto_to_series_element e = do
    value ← proto_to_variant (value_of e.value)
    json ← proto_to_json_or_die (struct_of e.metadata)
    ok (record {
      index = e.index;
      measurement_series_id = e.measurement_series_id;
      value = value;
      timestamp = timestamp_to_timeval (timestamp_of e.timestamp);
      metadata_json = json;
    })

  unfoldable proto_to_extension : Proto.Extension → Result Extension
  unfolding proto_to_json_or_die
  proto_to_extension e = do
    json ← proto_to_json_or_die (struct_of e.content)
    ok (record { name = e.name; content_json = json })

  -- the `switch` on the case of a TestStepArtifact
  unfoldable pub proto_to_test_step_variant : Proto.TestStepCase → Result TestStepVariant
  unfolding proto_to_test_step_start proto_to_test_step_end proto_to_measurement
      proto_to_series_start proto_to_series_end proto_to_series_element proto_to_diagnosis
      proto_to_error proto_to_file proto_to_log proto_to_extension
  proto_to_test_step_variant (Proto.TestStepCase.test_step_start s) =
      ok (TestStepVariant.test_step_start (proto_to_test_step_start s))
  proto_to_test_step_variant (Proto.TestStepCase.test_step_end e) =
      ok (TestStepVariant.test_step_end (proto_to_test_step_end e))
  proto_to_test_step_variant (Proto.TestStepCase.measurement m) = do
    out ← proto_to_measurement m
    ok (TestStepVariant.measurement out)
  proto_to_test_step_variant (Proto.TestStepCase.measurement_series_start s) = do
    out ← proto_to_series_start s
    ok (TestStepVariant.measurement_series_start out)
  proto_to_test_step_variant (Proto.TestStepCase.measurement_series_end e) =
      ok (TestStepVariant.measurement_series_end (proto_to_series_end e))
  proto_to_test_step_variant (Proto.TestStepCase.measurement_series_element e) = do
    out ← proto_to_series_element e
    ok (TestStepVariant.measurement_series_element out)
  proto_to_test_step_variant (Proto.TestStepCase.diagnosis d) =
      ok (TestStepVariant.diagnosis (proto_to_diagnosis d))
  proto_to_test_step_variant (Proto.TestStepCase.error e) =
      ok (TestStepVariant.error (proto_to_error e))
  proto_to_test_step_variant (Proto.TestStepCase.file f) =
      ok (TestStepVariant.file (proto_to_file f))
  proto_to_test_step_variant (Proto.TestStepCase.log l) = ok (TestStepVariant.log (proto_to_log l))
  proto_to_test_step_variant (Proto.TestStepCase.extension e) = do
    out ← proto_to_extension e
    ok (TestStepVariant.extension out)
  proto_to_test_step_variant Proto.TestStepCase.not_set = crash fatal_log

  unfoldable pub proto_to_test_step_artifact : Proto.TestStepArtifact → Result TestStepArtifact
  unfolding proto_to_test_step_variant
  proto_to_test_step_artifact a = do
    variant ← proto_to_test_step_variant a.artifact
    ok (record { artifact = variant; test_step_id = a.test_step_id })

  unfoldable proto_to_test_run_artifact : Proto.TestRunArtifact → Result TestRunArtifact
  unfolding proto_to_test_run_start proto_to_test_run_end proto_to_log proto_to_error
  proto_to_test_run_artifact (Proto.TestRunArtifact.test_run_start s) = do
    out ← proto_to_test_run_start s
    ok (record { artifact = TestRunVariant.test_run_start out })
  proto_to_test_run_artifact (Proto.TestRunArtifact.test_run_end e) =
      ok (record { artifact = TestRunVariant.test_run_end (proto_to_test_run_end e) })
  proto_to_test_run_artifact (Proto.TestRunArtifact.log l) =
      ok (record { artifact = TestRunVariant.log (proto_to_log l) })
  proto_to_test_run_artifact (Proto.TestRunArtifact.error e) =
      ok (record { artifact = TestRunVariant.error (proto_to_error e) })
  proto_to_test_run_artifact Proto.TestRunArtifact.not_set = crash fatal_log

  -- the `switch` on the case of an OutputArtifact
  unfoldable pub proto_to_output_variant : Proto.OutputCase → Result OutputVariant
  unfolding proto_to_schema_version proto_to_test_run_artifact proto_to_test_step_artifact
  proto_to_output_variant (Proto.OutputCase.schema_version v) =
      ok (OutputVariant.schema_version (proto_to_schema_version v))
  proto_to_output_variant (Proto.OutputCase.test_run_artifact a) = do
    out ← proto_to_test_run_artifact a
    ok (OutputVariant.test_run_artifact out)
  proto_to_output_variant (Proto.OutputCase.test_step_artifact a) = do
    out ← proto_to_test_step_artifact a
    ok (OutputVariant.test_step_artifact out)
  proto_to_output_variant Proto.OutputCase.not_set = crash fatal_log

  unfoldable pub proto_to_output_artifact : Proto.OutputArtifact → Result OutputArtifact
  unfolding proto_to_output_variant
  proto_to_output_artifact a = do
    variant ← proto_to_output_variant a.artifact
    ok (record {
      artifact = variant;
      sequence_number = a.sequence_number;
      timestamp = timestamp_to_timeval (timestamp_of a.timestamp);
    })
