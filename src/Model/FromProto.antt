-- ===== src/Model/FromProto.antt =====
-- ocpdiag/core/results/data_model/proto_to_struct.cc. A getter of a message field that is absent
-- reads the default message.
pub mod Values
pub mod Artifacts
use ocp_diag_core_cpp.Base.{String, Option, none, some, List, [], ◌∷◌, map}
use ocp_diag_core_cpp.Outcome.{Result, ok, crash, check_failed, fatal_log, ◌>>=◌, map_each}
use ocp_diag_core_cpp.Platform.{Platform, ValueKind}
use ocp_diag_core_cpp.Model.Input.{
  PlatformInfo, Subcomponent, Log, File, Extension, Variant, string, double, bool, Validator,
}
use ocp_diag_core_cpp.Model.Output.{
  SchemaVersionOutput, HardwareInfoOutput, SoftwareInfoOutput, DutInfoOutput, TestRunStartOutput,
  TestRunEndOutput, ErrorOutput, TestStepStartOutput, TestStepEndOutput, MeasurementOutput,
  MeasurementSeriesStartOutput, MeasurementSeriesElementOutput, MeasurementSeriesEndOutput,
  DiagnosisOutput, TestStepVariant, TestStepArtifact, TestRunVariant, TestRunArtifact,
  OutputVariant, OutputArtifact,
}
use ocp_diag_core_cpp.Model.Proto
use ocp_diag_core_cpp.Model.Enums.{
  proto_to_validator_type, proto_to_software_type, proto_to_subcomponent_type,
  proto_to_diagnosis_type, proto_to_log_severity, proto_to_test_status, proto_to_test_result,
}

unfoldable pub proto_to_schema_version : Proto.SchemaVersion → SchemaVersionOutput
proto_to_schema_version v = record { major = v.major; minor = v.minor }

unfoldable pub proto_to_platform_info : Proto.PlatformInfo → PlatformInfo
proto_to_platform_info p = record { info = p.info }

unfoldable pub proto_to_hardware_info : Proto.HardwareInfo → HardwareInfoOutput
proto_to_hardware_info h = record {
  info = record {
    name = h.name;
    computer_system = h.computer_system;
    location = h.location;
    odata_id = h.odata_id;
    part_number = h.part_number;
    serial_number = h.serial_number;
    manager = h.manager;
    manufacturer = h.manufacturer;
    manufacturer_part_number = h.manufacturer_part_number;
    part_type = h.part_type;
    version = h.version;
    revision = h.revision;
  };
  hardware_info_id = h.hardware_info_id;
}

unfoldable pub proto_to_software_info : Proto.SoftwareInfo → SoftwareInfoOutput
proto_to_software_info s = record {
  info = record {
    name = s.name;
    computer_system = s.computer_system;
    version = s.version;
    revision = s.revision;
    software_type = proto_to_software_type s.software_type;
  };
  software_info_id = s.software_info_id;
}

unfoldable pub proto_to_test_run_end : Proto.TestRunEnd → TestRunEndOutput
proto_to_test_run_end e = record {
  status = proto_to_test_status e.status;
  result = proto_to_test_result e.result;
}

unfoldable pub proto_to_log : Proto.Log → Log
proto_to_log l = record { severity = proto_to_log_severity l.severity; message = l.message }

unfoldable pub proto_to_error : Proto.Error → ErrorOutput
proto_to_error e = record {
  symptom = e.symptom;
  message = e.message;
  software_info_ids = e.software_info_ids;
}

unfoldable pub proto_to_test_step_start : Proto.TestStepStart → TestStepStartOutput
proto_to_test_step_start s = record { name = s.name }

unfoldable pub proto_to_test_step_end : Proto.TestStepEnd → TestStepEndOutput
proto_to_test_step_end e = record { status = proto_to_test_status e.status }

unfoldable pub proto_to_subcomponent : Proto.Subcomponent → Subcomponent
proto_to_subcomponent s = record {
  name = s.name;
  type = proto_to_subcomponent_type s.type;
  location = s.location;
  version = s.version;
  revision = s.revision;
}

-- `if (… .has_subcomponent())`
unfoldable pub proto_to_optional : Option Proto.Subcomponent → Option Subcomponent
unfolding proto_to_subcomponent
proto_to_optional none = none
proto_to_optional (some s) = some (proto_to_subcomponent s)

unfoldable pub proto_to_series_end : Proto.MeasurementSeriesEnd → MeasurementSeriesEndOutput
proto_to_series_end e = record {
  measurement_series_id = e.measurement_series_id;
  total_count = e.total_count;
}

unfoldable pub proto_to_diagnosis : Proto.Diagnosis → DiagnosisOutput
unfolding proto_to_optional
proto_to_diagnosis d = record {
  verdict = d.verdict;
  type = proto_to_diagnosis_type d.type;
  message = d.message;
  hardware_info_id = d.hardware_info_id;
  subcomponent = proto_to_optional d.subcomponent;
}

unfoldable pub proto_to_file : Proto.File → File
proto_to_file f = record {
  display_name = f.display_name;
  uri = f.uri;
  is_snapshot = f.is_snapshot;
  description = f.description;
  content_type = f.content_type;
}
