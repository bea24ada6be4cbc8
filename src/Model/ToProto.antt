-- ===== src/Model/ToProto.antt =====
-- ocpdiag/core/results/data_model/struct_to_proto.cc. A conversion dies only on text that is no
-- JSON object. `DutInfoToProto` stands with the class that it reads, in DutInfo.
use ocp_diag_core_cpp.Base.{String, is_empty, if◌then◌else◌, Option, none, some, List, [], ◌∷◌, map}
use ocp_diag_core_cpp.Outcome.{Result, ok, crash, check_failed, ◌>>=◌}
use ocp_diag_core_cpp.Platform.{Platform}
use ocp_diag_core_cpp.Model.Input.{
  RegisteredHardwareInfo, PlatformInfo, Subcomponent, Diagnosis, Error, Log, File, TestRunStart,
  Extension, Variant, string, double, bool, Validator, MeasurementSeriesStart,
  MeasurementSeriesElement, Measurement, RegisteredSoftwareInfo,
}
use ocp_diag_core_cpp.Model.Output.{HardwareInfoOutput, SoftwareInfoOutput}
use ocp_diag_core_cpp.Model.Proto
use ocp_diag_core_cpp.Model.Enums.{
  validator_type_to_proto, software_type_to_proto, subcomponent_type_to_proto,
  diagnosis_type_to_proto, log_severity_to_proto,
}

unfoldable pub hardware_info_to_proto : HardwareInfoOutput → Proto.HardwareInfo
hardware_info_to_proto o = record {
  hardware_info_id = o.hardware_info_id;
  name = o.info.name;
  computer_system = o.info.computer_system;
  location = o.info.location;
  odata_id = o.info.odata_id;
  part_number = o.info.part_number;
  serial_number = o.info.serial_number;
  manager = o.info.manager;
  manufacturer = o.info.manufacturer;
  manufacturer_part_number = o.info.manufacturer_part_number;
  part_type = o.info.part_type;
  version = o.info.version;
  revision = o.info.revision;
}

unfoldable pub software_info_to_proto : SoftwareInfoOutput → Proto.SoftwareInfo
software_info_to_proto o = record {
  software_info_id = o.software_info_id;
  name = o.info.name;
  computer_system = o.info.computer_system;
  version = o.info.version;
  revision = o.info.revision;
  software_type = software_type_to_proto o.info.software_type;
}

unfoldable pub platform_info_to_proto : PlatformInfo → Proto.PlatformInfo
platform_info_to_proto p = record { info = p.info }

unfoldable subcomponent_to_proto : Subcomponent → Proto.Subcomponent
subcomponent_to_proto s = record {
  name = s.name;
  type = subcomponent_type_to_proto s.type;
  location = s.location;
  version = s.version;
  revision = s.revision;
}

-- The two `if (… .has_value())` of a measurement, a series and a diagnosis. A string field that is
-- not set is empty.
abbrev pub hardware_info_id_of : Option RegisteredHardwareInfo → String
hardware_info_id_of none = ""
hardware_info_id_of (some h) = h.id

unfoldable pub optional_to_proto : Option Subcomponent → Option Proto.Subcomponent
unfolding subcomponent_to_proto
optional_to_proto none = none
optional_to_proto (some s) = some (subcomponent_to_proto s)

unfoldable pub diagnosis_to_proto : Diagnosis → Proto.Diagnosis
unfolding optional_to_proto
diagnosis_to_proto d = record {
  verdict = d.verdict;
  type = diagnosis_type_to_proto d.type;
  message = d.message;
  hardware_info_id = hardware_info_id_of d.hardware_info;
  subcomponent = optional_to_proto d.subcomponent;
}

abbrev software_id : RegisteredSoftwareInfo → String
software_id s = s.id

unfoldable pub error_to_proto : Error → Proto.Error
error_to_proto e = record {
  symptom = e.symptom;
  message = e.message;
  software_info_ids = map software_id e.software_infos;
}

unfoldable pub file_to_proto : File → Proto.File
file_to_proto f = record {
  display_name = f.display_name;
  uri = f.uri;
  is_snapshot = f.is_snapshot;
  description = f.description;
  content_type = f.content_type;
}

unfoldable pub log_to_proto : Log → Proto.Log
log_to_proto l = record { message = l.message; severity = log_severity_to_proto l.severity }

module _ ⦃P : Platform⦄ where
  open P use {Value, Struct, default_struct, json_to_struct, timeval_to_timestamp, Timeval}

  unfoldable pub variant_to_proto : Variant → Value
  variant_to_proto (string s) = P.set_string_value s
  variant_to_proto (bool b) = P.set_bool_value b
  variant_to_proto (double d) = P.set_number_value d

  -- One value stands alone, several make a list. No value at all leaves the field absent.
  unfoldable pub values_to_proto : List Variant → Option Value
  unfolding variant_to_proto
  values_to_proto [] = none
  values_to_proto (v ∷ []) = some (variant_to_proto v)
  values_to_proto (v ∷ w ∷ vs) = some (P.set_list_value (map variant_to_proto (v ∷ w ∷ vs)))

  unfoldable pub validator_to_proto : Validator → Proto.Validator
  unfolding values_to_proto
  validator_to_proto v = record {
    name = v.name;
    type = validator_type_to_proto v.type;
    value = values_to_proto v.value;
  }

  abbrev or_die : Option Struct → Result Struct
  or_die none = crash check_failed
  or_die (some s) = ok s

  unfoldable pub json_to_proto_or_die : String → Result Struct
  json_to_proto_or_die json =
      if is_empty json then ok default_struct else or_die (json_to_struct json)

  unfoldable pub series_start_to_proto :
      MeasurementSeriesStart → Result Proto.MeasurementSeriesStart
  unfolding optional_to_proto validator_to_proto json_to_proto_or_die
  series_start_to_proto s = do
    metadata ← json_to_proto_or_die s.metadata_json
    ok (record {
      measurement_series_id = "";
      name = s.name;
      unit = s.unit;
      hardware_info_id = hardware_info_id_of s.hardware_info;
      subcomponent = optional_to_proto s.subcomponent;
      validators = map validator_to_proto s.validators;
      metadata = some metadata;
    })

  abbrev optional_timestamp : Option Timeval → Option P.Timestamp
  optional_timestamp none = none
  optional_timestamp (some t) = some (timeval_to_timestamp t)

  unfoldable pub series_element_to_proto :
      MeasurementSeriesElement → Result Proto.MeasurementSeriesElement
  unfolding variant_to_proto json_to_proto_or_die
  series_element_to_proto e = do
    metadata ← json_to_proto_or_die e.metadata_json
    ok (record {
      index = 0;
      measurement_series_id = "";
      value = some (variant_to_proto e.value);
      timestamp = optional_timestamp e.timestamp;
      metadata = some metadata;
    })

  unfoldable pub measurement_to_proto : Measurement → Result Proto.Measurement
  unfolding variant_to_proto optional_to_proto validator_to_proto json_to_proto_or_die
  measurement_to_proto m = do
    metadata ← json_to_proto_or_die m.metadata_json
    ok (record {
      value = some (variant_to_proto m.value);
      name = m.name;
      unit = m.unit;
      hardware_info_id = hardware_info_id_of m.hardware_info;
      subcomponent = optional_to_proto m.subcomponent;
      validators = map validator_to_proto m.validators;
      metadata = some metadata;
    })

  unfoldable pub test_run_start_to_proto : TestRunStart → Result Proto.TestRunStart
  unfolding json_to_proto_or_die
  test_run_start_to_proto s = do
    parameters ← json_to_proto_or_die s.parameters_json
    metadata ← json_to_proto_or_die s.metadata_json
    ok (record {
      name = s.name;
      version = s.version;
      command_line = s.command_line;
      parameters = some parameters;
      dut_info = none;
      metadata = some metadata;
    })

  unfoldable pub extension_to_proto : Extension → Result Proto.Extension
  unfolding json_to_proto_or_die
  extension_to_proto e = do
    content ← json_to_proto_or_die e.content_json
    ok (record { name = e.name; content = some content })
