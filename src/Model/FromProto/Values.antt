-- ===== src/Model/FromProto/Values.antt =====
-- ocpdiag/core/results/data_model/proto_to_struct.cc: values, validators, the DUT info and the start
-- of a run.
use ocp_diag_core_cpp.Base.{String, Option, none, some, List, [], ◌∷◌, map}
use ocp_diag_core_cpp.Outcome.{Result, ok, crash, check_failed, fatal_log, ◌>>=◌, map_each}
use ocp_diag_core_cpp.Platform.{Platform, ValueKind}
use ocp_diag_core_cpp.Model.Input.{Variant, string, double, bool, Validator}
use ocp_diag_core_cpp.Model.Output.{DutInfoOutput, TestRunStartOutput}
use ocp_diag_core_cpp.Model.Proto
use ocp_diag_core_cpp.Model.Enums.{proto_to_validator_type}
use ocp_diag_core_cpp.Model.FromProto.{
  proto_to_hardware_info, proto_to_platform_info, proto_to_software_info,
}

module _ ⦃P : Platform⦄ where
  open P use {
    Double, Value, Struct, Timestamp, default_value, default_struct, default_timestamp, value_kind,
    struct_to_json, timestamp_to_timeval,
  }

  abbrev pub value_of : Option Value → Value
  value_of none = default_value
  value_of (some v) = v

  abbrev pub struct_of : Option Struct → Struct
  struct_of none = default_struct
  struct_of (some s) = s

  abbrev pub timestamp_of : Option Timestamp → Timestamp
  timestamp_of none = default_timestamp
  timestamp_of (some t) = t

  abbrev kind_to_variant : ValueKind Double Value → Result Variant
  kind_to_variant (ValueKind.string_kind s) = ok (string s)
  kind_to_variant (ValueKind.number_kind d) = ok (double d)
  kind_to_variant (ValueKind.bool_kind b) = ok (bool b)
  kind_to_variant (ValueKind.list_kind vs) = crash fatal_log
  kind_to_variant ValueKind.unset = crash fatal_log

  unfoldable pub proto_to_variant : Value → Result Variant
  proto_to_variant v = kind_to_variant (value_kind v)

  abbrev pub json_or_die : Option String → Result String
  json_or_die none = crash check_failed
  json_or_die (some json) = ok json

  unfoldable pub proto_to_json_or_die : Struct → Result String
  proto_to_json_or_die s = json_or_die (struct_to_json s)

  -- The values of a validator: those of a list, or the one value.
  abbrev pub kind_to_values : ValueKind Double Value → Value → Result (List Variant)
  kind_to_values (ValueKind.list_kind vs) v = map_each proto_to_variant vs
  kind_to_values (ValueKind.string_kind s) v = proto_to_variant v >>= λ x. ok (x ∷ [])
  kind_to_values (ValueKind.number_kind d) v = proto_to_variant v >>= λ x. ok (x ∷ [])
  kind_to_values (ValueKind.bool_kind b) v = proto_to_variant v >>= λ x. ok (x ∷ [])
  kind_to_values ValueKind.unset v = proto_to_variant v >>= λ x. ok (x ∷ [])

  unfoldable pub proto_to_validator : Proto.Validator → Result Validator
  unfolding proto_to_variant
  proto_to_validator p = do
    values ← kind_to_values (value_kind (value_of p.value)) (value_of p.value)
    ok (record { type = proto_to_validator_type p.type; value = values; name = p.name })

  unfoldable proto_to_dut_info : Proto.DutInfo → Result DutInfoOutput
  unfolding proto_to_json_or_die
  proto_to_dut_info d = do
    json ← proto_to_json_or_die (struct_of d.metadata)
    ok (record {
      dut_info_id = d.dut_info_id;
      name = d.name;
      metadata_json = json;
      platform_infos = map proto_to_platform_info d.platform_infos;
      hardware_infos = map proto_to_hardware_info d.hardware_infos;
      software_infos = map proto_to_software_info d.software_infos;
    })

  abbrev default_dut_info : Proto.DutInfo
  default_dut_info = record {
    dut_info_id = "";
    name = "";
    metadata = none;
    platform_infos = [];
    hardware_infos = [];
    software_infos = [];
  }

  abbrev dut_info_of : Option Proto.DutInfo → Proto.DutInfo
  dut_info_of none = default_dut_info
  dut_info_of (some d) = d

  unfoldable pub proto_to_test_run_start : Proto.TestRunStart → Result TestRunStartOutput
  unfolding proto_to_json_or_die proto_to_dut_info
  proto_to_test_run_start s = do
    parameters ← proto_to_json_or_die (struct_of s.parameters)
    metadata ← proto_to_json_or_die (struct_of s.metadata)
    dut_info ← proto_to_dut_info (dut_info_of s.dut_info)
    ok (record {
      start = record {
        name = s.name;
        version = s.version;
        command_line = s.command_line;
        parameters_json = parameters;
        metadata_json = metadata;
      };
      dut_info = dut_info;
    })
