-- ===== src/DutInfo.antt =====
-- ocpdiag/core/results/data_model/dut_info.h and .cc, and `DutInfoToProto` of struct_to_proto.cc.
-- The flag `singleton_initialized` of the process is the state of the constructor and destructor.
pub mod Registration
use ocp_diag_core_cpp.Base.{ℕ, String, Bool, true, false, not, is_empty, List, [], map, snoc, some}
use ocp_diag_core_cpp.Outcome.{Result, ok}
use ocp_diag_core_cpp.Outcome
use ocp_diag_core_cpp.Outcome.Action.{Action, ◌>>=◌, ◌>>◌, pure, lift, gets, modify, check, zoom}
use ocp_diag_core_cpp.IntIncrementer.{next}
use ocp_diag_core_cpp.Platform.{Platform}
use ocp_diag_core_cpp.Model.Input.{
  HardwareInfo, RegisteredHardwareInfo, SoftwareInfo, RegisteredSoftwareInfo, PlatformInfo,
}
use ocp_diag_core_cpp.Model.Output.{HardwareInfoOutput, SoftwareInfoOutput}
use ocp_diag_core_cpp.Model.Proto
use ocp_diag_core_cpp.Model.ToProto.{
  hardware_info_to_proto, software_info_to_proto, platform_info_to_proto, json_to_proto_or_die,
}
use ocp_diag_core_cpp.Validate.{
  validate_hardware_info, validate_software_info, validate_platform_info,
}

pub record DutInfo : Type 0 where
  pub name : String
  pub id : String
  pub metadata_json : String
  pub hardware_infos : List HardwareInfoOutput
  pub software_infos : List SoftwareInfoOutput
  pub platform_infos : List PlatformInfo
  pub hardware_info_id : ℕ
  pub software_info_id : ℕ

unfoldable pub create : String → String → Action Bool DutInfo
create name id = do
  check (not (is_empty name))
  check (not (is_empty id))
  singleton_initialized ← gets (λ b. b)
  check (not singleton_initialized)
  modify (λ _. true)
  pure (record {
    name = name;
    id = id;
    metadata_json = "";
    hardware_infos = [];
    software_infos = [];
    platform_infos = [];
    hardware_info_id = 0;
    software_info_id = 0;
  })

-- `~DutInfo`
abbrev pub destroy : Bool → Bool
destroy singleton_initialized = false

unfoldable pub add_platform_info : PlatformInfo → Action DutInfo (Unit {0})
add_platform_info info = do
  lift (validate_platform_info info)
  modify (λ d. record d { platform_infos = snoc d.platform_infos info })

unfoldable pub set_metadata_json : String → Action DutInfo (Unit {0})
set_metadata_json json = modify (λ d. record d { metadata_json = json })

module _ ⦃P : Platform⦄ where
  open P use {str_cat}

  unfoldable pub add_hardware_info : HardwareInfo → Action DutInfo RegisteredHardwareInfo
  add_hardware_info info = do
    lift (validate_hardware_info info)
    n ← zoom (λ d. d.hardware_info_id) (λ k d. record d { hardware_info_id = k }) next
    let output : HardwareInfoOutput = record { info = info; hardware_info_id = str_cat n }
    modify (λ d. record d { hardware_infos = snoc d.hardware_infos output })
    pure (record { id = str_cat n })

  unfoldable pub add_software_info : SoftwareInfo → Action DutInfo RegisteredSoftwareInfo
  add_software_info info = do
    lift (validate_software_info info)
    n ← zoom (λ d. d.software_info_id) (λ k d. record d { software_info_id = k }) next
    let output : SoftwareInfoOutput = record { info = info; software_info_id = str_cat n }
    modify (λ d. record d { software_infos = snoc d.software_infos output })
    pure (record { id = str_cat n })

  unfoldable pub dut_info_to_proto : DutInfo → Result Proto.DutInfo
  dut_info_to_proto d = Outcome.◌>>=◌ (json_to_proto_or_die d.metadata_json) λ metadata.
      ok (record {
        dut_info_id = d.id;
        name = d.name;
        metadata = some metadata;
        platform_infos = map platform_info_to_proto d.platform_infos;
        hardware_infos = map hardware_info_to_proto d.hardware_infos;
        software_infos = map software_info_to_proto d.software_infos;
      })
