-- ===== src/Hardware/Backend.antt =====
-- ocpdiag/core/hwinterface/backends/host/host_backend.cc: HostBackend::GetHwInfo and Reboot.
use text.Mathlib.Text.{◌==◌ as str_eq}
use ocp_diag_core_cpp.Base.{String, List, [], ◌∷◌, put}
use ocp_diag_core_cpp.Hardware.Status.{Code, StatusOr, ◌>>=◌, value, error}
use ocp_diag_core_cpp.Hardware.Identifier.{Identifier, unmarshal_identifier}
use ocp_diag_core_cpp.Hardware.Host.{HostAdapter, ◌>>=?◌}

-- the fields of a HardwareInfo message that GetHwInfo sets
pub record HwInfo : Type 0 where
  pub name : String
  pub part_type : String
  pub arena : String
  pub odata_id : String
  pub devpath : String

abbrev hw_info_of : Identifier → HwInfo
hw_info_of i = record {
  name = i.name;
  part_type = i.type_name;
  arena = i.arena;
  odata_id = i.odata_id;
  devpath = i.devpath;
}

-- the loop of GetHwInfo over the ids, with the response so far
unfoldable add_hw_infos : List String → List (String × HwInfo) → StatusOr (List (String × HwInfo))
unfolding unmarshal_identifier
add_hw_infos [] response = value response
add_hw_infos (id ∷ ids) response =
    unmarshal_identifier id >>= λ i. add_hw_infos ids (put str_eq id (hw_info_of i) response)

unfoldable pub get_hw_info : List String → StatusOr (List (String × HwInfo))
unfolding add_hw_infos
get_hw_info ids = add_hw_infos ids []

pub data RebootType : Type 0 where
  unspecified hard soft : RebootType

unfoldable pub reboot : {W : Type 0} → HostAdapter W → RebootType → W → StatusOr (Unit {0}) × W
reboot host RebootType.soft w =
    host.run_command ("shutdown" ∷ "-r" ∷ "now" ∷ []) w >>=? λ result w. (value tt, w)
reboot host RebootType.hard w = (error Code.unimplemented, w)
reboot host RebootType.unspecified w = (error Code.internal, w)
