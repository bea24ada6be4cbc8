-- ===== src/Hardware/Cpu/Info/Sections.antt =====
-- ocpdiag/core/hwinterface/backends/host/host_backend.cc: HostBackend::GetCpuInfo, part by part of its
-- response. Each part that is asked for gathers what it needs, and the first error ends the call.
use ocp_diag_core_cpp.Base.{ℤ, String, Bool, true, false, Option, List}
use ocp_diag_core_cpp.Hardware.Status.{StatusOr, value}
use ocp_diag_core_cpp.Hardware.Host.{HostAdapter, ◌>>=?◌}
use ocp_diag_core_cpp.Hardware.Cpu.{new_topology}
use ocp_diag_core_cpp.Hardware.Cpu.Signature.{CpuInfoText, new_signature}
use ocp_diag_core_cpp.Hardware.Cpu.Info.{
  InfoType, info_type_number, info_type_have, Info, no_info, Call, set_topology, set_signature,
  set_lpu_info, over_lpus, lpus_of,
}
use ocp_diag_core_cpp.Hardware.Cpu.Info.Steps.{
  set_lpu_identifier, set_socket_identifier, set_package_identifier, gather_topology,
  gather_signature, gather_frequencies, gather_throttles,
}

abbrev pub when_asked :
    {W : Type 0} → Bool → (Call → W → StatusOr Call × W) → Call → W → StatusOr Call × W
when_asked false step c w = (value c, w)
when_asked true step c w = step c w

-- what a part does with the processors gathered
abbrev pub fill : {W : Type 0} → (Call → Call) → Call → W → StatusOr Call × W
fill set c w = (value (set c), w)

abbrev pub start_call : Call
start_call = record { info = no_info; topology = new_topology; sig = new_signature }

abbrev pub asked : List ℤ → InfoType → Bool
asked info_types t = info_type_have info_types (info_type_number t)

module _ {W : Type 0} (format : ℤ → String) (simple_atoi : String → Option ℤ)
    (str_split : String → String → List String) (text : CpuInfoText) (host : HostAdapter W) where
  abbrev pub with_topology : (Call → W → StatusOr Call × W) → Call → W → StatusOr Call × W
  with_topology step c w = gather_topology simple_atoi str_split host c w >>=? step

  abbrev pub topology_part : Call → W → StatusOr Call × W
  topology_part = with_topology (fill set_topology)

  abbrev signature_part : Call → W → StatusOr Call × W
  signature_part c w = gather_signature text host c w >>=? fill set_signature

  abbrev lpu_info_part : Call → W → StatusOr Call × W
  lpu_info_part =
      with_topology λ c w. gather_signature text host c w >>=? fill (over_lpus set_lpu_info)

  abbrev frequency_part : Call → W → StatusOr Call × W
  frequency_part =
      with_topology λ c. gather_frequencies simple_atoi host (lpus_of c.topology.numa_nodes) c

  abbrev throttle_part : Call → W → StatusOr Call × W
  throttle_part =
      with_topology λ c. gather_throttles simple_atoi host (lpus_of c.topology.numa_nodes) c

  abbrev lpu_identifier_part : Call → W → StatusOr Call × W
  lpu_identifier_part = with_topology (fill (over_lpus (set_lpu_identifier format)))

  abbrev socket_identifier_part : Call → W → StatusOr Call × W
  socket_identifier_part = with_topology (fill (over_lpus (set_socket_identifier format)))

  abbrev package_identifier_part : Call → W → StatusOr Call × W
  package_identifier_part = with_topology (fill (over_lpus (set_package_identifier format)))

  module _ (info_types : List ℤ) where
    -- the parts after the first
    unfoldable pub other_parts : Call → W → StatusOr Call × W
    other_parts c w =
        when_asked (asked info_types InfoType.signature) signature_part c w
        >>=? when_asked (asked info_types InfoType.lpu_info) lpu_info_part
        >>=? when_asked (asked info_types InfoType.frequency) frequency_part
        >>=? when_asked (asked info_types InfoType.throttle_info) throttle_part
        >>=? when_asked (asked info_types InfoType.lpu_identifier) lpu_identifier_part
        >>=? when_asked (asked info_types InfoType.socket_identifier) socket_identifier_part
        >>=? when_asked (asked info_types InfoType.package_identifier) package_identifier_part

    unfoldable pub get_cpu_info : W → StatusOr Info × W
    unfolding other_parts
    get_cpu_info w =
        when_asked (asked info_types InfoType.topology) topology_part start_call w
        >>=? other_parts
        >>=? λ c w. (value c.info, w)
