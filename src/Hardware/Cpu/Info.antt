-- ===== src/Hardware/Cpu/Info.antt =====
-- ocpdiag/core/hwinterface/backends/host/host_backend.cc: HostBackend::GetCpuInfo, and InfoTypeHave of
-- backends/lib/utils.h. The formatting of a number is a parameter.
pub mod Steps
pub mod Sections
pub mod Requested
use Prim.Native.String.{◌++◌ as append}
use ocp_diag_core_cpp.Base.{
  ℕ, ℤ, pos, eq_ℤ, String, Bool, true, false, ◌||◌, Option, none, some, List, [], ◌∷◌, put, lookup,
  ◌++◌, if◌then◌else◌,
}
use ocp_diag_core_cpp.Hardware.Status.{Code, StatusOr, value, error, thrown, undefined}
use ocp_diag_core_cpp.Hardware.Identifier.{Identifier, no_identifier, populate_id}
use ocp_diag_core_cpp.Hardware.Host.{HostAdapter, Outcome, ◌>>=?◌}
use ocp_diag_core_cpp.Hardware.Cpu.{
  CpuLpu, CpuNumaNode, CpuTopology, new_topology, physical_cores_count, logical_cores_count,
  logical_cores_max_per_socket, sockets_count,
}
use ocp_diag_core_cpp.Hardware.Cpu.Gather.{topology_gather}
use ocp_diag_core_cpp.Hardware.Cpu.Signature.{
  Vendor, CpuInfoText, CpuSignature, new_signature, signature_gather, CpuFrequency, new_frequency,
  frequency_gather, throttle_gather,
}

abbrev is_in : ℤ → List ℤ → Bool
is_in t [] = false
is_in t (u ∷ us) = eq_ℤ u t || is_in t us

-- InfoTypeHave
abbrev pub info_type_have : List ℤ → ℤ → Bool
info_type_have [] t = true
info_type_have (u ∷ us) t = is_in t (u ∷ us)

-- InfoTypeHaveAny
abbrev info_type_have_any : List ℤ → List ℤ → Bool
info_type_have_any info_types [] = false
info_type_have_any info_types (t ∷ ts) =
    info_type_have info_types t || info_type_have_any info_types ts

pub data InfoType : Type 0 where
  topology signature lpu_info frequency throttle_info lpu_identifier : InfoType
  socket_identifier package_identifier : InfoType

abbrev pub info_type_number : InfoType → ℤ
info_type_number InfoType.topology = pos 1
info_type_number InfoType.signature = pos 2
info_type_number InfoType.lpu_info = pos 3
info_type_number InfoType.frequency = pos 4
info_type_number InfoType.throttle_info = pos 5
info_type_number InfoType.lpu_identifier = pos 6
info_type_number InfoType.socket_identifier = pos 7
info_type_number InfoType.package_identifier = pos 9

-- the messages of cpu.proto
pub record Topology : Type 0 where
  pub sockets_enabled : ℕ
  pub logical_cores_enabled : ℕ
  pub physical_cores_enabled : ℕ
  pub logical_cores_max : ℕ

pub record Signature : Type 0 where
  pub family : ℤ
  pub model : ℤ
  pub stepping : ℤ
  pub vendor : Vendor

pub record LpuInfo : Type 0 where
  pub socket_id : ℤ
  pub die_id : ℤ
  pub core_id : ℤ
  pub thread_id : ℤ
  pub numa_node_id : ℤ
  pub microcode_revision : ℕ

pub record Info : Type 0 where
  pub topology : Option Topology
  pub signature : Option Signature
  pub lpu_info : List (ℤ × LpuInfo)
  pub frequency : List (ℤ × CpuFrequency)
  pub thermal_throttle_count : List (ℤ × ℤ)
  pub lpu_identifiers : List (ℤ × Identifier)
  pub socket_identifiers : List (ℤ × Identifier)
  pub package_identifiers : List (ℤ × Identifier)

abbrev pub no_info : Info
no_info = record {
  topology = none;
  signature = none;
  lpu_info = [];
  frequency = [];
  thermal_throttle_count = [];
  lpu_identifiers = [];
  socket_identifiers = [];
  package_identifiers = [];
}

-- The objects of a call: its response, and what it has gathered.
pub record Call : Type 0 where
  pub info : Info
  pub topology : CpuTopology
  pub sig : CpuSignature

abbrev pub set_topology : Call → Call
set_topology c = record c {
  info = record c.info {
    topology = some (record {
      sockets_enabled = sockets_count c.topology;
      logical_cores_enabled = logical_cores_count c.topology;
      physical_cores_enabled = physical_cores_count c.topology;
      logical_cores_max = logical_cores_max_per_socket c.topology;
    });
  };
}

abbrev pub set_signature : Call → Call
set_signature c = record c {
  info = record c.info {
    signature = some (record {
      family = c.sig.family;
      model = c.sig.model;
      stepping = c.sig.stepping;
      vendor = c.sig.vendor;
    });
  };
}

abbrev pub set_lpu_info : CpuLpu → Call → Call
set_lpu_info lpu c = record c {
  info = record c.info {
    lpu_info =
        put eq_ℤ lpu.cpu_id
          (record {
            socket_id = lpu.socket_id;
            die_id = lpu.die_id;
            core_id = lpu.core_id;
            thread_id = lpu.thread_id;
            numa_node_id = lpu.numa_node_id;
            microcode_revision = c.sig.microcode;
          })
          c.info.lpu_info;
  };
}

-- The message that a map's `[]` finds has its name set and its id made again.
abbrev or_empty_id : Option Identifier → Identifier
or_empty_id none = no_identifier
or_empty_id (some i) = i

unfoldable pub put_name : ℤ → String → List (ℤ × Identifier) → List (ℤ × Identifier)
unfolding populate_id
put_name cpu_id name ids =
    put eq_ℤ cpu_id
      (populate_id none (record (or_empty_id (lookup eq_ℤ cpu_id ids)) { name = name })) ids

-- a loop over the processors that only reads them
abbrev pub each_lpu : (CpuLpu → Call → Call) → List CpuLpu → Call → Call
each_lpu set [] c = c
each_lpu set (lpu ∷ lpus) c = each_lpu set lpus (set lpu c)

abbrev pub lpus_of : List CpuNumaNode → List CpuLpu
lpus_of [] = []
lpus_of (node ∷ nodes) = node.lpus ++ lpus_of nodes

abbrev pub over_lpus : (CpuLpu → Call → Call) → Call → Call
over_lpus set c = each_lpu set (lpus_of c.topology.numa_nodes) c
