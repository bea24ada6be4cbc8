-- ===== src/Tests/Hardware.antt =====
-- The theorems on the hardware interface, at one small host each.
use text.Mathlib.Text.{◌==◌ as str_eq}
use ocp_diag_core_cpp.Base.{
  ◌↔◌, ◌≢◌, ℕ, suc, ◌<◌, ℤ, pos, negsuc, leb_ℤ, String, Bool, true, false, Option, none, some, List,
  [], ◌∷◌, All, lookup, ◌≡◌, refl, ap, sym, ◌∙◌, if◌then◌else◌, arith,
}
use ocp_diag_core_cpp.Hardware.Status.{Code, value, error}
use ocp_diag_core_cpp.Hardware.Config.{
  BackendType, AuthMethod, EntityConfiguration, NodeOverride, same_backend,
}
use ocp_diag_core_cpp.Hardware.Config.Override.{new_configuration, apply_node_override}
use ocp_diag_core_cpp.Hardware.Config.Override.Targets.{
  IsOverridden, apply_node_override-IsOverridden,
}
use ocp_diag_core_cpp.Hardware.Client.{
  Client, Builders, default_builder_resolver, chosen, create, create_with, build_backend,
  add_backend, add_method_backends,
}
use ocp_diag_core_cpp.Hardware.Client.Method.{Api, method_of}
use ocp_diag_core_cpp.Hardware.Client.Calls.{Service, call_api}
use ocp_diag_core_cpp.Hardware.Client.Serving.{after_calls, create-serves}
use ocp_diag_core_cpp.Hardware.Host.{HostAdapter}
use ocp_diag_core_cpp.Hardware.Host.RangeList.{
  int_max, parse_range_list, parse_elements, parse_ranges,
}
use ocp_diag_core_cpp.Hardware.Host.Increasing.{IsIncreasing, IsInt, parse_range_list-IsIncreasing}
use ocp_diag_core_cpp.Hardware.Identifier.{
  IdMap, Identifier, populate_id, unmarshal_identifier, update_id_to_local,
}
use ocp_diag_core_cpp.Hardware.Identifier.Local.{IsLocal, update_id_to_local-ends}
use ocp_diag_core_cpp.Hardware.Identifier.Marshal.{unmarshal_identifier-populate_id}
use ocp_diag_core_cpp.Hardware.Cpu.{
  new_lpu, CpuNumaNode, new_node, new_topology, Numbers, normalize_topology, normalize_nodes,
  normalize_numa_node, normalize_lpus, number_lpus, finish_topology, push_nodes, push_lpus,
}
use ocp_diag_core_cpp.Hardware.Cpu.Gather.{
  parse_range_list_file, lpu_do_real_gather, lpu_gather, gather_lpus, node_do_real_gather,
  node_gather, gather_nodes, topology_do_real_gather, topology_gather,
}
use ocp_diag_core_cpp.Hardware.Cpu.Numbering.{IsNumbering, IsOnly}
use ocp_diag_core_cpp.Hardware.Cpu.Renumbering.{
  All2, InNodes, IsNodeRenumbered, normalize_topology-IsRenumbered,
}
use ocp_diag_core_cpp.Hardware.Cpu.Counts.{IsCounted, topology_gather-IsCounted}
use ocp_diag_core_cpp.Hardware.Cpu.Signature.{CpuInfoText}
use ocp_diag_core_cpp.Hardware.Cpu.Info.{InfoType, Info, no_info}
use ocp_diag_core_cpp.Hardware.Cpu.Info.Steps.{gather_topology}
use ocp_diag_core_cpp.Hardware.Cpu.Info.Sections.{asked, other_parts, get_cpu_info}
use ocp_diag_core_cpp.Hardware.Cpu.Info.Requested.{HasTopology, get_cpu_info-HasTopology}
use ocp_diag_core_cpp.Hardware.Errors.{
  Error, ReportText, ErrorInfo, GetErrorsRequest, is_empty_window, get_errors, answer_errors,
  report_errors, error_info, ras_gather, parse_error_report, parse_lines, parse_mc_title,
  parse_mc_record, read_mc_record,
}
use ocp_diag_core_cpp.Hardware.Errors.Window.{IsInWindow, get_errors-IsInWindow}
use ocp_diag_core_cpp.Hardware.Errors.Report.{parse_error_report-records}
use ocp_diag_core_cpp.Hardware.Memory.{SmbiosReader, size_bytes_of, convert_address}
use ocp_diag_core_cpp.Hardware.Memory.Size.{described_size, or_unknown_size, size_bytes_of-exact}
use ocp_diag_core_cpp.Hardware.Memory.Convert.{
  First, Lies, HasHandle, IsNamed, convert_address-IsNamed,
}

abbrev redfish_override : NodeOverride
redfish_override = record {
  backend = BackendType.redfish;
  target_address = "bmc";
  port = pos 443;
  redfish_auth_method = AuthMethod.default;
  redfish_cache_policy = none;
  redfish_query_overrides = none;
}

apply_node_override-IsOverridden_example :
    IsOverridden redfish_override
      (new_configuration ∷ [])
      (apply_node_override redfish_override (new_configuration ∷ []))
apply_node_override-IsOverridden_example =
    apply_node_override-IsOverridden redfish_override (new_configuration ∷ [])

-- a backend that answers with its number
abbrev echo : Service ℕ ℕ ℕ ℕ ℕ
echo = record {
  call = λ b api req w. (value b, suc w);
  get_version = λ b req w. (value (b ∷ []), w);
}

abbrev host_config : EntityConfiguration
host_config = record new_configuration { default_backend = BackendType.host }

abbrev only_host : Builders ℕ
only_host = default_builder_resolver (λ config. value 7)

abbrev host_client : Client ℕ ℕ
host_client = record {
  config = host_config;
  backends = (BackendType.host, 7) ∷ [];
  host_adapter = some 1;
}

abbrev one_call : List (Api × ℕ)
one_call = (Api.get_errors, 0) ∷ []

create-serves_example :
    (b : ℕ) × (lookup same_backend
        (chosen host_config (method_of Api.get_cpu_info))
        host_client.backends
      ≡ some b)
    × ((call_api echo Api.get_cpu_info 3
          (after_calls echo one_call host_client 0).0
          (after_calls echo one_call host_client 0).1).0
        ≡ (echo.call b Api.get_cpu_info 3 (after_calls echo one_call host_client 0).1).0)
    × ((call_api echo Api.get_cpu_info 3
          (after_calls echo one_call host_client 0).0
          (after_calls echo one_call host_client 0).1).2
        ≡ (echo.call b Api.get_cpu_info 3 (after_calls echo one_call host_client 0).1).1)
unfolding create create_with build_backend add_backend add_method_backends
create-serves_example =
    create-serves echo only_host (λ address. error Code.not_found) 1 host_config host_client
      one_call 0 Api.get_cpu_info 3 refl

-- digits as Abseil would read them, of two texts
abbrev sample_atoi : String → Option ℤ
sample_atoi s = if str_eq s "3" then some (pos 3) else if str_eq s "5" then some (pos 5) else none

abbrev sample_split : String → String → List String
sample_split separator s =
    if str_eq separator "-" then (if str_eq s "3-5" then "3" ∷ "5" ∷ [] else s ∷ []) else s ∷ []

abbrev IntOrNone : Option ℤ → Type 0
IntOrNone none = Unit
IntOrNone (some n) = IsInt n

either : (b : Bool) (x y : Option ℤ) → IntOrNone x → IntOrNone y → IntOrNone (if b then x else y)
either true x y h k = h
either false x y h k = k

abbrev or_zero_int : Option ℤ → ℤ
or_zero_int none = pos 0
or_zero_int (some n) = n

read-IsInt : (x : Option ℤ) (n : ℤ) → IntOrNone x → x ≡ some n → IsInt n
read-IsInt none n h e = cc
read-IsInt (some m) n h e = ap (λ r. leb_ℤ (or_zero_int r) int_max) (sym e) ∙ h

sample_in_range : (s : String) (n : ℤ) → sample_atoi s ≡ some n → IsInt n
sample_in_range s n =
    read-IsInt (sample_atoi s) n
      (either (str_eq s "3") _ _ refl (either (str_eq s "5") _ _ refl tt))

parse_range_list-IsIncreasing_example :
    IsIncreasing (negsuc 0) (pos 3 ∷ pos 4 ∷ pos 5 ∷ []) × All IsInt (pos 3 ∷ pos 4 ∷ pos 5 ∷ [])
unfolding parse_range_list parse_elements parse_ranges
parse_range_list-IsIncreasing_example =
    parse_range_list-IsIncreasing sample_atoi sample_split "3-5" (pos 3 ∷ pos 4 ∷ pos 5 ∷ [])
      sample_in_range refl

abbrev sample_ids : IdMap
sample_ids = ("/phys", "/local") ∷ []

update_id_to_local-ends_example :
    (r : String) × (update_id_to_local (some sample_ids) "/phys/a:b" ≡ some r)
    × IsLocal sample_ids "/phys/a:b" r
update_id_to_local-ends_example = update_id_to_local-ends sample_ids "/phys/a:b"

abbrev sample_identifier : Identifier
sample_identifier = record {
  devpath = "/phys";
  odata_id = "";
  name = "DIMM0";
  arena = "";
  type_name = "dimm";
  id = "/phys%%DIMM0%%dimm";
}

unmarshal_identifier-populate_id_example :
    unmarshal_identifier (populate_id none sample_identifier).id
    ≡ value (populate_id none sample_identifier)
unmarshal_identifier-populate_id_example =
    unmarshal_identifier-populate_id sample_identifier (refl, refl, refl, refl, refl)

abbrev sample_nodes : List CpuNumaNode
sample_nodes =
    record (new_node (pos 0)) { lpus = record (new_lpu (pos 0) (pos 0)) { socket_id = pos 8 } ∷ [] }
    ∷ record (new_node (pos 1)) {
      lpus = record (new_lpu (pos 1) (pos 1)) { socket_id = pos 3 } ∷ [];
    }
    ∷ []

normalize_topology-IsRenumbered_example :
    (sockets : Numbers) × IsNumbering sockets
    × IsOnly (InNodes sample_nodes) sockets
    × All2 (IsNodeRenumbered sockets.0) sample_nodes (normalize_topology sample_nodes)
normalize_topology-IsRenumbered_example = normalize_topology-IsRenumbered sample_nodes

-- a host with one processor, whose state counts what is read
abbrev sample_host : HostAdapter ℕ
sample_host = record {
  read = λ path w. (value "0", suc w);
  run_command = λ args w. (value (record { exit_code = pos 0; stdout = "report"; stderr = "" }), w);
}

abbrev zero_atoi : String → Option ℤ
zero_atoi s = some (pos 0)

abbrev no_split : String → String → List String
no_split separator s = s ∷ []

topology_gather-IsCounted_example :
    IsCounted (topology_gather zero_atoi no_split sample_host new_topology 0).1
unfolding topology_gather topology_do_real_gather parse_range_list_file parse_range_list
    parse_elements parse_ranges gather_nodes node_gather node_do_real_gather gather_lpus lpu_gather
    lpu_do_real_gather
topology_gather-IsCounted_example = topology_gather-IsCounted zero_atoi no_split sample_host 0 refl

abbrev no_text : CpuInfoText
no_text = record {
  partial_match = λ text pattern. none;
  partial_match_int = λ text pattern. none;
  hex_atoi = λ text. none;
  str_contains = λ text part. false;
}

abbrev one_processor : Info
one_processor = record no_info {
  topology = some (record {
    sockets_enabled = 1;
    logical_cores_enabled = 1;
    physical_cores_enabled = 1;
    logical_cores_max = 1;
  });
}

get_cpu_info-HasTopology_example : HasTopology (asked (pos 1 ∷ []) InfoType.topology) one_processor
unfolding get_cpu_info other_parts gather_topology topology_gather topology_do_real_gather
    parse_range_list_file parse_range_list parse_elements parse_ranges gather_nodes node_gather
    node_do_real_gather gather_lpus lpu_gather lpu_do_real_gather finish_topology normalize_topology
    normalize_nodes normalize_numa_node normalize_lpus number_lpus push_nodes push_lpus
get_cpu_info-HasTopology_example =
    get_cpu_info-HasTopology (λ n. "0") zero_atoi no_split no_text sample_host (pos 1 ∷ []) 0
      one_processor refl

abbrev sample_report : ReportText
sample_report = record {
  full_match = λ line.
      some (record { temp_ts = "then"; count = pos 2; err_type = "Corrected"; label = "DIMM0" });
  parse_time = λ text. some (pos 50);
  str_split = λ separator text. "Memory controller events:" ∷ "1 record" ∷ "" ∷ "" ∷ [];
}

abbrev sample_error : Error
sample_error = record {
  timestamp = pos 50;
  count = pos 2;
  is_correctable = true;
  is_fatal = false;
  label = "DIMM0";
  debuginfo = "1 record";
}

parse_error_report-records_example :
    parse_error_report sample_report "report" [] ≡ (value tt, sample_error ∷ [])
unfolding read_mc_record
parse_error_report-records_example =
    parse_error_report-records sample_report "report" ("1 record" ∷ []) "" [] (sample_error ∷ [])
      refl (refl, tt) refl

abbrev sample_request : GetErrorsRequest
sample_request = record {
  filter = some (record { start_seconds = pos 10; end_seconds = pos 50 });
  event_sources = [];
  report_debug_info = false;
}

abbrev sample_info : ErrorInfo
sample_info = record {
  event_seconds = pos 50;
  count = pos 2;
  is_correctable = true;
  is_fatal = false;
  ids =
      record {
        devpath = "";
        odata_id = "";
        name = "DIMM0";
        arena = "";
        type_name = "dimm";
        id = "%%DIMM0%%dimm";
      }
      ∷ [];
  other_debug_info = "";
}

get_errors-IsInWindow_example :
    (is_empty_window sample_request.filter ≡ false)
    × All (IsInWindow sample_request.filter) (sample_info ∷ [])
unfolding get_errors answer_errors report_errors error_info populate_id ras_gather
    parse_error_report parse_lines parse_mc_title parse_mc_record read_mc_record
get_errors-IsInWindow_example =
    get_errors-IsInWindow (λ t. t) sample_request sample_report sample_host 0 (sample_info ∷ [])
      refl

size_bytes_of-exact_example :
    (size_bytes_of 32767 (some 65536) ≡ described_size 32767 (or_unknown_size (some 65536)))
    × (size_bytes_of 32767 (some 65536) < 4503599627370496)
size_bytes_of-exact_example = size_bytes_of-exact 32767 (some 65536) (omega arith) (omega arith)

abbrev sample_reader : SmbiosReader
sample_reader = record {
  memory_devices =
      record {
        handle = 17;
        size = 1024;
        extended_size = none;
        device_locator = "DIMM0";
        memory_type = 26;
        speed = none;
        configured_memory_clock_speed = none;
        module_manufacturer_id = none;
      }
      ∷ [];
  mapped_addresses =
      record {
        starting_address = 0;
        ending_address = 1023;
        memory_device_handle = 17;
        extended_starting_address = 0;
        extended_ending_address = 0;
      }
      ∷ [];
}

abbrev sample_dimm : Identifier
sample_dimm = record {
  devpath = "";
  odata_id = "";
  name = "DIMM0";
  arena = "";
  type_name = "dimm";
  id = "%%DIMM0%%dimm";
}

convert_address-IsNamed_example :
    (convert_address 4096 sample_reader ≡ value sample_dimm)
    ↔ (handle : ℕ) × (handle ≢ 0)
      × First (Lies 4096) (λ m. m.memory_device_handle ≡ handle) sample_reader.mapped_addresses
      × First (HasHandle handle) (IsNamed sample_dimm) sample_reader.memory_devices
convert_address-IsNamed_example = convert_address-IsNamed 4096 sample_reader sample_dimm
