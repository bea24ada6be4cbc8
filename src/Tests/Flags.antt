-- ===== src/Tests/Flags.antt =====
-- The theorems on flags, at one override and one policy, and those on storage, at one device.
use text.Mathlib.Text.{◌==◌ as str_eq}
use ocp_diag_core_cpp.Base.{
  ℕ, suc, pos, String, true, false, none, some, List, [], ◌∷◌, ◌++◌, map, ◌≡◌, refl, if◌then◌else◌,
}
use ocp_diag_core_cpp.Hardware.Status.{Code, value, error}
use ocp_diag_core_cpp.Hardware.Config.{BackendType, AuthMethod, RedfishCachePolicy, NodeOverride}
use ocp_diag_core_cpp.Hardware.Host.{HostAdapter}
use ocp_diag_core_cpp.Hardware.Flags.{
  FlagText, override_texts, override_text, unparse_backend_type, unparse_overrides, parse_overrides,
  parse_cache_policy, unparse_cache_policy,
}
use ocp_diag_core_cpp.Hardware.Flags.RoundTrip.{
  kept_override, reparsed, parse_overrides-unparse, parse_cache_policy-unparse,
}
use ocp_diag_core_cpp.Hardware.Cpu.Renumbering.{All2}
use ocp_diag_core_cpp.Hardware.Storage.{
  Json, AtaInfo, Capability, StorageInfo, DeviceType, new_ata_info, set_ata_info, set_sct, set_caps,
  map_and_set_cap, capability_mapping,
}
use ocp_diag_core_cpp.Hardware.Storage.Capabilities.{IsSupported, set_ata_info-IsSupported}
use ocp_diag_core_cpp.Hardware.Storage.Gather.{
  security_level_map, query_smartctl, run_smartctl, parse_json, storage_parts, storage_info,
  storage_infos, get_storage_info,
}
use ocp_diag_core_cpp.Hardware.Storage.Devices.{IsNamedAfter, get_storage_info-IsNamedAfter}

abbrev first_text : List String → String
first_text [] = ""
first_text (s ∷ ss) = s

-- the texts of one override of one backend, and of one policy
abbrev flag_text : FlagText
flag_text = record {
  ascii_str_to_lower = λ s. s;
  str_split = λ separator s. s ∷ [];
  str_join = λ ss separator. first_text ss;
  decimal = λ n. "443";
  simple_atoi = λ s. if str_eq s "443" then some (pos 443) else none;
  match_override = λ s.
      if str_eq s "redfish://bmc:443"
      then some
          (record { backend = "redfish"; target_address = "bmc"; port = pos 443; auth_method = "" })
      else none;
  match_query = λ s. none;
  match_cache =
      λ s. if str_eq s "time_based_cache:443" then some ("time_based_cache", "443") else none;
}

abbrev tls_override : NodeOverride
tls_override = record {
  backend = BackendType.redfish;
  target_address = "bmc";
  port = pos 443;
  redfish_auth_method = AuthMethod.tls;
  redfish_cache_policy = none;
  redfish_query_overrides = none;
}

parse_overrides-unparse_example :
    parse_overrides flag_text (unparse_overrides flag_text (tls_override ∷ [])) []
    ≡ (true, [] ++ map kept_override (tls_override ∷ []))
unfolding unparse_overrides override_texts override_text unparse_backend_type
parse_overrides-unparse_example =
    parse_overrides-unparse flag_text (tls_override ∷ []) [] (refl, tt) refl refl

abbrev cached_for : ℕ → RedfishCachePolicy
cached_for seconds =
    RedfishCachePolicy.time_based_cache (record { seconds = pos seconds; nanos = pos 5 })

parse_cache_policy-unparse_example :
    parse_cache_policy flag_text
      (unparse_cache_policy flag_text (cached_for 443))
      RedfishCachePolicy.no_cache
    ≡ reparsed (cached_for 443) RedfishCachePolicy.no_cache
parse_cache_policy-unparse_example =
    parse_cache_policy-unparse flag_text (cached_for 443) RedfishCachePolicy.no_cache
      (refl, refl, refl)

-- reports in which every value is the same, and every device is named "sda"
abbrev json : Json ℕ
json = record {
  parse = λ text. some 0;
  null = 0;
  contains = λ result key. true;
  at = λ result key. value 0;
  const_at = λ result key. value 0;
  get_int = λ result. value (pos 512);
  get_uint = λ result. value 512;
  get_bool = λ result. value true;
  get_string = λ result. value "sda";
  is_true = λ result. true;
  is_boolean = λ result. true;
  items = λ result. ("gp_logging_supported", 0) ∷ [];
  elements = λ result. 0 ∷ [];
}

abbrev reported : AtaInfo
reported = record (new_ata_info 512 (pos 512) (pos 512) (pos 512)) {
  enabled_capabilities = Capability.smart ∷ [];
  supported_capabilities = Capability.smart ∷ Capability.gpl ∷ Capability.sct ∷ Capability.gpl ∷ [];
}

set_ata_info-IsSupported_example : IsSupported reported
unfolding set_ata_info set_sct set_caps map_and_set_cap capability_mapping
set_ata_info-IsSupported_example =
    set_ata_info-IsSupported json 0 reported (λ h. absurd (true_is_not h)) refl
  where
    true_is_not : value true ≡ value false → ⊥
    true_is_not h = cc

abbrev smartctl_host : HostAdapter ℕ
smartctl_host = record {
  read = λ file w. (error Code.not_found, w);
  run_command = λ args w. (value (record { exit_code = pos 0; stdout = ""; stderr = "" }), suc w);
}

abbrev sda : StorageInfo
sda = record {
  id = none;
  kernel_name = some "sda";
  device_type = DeviceType.unknown;
  security_info = none;
  ata_info = none;
}

get_storage_info-IsNamedAfter_example :
    (scan_result : ℕ) × (u : ℕ) × (devices : ℕ) × (query_smartctl json smartctl_host
        (λ s t. false)
        security_level_map
        ("/usr/sbin/smartctl" ∷ "--json" ∷ "--scan" ∷ [])
        3
      ≡ (value scan_result, u))
    × (json.at scan_result "devices" ≡ value devices)
    × All2
        (IsNamedAfter json smartctl_host (λ s t. false) security_level_map)
        (sda ∷ [])
        (json.elements devices)
unfolding get_storage_info storage_infos storage_info storage_parts query_smartctl run_smartctl
    parse_json
get_storage_info-IsNamedAfter_example =
    get_storage_info-IsNamedAfter json smartctl_host (λ s t. false) security_level_map (pos 2 ∷ [])
      3 4 (sda ∷ []) refl refl
