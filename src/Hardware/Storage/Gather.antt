-- ===== src/Hardware/Storage/Gather.antt =====
-- ocpdiag/core/hwinterface/backends/host/storage_info.cc: running smartctl, and
-- HostBackend::GetStorageInfo; node_info.cc: HostBackend::GetNodeInfo. The order in which the map of
-- the security levels is read is a parameter.
use ocp_diag_core_cpp.Base.{
  ℤ, pos, eq_ℤ, String, Bool, true, false, ◌||◌, Option, none, some, List, [], ◌∷◌, map,
  if◌then◌else◌,
}
use ocp_diag_core_cpp.Hardware.Status.{Code, StatusOr, ◌>>=◌, value, error}
use ocp_diag_core_cpp.Hardware.Host.{HostAdapter, ◌>>=?◌}
use ocp_diag_core_cpp.Hardware.Identifier.{Identifier, no_identifier}
use ocp_diag_core_cpp.Hardware.Cpu.Info.{info_type_have}
use ocp_diag_core_cpp.Hardware.Storage.{
  Json, DeviceType, SecurityLevel, SecurityMode, SecurityInfo, StorageInfo, get_device_type,
  set_ata_info, device_identifier, string_at,
}

-- the map of SECURITY_LEVEL_PAIR, in some order
abbrev pub Levels : Type 0
Levels = List (String × SecurityLevel)

unfoldable pub security_level_map : Levels
security_level_map =
    ("SEC0", SecurityLevel.sec0)
    ∷ ("SEC1", SecurityLevel.sec1)
    ∷ ("SEC2", SecurityLevel.sec2)
    ∷ ("SEC3", SecurityLevel.sec3)
    ∷ ("SEC4", SecurityLevel.sec4)
    ∷ ("SEC5", SecurityLevel.sec5)
    ∷ ("SEC6", SecurityLevel.sec6)
    ∷ []

-- the loop over the map: the level of the first keyword found
unfoldable pub find_level : (String → String → Bool) → String → Levels → SecurityLevel
find_level str_contains text [] = SecurityLevel.unknown
find_level str_contains text (entry ∷ entries) =
    let rest = find_level str_contains text entries in
    if str_contains text entry.0 then entry.1 else rest

abbrev smartctl : String
smartctl = "/usr/sbin/smartctl"

abbrev no_security : SecurityInfo
no_security = record { level = SecurityLevel.unknown; mode = SecurityMode.unknown }

-- a part of an answer that is only read if it is asked for
abbrev part_if : {A W : Type 0} → Bool → A → (W → StatusOr A × W) → W → StatusOr A × W
part_if true default read w = read w
part_if false default read w = (value default, w)

-- the same, of a part that an answer can lack
abbrev pub optional_if : {A W : Type 0} → Bool → (W → StatusOr A × W) → W → StatusOr (Option A) × W
optional_if true read w = read w >>=? λ a w. (value (some a), w)
optional_if false read w = (value none, w)

module _ {J W : Type 0} (json : Json J) (host : HostAdapter W)
    (str_contains : String → String → Bool) (levels : Levels) where
  unfoldable pub run_smartctl : List String → W → StatusOr String × W
  run_smartctl args w = host.run_command args w >>=? λ cmd_result w. (
    if eq_ℤ cmd_result.exit_code (pos 64) || eq_ℤ cmd_result.exit_code (pos 0)
        then value cmd_result.stdout
        else error Code.internal,
    w,
  )

  abbrev parsed_or_fail : Option J → StatusOr J
  parsed_or_fail none = error Code.internal
  parsed_or_fail (some result) = value result

  unfoldable pub parse_json : String → StatusOr J
  parse_json text = parsed_or_fail (json.parse text)

  unfoldable pub query_smartctl : List String → W → StatusOr J × W
  unfolding run_smartctl parse_json
  query_smartctl args w = run_smartctl args w >>=? λ stdout w. (parse_json stdout, w)

  -- what a report of the security settings says
  unfoldable security_info_of : J → StatusOr SecurityInfo
  unfolding find_level
  security_info_of security_json =
      if json.contains security_json "ata_security"
      then (json.at security_json "ata_security" >>= λ ata. json.at ata "enabled" >>= λ enabled.
          if json.is_true enabled
          then (string_at json (json.at ata "string") >>= λ text.
              value
                (record { level = find_level str_contains text levels; mode = SecurityMode.ata }))
          else value no_security)
      else value no_security

  unfoldable set_security_info : String → W → StatusOr SecurityInfo × W
  unfolding query_smartctl security_info_of
  set_security_info name w =
      query_smartctl (smartctl ∷ "--json" ∷ "-g" ∷ "security" ∷ name ∷ []) w >>=? λ security_json w.
      (security_info_of security_json, w)

  abbrev pub device_name : J → StatusOr String
  device_name device = string_at json (json.const_at device "name")

  abbrev needs_all : List ℤ → Bool
  needs_all info_types =
      info_type_have info_types (pos 1)
      || (info_type_have info_types (pos 3) || info_type_have info_types (pos 5))

  -- one round of the loop over the devices, without the name of the device
  unfoldable pub storage_parts : List ℤ → J → W → StatusOr StorageInfo × W
  unfolding query_smartctl set_security_info get_device_type set_ata_info device_identifier
  storage_parts info_types device w =
      part_if (needs_all info_types) json.null
        (λ w. (device_name device, w) >>=? λ name w.
          query_smartctl (smartctl ∷ "--json" ∷ "--all" ∷ name ∷ []) w)
        w
      >>=? λ device_result w.
          optional_if (info_type_have info_types (pos 1))
            (λ w. (device_identifier json device device_result, w)) w
          >>=? λ id w.
              part_if (info_type_have info_types (pos 3)) DeviceType.unknown
                (λ w. (get_device_type json device_result, w)) w
              >>=? λ device_type w.
                  optional_if (info_type_have info_types (pos 5))
                    (λ w.
                      (device_name device, w) >>=? λ name w. (set_ata_info json device_result, w))
                    w
                  >>=? λ ata_info w.
                      optional_if (info_type_have info_types (pos 4))
                        (λ w. (device_name device, w) >>=? set_security_info) w
                      >>=? λ security_info w. (
                        value (record {
                          id = id;
                          kernel_name = none;
                          device_type = device_type;
                          security_info = security_info;
                          ata_info = ata_info;
                        }),
                        w,
                      )

  abbrev pub kernel_name_of : List ℤ → J → W → StatusOr (Option String) × W
  kernel_name_of info_types device =
      optional_if (info_type_have info_types (pos 2)) (λ w. (device_name device, w))

  abbrev pub with_kernel_name : List ℤ → J → Option String → W → StatusOr StorageInfo × W
  with_kernel_name info_types device kernel_name w =
      storage_parts info_types device w >>=? λ info w.
      (value (record info { kernel_name = kernel_name }), w)

  unfoldable pub storage_info : List ℤ → J → W → StatusOr StorageInfo × W
  unfolding storage_parts
  storage_info info_types device w =
      kernel_name_of info_types device w >>=? with_kernel_name info_types device

  unfoldable pub storage_infos : List ℤ → List J → W → StatusOr (List StorageInfo) × W
  unfolding storage_info
  storage_infos info_types [] w = (value [], w)
  storage_infos info_types (device ∷ devices) w = storage_info info_types device w >>=? λ info w.
      storage_infos info_types devices w >>=? λ infos w. (value (info ∷ infos), w)

  unfoldable pub get_storage_info : List ℤ → W → StatusOr (List StorageInfo) × W
  unfolding query_smartctl storage_infos
  get_storage_info info_types w =
      query_smartctl (smartctl ∷ "--json" ∷ "--scan" ∷ []) w >>=? λ scan_result w.
      (json.at scan_result "devices", w) >>=? λ devices w.
      storage_infos info_types (json.elements devices) w

  -- `storage_info.id()`, which is empty where it is absent
  abbrev identifier_or_empty : StorageInfo → Identifier
  identifier_or_empty info = or_no_identifier info.id
    where
      or_no_identifier : Option Identifier → Identifier
      or_no_identifier none = no_identifier
      or_no_identifier (some id) = id

  -- the field-replaceable units of the answer
  unfoldable pub get_node_info : List ℤ → W → StatusOr (List Identifier) × W
  unfolding get_storage_info
  get_node_info info_types w =
      if info_type_have info_types (pos 2)
      then (get_storage_info (pos 1 ∷ []) w >>=? λ infos w.
          (value (map identifier_or_empty infos), w))
      else (value [], w)
