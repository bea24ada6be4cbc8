-- ===== src/Hardware/Storage.antt =====
-- ocpdiag/core/hwinterface/backends/host/storage_info.cc: what smartctl reports of a storage device,
-- as messages of storage.proto. The JSON library is a record of parameters: a look-up in a value
-- that is not an object, and a conversion from the wrong type, throw an exception.
pub mod Capabilities
pub mod Gather
pub mod Devices
use Prim.Native.String.{◌++◌ as ◌<>◌}
use text.Mathlib.Text.{◌==◌ as str_eq}
use ocp_diag_core_cpp.Base.{
  ℕ, ◌-◌, ltb, ℤ, pos, eq_ℤ, String, Bool, true, false, not, ◌&&◌, Option, none, some, List, [],
  ◌∷◌, snoc, lookup, if◌then◌else◌,
}
use ocp_diag_core_cpp.Hardware.Status.{StatusOr, ◌>>=◌, value}
use ocp_diag_core_cpp.Hardware.Identifier.{
  Identifier, no_identifier, populate_id, length_text, take_text, drop_text,
}

-- `at` is the look-up in a value that can change, which makes a null of a missing key; `const_at`
-- has undefined behaviour there.
pub record Json (J : Type 0) : Type 0 where
  pub parse : String → Option J
  pub null : J
  pub contains : J → String → Bool
  pub at : J → String → StatusOr J
  pub const_at : J → String → StatusOr J
  pub get_int : J → StatusOr ℤ
  pub get_uint : J → StatusOr ℕ
  pub get_bool : J → StatusOr Bool
  pub get_string : J → StatusOr String
  pub is_true : J → Bool
  pub is_boolean : J → Bool
  pub items : J → List (String × J)
  pub elements : J → List J

pub data DeviceType : Type 0 where
  unknown hdd ssd google_ssd nvme_ssd nvdimm aep lnvd emmc : DeviceType

pub data Capability : Type 0 where
  unknown smart gpl sata_phy dma_log_ext dsn sct sct_long sct_same sct_erc sct_feat : Capability
  sct_tab wwn pm write_unc hpa aam cap_48bit flush flush_ext write_cache : Capability
  read_look_ahead security ssp fde_unofficial fde ncq ncq_unload ncq_prio : Capability
  ncq_streaming ncq_queue_management ncq_non_data ncq_auto_sense tcg : Capability

pub data SecurityLevel : Type 0 where
  unknown sec0 sec1 sec2 sec3 sec4 sec5 sec6 : SecurityLevel

pub data SecurityMode : Type 0 where
  unknown ata tcg unsupported : SecurityMode

pub record SecurityInfo : Type 0 where
  pub level : SecurityLevel
  pub mode : SecurityMode

pub record AtaInfo : Type 0 where
  pub num_sectors : ℕ
  pub logical_sector_size : ℤ
  pub physical_sector_size : ℤ
  pub rpm : ℤ
  pub enabled_capabilities : List Capability
  pub supported_capabilities : List Capability

-- the fields of the message Info, and of its system info, that the code sets
pub record StorageInfo : Type 0 where
  pub id : Option Identifier
  pub kernel_name : Option String
  pub device_type : DeviceType
  pub security_info : Option SecurityInfo
  pub ata_info : Option AtaInfo

unfoldable pub capability_mapping : String → Option Capability
capability_mapping key = lookup str_eq key (
    ("gp_logging", Capability.gpl)
    ∷ ("error_recovery_control", Capability.sct_erc)
    ∷ ("feature_control", Capability.sct_feat)
    ∷ ("data_table", Capability.sct_tab)
    ∷ [])

-- the text in front of an end, if it ends so
abbrev pub without_end : String → String → Option String
without_end text end =
    if ltb (length_text text) (length_text end)
    then none
    else if str_eq (drop_text (length_text text - length_text end) text) end
    then some (take_text (length_text text - length_text end) text)
    else none

abbrev pub new_ata_info : ℕ → ℤ → ℤ → ℤ → AtaInfo
new_ata_info sectors logical physical rpm = record {
  num_sectors = sectors;
  logical_sector_size = logical;
  physical_sector_size = physical;
  rpm = rpm;
  enabled_capabilities = [];
  supported_capabilities = [];
}

abbrev pub add_supported : AtaInfo → Capability → AtaInfo
add_supported info cap = record info {
  supported_capabilities = snoc info.supported_capabilities cap;
}

abbrev add_enabled : AtaInfo → Capability → AtaInfo
add_enabled info cap = record info { enabled_capabilities = snoc info.enabled_capabilities cap }

abbrev pub set_enabled : Option Capability → Bool → AtaInfo → AtaInfo
set_enabled none cap_status info = info
set_enabled (some cap) true info = add_supported (add_enabled info cap) cap
set_enabled (some cap) false info = info

abbrev pub set_supported : Option Capability → Bool → AtaInfo → AtaInfo
set_supported none cap_status info = info
set_supported (some cap) true info = add_supported info cap
set_supported (some cap) false info = info

abbrev pub if_supported_key : Option String → Bool → AtaInfo → AtaInfo
if_supported_key (some key) cap_status info = set_supported (capability_mapping key) cap_status info
if_supported_key none cap_status info = info

abbrev pub if_enabled_key : Option String → String → Bool → AtaInfo → AtaInfo
if_enabled_key (some key) smartctl_cap_key cap_status info =
    set_enabled (capability_mapping key) cap_status info
if_enabled_key none smartctl_cap_key cap_status info =
    if_supported_key (without_end smartctl_cap_key "_supported") cap_status info

unfoldable pub map_and_set_cap : String → Bool → AtaInfo → AtaInfo
unfolding capability_mapping
map_and_set_cap smartctl_cap_key cap_status info =
    if_enabled_key (without_end smartctl_cap_key "_enabled") smartctl_cap_key cap_status info

abbrev pub smart_caps : Bool → Bool → AtaInfo → AtaInfo
smart_caps available enabled info =
    let supported = if available then add_supported info Capability.smart else info in
    if enabled then add_enabled supported Capability.smart else supported

module _ {J : Type 0} (json : Json J) where
  unfoldable pub get_device_type : J → StatusOr DeviceType
  get_device_type device_result =
      if json.contains device_result "sata_version"
      then (json.at device_result "rotation_rate" >>= json.get_int >>= λ rate.
          value (if eq_ℤ rate (pos 0) then DeviceType.ssd else DeviceType.hdd))
      else if json.contains device_result "nvme_version"
      then value DeviceType.nvme_ssd
      else value DeviceType.unknown

  -- the loop over the capabilities of one kind
  unfoldable pub set_caps : List (String × J) → AtaInfo → StatusOr AtaInfo
  unfolding map_and_set_cap
  set_caps [] info = value info
  set_caps (item ∷ items) info =
      let rest = set_caps items in
      if not (json.is_boolean item.1)
      then rest info
      else (json.get_bool item.1 >>= λ cap_status. rest (map_and_set_cap item.0 cap_status info))

  abbrev pub const_path : J → String → String → StatusOr J
  const_path result key inner = json.const_at result key >>= λ found. json.const_at found inner

  unfoldable pub set_sct : J → AtaInfo → StatusOr AtaInfo
  unfolding set_caps
  set_sct device_result info =
      if json.contains device_result "ata_sct_capabilities"
      then (json.const_at device_result "ata_sct_capabilities" >>= λ caps.
          set_caps (json.items caps) (add_supported info Capability.sct))
      else value info

  unfoldable pub set_ata_info : J → StatusOr AtaInfo
  unfolding set_sct set_caps
  set_ata_info device_result =
      const_path device_result "user_capacity" "blocks" >>= json.get_uint >>= λ sectors.
      json.const_at device_result "logical_block_size" >>= json.get_int >>= λ logical.
      json.const_at device_result "physical_block_size" >>= json.get_int >>= λ physical.
      json.const_at device_result "rotation_rate" >>= json.get_int >>= λ rpm.
      const_path device_result "smart_support" "available" >>= json.get_bool >>= λ available.
      const_path device_result "smart_support" "enabled" >>= json.get_bool >>= λ enabled.
      const_path device_result "ata_smart_data" "capabilities" >>= λ caps.
      set_caps (json.items caps)
        (smart_caps available enabled (new_ata_info sectors logical physical rpm))
      >>= set_sct device_result

  abbrev pub string_at : StatusOr J → StatusOr String
  string_at found = found >>= json.get_string

  unfoldable pub device_identifier : J → J → StatusOr Identifier
  unfolding populate_id
  device_identifier device device_result =
      string_at (json.at device_result "serial_number") >>= λ serial.
      string_at (json.at device_result "model_name") >>= λ model.
      string_at (json.const_at device "type") >>= λ type. value (
        populate_id none
          (record no_identifier { name = model <> ("#" <> serial); type_name = type }))
