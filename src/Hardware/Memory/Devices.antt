-- ===== src/Hardware/Memory/Devices.antt =====
-- ocpdiag/core/hwinterface/backends/host/memory.cc: the response of GetMemoryInfo, device by device.
use Prim.Native.String.{◌++◌ as append}
use ocp_diag_core_cpp.Base.{
  ℕ, suc, ◌==◌, ℤ, pos, String, Bool, true, false, not, Option, none, some, List, [], ◌∷◌,
  if◌then◌else◌,
}
use ocp_diag_core_cpp.Hardware.Status.{value}
use ocp_diag_core_cpp.Hardware.Identifier.{Identifier, no_identifier, populate_id}
use ocp_diag_core_cpp.Hardware.Host.{HostAdapter, Outcome}
use ocp_diag_core_cpp.Hardware.Cpu.Info.{info_type_have}
use ocp_diag_core_cpp.Hardware.Memory.{
  MemoryDevice, SmbiosReader, get_smbios_reader, with_reader, size_bytes_of,
}

pub data FwMemoryType : Type 0 where
  unknown invalid other dram edram vram sram ram rom flash eeprom feprom eprom cdram : FwMemoryType
  three_dram sdram sgram rdram ddr3 ddr4 ddr5 : FwMemoryType

abbrev fw_memory_types : List (ℕ × FwMemoryType)
fw_memory_types =
    (0, FwMemoryType.invalid)
    ∷ (1, FwMemoryType.other)
    ∷ (2, FwMemoryType.unknown)
    ∷ (3, FwMemoryType.dram)
    ∷ (4, FwMemoryType.edram)
    ∷ (5, FwMemoryType.vram)
    ∷ (6, FwMemoryType.sram)
    ∷ (7, FwMemoryType.ram)
    ∷ (8, FwMemoryType.rom)
    ∷ (9, FwMemoryType.flash)
    ∷ (10, FwMemoryType.eeprom)
    ∷ (11, FwMemoryType.feprom)
    ∷ (12, FwMemoryType.eprom)
    ∷ (13, FwMemoryType.cdram)
    ∷ (14, FwMemoryType.three_dram)
    ∷ (15, FwMemoryType.sdram)
    ∷ (16, FwMemoryType.sgram)
    ∷ (17, FwMemoryType.rdram)
    ∷ (24, FwMemoryType.ddr3)
    ∷ (26, FwMemoryType.ddr4)
    ∷ (34, FwMemoryType.ddr5)
    ∷ []

abbrev find_type : ℕ → List (ℕ × FwMemoryType) → FwMemoryType
find_type code [] = FwMemoryType.unknown
find_type code (t ∷ ts) = if t.0 == code then t.1 else find_type code ts

abbrev get_fw_memory_type : ℕ → FwMemoryType
get_fw_memory_type code = find_type code fw_memory_types

pub record Presence : Type 0 where
  pub present_in_slot : Bool
  pub present_in_firmware : Bool

pub record Speed : Type 0 where
  pub firmware_speed_mhz : ℕ
  pub operating_speed_mhz : ℕ

-- memory.proto, as far as the host backend fills it
pub record MemoryInfo : Type 0 where
  pub presence : Option Presence
  pub size_bytes : ℕ
  pub identifier : Option Identifier
  pub slot_name : Option String
  pub fw_memory_type : FwMemoryType
  pub speed : Option Speed
  pub manufacturer_index : Option ℕ

abbrev when_asked : {A : Type 0} → Bool → A → A → A
when_asked true a b = a
when_asked false a b = b

abbrev or_zero : Option ℕ → ℕ
or_zero none = 0
or_zero (some n) = n

abbrev dimm_name : (ℕ → String) → ℕ → String
dimm_name format index = append "DIMM" (format index)

-- one round of the loop of GetMemoryInfo
unfoldable pub memory_info : (ℕ → String) → List ℤ → ℕ → MemoryDevice → MemoryInfo
unfolding populate_id size_bytes_of
memory_info format info_types index d = record {
  presence =
      when_asked (info_type_have info_types (pos 1))
        (some
          (record { present_in_slot = not (d.size == 0); present_in_firmware = not (d.size == 0) }))
        none;
  size_bytes =
      when_asked (info_type_have info_types (pos 2)) (size_bytes_of d.size d.extended_size) 0;
  identifier =
      when_asked (info_type_have info_types (pos 4))
        (some (
          populate_id none
            (record no_identifier { type_name = "dimm"; name = dimm_name format index })))
        none;
  slot_name = when_asked (info_type_have info_types (pos 6)) (some (dimm_name format index)) none;
  fw_memory_type =
      when_asked (info_type_have info_types (pos 7)) (get_fw_memory_type d.memory_type)
        FwMemoryType.unknown;
  speed =
      when_asked (info_type_have info_types (pos 8))
        (some (record {
          firmware_speed_mhz = or_zero d.speed;
          operating_speed_mhz = or_zero d.configured_memory_clock_speed;
        }))
        none;
  manufacturer_index = when_asked (info_type_have info_types (pos 9)) d.module_manufacturer_id none;
}

unfoldable memory_infos : (ℕ → String) → List ℤ → ℕ → List MemoryDevice → List (ℕ × MemoryInfo)
unfolding memory_info
memory_infos format info_types index [] = []
memory_infos format info_types index (d ∷ ds) =
    (index, memory_info format info_types index d) ∷ memory_infos format info_types (suc index) ds

unfoldable pub get_memory_info :
    {W : Type 0}
    → (ℕ → String)
    → (String → SmbiosReader)
    → HostAdapter W
    → List ℤ
    → Option SmbiosReader
    → W
    → Outcome (List (ℕ × MemoryInfo)) (Option SmbiosReader) W
unfolding get_smbios_reader memory_infos
get_memory_info format make_reader host info_types kept w =
    with_reader (get_smbios_reader make_reader host kept w)
      λ reader. value (memory_infos format info_types 0 reader.memory_devices)
