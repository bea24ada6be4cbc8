-- ===== src/Hardware/Memory.antt =====
-- ocpdiag/core/hwinterface/backends/host/memory.cc and memory_convert.cc, and GetSmbiosReader of
-- host_backend.cc: the memory devices in the SMBIOS tables. The reader of the tables is Ecclesia's, a
-- parameter; what the code reads of a structure is a record, whose fields have the widths of SMBIOS.
pub mod Devices
pub mod Size
pub mod Convert
use Prim.Native.Nat.{◌*◌, ◌/◌, ◌%◌}
use Prim.Native.String.{◌++◌ as append}
use ocp_diag_core_cpp.Base.{
  ℕ, zero, suc, ◌-◌, ◌==◌, ltb, ℤ, pos, String, Bool, true, false, not, ◌&&◌, Option, none, some,
  List, [], ◌∷◌, if◌then◌else◌,
}
use ocp_diag_core_cpp.Hardware.Status.{Code, StatusOr, value, error, thrown, undefined}
use ocp_diag_core_cpp.Hardware.Identifier.{Identifier, no_identifier, populate_id}
use ocp_diag_core_cpp.Hardware.Host.{File, HostAdapter, Outcome, with_read}
use ocp_diag_core_cpp.Hardware.Cpu.Info.{info_type_have}

-- what is read of a memory device, with the optional fields of later versions
pub record MemoryDevice : Type 0 where
  pub handle : ℕ
  pub size : ℕ
  pub extended_size : Option ℕ
  pub device_locator : String
  pub memory_type : ℕ
  pub speed : Option ℕ
  pub configured_memory_clock_speed : Option ℕ
  pub module_manufacturer_id : Option ℕ

-- what is read of a memory device's mapped address
pub record MappedAddress : Type 0 where
  pub starting_address : ℕ
  pub ending_address : ℕ
  pub memory_device_handle : ℕ
  pub extended_starting_address : ℕ
  pub extended_ending_address : ℕ

pub record SmbiosReader : Type 0 where
  pub memory_devices : List MemoryDevice
  pub mapped_addresses : List MappedAddress

-- GetSmbiosReader: the backend's reader, which is made once.
unfoldable pub get_smbios_reader :
    {W : Type 0}
    → (String → SmbiosReader)
    → HostAdapter W
    → Option SmbiosReader
    → W
    → Outcome SmbiosReader (Option SmbiosReader) W
get_smbios_reader make_reader host (some reader) w = (value reader, some reader, w)
get_smbios_reader make_reader host none w =
    with_read none (host.read File.dmi_table w)
      λ table w. (value (make_reader table), some (make_reader table), w)

-- `ASSIGN_OR_RETURN` of the reader, and what a call answers from it
abbrev pub with_reader :
    {A W : Type 0}
    → Outcome SmbiosReader (Option SmbiosReader) W
    → (SmbiosReader → StatusOr A)
    → Outcome A (Option SmbiosReader) W
with_reader (value reader, kept, w) respond = (respond reader, kept, w)
with_reader (error code, kept, w) respond = (error code, kept, w)
with_reader (thrown, kept, w) respond = (thrown, kept, w)
with_reader (undefined, kept, w) respond = (undefined, kept, w)

-- a product of 64-bit unsigned integers
abbrev mul_64 : ℕ → ℕ → ℕ
mul_64 m n = (m * n) % 18446744073709551616

-- the bit of `kMemorySizeInKilobyteMask`
abbrev in_kilobytes : ℕ → Bool
in_kilobytes size = (size / 32768) % 2 == 1

abbrev extended_bytes : Option ℕ → ℕ
extended_bytes none = 0
extended_bytes (some megabytes) = mul_64 megabytes 1048576

-- the size in bytes, 0 if it is not known
unfoldable pub size_bytes_of : ℕ → Option ℕ → ℕ
size_bytes_of size extended_size =
    if size == 32767
    then extended_bytes extended_size
    else if size == 65535
    then 0
    else if in_kilobytes size
    then mul_64 (size - 32768) 1024
    else mul_64 size 1048576

-- `IsAddressWithinMap`
abbrev pub kilobytes : ℕ → ℕ → ℕ
kilobytes address extended = if address == 4294967295 then extended else address

unfoldable pub is_address_within_map : ℕ → MappedAddress → Bool
is_address_within_map address m =
    not (ltb address (mul_64 (kilobytes m.starting_address m.extended_starting_address) 1024))
    && not (ltb (mul_64 (kilobytes m.ending_address m.extended_ending_address) 1024) address)

-- the handle of the first mapping that has the address, or 0
unfoldable pub find_handle : ℕ → List MappedAddress → ℕ
unfolding is_address_within_map
find_handle address [] = 0
find_handle address (m ∷ ms) =
    if is_address_within_map address m then m.memory_device_handle else find_handle address ms

unfoldable pub dimm_identifier : MemoryDevice → Identifier
unfolding populate_id
dimm_identifier d =
    populate_id none (record no_identifier { name = d.device_locator; type_name = "dimm" })

unfoldable pub find_device : ℕ → List MemoryDevice → StatusOr Identifier
unfolding dimm_identifier
find_device handle [] = error Code.not_found
find_device handle (d ∷ ds) =
    if d.handle == handle then value (dimm_identifier d) else find_device handle ds

unfoldable pub convert_address : ℕ → SmbiosReader → StatusOr Identifier
unfolding find_handle find_device
convert_address address reader =
    let handle = find_handle address reader.mapped_addresses in
    if handle == 0 then error Code.invalid_argument else find_device handle reader.memory_devices

unfoldable pub memory_convert :
    {W : Type 0}
    → (String → SmbiosReader)
    → HostAdapter W
    → ℕ
    → Option SmbiosReader
    → W
    → Outcome Identifier (Option SmbiosReader) W
unfolding get_smbios_reader convert_address
memory_convert make_reader host address kept w =
    with_reader (get_smbios_reader make_reader host kept w) (convert_address address)
