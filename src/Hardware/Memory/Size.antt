-- ===== src/Hardware/Memory/Size.antt =====
-- The size of a memory device: exact, and far from the end of a 64-bit integer.
use Prim.Native.Nat.{◌*◌}
use ocp_diag_core_cpp.Base.{ℕ, ◌-◌, ◌<◌, ◌==◌, ltb, Option, none, some, ◌≡◌, if◌then◌else◌, arith}
use ocp_diag_core_cpp.Hardware.Memory.{size_bytes_of}

-- a size as SMBIOS describes it: in units of a megabyte, or of a kilobyte from 2^15 on
abbrev pub described_size : ℕ → ℕ → ℕ
described_size size extended =
    if size == 32767
    then extended * 1048576
    else if size == 65535
    then 0
    else if ltb size 32768
    then size * 1048576
    else (size - 32768) * 1024

abbrev pub or_unknown_size : Option ℕ → ℕ
or_unknown_size none = 0
or_unknown_size (some megabytes) = megabytes

-- The size of a memory device whose fields have their widths, of 16 and of 32 bits, is the one that
-- SMBIOS describes, and is less than 2 ^ 52.
pub size_bytes_of-exact :
    (size : ℕ) (extended : Option ℕ)
    → size < 65536
    → or_unknown_size extended < 4294967296
    → (size_bytes_of size extended ≡ described_size size (or_unknown_size extended))
      × (size_bytes_of size extended < 4503599627370496)
unfolding size_bytes_of
size_bytes_of-exact size none h k = ground arith
size_bytes_of-exact size (some megabytes) h k = ground arith
