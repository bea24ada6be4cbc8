-- ===== src/Hardware/Cpu/Signature.antt =====
-- ocpdiag/core/hwinterface/backends/host/cpu.cc: CpuSignature, CpuFrequency and CpuThrottleInfo. The
-- regular expressions (RE2), StrContains and the parsing of hexadecimal digits are parameters; a
-- parse that fails writes nothing. A regular expression is named by its constructor.
use text.Mathlib.Text.{◌==◌ as str_eq}
use ocp_diag_core_cpp.Base.{ℕ, ◌==◌, ℤ, pos, String, Bool, Option, none, some, if◌then◌else◌}
use ocp_diag_core_cpp.Hardware.Status.{Code, StatusOr, value, error, thrown, undefined}
use ocp_diag_core_cpp.Hardware.Host.{File, HostAdapter, Outcome, with_read, gather_once}
use ocp_diag_core_cpp.Hardware.Cpu.Gather.{parse_integer_file}

pub data Vendor : Type 0 where
  unknown intel amd arm apm qualcomm : Vendor

-- the regular expressions on /proc/cpuinfo, by what they find
pub data CpuPattern : Type 0 where
  vendor_id cpu_family model stepping microcode implementer : CpuPattern

pub record CpuSignature : Type 0 where
  pub vendor : Vendor
  pub family : ℤ
  pub model : ℤ
  pub stepping : ℤ
  pub microcode : ℕ
  pub result : Option (StatusOr (Unit {0}))

abbrev pub new_signature : CpuSignature
new_signature = record {
  vendor = Vendor.unknown;
  family = pos 0;
  model = pos 0;
  stepping = pos 0;
  microcode = 0;
  result = none;
}

-- what the parsing of /proc/cpuinfo calls
pub record CpuInfoText : Type 0 where
  pub partial_match : String → CpuPattern → Option String
  pub partial_match_int : String → CpuPattern → Option ℤ
  pub hex_atoi : String → Option ℕ
  pub str_contains : String → String → Bool

abbrev x86_vendor : String → Vendor
x86_vendor found =
    if str_eq found "GenuineIntel"
    then Vendor.intel
    else if str_eq found "AuthenticAMD"
    then Vendor.amd
    else Vendor.unknown

abbrev arm_vendor : ℕ → Vendor
arm_vendor implementer_code =
    if implementer_code == 65
    then Vendor.arm
    else if implementer_code == 80
    then Vendor.apm
    else if implementer_code == 81
    then Vendor.qualcomm
    else Vendor.unknown

abbrev or_kept : {A : Type 0} → Option A → A → A
or_kept none old = old
or_kept (some new) old = new

abbrev set_vendor : Vendor → CpuSignature → CpuSignature
set_vendor vendor sig = record sig { vendor = vendor }

abbrev with_microcode : Option ℕ → CpuSignature → StatusOr (Unit {0}) × CpuSignature
with_microcode none sig = (error Code.internal, sig)
with_microcode (some n) sig = (value tt, record sig { microcode = n })

abbrev with_implementer : Option ℕ → CpuSignature → StatusOr (Unit {0}) × CpuSignature
with_implementer none sig = (error Code.internal, sig)
with_implementer (some code) sig = (value tt, set_vendor (arm_vendor code) sig)

abbrev then_parse : Option String → (String → Option ℕ) → Option ℕ
then_parse none parse = none
then_parse (some s) parse = parse s

module _ (text : CpuInfoText) where
  abbrev or_no_microcode : Option String → CpuSignature → StatusOr (Unit {0}) × CpuSignature
  or_no_microcode none sig = (value tt, sig)
  or_no_microcode (some hex) sig = with_microcode (text.hex_atoi hex) sig

  abbrev parse_numbers : String → CpuSignature → CpuSignature
  parse_numbers cpuinfo sig = record sig {
    family = or_kept (text.partial_match_int cpuinfo CpuPattern.cpu_family) sig.family;
    model = or_kept (text.partial_match_int cpuinfo CpuPattern.model) sig.model;
    stepping = or_kept (text.partial_match_int cpuinfo CpuPattern.stepping) sig.stepping;
  }

  abbrev by_vendor : String → Option String → CpuSignature → StatusOr (Unit {0}) × CpuSignature
  by_vendor cpuinfo (some found) sig =
      or_no_microcode (text.partial_match cpuinfo CpuPattern.microcode)
        (parse_numbers cpuinfo (set_vendor (x86_vendor found) sig))
  by_vendor cpuinfo none sig =
      if text.str_contains cpuinfo "BogoMIPS"
      then with_implementer
          (then_parse (text.partial_match cpuinfo CpuPattern.implementer) text.hex_atoi) sig
      else (value tt, set_vendor Vendor.unknown sig)

  unfoldable parse_from_cpu_info : String → CpuSignature → StatusOr (Unit {0}) × CpuSignature
  parse_from_cpu_info cpuinfo sig =
      by_vendor cpuinfo (text.partial_match cpuinfo CpuPattern.vendor_id) sig

  module _ {W : Type 0} (host : HostAdapter W) where
    unfoldable signature_do_real_gather : CpuSignature → W → Outcome (Unit {0}) CpuSignature W
    unfolding parse_from_cpu_info
    signature_do_real_gather sig w =
        with_read sig (host.read File.proc_cpuinfo w)
          λ cpuinfo w. let parsed = parse_from_cpu_info cpuinfo sig in (parsed.0, parsed.1, w)

    unfoldable pub signature_gather : CpuSignature → W → Outcome (Unit {0}) CpuSignature W
    unfolding signature_do_real_gather
    signature_gather sig w =
        gather_once sig.result (λ result sig. record sig { result = some result })
          signature_do_real_gather sig w

pub record CpuFrequency : Type 0 where
  pub design_freq : ℤ
  pub cur_freq : ℤ
  pub max_freq : ℤ

abbrev pub new_frequency : CpuFrequency
new_frequency = record { design_freq = pos 0; cur_freq = pos 0; max_freq = pos 0 }

module _ {W : Type 0} (simple_atoi : String → Option ℤ) (host : HostAdapter W) where
  -- the rest of the gathering, by how the current frequency was read
  abbrev by_cur_freq : ℤ → CpuFrequency → StatusOr ℤ × W → Outcome (Unit {0}) CpuFrequency W
  by_cur_freq cpu_id f (value cur, w) =
      let g : CpuFrequency = record f { cur_freq = cur } in
      with_read g (parse_integer_file simple_atoi host (File.scaling_max_freq cpu_id) w)
        λ max w. (value tt, record g { max_freq = max }, w)
  by_cur_freq cpu_id f (error Code.not_found, w) =
      (value tt, record f { cur_freq = f.design_freq; max_freq = f.design_freq }, w)
  by_cur_freq cpu_id f (error Code.invalid_argument, w) = (error Code.invalid_argument, f, w)
  by_cur_freq cpu_id f (error Code.internal, w) = (error Code.internal, f, w)
  by_cur_freq cpu_id f (error Code.unimplemented, w) = (error Code.unimplemented, f, w)
  by_cur_freq cpu_id f (error Code.deadline_exceeded, w) = (error Code.deadline_exceeded, f, w)
  by_cur_freq cpu_id f (error Code.unknown, w) = (error Code.unknown, f, w)
  by_cur_freq cpu_id f (thrown, w) = (thrown, f, w)
  by_cur_freq cpu_id f (undefined, w) = (undefined, f, w)

  unfoldable pub frequency_gather : ℤ → CpuFrequency → W → Outcome (Unit {0}) CpuFrequency W
  frequency_gather cpu_id f w = with_read f (host.read File.proc_cpuinfo w) λ cpuinfo w.
      with_read f (parse_integer_file simple_atoi host (File.tsc_freq_khz cpu_id) w) λ design w.
        by_cur_freq cpu_id (record f { design_freq = design })
          (parse_integer_file simple_atoi host (File.scaling_cur_freq cpu_id) w)

  -- CpuThrottleInfo::Gather, with the count that it finds
  unfoldable pub throttle_gather : ℤ → W → StatusOr ℤ × W
  throttle_gather cpu_id w = parse_integer_file simple_atoi host (File.core_throttle_count cpu_id) w
