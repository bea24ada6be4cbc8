-- ===== src/Hardware/Cpu/Info/Steps.antt =====
-- ocpdiag/core/hwinterface/backends/host/host_backend.cc: what the parts of GetCpuInfo gather and set.
use Prim.Native.String.{◌++◌ as append}
use ocp_diag_core_cpp.Base.{ℤ, eq_ℤ, String, Option, List, [], ◌∷◌, put}
use ocp_diag_core_cpp.Hardware.Status.{StatusOr, value, error, thrown, undefined}
use ocp_diag_core_cpp.Hardware.Host.{HostAdapter, Outcome, ◌>>=?◌}
use ocp_diag_core_cpp.Hardware.Cpu.{CpuLpu, CpuTopology}
use ocp_diag_core_cpp.Hardware.Cpu.Gather.{topology_gather}
use ocp_diag_core_cpp.Hardware.Cpu.Signature.{
  CpuInfoText, CpuSignature, signature_gather, CpuFrequency, new_frequency, frequency_gather,
  throttle_gather,
}
use ocp_diag_core_cpp.Hardware.Cpu.Info.{Call, put_name}

module _ (format : ℤ → String) where
  -- CpuLpu::name and socket_name
  abbrev pub name_of : CpuLpu → String
  name_of lpu = append "/CPU" (
      append (format lpu.socket_id) (
        append "/die" (
          append (format lpu.die_id) (
            append "/core" (
              append (format lpu.core_id) (
                append "/thread"
                  (append (format lpu.thread_id) (append "#processor" (format lpu.cpu_id)))))))))

  abbrev socket_name_of : CpuLpu → String
  socket_name_of lpu = append "CPU" (format lpu.socket_id)

  unfoldable pub set_lpu_identifier : CpuLpu → Call → Call
  unfolding put_name
  set_lpu_identifier lpu c = record c {
    info = record c.info {
      lpu_identifiers = put_name lpu.cpu_id (name_of lpu) c.info.lpu_identifiers;
    };
  }

  unfoldable pub set_socket_identifier : CpuLpu → Call → Call
  unfolding put_name
  set_socket_identifier lpu c = record c {
    info = record c.info {
      socket_identifiers = put_name lpu.cpu_id (socket_name_of lpu) c.info.socket_identifiers;
    };
  }

  unfoldable pub set_package_identifier : CpuLpu → Call → Call
  unfolding put_name
  set_package_identifier lpu c = record c {
    info = record c.info {
      package_identifiers = put_name lpu.cpu_id (socket_name_of lpu) c.info.package_identifiers;
    };
  }

-- `RETURN_IF_ERROR` of the gathering of the topology or of the signature
abbrev pub keep_topology :
    {W : Type 0} → Call → Outcome (Unit {0}) CpuTopology W → StatusOr Call × W
keep_topology c (value okay, t, w) = (value (record c { topology = t }), w)
keep_topology c (error code, t, w) = (error code, w)
keep_topology c (thrown, t, w) = (thrown, w)
keep_topology c (undefined, t, w) = (undefined, w)

abbrev pub keep_signature :
    {W : Type 0} → Call → Outcome (Unit {0}) CpuSignature W → StatusOr Call × W
keep_signature c (value okay, s, w) = (value (record c { sig = s }), w)
keep_signature c (error code, s, w) = (error code, w)
keep_signature c (thrown, s, w) = (thrown, w)
keep_signature c (undefined, s, w) = (undefined, w)

module _ {W : Type 0} (simple_atoi : String → Option ℤ) (str_split : String → String → List String)
    (host : HostAdapter W) where
  unfoldable pub gather_topology : Call → W → StatusOr Call × W
  unfolding topology_gather
  gather_topology c w = keep_topology c (topology_gather simple_atoi str_split host c.topology w)

module _ {W : Type 0} (text : CpuInfoText) (host : HostAdapter W) where
  unfoldable pub gather_signature : Call → W → StatusOr Call × W
  unfolding signature_gather
  gather_signature c w = keep_signature c (signature_gather text host c.sig w)

abbrev pub keep_frequency :
    {W : Type 0} → CpuLpu → Call → Outcome (Unit {0}) CpuFrequency W → StatusOr Call × W
keep_frequency lpu c (value okay, f, w) = (
  value (record c { info = record c.info { frequency = put eq_ℤ lpu.cpu_id f c.info.frequency } }),
  w,
)
keep_frequency lpu c (error code, f, w) = (error code, w)
keep_frequency lpu c (thrown, f, w) = (thrown, w)
keep_frequency lpu c (undefined, f, w) = (undefined, w)

abbrev pub keep_throttle : {W : Type 0} → CpuLpu → Call → ℤ → W → StatusOr Call × W
keep_throttle lpu c count w = (
  value (record c {
    info = record c.info {
      thermal_throttle_count = put eq_ℤ lpu.cpu_id count c.info.thermal_throttle_count;
    };
  }),
  w,
)

module _ {W : Type 0} (simple_atoi : String → Option ℤ) (host : HostAdapter W) where
  unfoldable pub gather_frequencies : List CpuLpu → Call → W → StatusOr Call × W
  unfolding frequency_gather
  gather_frequencies [] c w = (value c, w)
  gather_frequencies (lpu ∷ lpus) c w =
      keep_frequency lpu c (frequency_gather simple_atoi host lpu.cpu_id new_frequency w)
      >>=? gather_frequencies lpus

  unfoldable pub gather_throttles : List CpuLpu → Call → W → StatusOr Call × W
  unfolding throttle_gather
  gather_throttles [] c w = (value c, w)
  gather_throttles (lpu ∷ lpus) c w =
      throttle_gather simple_atoi host lpu.cpu_id w
      >>=? keep_throttle lpu c
      >>=? gather_throttles lpus
