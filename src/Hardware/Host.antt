-- ===== src/Hardware/Host.antt =====
-- ocpdiag/core/hwinterface/backends/lib/host_adapter.h: reading files of a host and running commands
-- on it, as parameters over the state of the host. A file is named by the constructor of its path.
pub mod RangeList
pub mod Increasing
use ocp_diag_core_cpp.Base.{ℤ, String, Option, none, some, List}
use ocp_diag_core_cpp.Hardware.Status.{Code, StatusOr, value, error, thrown, undefined}

-- the files that the host backend reads
pub data File : Type 0 where
  node_online proc_cpuinfo dmi_table : File
  node_cpulist : ℤ → File
  physical_package_id die_id core_id thread_siblings_list : ℤ → File
  tsc_freq_khz scaling_cur_freq scaling_max_freq core_throttle_count : ℤ → File

pub record CommandResult : Type 0 where
  pub exit_code : ℤ
  pub stdout : String
  pub stderr : String

pub record HostAdapter (W : Type 0) : Type 0 where
  pub read : File → W → StatusOr String × W
  pub run_command : List String → W → StatusOr CommandResult × W

-- A call on an object and the host: its result, the object and the host after it.
abbrev pub Outcome : Type 0 → Type 0 → Type 0 → Type 0
Outcome A O W = StatusOr A × O × W

-- `ASSIGN_OR_RETURN` of a call on the host alone
infixl 5 ◌>>=?◌
abbrev pub ◌>>=?◌ : {A B W : Type 0} → StatusOr A × W → (A → W → StatusOr B × W) → StatusOr B × W
(undefined, w) >>=? next = (undefined, w)
(thrown, w) >>=? next = (thrown, w)
(error code, w) >>=? next = (error code, w)
(value a, w) >>=? next = next a w

-- `ASSIGN_OR_RETURN` of a call on the host in a method of the object `o`
abbrev pub with_read :
    {A B O W : Type 0} → O → StatusOr A × W → (A → W → Outcome B O W) → Outcome B O W
with_read o (undefined, w) next = (undefined, o, w)
with_read o (thrown, w) next = (thrown, o, w)
with_read o (error code, w) next = (error code, o, w)
with_read o (value a, w) next = next a w

-- `Gather` of an object that keeps its first result
abbrev pub gather_once :
    {O W : Type 0}
    → Option (StatusOr (Unit {0}))
    → (StatusOr (Unit {0}) → O → O)
    → (O → W → Outcome (Unit {0}) O W)
    → O
    → W
    → Outcome (Unit {0}) O W
gather_once (some result) keep do_real_gather o w = (result, o, w)
gather_once none keep do_real_gather o w =
    let done = do_real_gather o w in (done.0, keep done.0 done.1, done.2)
