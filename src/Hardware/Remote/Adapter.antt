-- ===== src/Hardware/Remote/Adapter.antt =====
-- ocpdiag/core/hwinterface/backends/lib/host_adapter.cc: the two host adapters and their making. The
-- files of ApifsFile and the connection's calls are parameters.
pub mod Program
use ocp_diag_core_cpp.Base.{
  ℤ, pos, eq_ℤ, String, is_empty, Bool, true, false, Option, none, some, List, [], ◌∷◌,
  if◌then◌else◌,
}
use ocp_diag_core_cpp.Hardware.Status.{Code, StatusOr, ◌>>=◌, value, error}
use ocp_diag_core_cpp.Hardware.Host.{CommandResult, HostAdapter, ◌>>=?◌}
use ocp_diag_core_cpp.Hardware.Remote.{Connection, Environment, new_conn}

record Apifs (W : Type 0) : Type 0 where
  pub read : String → W → StatusOr String × W
  pub exists : String → W → Bool
  pub create : String → W → W
  pub write : String → String → W → StatusOr (Unit {0}) × W

pub record ConnInterface (W : Type 0) : Type 0 where
  pub read_file : String → W → StatusOr String × W
  pub write_file : String → String → W → StatusOr (Unit {0}) × W
  pub run_command : List String → W → StatusOr CommandResult × W

module _ {W : Type 0} where
  unfoldable local_read : Apifs W → String → W → StatusOr String × W
  local_read apifs path w = apifs.read path w

  unfoldable local_write : Apifs W → String → String → W → StatusOr (Unit {0}) × W
  local_write apifs path data_text w =
      apifs.write path data_text (if apifs.exists path w then w else apifs.create path w)

  unfoldable remote_run_command : ConnInterface W → List String → W → StatusOr CommandResult × W
  remote_run_command connection args w = connection.run_command args w >>=? λ result w. (
    value (record { exit_code = result.exit_code; stdout = result.stdout; stderr = result.stderr }),
    w,
  )

  unfoldable remote_read : ConnInterface W → String → W → StatusOr String × W
  remote_read connection path w = connection.read_file path w >>=? λ result w. (value result, w)

  unfoldable remote_write : ConnInterface W → String → String → W → StatusOr (Unit {0}) × W
  remote_write connection path data_text w = connection.write_file path data_text w

  unfoldable pub get_hostname : (String → String) → HostAdapter W → W → StatusOr String × W
  get_hostname strip_ascii_whitespace host w =
      host.run_command ("/bin/hostname" ∷ []) w >>=? λ result w. (
        if eq_ℤ result.exit_code (pos 0)
            then value (strip_ascii_whitespace result.stdout)
            else error Code.unknown,
        w,
      )

pub data Adapter : Type 0 where
  local : Adapter
  remote : Connection → Adapter

module _ (ascii_str_to_lower : String → String) (append_path : String → String → String)
    (exists : String → Bool) where
  abbrev as_remote : Option (StatusOr Connection) → Option (StatusOr Adapter)
  as_remote none = none
  as_remote (some conn) = some (conn >>= λ connection. value (remote connection))

  unfoldable pub create_remote : Environment → String → Option (StatusOr Adapter)
  unfolding new_conn
  create_remote env address = as_remote (new_conn ascii_str_to_lower append_path exists env address)

  unfoldable pub create_adapter : Environment → String → Option (StatusOr Adapter)
  unfolding create_remote
  create_adapter env address =
      if is_empty address then some (value local) else create_remote env address
