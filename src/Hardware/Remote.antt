-- ===== src/Hardware/Remote.antt =====
-- ocpdiag/core/lib/off_dut_machine_interface/remote_factory.cc: the search for the ssh program and
-- the making of a connection. The paths of std::filesystem, the file system, the environment and
-- the flags are parameters.
pub mod Path
pub mod Ssh
pub mod Adapter
use Prim.Native.String.{◌++◌}
use text.Mathlib.Text.{◌==◌ as str_eq}
use ocp_diag_core_cpp.Base.{
  ℕ, zero, suc, ℤ, String, is_empty, Bool, true, false, ◌&&◌, ◌||◌, Option, none, some, List, [],
  ◌∷◌, if◌then◌else◌,
}
use ocp_diag_core_cpp.Hardware.Status.{Code, StatusOr, ◌>>=◌, value, error, undefined}
use ocp_diag_core_cpp.Hardware.Identifier.{
  colon, find_first_of, take_text, drop_text, length_text, on_found,
}

-- `ssh_paths.find(path) != ssh_paths.end()`
abbrev pub is_ssh_path : String → Bool
is_ssh_path path = str_eq path "/bin/ssh" || str_eq path "/usr/bin/ssh"

-- `exists` answers for every path: an error of the file system, at which std::filesystem::exists
-- throws, is left out.
module _ (append_path : String → String → String) (exists : String → Bool) where
  -- whether the program stands in a directory of the path
  abbrev pub has_ssh : String → Bool
  has_ssh directory =
      is_ssh_path (append_path directory "ssh") && exists (append_path directory "ssh")

  -- the loop over the path behind `start`; none if the fuel runs out
  unfoldable pub search_path : ℕ → String → Option (StatusOr String)
  search_path zero rest = none
  search_path (suc fuel) rest =
      on_found (find_first_of colon rest)
        (λ cur.
          let next = search_path fuel (drop_text (suc cur) rest) in
          if has_ssh (take_text cur rest)
          then some (value (append_path (take_text cur rest) "ssh"))
          else next)
        (some (error Code.not_found))

  unfoldable pub get_ssh_path : String → Option (StatusOr String)
  unfolding search_path
  get_ssh_path path_env = search_path (suc (length_text path_env)) path_env

pub data ConnectionTypes : Type 0 where
  prod ssh : ConnectionTypes

abbrev connection_type : String → Option ConnectionTypes
connection_type name = if str_eq name "ssh" then some ConnectionTypes.ssh else none

-- the fields of an SSHConnInterface
pub record Connection : Type 0 where
  pub address : String
  pub ssh_key_path : String
  pub ssh_tunnel_file_path : String
  pub ssh_bin_path : String

-- what NewConn reads of the process: its flags and the variable PATH, none if it is not set
pub record Environment : Type 0 where
  pub mi_connection_type : String
  pub remote_ssh_key_path : String
  pub remote_ssh_tunnel_file_path : String
  pub path : Option String

module _ (ascii_str_to_lower : String → String) (append_path : String → String → String)
    (exists : String → Bool) where
  abbrev with_program :
      Environment → String → Option (StatusOr String) → Option (StatusOr Connection)
  with_program env address none = none
  with_program env address (some ssh_bin) = some (
      ssh_bin >>= λ program. value (record {
        address = address;
        ssh_key_path = env.remote_ssh_key_path;
        ssh_tunnel_file_path = env.remote_ssh_tunnel_file_path;
        ssh_bin_path = program;
      }))

  -- A text of a null pointer has undefined behaviour.
  abbrev with_path : Environment → String → Option String → Option (StatusOr Connection)
  with_path env address none = some undefined
  with_path env address (some path_env) =
      with_program env address (get_ssh_path append_path exists path_env)

  abbrev by_connection_type :
      Environment → String → Option ConnectionTypes → Option (StatusOr Connection)
  by_connection_type env address none = some (error Code.invalid_argument)
  by_connection_type env address (some type) = with_path env address env.path

  unfoldable pub new_conn : Environment → String → Option (StatusOr Connection)
  unfolding get_ssh_path
  new_conn env address =
      if is_empty address
      then some (error Code.invalid_argument)
      else by_connection_type env address
          (connection_type (ascii_str_to_lower env.mi_connection_type))
