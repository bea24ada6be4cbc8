-- ===== src/Hardware/Process.antt =====
-- ocpdiag/core/hwinterface/backends/lib/utils.cc: the texts of a host with its port, and the id and
-- the restart of a process. The clock, the host and Abseil's reading of numbers are parameters; a
-- time is a natural number of milliseconds.
pub mod Restart
use Prim.Native.Char.{Char}
use Prim.Native.String.{◌++◌}
use ocp_diag_core_cpp.Base.{
  ℕ, ◌+◌, ℤ, pos, leb_ℤ, eq_ℤ, String, is_empty, Bool, true, false, not, ◌&&◌, ◌||◌, Option, none,
  some, List, [], ◌∷◌, if◌then◌else◌,
}
use ocp_diag_core_cpp.Hardware.Status.{Code, StatusOr, value, error, thrown, undefined}
use ocp_diag_core_cpp.Hardware.Host.{CommandResult, HostAdapter, ◌>>=?◌}
use ocp_diag_core_cpp.Hardware.Identifier.{same_char, colon, find_first_of}
use ocp_diag_core_cpp.Hardware.Polling.{poll_until}

-- absl::Now and absl::SleepFor
pub record Clock (W : Type 0) : Type 0 where
  pub now : W → ℕ × W
  pub sleep : ℕ → W → W

-- A view without data is none.
abbrev null_safe_host : Option String → String
null_safe_host none = "(null)"
null_safe_host (some host) = host

abbrev is_some : Option ℕ → Bool
is_some none = false
is_some (some n) = true

abbrev contains_colon : String → Bool
contains_colon s = is_some (find_first_of colon s)

abbrev bracket : Char
bracket = Char.char 91 tt

abbrev starts_with_bracket : String → Bool
starts_with_bracket String.[] = false
starts_with_bracket (String.◌∷◌ c s) = same_char c bracket

abbrev or_empty : Option String → String
or_empty none = ""
or_empty (some host) = host

unfoldable needs_brackets : Option String → Bool
needs_brackets host =
    let text = or_empty host in
    not (is_empty text) && (not (starts_with_bracket text) && contains_colon text)

module _ (decimal : ℕ → String) (is_ipv4 : String → Bool) where
  unfoldable host_port_string : Option String → ℕ → String
  unfolding needs_brackets
  host_port_string host port =
      if needs_brackets host
      then "[" ++ (or_empty host ++ ("]:" ++ decimal port))
      else null_safe_host host ++ (":" ++ decimal port)

  unfoldable grpc_host_port_string : Option String → ℕ → String
  unfolding host_port_string
  grpc_host_port_string host port =
      if is_ipv4 (or_empty host) || contains_colon (or_empty host)
      then host_port_string host port
      else "dns:///" ++ (null_safe_host host ++ (":" ++ decimal port))

pub data NodeType : Type 0 where
  unknown cn : NodeType

pub record NodeInfo : Type 0 where
  pub entity_configuration_tag : String
  pub hostname : String
  pub entity_tag : String
  pub node_type : NodeType

unfoldable fetch_target_node_info : String → Option String → StatusOr NodeInfo
fetch_target_node_info target_hostname node_entity_path = value (record {
  entity_configuration_tag = "";
  hostname = "";
  entity_tag = "";
  node_type = NodeType.cn;
})

abbrev pid_or_fail : Option ℤ → StatusOr ℤ
pid_or_fail none = error Code.internal
pid_or_fail (some pid) = value pid

abbrev pub answer_of_pidof : (String → Option ℤ) → CommandResult → StatusOr ℤ
answer_of_pidof simple_atoi result =
    if eq_ℤ result.exit_code (pos 1)
    then error Code.not_found
    else if not (leb_ℤ result.exit_code (pos 1))
    then error Code.internal
    else pid_or_fail (simple_atoi result.stdout)

-- whether a round of the wait ends it: with another process id
abbrev pub if_restarted : {W : Type 0} → ℤ → StatusOr ℤ × W → Option (StatusOr (Unit {0})) × W
if_restarted old_pid (value new_pid, w) =
    (if eq_ℤ new_pid old_pid then none else some (value tt), w)
if_restarted old_pid (error code, w) = (none, w)
if_restarted old_pid (thrown, w) = (some thrown, w)
if_restarted old_pid (undefined, w) = (some undefined, w)

-- `ASSIGN_OR_RETURN` before a loop on fuel
abbrev pub then_loop :
    {A B W : Type 0} → StatusOr A × W → (A → W → Option (StatusOr B × W)) → Option (StatusOr B × W)
then_loop (value a, w) next = next a w
then_loop (error code, w) next = some (error code, w)
then_loop (thrown, w) next = some (thrown, w)
then_loop (undefined, w) next = some (undefined, w)

module _ {W : Type 0} (clock : Clock W) (host : HostAdapter W) (simple_atoi : String → Option ℤ)
    (process_name : String) where
  unfoldable pub get_pid_of_process : W → StatusOr ℤ × W
  get_pid_of_process w =
      host.run_command ("/bin/pidof" ∷ "-s" ∷ process_name ∷ []) w >>=? λ check_result w.
      (answer_of_pidof simple_atoi check_result, w)

  -- one round of the wait, which sleeps a second
  unfoldable pub restart_round : ℤ → W → Option (StatusOr (Unit {0})) × W
  unfolding get_pid_of_process
  restart_round old_pid w = if_restarted old_pid (get_pid_of_process (clock.sleep 1000 w))

  abbrev pub timed_out : W → StatusOr (Unit {0}) × W
  timed_out w = (error Code.internal, w)

  -- the wait for the process to come back
  unfoldable pub wait_for_restart : ℕ → ℕ → ℤ → W → Option (StatusOr (Unit {0}) × W)
  unfolding restart_round
  wait_for_restart fuel process_ready_wait old_pid w =
      let start = clock.now w in
      poll_until clock.now (restart_round old_pid) timed_out fuel (start.0 + process_ready_wait)
        start.1

  -- what follows the command to restart the process
  unfoldable pub if_ordered : ℕ → ℕ → ℤ → CommandResult → W → Option (StatusOr (Unit {0}) × W)
  unfolding wait_for_restart
  if_ordered fuel process_ready_wait old_pid result w =
      if eq_ℤ result.exit_code (pos 0)
      then wait_for_restart fuel process_ready_wait old_pid w
      else some (error Code.internal, w)

  abbrev pub order_restart : W → StatusOr CommandResult × W
  order_restart =
      host.run_command ("/usr/sbin/service" ∷ "taskd" ∷ "restart-service" ∷ process_name ∷ [])

  -- none if the fuel runs out
  unfoldable pub restart_process : ℕ → ℕ → W → Option (StatusOr (Unit {0}) × W)
  unfolding if_ordered get_pid_of_process
  restart_process fuel process_ready_wait w =
      then_loop (get_pid_of_process w)
        (λ old_pid w. then_loop (order_restart w) (if_ordered fuel process_ready_wait old_pid))
