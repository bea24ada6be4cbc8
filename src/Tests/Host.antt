-- ===== src/Tests/Host.antt =====
-- The theorems on processes, commands, remote hosts and durations, at one small host each. The
-- state of a host is its time.
use Prim.Native.String.{◌++◌ as ◌<>◌}
use text.Mathlib.Text.{◌==◌ as str_eq}
use ocp_diag_core_cpp.Base.{
  ℕ, ◌+◌, ltb, ℤ, pos, negsuc, String, Bool, true, Option, some, [], ◌∷◌, ◌≡◌, refl, ◌↔◌,
  if◌then◌else◌, arith,
}
use ocp_diag_core_cpp.Compat.{validate_duration}
use ocp_diag_core_cpp.Compat.Spec.{IsDuration, validate_duration_iff}
use ocp_diag_core_cpp.Hardware.Status.{Code, StatusOr, value, error}
use ocp_diag_core_cpp.Hardware.Host.{CommandResult, HostAdapter}
use ocp_diag_core_cpp.Hardware.Polling.{poll_until}
use ocp_diag_core_cpp.Hardware.Process.{Clock, restart_process}
use ocp_diag_core_cpp.Hardware.Process.Restart.{IsHostClock}
use ocp_diag_core_cpp.Hardware.Process.Restart.Success.{IsRestarted, restart_process-succeeds}
use ocp_diag_core_cpp.Hardware.Command.{
  Waited, System, local_run_command, run_started, wait_for_child, poll_child, on_waited,
}
use ocp_diag_core_cpp.Hardware.Command.Deadline.{
  IsSystemClock, IsKilled, local_run_command-ends, local_run_command-IsKilled,
}
use ocp_diag_core_cpp.Hardware.Remote.{Connection, Environment, get_ssh_path, search_path, new_conn}
use ocp_diag_core_cpp.Hardware.Remote.Path.{terminated, first_ssh, get_ssh_path-first}
use ocp_diag_core_cpp.Hardware.Remote.Adapter.{remote, create_adapter, create_remote}
use ocp_diag_core_cpp.Hardware.Remote.Adapter.Program.{IsSshTo, create_adapter-IsSshTo}

abbrev clock : Clock ℕ
clock = record { now = λ w. (w, w); sleep = λ milliseconds w. w + milliseconds }

-- a process that has another id from the first second on
abbrev host : HostAdapter ℕ
host = record {
  read = λ file w. (error Code.not_found, w);
  run_command = λ args w. (
    value (record { exit_code = pos 0; stdout = if ltb w 1000 then "1" else "2"; stderr = "" }),
    w,
  );
}

abbrev sample_pid : String → Option ℤ
sample_pid s = if str_eq s "1" then some (pos 1) else some (pos 2)

host_clock : IsHostClock clock host
host_clock = record {
  time = λ w. w;
  shown = λ w. omega arith;
  read = λ w. omega arith;
  slept = λ milliseconds w h. omega arith;
  ran = λ args w. omega arith;
}

restart_process-succeeds_example :
    (restart_process clock host sample_pid "daemon" 2001 2000 0 ≡ some (value tt, 1000))
    ↔ IsRestarted clock host sample_pid "daemon" 2000 0 1000
restart_process-succeeds_example =
    restart_process-succeeds clock host sample_pid "daemon" host_clock 2001 2000 0 1000
      (omega arith)

-- a host on which no command ends
abbrev system : System ℕ
system = record {
  clock = clock;
  tmpfile = λ w. (true, w);
  close_files = λ w. w;
  fork = λ args w. (some (pos 7), w);
  waitpid = λ pid w. (Waited.running, w);
  kill = λ pid w. w + 1;
  file_size = λ stream w. (0, w);
  fread = λ stream size w. ("", w);
}

system_clock : IsSystemClock system
system_clock = record {
  time = λ w. w;
  shown = λ w. omega arith;
  read = λ w. omega arith;
  slept = λ milliseconds w h. omega arith;
  polled = λ pid w. omega arith;
}

local_run_command-ends_example :
    (r : StatusOr CommandResult × ℕ) × (local_run_command system 1001 1000 ("uptime" ∷ []) 0
      ≡ some r)
local_run_command-ends_example =
    local_run_command-ends system system_clock 1001 1000 ("uptime" ∷ []) 0 (omega arith)

local_run_command-IsKilled_example : IsKilled system ("sleep" ∷ []) 0 201
unfolding local_run_command run_started wait_for_child poll_child on_waited poll_until
local_run_command-IsKilled_example =
    local_run_command-IsKilled system 4 200 ("sleep" ∷ []) 0 201 refl

abbrev append_path : String → String → String
append_path directory name = directory <> ("/" <> name)

abbrev exists : String → Bool
exists path = str_eq path "/usr/bin/ssh"

get_ssh_path-first_example :
    get_ssh_path append_path exists "/bin:/usr/bin:"
    ≡ some (first_ssh append_path exists (terminated "/bin:/usr/bin:"))
get_ssh_path-first_example = get_ssh_path-first append_path exists "/bin:/usr/bin:"

abbrev environment : Environment
environment = record {
  mi_connection_type = "ssh";
  remote_ssh_key_path = "";
  remote_ssh_tunnel_file_path = "";
  path = some "/bin:/usr/bin:";
}

abbrev connection : Connection
connection = record {
  address = "dut";
  ssh_key_path = "";
  ssh_tunnel_file_path = "";
  ssh_bin_path = "/usr/bin/ssh";
}

create_adapter-IsSshTo_example :
    (c : Connection) × (remote connection ≡ remote c) × IsSshTo (λ s. s) append_path exists "dut" c
unfolding create_adapter create_remote new_conn get_ssh_path search_path
create_adapter-IsSshTo_example =
    create_adapter-IsSshTo (λ s. s) append_path exists environment "dut" (remote connection) refl
      refl

validate_duration_iff_example :
    (validate_duration (record { seconds = pos 3; nanos = negsuc 4 }) ≡ value tt)
    ↔ IsDuration (pos 3) (negsuc 4)
validate_duration_iff_example = validate_duration_iff (pos 3) (negsuc 4)
