-- ===== src/Hardware/Remote/Ssh.antt =====
-- ocpdiag/core/lib/off_dut_machine_interface/ssh/remote.cc: commands and files over ssh, as the
-- parent process runs them. The system calls are parameters; a fork starts the arguments as a
-- program that reads the pipe. The errors of the child's branch are left out.
pub mod Ends
use Prim.Native.String.{◌++◌ as ◌<>◌}
use ocp_diag_core_cpp.Base.{
  ℕ, zero, suc, ◌+◌, ltb, ℤ, pos, negsuc, eq_ℤ, String, is_empty, Bool, true, false, not, ◌||◌,
  Option, none, some, List, [], ◌∷◌, ◌++◌, if◌then◌else◌,
}
use ocp_diag_core_cpp.Hardware.Status.{Code, StatusOr, value, error, thrown, undefined}
use ocp_diag_core_cpp.Hardware.Host.{CommandResult, ◌>>=?◌}
use ocp_diag_core_cpp.Hardware.Identifier.{length_text, drop_text}
use ocp_diag_core_cpp.Hardware.Polling.{poll_until}
use ocp_diag_core_cpp.Hardware.Command.{Waited, Stream, System, kill_child, answered}
use ocp_diag_core_cpp.Hardware.Remote.{Connection}

pub record SshSystem (W : Type 0) : Type 0 where
  pub system : System W
  pub close_file : Stream → W → W
  pub pipe : W → Bool × W
  pub close_read_end : W → W
  pub close_write_end : W → W
  pub ignore_sigpipe : W → W
  pub restore_sigpipe : W → W
  pub write : String → W → Option ℕ × W

pub record CommandOption : Type 0 where
  pub stdout_file : String
  pub stderr_file : String

abbrev no_option : CommandOption
no_option = record { stdout_file = ""; stderr_file = "" }

abbrev optional : String → String → List String
optional flag path = if is_empty path then [] else flag ∷ path ∷ []

unfoldable pub generate_ssh_arg : Connection → List String → List String
generate_ssh_arg conn args =
    (conn.ssh_bin_path ∷ ("root" <> ("@" <> conn.address)) ∷ [])
    ++ (optional "-i" conn.ssh_key_path
        ++ (optional "-S" conn.ssh_tunnel_file_path
            ++ (("-o" ∷ "StrictHostKeyChecking=no" ∷ "-o" ∷ "UserKnownHostsFile=/dev/null" ∷ [])
                ++ args)))

-- `-abs(n)` of a signal
abbrev negated : ℕ → ℤ
negated zero = pos 0
negated (suc n) = negsuc n

abbrev on_written : {W : Type 0} → Option ℕ × W → (ℕ → W → Option (Bool × W)) → Option (Bool × W)
on_written (none, w) next = some (false, w)
on_written (some wrote, w) next = next wrote w

abbrev if_made :
    {W : Type 0}
    → Bool × W
    → (W → Option (StatusOr CommandResult × W))
    → Option (StatusOr CommandResult × W)
if_made (false, w) next = some (error Code.internal, w)
if_made (true, w) next = next w

module _ {W : Type 0} (ssh : SshSystem W) where
  unfoldable read_temporary : Stream → W → StatusOr String × W
  read_temporary file w =
      let size = ssh.system.file_size file w in
      let out = ssh.system.fread file size.0 size.1 in
      if ltb (length_text out.0) size.0
      then (error Code.internal, out.1)
      else (value out.0, ssh.close_file file out.1)

  unfoldable read_output : ℤ → W → StatusOr CommandResult × W
  unfolding read_temporary
  read_output exit_code w = read_temporary Stream.stdout w >>=? λ stdout w.
      read_temporary Stream.stderr w >>=? λ stderr w.
      (value (record { exit_code = exit_code; stdout = stdout; stderr = stderr }), w)

  unfoldable pub on_ssh_waited : Waited × W → Option (StatusOr CommandResult) × W
  unfolding read_output
  on_ssh_waited (Waited.running, w) = (none, ssh.system.clock.sleep 100 w)
  on_ssh_waited (Waited.failed, w) = (some (error Code.internal), w)
  on_ssh_waited (Waited.exited status, w) = answered ssh.system (read_output (pos status) w)
  on_ssh_waited (Waited.signaled signal, w) = answered ssh.system (read_output (negated signal) w)
  on_ssh_waited (Waited.stopped, w) = (some (error Code.internal), w)

  unfoldable pub poll_ssh : ℤ → W → Option (StatusOr CommandResult) × W
  unfolding on_ssh_waited
  poll_ssh pid w = on_ssh_waited (ssh.system.waitpid pid w)

  -- The loop that writes the text to the pipe: whether it succeeds, or none if the fuel runs out.
  unfoldable pub write_pipe : ℕ → String → W → Option (Bool × W)
  write_pipe zero rest w = none
  write_pipe (suc fuel) rest w =
      if is_empty rest
      then some (true, w)
      else on_written (ssh.write rest w) (λ wrote. write_pipe fuel (drop_text wrote rest))

  unfoldable pub wait_for_ssh : ℕ → ℕ → ℤ → W → Option (StatusOr CommandResult × W)
  unfolding poll_ssh
  wait_for_ssh fuel timeout pid w =
      let start = ssh.system.clock.now w in
      poll_until ssh.system.clock.now (poll_ssh pid) (kill_child ssh.system pid) fuel
        (start.0 + timeout) start.1

  abbrev close_pipe : W → W
  close_pipe w = ssh.close_write_end (ssh.close_read_end w)

  -- the cleanups of the pipe and of the signal, on every return
  abbrev pub clean_up : Option (StatusOr CommandResult × W) → Option (StatusOr CommandResult × W)
  clean_up none = none
  clean_up (some (r, w)) = some (r, close_pipe (ssh.restore_sigpipe w))

  abbrev after_write :
      Option (Bool × W)
      → (W → Option (StatusOr CommandResult × W))
      → Option (StatusOr CommandResult × W)
  after_write none next = none
  after_write (some (false, w)) next = some (error Code.internal, w)
  after_write (some (true, w)) next = next (ssh.close_write_end w)

  -- what follows the fork
  unfoldable pub talk : ℕ → ℕ → String → ℤ → W → Option (StatusOr CommandResult × W)
  unfolding write_pipe wait_for_ssh
  talk fuel timeout stdin pid w = clean_up (
      after_write (write_pipe fuel stdin (ssh.ignore_sigpipe (ssh.close_read_end w)))
        (wait_for_ssh fuel timeout pid))

  abbrev forked :
      Option ℤ × W
      → (ℤ → W → Option (StatusOr CommandResult × W))
      → Option (StatusOr CommandResult × W)
  forked (none, w) next = some (error Code.internal, close_pipe w)
  forked (some pid, w) next = next pid w

  module _ (conn : Connection) where
    -- none if the fuel runs out
    unfoldable pub run_command_with_stdin :
        ℕ → ℕ → String → List String → CommandOption → W → Option (StatusOr CommandResult × W)
    unfolding talk generate_ssh_arg
    run_command_with_stdin fuel timeout stdin args options w =
        if not (is_empty options.stdout_file) || not (is_empty options.stderr_file)
        then some (error Code.unimplemented, w)
        else if_made (ssh.system.tmpfile w) (λ w. if_made (ssh.system.tmpfile w) (λ w.
          if_made (ssh.pipe w) (λ w.
            forked (ssh.system.fork (generate_ssh_arg conn args) w) (talk fuel timeout stdin))))

    unfoldable ssh_run_command :
        ℕ → ℕ → List String → CommandOption → W → Option (StatusOr CommandResult × W)
    unfolding run_command_with_stdin
    ssh_run_command fuel timeout args options w =
        run_command_with_stdin fuel timeout "" args options w

    abbrev then_output :
        {A : Type 0}
        → Option (StatusOr CommandResult × W)
        → (CommandResult → A)
        → Option (StatusOr A × W)
    then_output none output = none
    then_output (some (value result, w)) output =
        some
          (if eq_ℤ result.exit_code (pos 0) then value (output result) else error Code.internal, w)
    then_output (some (error code, w)) output = some (error code, w)
    then_output (some (thrown, w)) output = some (thrown, w)
    then_output (some (undefined, w)) output = some (undefined, w)

    -- fifteen minutes
    abbrev rw_timeout : ℕ
    rw_timeout = 900000

    unfoldable pub read_file : ℕ → String → W → Option (StatusOr String × W)
    unfolding ssh_run_command
    read_file fuel file_name w =
        then_output (ssh_run_command fuel rw_timeout ("cat" ∷ file_name ∷ []) no_option w)
          (λ result. result.stdout)

    unfoldable pub write_file : ℕ → String → String → W → Option (StatusOr (Unit {0}) × W)
    unfolding run_command_with_stdin
    write_file fuel file_name data_text w =
        then_output
          (run_command_with_stdin fuel rw_timeout data_text ("cat" ∷ ">" ∷ file_name ∷ []) no_option
            w)
          (λ result. tt)
