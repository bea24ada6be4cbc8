-- ===== src/Hardware/Command.antt =====
-- ocpdiag/core/hwinterface/backends/lib/host_adapter.cc: LocalHostAdapter::RunCommand as its parent
-- process runs it. The system calls are parameters over the state of the host: a fork starts the
-- arguments as a program, which is all that the child's branch does.
pub mod Deadline
use ocp_diag_core_cpp.Base.{
  ℕ, suc, ◌+◌, ltb, ℤ, pos, String, Bool, true, false, not, ◌&&◌, Option, none, some, List, [], ◌∷◌,
  if◌then◌else◌,
}
use ocp_diag_core_cpp.Hardware.Status.{Code, StatusOr, value, error}
use ocp_diag_core_cpp.Hardware.Host.{CommandResult, ◌>>=?◌}
use ocp_diag_core_cpp.Hardware.Identifier.{length_text}
use ocp_diag_core_cpp.Hardware.Polling.{poll_until}
use ocp_diag_core_cpp.Hardware.Process.{Clock}

-- what `waitpid` reports: nothing yet, how the child ended, that it neither exited nor was
-- terminated, or a failure
pub data Waited : Type 0 where
  running stopped failed : Waited
  exited signaled : ℕ → Waited

pub data Stream : Type 0 where
  stdout stderr : Stream

pub record System (W : Type 0) : Type 0 where
  pub clock : Clock W
  pub tmpfile : W → Bool × W
  pub close_files : W → W
  pub fork : List String → W → Option ℤ × W
  pub waitpid : ℤ → W → Waited × W
  pub kill : ℤ → W → W
  pub file_size : Stream → W → ℕ × W
  pub fread : Stream → ℕ → W → String × W

module _ {W : Type 0} (system : System W) where
  unfoldable pub read_local_file : Stream → W → StatusOr String × W
  read_local_file file w =
      let size = system.file_size file w in
      let out = system.fread file size.0 size.1 in
      (if ltb (length_text out.0) size.0 then error Code.internal else value out.0, out.1)

  -- the result of a child that ended
  unfoldable pub read_result : ℤ → W → StatusOr CommandResult × W
  unfolding read_local_file
  read_result exit_code w = read_local_file Stream.stdout w >>=? λ stdout w.
      read_local_file Stream.stderr w >>=? λ stderr w.
      (value (record { exit_code = exit_code; stdout = stdout; stderr = stderr }), w)

  abbrev pub answered : {A : Type 0} → StatusOr A × W → Option (StatusOr A) × W
  answered r = (some r.0, r.1)

  unfoldable pub on_waited : Waited × W → Option (StatusOr CommandResult) × W
  unfolding read_result
  on_waited (Waited.running, w) = (none, system.clock.sleep 100 w)
  on_waited (Waited.failed, w) = (some (error Code.internal), w)
  on_waited (Waited.exited status, w) = answered (read_result (pos status) w)
  on_waited (Waited.signaled signal, w) = answered (read_result (pos (128 + signal)) w)
  on_waited (Waited.stopped, w) = (some (error Code.internal), w)

  unfoldable pub poll_child : ℤ → W → Option (StatusOr CommandResult) × W
  unfolding on_waited
  poll_child pid w = on_waited (system.waitpid pid w)

  abbrev pub kill_child : ℤ → W → StatusOr CommandResult × W
  kill_child pid w = (error Code.deadline_exceeded, system.kill pid w)

  unfoldable pub wait_for_child : ℕ → ℕ → ℤ → W → Option (StatusOr CommandResult × W)
  unfolding poll_child
  wait_for_child fuel timeout pid w =
      let start = system.clock.now w in
      poll_until system.clock.now (poll_child pid) (kill_child pid) fuel (start.0 + timeout) start.1

  abbrev pub and_close : Option (StatusOr CommandResult × W) → Option (StatusOr CommandResult × W)
  and_close none = none
  and_close (some (r, w)) = some (r, system.close_files w)

  abbrev pub if_forked :
      Option ℤ × W
      → (ℤ → W → Option (StatusOr CommandResult × W))
      → Option (StatusOr CommandResult × W)
  if_forked (none, w) next = some (error Code.internal, w)
  if_forked (some pid, w) next = next pid w

  -- what follows the check of the arguments; none if the fuel runs out
  unfoldable pub run_started : ℕ → ℕ → List String → W → Option (StatusOr CommandResult × W)
  unfolding wait_for_child
  run_started fuel timeout args w =
      let fstdout = system.tmpfile w in
      let fstderr = system.tmpfile fstdout.1 in
      if not (fstdout.0 && fstderr.0)
      then some (error Code.internal, fstderr.1)
      else and_close (if_forked (system.fork args fstderr.1) (wait_for_child fuel timeout))

  unfoldable pub local_run_command : ℕ → ℕ → List String → W → Option (StatusOr CommandResult × W)
  unfolding run_started
  local_run_command fuel timeout [] w = some (error Code.invalid_argument, w)
  local_run_command fuel timeout (arg ∷ args) w = run_started fuel timeout (arg ∷ args) w
