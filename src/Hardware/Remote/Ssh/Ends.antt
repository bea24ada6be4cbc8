-- ===== src/Hardware/Remote/Ssh/Ends.antt =====
-- Running a command over ssh returns.
use ocp_diag_core_cpp.Base.{
  ℕ, zero, suc, ◌<◌, ℤ, String, is_empty, Bool, true, false, not, ◌||◌, Option, none, some, List,
  ◌≡◌, refl, arith, Bool-cases, inl, inr, sym, ap,
}
use ocp_diag_core_cpp.Hardware.Status.{Code, StatusOr, error}
use ocp_diag_core_cpp.Hardware.Host.{CommandResult}
use ocp_diag_core_cpp.Hardware.Identifier.{length_text, drop_text}
use ocp_diag_core_cpp.Hardware.Polling.{IsClock, poll_until-ends}
use ocp_diag_core_cpp.Hardware.Command.{Waited}
use ocp_diag_core_cpp.Hardware.Command.Deadline.{IsSystemClock}
use ocp_diag_core_cpp.Hardware.Remote.{Connection}
use ocp_diag_core_cpp.Hardware.Remote.Path.{length-drop_text}
use ocp_diag_core_cpp.Hardware.Remote.Ssh.{
  SshSystem, CommandOption, on_ssh_waited, poll_ssh, write_pipe, on_written, wait_for_ssh, clean_up,
  after_write, talk, if_made, forked, run_command_with_stdin, generate_ssh_arg,
}

-- A write of a text that is not empty fails or takes at least one character.
abbrev IsProgress : {W : Type 0} → SshSystem W → Type 0
IsProgress {W} ssh =
    (rest : String) (w : W) (wrote : ℕ)
    → is_empty rest ≡ false
    → (ssh.write rest w).0 ≡ some wrote
    → 0 < wrote

abbrev Returns : {A : Type 0} → Option A → Type 0
Returns {A} r = (a : A) × (r ≡ some a)

drop-shorter :
    (n : ℕ) (s : String) → 0 < n → is_empty s ≡ false → length_text (drop_text n s) < length_text s
drop-shorter zero s h full = absurd (omega arith)
drop-shorter (suc n) String.[] h full = cc
drop-shorter (suc n) (String.◌∷◌ c s) h full = let ih = length-drop_text n s in omega arith

on_written-ends :
    {W : Type 0} (r : Option ℕ × W) (next : ℕ → W → Option (Bool × W))
    → ((wrote : ℕ) → r.0 ≡ some wrote → Returns (next wrote r.1))
    → Returns (on_written r next)
on_written-ends (none, w) next h = ((false, w), refl)
on_written-ends (some wrote, w) next h = h wrote refl

module _ {W : Type 0} (ssh : SshSystem W) where
  write_pipe-ends :
      IsProgress ssh
      → (fuel : ℕ) (rest : String) (w : W) → length_text rest < fuel
      → Returns (write_pipe ssh fuel rest w)
  unfolding write_pipe
  write_pipe-ends progress zero rest w enough = absurd (omega arith)
  write_pipe-ends progress (suc fuel) rest w enough = elim (Bool-cases (is_empty rest)) [
    | inl empty ↦ ((true, w), rw empty refl)
    | inr full ↦
        let written =
          on_written-ends (ssh.write rest w) (λ wrote. write_pipe ssh fuel (drop_text wrote rest))
            (λ wrote h.
              let shorter = drop-shorter wrote rest (progress rest w wrote full h) full in
              write_pipe-ends progress fuel (drop_text wrote rest) (ssh.write rest w).1
                (omega arith)) in
        (written.0, rw full written.1)
  ]

  on_ssh_waited-none :
      (r : Waited × W) (v : W)
      → on_ssh_waited ssh r ≡ (none, v)
      → v ≡ ssh.system.clock.sleep 100 r.1
  unfolding on_ssh_waited
  on_ssh_waited-none (Waited.running, w) v h = sym (ap (λ r. r.1) h)
  on_ssh_waited-none (Waited.stopped, w) v h = cc
  on_ssh_waited-none (Waited.failed, w) v h = cc
  on_ssh_waited-none (Waited.exited n, w) v h = cc
  on_ssh_waited-none (Waited.signaled n, w) v h = cc

  ssh_clock : IsSystemClock ssh.system → (pid : ℤ) → IsClock ssh.system.clock.now (poll_ssh ssh pid)
  unfolding poll_ssh
  ssh_clock h pid = record {
    time = h.time;
    shown = h.shown;
    read = h.read;
    moved = λ w v e.
        let same = on_ssh_waited-none (ssh.system.waitpid pid w) v e in
        let slept = h.slept 100 (ssh.system.waitpid pid w).1 (omega arith) in
        let polled = h.polled pid w in rw same (omega arith);
  }

  wait_for_ssh-ends :
      IsSystemClock ssh.system
      → (fuel timeout : ℕ) (pid : ℤ) (w : W) → timeout < fuel
      → Returns (wait_for_ssh ssh fuel timeout pid w)
  unfolding wait_for_ssh ssh_clock
  wait_for_ssh-ends h fuel timeout pid w enough =
      let read = h.read w in
      poll_until-ends ssh.system.clock.now _ _ (ssh_clock h pid) fuel _ _ (omega arith)

  after_write-ends :
      (r : Option (Bool × W)) {next : W → Option (StatusOr CommandResult × W)}
      → Returns r
      → ((w : W) → Returns (next w))
      → Returns (clean_up ssh (after_write ssh r next))
  after_write-ends none returns h = cc
  after_write-ends (some (false, w)) returns h = (_, refl)
  after_write-ends (some (true, w)) returns h =
      let waited = h (ssh.close_write_end w) in (_, ap (clean_up ssh) waited.1)

  talk-ends :
      IsProgress ssh
      → IsSystemClock ssh.system
      → (fuel timeout : ℕ) (stdin : String) (pid : ℤ) (w : W) → timeout < fuel
      → length_text stdin < fuel
      → Returns (talk ssh fuel timeout stdin pid w)
  unfolding talk
  talk-ends progress h fuel timeout stdin pid w enough long =
      after_write-ends _ (write_pipe-ends progress fuel stdin _ long)
        (λ v. wait_for_ssh-ends h fuel timeout pid v enough)

  if_made-ends :
      (r : Bool × W) {next : W → Option (StatusOr CommandResult × W)}
      → ((w : W) → Returns (next w))
      → Returns (if_made r next)
  if_made-ends (false, w) h = (_, refl)
  if_made-ends (true, w) h = h w

  forked-ends :
      (r : Option ℤ × W) {next : ℤ → W → Option (StatusOr CommandResult × W)}
      → ((pid : ℤ) (w : W) → Returns (next pid w))
      → Returns (forked ssh r next)
  forked-ends (none, w) h = (_, refl)
  forked-ends (some pid, w) h = h pid w

  -- With a clock that moves on in a sleep, writes that fail or take at least one character, and more
  -- fuel than milliseconds of the timeout and than characters of the input, running a command over
  -- ssh returns.
  run_command_with_stdin-ends :
      IsProgress ssh
      → IsSystemClock ssh.system
      → (conn : Connection) (fuel timeout : ℕ) (stdin : String) (args : List String)
        (options : CommandOption) (w : W)
      → timeout < fuel
      → length_text stdin < fuel
      → (r : StatusOr CommandResult × W) × (run_command_with_stdin ssh conn fuel timeout stdin args
            options w
          ≡ some r)
  unfolding run_command_with_stdin
  run_command_with_stdin-ends progress h conn fuel timeout stdin args options w enough long =
      elim (Bool-cases (not (is_empty options.stdout_file) || not (is_empty options.stderr_file))) [
        | inl redirected ↦ ((error Code.unimplemented, w), rw redirected refl)
        | inr plain ↦
            let r = if_made-ends (ssh.system.tmpfile w) (λ v₁.
              if_made-ends (ssh.system.tmpfile v₁) (λ v₂. if_made-ends (ssh.pipe v₂) (λ v₃.
                forked-ends (ssh.system.fork (generate_ssh_arg conn args) v₃)
                  (λ pid v₄. talk-ends progress h fuel timeout stdin pid v₄ enough long)))) in
            (r.0, rw plain r.1)
      ]
