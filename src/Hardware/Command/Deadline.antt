-- ===== src/Hardware/Command/Deadline.antt =====
-- A command that is run ends by its deadline, with its result or killed.
use ocp_diag_core_cpp.Base.{
  ℕ, ◌<◌, ◌≤◌, ltb, ℤ, String, not, ◌&&◌, Option, none, some, List, [], ◌∷◌, ◌≡◌, refl, arith,
  Bool-cases, inl, inr, sym, ap, ◌∙◌,
}
use ocp_diag_core_cpp.Hardware.Status.{Code, StatusOr, value, error}
use ocp_diag_core_cpp.Hardware.Host.{CommandResult, ◌>>=?◌}
use ocp_diag_core_cpp.Hardware.Identifier.{length_text}
use ocp_diag_core_cpp.Hardware.Polling.{
  poll_until-cases, some-inj, IsClock, Answers, here, later, poll_until-ends,
}
use ocp_diag_core_cpp.Hardware.Command.{
  Waited, Stream, System, read_local_file, read_result, answered, on_waited, poll_child,
  wait_for_child, and_close, if_forked, run_started, local_run_command,
}

-- There is a time that the clock shows, that a sleep moves on, and that no poll sets back.
pub record IsSystemClock {W : Type 0} (system : System W) : Type 0 where
  pub time : W → ℕ
  pub shown : (w : W) → time w ≤ (system.clock.now w).0
  pub read : (w : W) → (system.clock.now w).0 ≤ time (system.clock.now w).1
  pub slept :
      (milliseconds : ℕ) (w : W)
      → 0 < milliseconds
      → time w < time (system.clock.sleep milliseconds w)
  pub polled : (pid : ℤ) (w : W) → time w ≤ time (system.waitpid pid w).1

data IsRead {A W : Type 0} : StatusOr A × W → Type 0 where
  whole : {a : A} {w : W} → IsRead (value a, w)
  partial : {w : W} → IsRead (error Code.internal, w)

-- the answer of `r`, in another world
abbrev and_here : {A W : Type 0} → W → Option (A × W) → Option (A × W)
and_here w none = none
and_here w (some (a, v)) = some (a, w)

module _ {W : Type 0} (system : System W) where
  on_waited-none :
      (r : Waited × W) (v : W) → on_waited system r ≡ (none, v) → v ≡ system.clock.sleep 100 r.1
  unfolding on_waited
  on_waited-none (Waited.running, w) v h = sym (ap (λ r. r.1) h)
  on_waited-none (Waited.stopped, w) v h = cc
  on_waited-none (Waited.failed, w) v h = cc
  on_waited-none (Waited.exited n, w) v h = cc
  on_waited-none (Waited.signaled n, w) v h = cc

  poll_clock : IsSystemClock system → (pid : ℤ) → IsClock system.clock.now (poll_child system pid)
  unfolding poll_child
  poll_clock h pid = record {
    time = h.time;
    shown = h.shown;
    read = h.read;
    moved = λ w v e.
        let same = on_waited-none (system.waitpid pid w) v e in
        let slept = h.slept 100 (system.waitpid pid w).1 (omega arith) in
        let polled = h.polled pid w in rw same (omega arith);
  }

  wait_for_child-ends :
      IsSystemClock system
      → (fuel timeout : ℕ) (pid : ℤ) (w : W) → timeout < fuel
      → (r : StatusOr CommandResult × W) × (wait_for_child system fuel timeout pid w ≡ some r)
  unfolding wait_for_child poll_clock
  wait_for_child-ends h fuel timeout pid w enough =
      let read = h.read w in
      poll_until-ends system.clock.now _ _ (poll_clock h pid) fuel _ _ (omega arith)

  and_close-ends :
      (forked : Option ℤ × W) {next : ℤ → W → Option (StatusOr CommandResult × W)}
      → ((pid : ℤ) (w : W) → (r : StatusOr CommandResult × W) × (next pid w ≡ some r))
      → (r : StatusOr CommandResult × W) × (and_close system (if_forked system forked next)
          ≡ some r)
  and_close-ends (none, w) h = (_, refl)
  and_close-ends (some pid, w) h = let waited = h pid w in (_, ap (and_close system) waited.1)

  -- With a clock that moves on in a sleep, and more fuel than milliseconds of the timeout, running a
  -- command on the local host returns.
  pub local_run_command-ends :
      IsSystemClock system
      → (fuel timeout : ℕ) (args : List String) (w : W) → timeout < fuel
      → (r : StatusOr CommandResult × W) × (local_run_command system fuel timeout args w ≡ some r)
  unfolding local_run_command run_started
  local_run_command-ends h fuel timeout [] w enough = (_, refl)
  local_run_command-ends h fuel timeout (arg ∷ args) w enough =
      elim (Bool-cases (not ((system.tmpfile w).0 && (system.tmpfile (system.tmpfile w).1).0))) [
        | inl failed ↦
            ((error Code.internal, (system.tmpfile (system.tmpfile w).1).1), rw failed refl)
        | inr made ↦
            let r =
              and_close-ends (system.fork (arg ∷ args) (system.tmpfile (system.tmpfile w).1).1)
                (λ pid v. wait_for_child-ends h fuel timeout pid v enough) in
            (r.0, rw made r.1)
      ]

  read_local_file-IsRead : (file : Stream) (w : W) → IsRead (read_local_file system file w)
  unfolding read_local_file
  read_local_file-IsRead file w =
      let size = system.file_size file w in
      let out = system.fread file size.0 size.1 in
      elim (Bool-cases (ltb (length_text out.0) size.0)) [
        | inl short ↦ rw short partial
        | inr full ↦ rw full whole
      ]

  >>=?-IsRead :
      {A B : Type 0} {r : StatusOr A × W} {next : A → W → StatusOr B × W}
      → IsRead r
      → ((a : A) (w : W) → IsRead (next a w))
      → IsRead (r >>=? next)
  >>=?-IsRead (whole {a} {w}) h = h a w
  >>=?-IsRead partial h = partial

  read_result-IsRead : (exit_code : ℤ) (w : W) → IsRead (read_result system exit_code w)
  unfolding read_result
  read_result-IsRead exit_code w =
      >>=?-IsRead (read_local_file-IsRead Stream.stdout w)
        (λ stdout v. >>=?-IsRead (read_local_file-IsRead Stream.stderr v) (λ stderr u. whole))

  read-early :
      {r : StatusOr CommandResult × W} {v : W}
      → IsRead r
      → answered system r ≡ (some (error Code.deadline_exceeded), v)
      → ⊥
  read-early whole h = cc
  read-early partial h = ground arith

  on_waited-early :
      (r : Waited × W) (v : W) → on_waited system r ≡ (some (error Code.deadline_exceeded), v) → ⊥
  unfolding on_waited
  on_waited-early (Waited.running, w) v h = cc
  on_waited-early (Waited.stopped, w) v h = ground arith
  on_waited-early (Waited.failed, w) v h = ground arith
  on_waited-early (Waited.exited n, w) v h = read-early (read_result-IsRead _ w) h
  on_waited-early (Waited.signaled n, w) v h = read-early (read_result-IsRead _ w) h

  Answers-early :
      (pid : ℤ) {deadline : ℕ} {w v : W}
      → Answers system.clock.now (poll_child system pid) deadline w (error Code.deadline_exceeded) v
      → ⊥
  unfolding poll_child
  Answers-early pid (here early h) = on_waited-early _ _ h
  Answers-early pid (later h rest) = Answers-early pid rest

  -- the end of a command that is killed: the process that the fork started
  abbrev IsForkKilled : Option ℤ → W → Type 0
  IsForkKilled child w' =
      (pid : ℤ) × (v : W) × (child ≡ some pid) × (w' ≡ system.close_files (system.kill pid v))

  -- what the fork of a command answers, behind the making of the two files of its output
  abbrev forked_child : List String → W → Option ℤ
  forked_child args w = (system.fork args (system.tmpfile (system.tmpfile w).1).1).0

  abbrev pub IsKilled : List String → W → W → Type 0
  IsKilled args w w' = IsForkKilled (forked_child args w) w'

  wait_for_child-IsKilled :
      (fuel timeout : ℕ) (pid : ℤ) (w v : W)
      → wait_for_child system fuel timeout pid w ≡ some (error Code.deadline_exceeded, v)
      → (u : W) × (v ≡ system.kill pid u)
  unfolding wait_for_child
  wait_for_child-IsKilled fuel timeout pid w v h =
      elim (poll_until-cases system.clock.now _ _ fuel _ h) [
        | inl answers ↦ absurd (Answers-early pid answers)
        | inr (u, late) ↦ (u, sym (ap (λ r. r.1) late))
      ]

  -- A result behind `and_close` is that of what ran before the files were closed.
  and_close-value :
      (r : Option (StatusOr CommandResult × W)) {a : StatusOr CommandResult} {w' : W}
      → and_close system r ≡ some (a, w')
      → (v : W) × (r ≡ some (a, v)) × (w' ≡ system.close_files v)
  and_close-value none h = cc
  and_close-value (some (b, v)) h = (v, ap (λ o. and_here v o) h, sym (ap (λ r. r.1) (some-inj h)))

  if_forked-IsKilled :
      (forked : Option ℤ × W) (fuel timeout : ℕ) (w' : W)
      → and_close system (if_forked system forked (wait_for_child system fuel timeout))
        ≡ some (error Code.deadline_exceeded, w')
      → IsForkKilled forked.0 w'
  if_forked-IsKilled (none, w) fuel timeout w' h = ground arith
  if_forked-IsKilled (some pid, w) fuel timeout w' h =
      let (v, waited, closed) = and_close-value (wait_for_child system fuel timeout pid w) h in
      let (u, killed) = wait_for_child-IsKilled fuel timeout pid w v waited in
      (pid, u, refl, closed ∙ ap system.close_files killed)

  -- Where running a command on the local host fails with an exceeded deadline, the process that was
  -- forked for its arguments has been killed, and the files of its output are closed after that.
  pub local_run_command-IsKilled :
      (fuel timeout : ℕ) (args : List String) (w w' : W)
      → local_run_command system fuel timeout args w ≡ some (error Code.deadline_exceeded, w')
      → IsKilled args w w'
  unfolding local_run_command run_started
  local_run_command-IsKilled fuel timeout [] w w' h = ground arith
  local_run_command-IsKilled fuel timeout (arg ∷ args) w w' h =
      elim (Bool-cases (not ((system.tmpfile w).0 && (system.tmpfile (system.tmpfile w).1).0))) [
        | inl failed ↦ ground arith
        | inr made ↦
            if_forked-IsKilled (system.fork (arg ∷ args) (system.tmpfile (system.tmpfile w).1).1)
              fuel timeout w' (sym (rw made refl) ∙ h)
      ]
