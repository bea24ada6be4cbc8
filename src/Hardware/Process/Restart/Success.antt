-- ===== src/Hardware/Process/Restart/Success.antt =====
-- When the restart of a process succeeds.
use ocp_diag_core_cpp.Base.{
  ℕ, ◌+◌, ◌<◌, ℤ, pos, eq_ℤ, String, true, false, Option, none, some, ◌≡◌, refl, arith, Bool-cases,
  inl, inr, ◌⊎◌, sym, ap, ◌∙◌, ◌↔◌,
}
use ocp_diag_core_cpp.Hardware.Status.{Code, StatusOr, value, error, thrown, undefined}
use ocp_diag_core_cpp.Hardware.Host.{CommandResult, HostAdapter}
use ocp_diag_core_cpp.Hardware.Polling.{
  poll_until, poll_until-cases, Answers, here, later, poll_until-Answers,
}
use ocp_diag_core_cpp.Hardware.Process.{
  Clock, if_restarted, get_pid_of_process, restart_round, timed_out, wait_for_restart, if_ordered,
  order_restart, restart_process,
}
use ocp_diag_core_cpp.Hardware.Process.Restart.{
  IsHostClock, if_restarted-state, then_loop-value, round_clock,
}

-- a look-up that leaves the wait going: it failed, or found the same process id
pub data IsStill (old_pid : ℤ) : StatusOr ℤ → Type 0 where
  failed : {code : Code} → IsStill old_pid (error code)
  same : {pid : ℤ} → eq_ℤ pid old_pid ≡ true → IsStill old_pid (value pid)

if_restarted-again :
    {W : Type 0} (old_pid : ℤ) (r : StatusOr ℤ × W) {v : W}
    → if_restarted old_pid r ≡ (none, v)
    → IsStill old_pid r.0
if_restarted-again old_pid (error code, w) h = failed
if_restarted-again old_pid (thrown, w) h = ground arith
if_restarted-again old_pid (undefined, w) h = ground arith
if_restarted-again old_pid (value pid, w) h = elim (Bool-cases (eq_ℤ pid old_pid)) [
  | inl equal ↦ same equal
  | inr other ↦ ground arith
]

if_restarted-done :
    {W : Type 0} (old_pid : ℤ) (r : StatusOr ℤ × W) {v : W}
    → if_restarted old_pid r ≡ (some (value tt), v)
    → (pid : ℤ) × (r ≡ (value pid, v)) × (eq_ℤ pid old_pid ≡ false)
if_restarted-done old_pid (error code, w) h = ground arith
if_restarted-done old_pid (thrown, w) h = ground arith
if_restarted-done old_pid (undefined, w) h = ground arith
if_restarted-done old_pid (value pid, w) h = elim (Bool-cases (eq_ℤ pid old_pid)) [
  | inl equal ↦ ground arith
  | inr other ↦ (pid, ap (λ r. (value pid, r.1)) h, other)
]

IsStill-again :
    {W : Type 0} {old_pid : ℤ} {r : StatusOr ℤ} {v : W}
    → IsStill old_pid r
    → if_restarted old_pid (r, v) ≡ (none, v)
IsStill-again failed = refl
IsStill-again (same h) = rw h refl

module _ {W : Type 0} (clock : Clock W) (host : HostAdapter W) (simple_atoi : String → Option ℤ)
    (process_name : String) where
  -- Round after round, each with a sleep of a second, a look-up leaves the wait going, until one in a
  -- round that starts before the deadline finds another process id.
  pub data ComesBack (old_pid : ℤ) (deadline : ℕ) : W → W → Type 0 where
    back :
        {w v : W} {pid : ℤ}
        → (clock.now w).0 < deadline
        → get_pid_of_process clock host simple_atoi process_name (clock.sleep 1000 (clock.now w).1)
          ≡ (value pid, v)
        → eq_ℤ pid old_pid ≡ false
        → ComesBack old_pid deadline w v
    waits :
        {w u v : W} {r : StatusOr ℤ}
        → IsStill old_pid r
        → get_pid_of_process clock host simple_atoi process_name (clock.sleep 1000 (clock.now w).1)
          ≡ (r, u)
        → ComesBack old_pid deadline u v
        → ComesBack old_pid deadline w v

  Answers-ComesBack :
      (old_pid : ℤ) {deadline : ℕ} {w v : W}
      → Answers clock.now
          (restart_round clock host simple_atoi process_name old_pid)
          deadline
          w
          (value tt)
          v
      → ComesBack old_pid deadline w v
  unfolding restart_round
  Answers-ComesBack old_pid (here early h) =
      let (pid, is, other) = if_restarted-done old_pid _ h in back early is other
  Answers-ComesBack old_pid {w = w} (later {u = u} h rest) =
      let r =
        get_pid_of_process clock host simple_atoi process_name (clock.sleep 1000 (clock.now w).1) in
      let after : u ≡ r.1 = sym (ap (λ r. r.1) h) ∙ if_restarted-state old_pid r in
      waits (if_restarted-again old_pid r h) (ap (λ v. (r.0, v)) (sym after))
        (Answers-ComesBack old_pid rest)

  ComesBack-Answers :
      (old_pid : ℤ) {deadline : ℕ} {w v : W}
      → ComesBack old_pid deadline w v
      → Answers clock.now
          (restart_round clock host simple_atoi process_name old_pid)
          deadline
          w
          (value tt)
          v
  unfolding restart_round
  ComesBack-Answers old_pid (back early is other) = here early (rw (is, other) refl)
  ComesBack-Answers old_pid (waits still is rest) =
      later (rw is (IsStill-again still)) (ComesBack-Answers old_pid rest)

  -- The process has an id, the command to restart it succeeds, and in a round that starts before the
  -- deadline it is found with another id.
  abbrev pub IsRestarted : ℕ → W → W → Type 0
  IsRestarted process_ready_wait w w' =
      (old_pid : ℤ) × (result : CommandResult) × (v : W) × (u : W) × (get_pid_of_process clock host
          simple_atoi process_name w
        ≡ (value old_pid, v))
      × (order_restart clock host simple_atoi process_name v ≡ (value result, u))
      × (eq_ℤ result.exit_code (pos 0) ≡ true)
      × ComesBack old_pid ((clock.now u).0 + process_ready_wait) (clock.now u).1 w'

  if_ordered-value :
      (fuel process_ready_wait : ℕ) (old_pid : ℤ) (result : CommandResult) (u w' : W)
      → if_ordered clock host simple_atoi process_name fuel process_ready_wait old_pid result u
        ≡ some (value tt, w')
      → (eq_ℤ result.exit_code (pos 0) ≡ true)
        × Answers clock.now
            (restart_round clock host simple_atoi process_name old_pid)
            ((clock.now u).0 + process_ready_wait)
            (clock.now u).1
            (value tt)
            w'
  unfolding if_ordered wait_for_restart
  if_ordered-value fuel process_ready_wait old_pid result u w' h =
      elim (Bool-cases (eq_ℤ result.exit_code (pos 0))) [
        | inl ok ↦ (ok, elim (waited (ground arith)) [ inl answers ↦ answers | inr (v, late) ↦ cc ])
        | inr refused ↦ ground arith
      ]
    where
      waited :
          poll_until clock.now
              (restart_round clock host simple_atoi process_name old_pid)
              (timed_out clock host simple_atoi process_name)
              fuel
              ((clock.now u).0 + process_ready_wait)
              (clock.now u).1
            ≡ some (value tt, w')
          → Answers clock.now
              (restart_round clock host simple_atoi process_name old_pid)
              ((clock.now u).0 + process_ready_wait)
              (clock.now u).1
              (value tt)
              w'
            ⊎ ((v : W) × (timed_out clock host simple_atoi process_name v ≡ (value tt, w')))
      waited h = poll_until-cases clock.now _ _ fuel _ h

  succeeds-IsRestarted :
      (fuel process_ready_wait : ℕ) (w w' : W)
      → restart_process clock host simple_atoi process_name fuel process_ready_wait w
        ≡ some (value tt, w')
      → IsRestarted process_ready_wait w w'
  unfolding restart_process
  succeeds-IsRestarted fuel process_ready_wait w w' h =
      let (old_pid, v, got, next) =
        then_loop-value (get_pid_of_process clock host simple_atoi process_name w) h in
      let (result, u, ordered, waited) =
        then_loop-value (order_restart clock host simple_atoi process_name v) next in
      let (ok, answers) = if_ordered-value fuel process_ready_wait old_pid result u w' waited in
      (old_pid, result, v, u, got, ordered, ok, Answers-ComesBack old_pid answers)

  IsRestarted-succeeds :
      IsHostClock clock host
      → (fuel process_ready_wait : ℕ) (w w' : W) → process_ready_wait < fuel
      → IsRestarted process_ready_wait w w'
      → restart_process clock host simple_atoi process_name fuel process_ready_wait w
        ≡ some (value tt, w')
  unfolding restart_process if_ordered wait_for_restart round_clock
  IsRestarted-succeeds h fuel process_ready_wait w w' enough
        (old_pid, result, v, u, got, ordered, ok, comes) =
      let read = h.read u in
      rw (got, ordered, ok)
        (poll_until-Answers clock.now _ _
          (round_clock clock host simple_atoi process_name h old_pid) fuel _
          (ComesBack-Answers old_pid comes) (omega arith))

  -- With a clock that moves on in a sleep, and more fuel than milliseconds to wait, the restart of a
  -- process succeeds exactly if the process has an id before, the command to restart it succeeds,
  -- and in a round that starts before the deadline the process is found with another id.
  pub restart_process-succeeds :
      IsHostClock clock host
      → (fuel process_ready_wait : ℕ) (w w' : W) → process_ready_wait < fuel
      → (restart_process clock host simple_atoi process_name fuel process_ready_wait w
          ≡ some (value tt, w'))
        ↔ IsRestarted process_ready_wait w w'
  restart_process-succeeds h fuel process_ready_wait w w' enough = (
    succeeds-IsRestarted fuel process_ready_wait w w',
    IsRestarted-succeeds h fuel process_ready_wait w w' enough,
  )
