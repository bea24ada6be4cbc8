-- ===== src/Hardware/Process/Restart.antt =====
-- The restart of a process ends.
pub mod Success
use ocp_diag_core_cpp.Base.{
  ℕ, ◌+◌, ◌<◌, ◌≤◌, ℤ, pos, eq_ℤ, String, [], ◌∷◌, true, Option, some, List, ◌≡◌, refl, arith,
  Bool-cases, inl, inr, ◌⊎◌, sym, ap, ◌∙◌, ◌↔◌,
}
use ocp_diag_core_cpp.Hardware.Status.{Code, StatusOr, value, error, thrown, undefined}
use ocp_diag_core_cpp.Hardware.Host.{CommandResult, HostAdapter, ◌>>=?◌}
use ocp_diag_core_cpp.Hardware.Polling.{
  poll_until, poll_until-cases, IsClock, Answers, poll_until-ends, poll_until-Answers,
}
use ocp_diag_core_cpp.Hardware.Process.{
  Clock, if_restarted, answer_of_pidof, then_loop, get_pid_of_process, restart_round, timed_out,
  wait_for_restart, if_ordered, order_restart, restart_process,
}

-- There is a time that the clock shows, that a sleep moves on, and that no command sets back.
pub record IsHostClock {W : Type 0} (clock : Clock W) (host : HostAdapter W) : Type 0 where
  pub time : W → ℕ
  pub shown : (w : W) → time w ≤ (clock.now w).0
  pub read : (w : W) → (clock.now w).0 ≤ time (clock.now w).1
  pub slept :
      (milliseconds : ℕ) (w : W) → 0 < milliseconds → time w < time (clock.sleep milliseconds w)
  pub ran : (args : List String) (w : W) → time w ≤ time (host.run_command args w).1

>>=?-state :
    {A B W : Type 0} (r : StatusOr A × W) (f : A → StatusOr B) → (r >>=? λ a w. (f a, w)).1 ≡ r.1
>>=?-state (value a, w) f = refl
>>=?-state (error code, w) f = refl
>>=?-state (thrown, w) f = refl
>>=?-state (undefined, w) f = refl

if_restarted-state :
    {W : Type 0} (old_pid : ℤ) (r : StatusOr ℤ × W) → (if_restarted old_pid r).1 ≡ r.1
if_restarted-state old_pid (value new_pid, w) = refl
if_restarted-state old_pid (error code, w) = refl
if_restarted-state old_pid (thrown, w) = refl
if_restarted-state old_pid (undefined, w) = refl

then_loop-ends :
    {A B W : Type 0} (r : StatusOr A × W) {next : A → W → Option (StatusOr B × W)}
    → ((a : A) (w : W) → (s : StatusOr B × W) × (next a w ≡ some s))
    → (s : StatusOr B × W) × (then_loop r next ≡ some s)
then_loop-ends (value a, w) h = h a w
then_loop-ends (error code, w) h = ((error code, w), refl)
then_loop-ends (thrown, w) h = ((thrown, w), refl)
then_loop-ends (undefined, w) h = ((undefined, w), refl)

then_loop-value :
    {A B W : Type 0} (r : StatusOr A × W) {next : A → W → Option (StatusOr B × W)} {b : B} {w : W}
    → then_loop r next ≡ some (value b, w)
    → (a : A) × (v : W) × (r ≡ (value a, v)) × (next a v ≡ some (value b, w))
then_loop-value (value a, v) h = (a, v, refl, h)
then_loop-value (error code, v) h = cc
then_loop-value (thrown, v) h = cc
then_loop-value (undefined, v) h = cc

module _ {W : Type 0} (clock : Clock W) (host : HostAdapter W) (simple_atoi : String → Option ℤ)
    (process_name : String) where
  get_pid-ran :
      (h : IsHostClock clock host) (w : W)
      → h.time w ≤ h.time (get_pid_of_process clock host simple_atoi process_name w).1
  unfolding get_pid_of_process
  get_pid-ran h w =
      rw
        (>>=?-state (host.run_command ("/bin/pidof" ∷ "-s" ∷ process_name ∷ []) w)
          (answer_of_pidof simple_atoi))
        (h.ran _ w)

  unfoldable round_clock :
      IsHostClock clock host
      → (old_pid : ℤ)
      → IsClock clock.now (restart_round clock host simple_atoi process_name old_pid)
  unfolding restart_round
  round_clock h old_pid = record {
    time = h.time;
    shown = h.shown;
    read = h.read;
    moved = λ w v e.
        let asked = get_pid_of_process clock host simple_atoi process_name (clock.sleep 1000 w) in
        let same : v ≡ asked.1 = sym (ap (λ r. r.1) e) ∙ if_restarted-state old_pid asked in
        let ran = get_pid-ran h (clock.sleep 1000 w) in
        let slept = h.slept 1000 w (omega arith) in rw same (omega arith);
  }

  -- The wait ends before the fuel does.
  wait_for_restart-ends :
      IsHostClock clock host
      → (fuel process_ready_wait : ℕ) (old_pid : ℤ) (w : W) → process_ready_wait < fuel
      → (r : StatusOr (Unit {0}) × W) × (wait_for_restart clock host simple_atoi process_name fuel
            process_ready_wait old_pid w
          ≡ some r)
  unfolding wait_for_restart round_clock
  wait_for_restart-ends h fuel process_ready_wait old_pid w enough =
      let read = h.read w in
      poll_until-ends clock.now _ _ (round_clock h old_pid) fuel _ _ (omega arith)

  if_ordered-ends :
      IsHostClock clock host
      → (fuel process_ready_wait : ℕ) (old_pid : ℤ) (result : CommandResult) (w : W)
      → process_ready_wait < fuel
      → (r : StatusOr (Unit {0}) × W) × (if_ordered clock host simple_atoi process_name fuel
            process_ready_wait old_pid result w
          ≡ some r)
  unfolding if_ordered
  if_ordered-ends h fuel process_ready_wait old_pid result w enough =
      elim (Bool-cases (eq_ℤ result.exit_code (pos 0))) [
        | inl ok ↦
            let waited = wait_for_restart-ends h fuel process_ready_wait old_pid w enough in
            (waited.0, rw ok waited.1)
        | inr failed ↦ ((error Code.internal, w), rw failed refl)
      ]

  -- With a clock that moves on in a sleep, and more fuel than milliseconds to wait, the restart of a
  -- process returns.
  restart_process-ends :
      IsHostClock clock host
      → (fuel process_ready_wait : ℕ) (w : W) → process_ready_wait < fuel
      → (r : StatusOr (Unit {0}) × W) × (restart_process clock host simple_atoi process_name fuel
            process_ready_wait w
          ≡ some r)
  unfolding restart_process
  restart_process-ends h fuel process_ready_wait w enough =
      then_loop-ends (get_pid_of_process clock host simple_atoi process_name w) (λ old_pid v.
        then_loop-ends (order_restart clock host simple_atoi process_name v)
          (λ result u. if_ordered-ends h fuel process_ready_wait old_pid result u enough))
