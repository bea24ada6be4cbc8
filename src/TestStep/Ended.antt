-- ===== src/TestStep/Ended.antt =====
-- What is written for a test step after its end.
use ocp_diag_core_cpp.Base.{true, List, [], ◌∷◌, ◌≡◌, refl, sym, ◌∙◌, arith}
use ocp_diag_core_cpp.Outcome.{Result, ok, crash}
use ocp_diag_core_cpp.Outcome.Action.{Action, ◌>>◌, pure, and_then, and_then-ok, blocks}
use ocp_diag_core_cpp.Platform.{Platform}
use ocp_diag_core_cpp.Model.Proto
use ocp_diag_core_cpp.Writer.{Sinks}
use ocp_diag_core_cpp.TestRun.{TestRun}
use ocp_diag_core_cpp.TestRun.Abort.{LastEntries, abort, AddsLogs, abort-AddsLogs}
use ocp_diag_core_cpp.TestStep.{
  StepState, check_ended_and_emit_artifact, add_measurement, add_diagnosis, add_error, add_file,
  add_log, add_extension, emit_end, finish, skip,
}
use ocp_diag_core_cpp.TestStep.Writes.{AddCall, StepCall, add_call, step_call}

module _ ⦃P : Platform⦄ ⦃S : Sinks⦄ where
  -- calls on a step, one after the other, up to the first that dies
  unfoldable pub step_calls : List StepCall → Action StepState (Unit {0})
  step_calls [] = pure tt
  step_calls (c ∷ cs) = step_call c >> step_calls cs

  abbrev pub file_of : StepState → List Proto.OutputArtifact
  file_of s = s.run.writer.file

  -- the run as the process leaves it, where it dies in a call on the step
  abbrev pub abort_step : LastEntries → Result (Unit {0}) × StepState → TestRun
  abort_step entries (r, s) = abort entries (r, s.run)

  -- The step has ended, and the file is this one.
  abbrev IsEndedWith : List Proto.OutputArtifact → StepState → Type 0
  IsEndedWith rs s = (s.step.ended ≡ true) × (file_of s ≡ rs)

  add_call-ended :
      (c : AddCall) (s : StepState) → s.step.ended ≡ true → IsEndedWith (file_of s) (add_call c s).1
  unfolding add_call add_measurement add_diagnosis add_error add_file add_log add_extension
      check_ended_and_emit_artifact blocks
  add_call-ended (AddCall.measurement m) s h = ground arith
  add_call-ended (AddCall.diagnosis d) s h = ground arith
  add_call-ended (AddCall.error e) s h = ground arith
  add_call-ended (AddCall.file f) s h = ground arith
  add_call-ended (AddCall.log l) s h = ground arith
  add_call-ended (AddCall.extension e) s h = ground arith

  step_call-ended :
      (c : StepCall) (s : StepState)
      → s.step.ended ≡ true
      → IsEndedWith (file_of s) (step_call c s).1
  unfolding step_call skip finish blocks
  step_call-ended (StepCall.add c) s h = add_call-ended c s h
  step_call-ended StepCall.skip_step s h = ground arith
  step_call-ended StepCall.end_step s h = ground arith

  and_then-ended :
      {rs : List Proto.OutputArtifact} (r : Result (Unit {0}) × StepState)
      (m : Action StepState (Unit {0}))
      → IsEndedWith rs r.1
      → ((s : StepState) → s.step.ended ≡ true → IsEndedWith (file_of s) (m s).1)
      → IsEndedWith rs (and_then r (λ _. m)).1
  and_then-ended (ok done, s) m h k = let more = k s h.0 in (more.0, more.1 ∙ h.1)
  and_then-ended (crash c, s) m h k = h

  step_calls-ended :
      (cs : List StepCall) (s : StepState)
      → s.step.ended ≡ true
      → IsEndedWith (file_of s) (step_calls cs s).1
  unfolding step_calls blocks
  step_calls-ended [] s h = (h, refl)
  step_calls-ended (c ∷ cs) s h =
      and_then-ended (step_call c s) (step_calls cs) (step_call-ended c s h) (step_calls-ended cs)

  finish-ended : (s : StepState) → (finish s).0 ≡ ok tt → (finish s).1.step.ended ≡ true
  unfolding finish emit_end blocks
  finish-ended s h = ground arith

  -- Once `End` has returned, whatever calls on the step follow, and with what absl passes to the
  -- registered log sink where one of them dies, the file grows by logs of the test run only: these
  -- calls add no artifact of the step after its end.
  pub finish-last :
      (entries : LastEntries) (cs : List StepCall) (s : StepState)
      → (finish s).0 ≡ ok tt
      → AddsLogs
          (file_of (finish s).1)
          (abort_step entries ((finish >> step_calls cs) s)).writer.file
  unfolding blocks
  finish-last entries cs s h =
      let later = step_calls-ended cs (finish s).1 (finish-ended s h) in
      rw (and_then-ok (finish s) (λ _. step_calls cs) h, sym later.1)
        (abort-AddsLogs entries
          ((step_calls cs (finish s).1).0, (step_calls cs (finish s).1).1.run))
