-- ===== src/Receiver/Reset.antt =====
-- `ResetModel` forgets the model but not the maps from ids to positions in it.
use text.Mathlib.TextPositions.{eq_refl}
use ocp_diag_core_cpp.Base.{
  ℕ, String, Bool, true, ◌≡◌, ◌≢◌, refl, sym, ap, ◌∙◌, ◌⊎◌, inl, inr, Option, none, some, List, [],
  ◌∷◌, arith,
}
use ocp_diag_core_cpp.Outcome.{Result, ok, crash, Crash, undefined}
use ocp_diag_core_cpp.Outcome.Action.{
  Action, die, ◌>>◌, and_then, and_then-ok, and_then-crash, blocks,
}
use ocp_diag_core_cpp.Platform.{Platform}
use ocp_diag_core_cpp.Model.Output.{
  TestRunVariant, TestStepArtifact, TestStepVariant, OutputVariant, OutputArtifact, OutputModel,
}
use ocp_diag_core_cpp.Model.Proto
use ocp_diag_core_cpp.Model.FromProto.Artifacts.{proto_to_output_artifact}
use ocp_diag_core_cpp.Receiver.{lookup, modify_at, Builder, OutputReceiver, steps_of}
use ocp_diag_core_cpp.Receiver.Handlers.{
  step_idx_or_new, get_test_step_idx, modify_step, series_idx_or_new, get_measurement_series_idx,
  on_series, handle_test_step_variant, handle_test_step_artifact, handle_test_run_artifact,
  handle_output_artifact,
}
use ocp_diag_core_cpp.Receiver.Build.{
  handle_record, handle_all, begin, build_model, get_output_model, reset_model,
}

module _ ⦃P : Platform⦄ where
  abbrev Knows : String → Builder → Type 0
  Knows id b = lookup id b.test_step_id_to_idx ≢ none

  pub variant-map :
      (idx : ℕ) (v : TestStepVariant) (b : Builder)
      → (handle_test_step_variant idx v b).1.test_step_id_to_idx ≡ b.test_step_id_to_idx
  unfolding handle_test_step_variant on_series get_measurement_series_idx series_idx_or_new
      modify_step blocks
  variant-map idx (TestStepVariant.test_step_start s) b = ground arith
  variant-map idx v b = ground arith

  new_idx-Knows :
      (id k : String) (o : Option ℕ) (b : Builder)
      → lookup id b.test_step_id_to_idx ≡ o
      → Knows id (step_idx_or_new id o b).1 × (Knows k b → Knows k (step_idx_or_new id o b).1)
  unfolding step_idx_or_new lookup
  new_idx-Knows id k none b e = (ground (arith, eq_refl id), λ h. ground arith)
  new_idx-Knows id k (some i) b e = (ground arith, λ h. h)

  and_then-map :
      (v : TestStepVariant) (r : Result ℕ × Builder)
      → (and_then r (λ idx. handle_test_step_variant idx v)).1.test_step_id_to_idx
        ≡ r.1.test_step_id_to_idx
  and_then-map v (ok idx, b) = variant-map idx v b
  and_then-map v (crash c, b) = refl

  handle_step-Knows :
      (a : TestStepArtifact) (k : String) (b : Builder)
      → Knows a.test_step_id (handle_test_step_artifact a b).1
        × (Knows k b → Knows k (handle_test_step_artifact a b).1)
  unfolding handle_test_step_artifact get_test_step_idx blocks
  handle_step-Knows a k b =
      rw
        (and_then-map a.artifact
          (step_idx_or_new a.test_step_id (lookup a.test_step_id b.test_step_id_to_idx) b))
        (new_idx-Knows a.test_step_id k (lookup a.test_step_id b.test_step_id_to_idx) b refl)

  -- Calls for the run and the schema version leave the steps and the maps alone.
  pub run-keeps :
      (v : TestRunVariant) (b : Builder)
      → ((handle_test_run_artifact v b).0 ≡ ok tt)
        × (steps_of (handle_test_run_artifact v b).1 ≡ steps_of b)
        × ((handle_test_run_artifact v b).1.test_step_id_to_idx ≡ b.test_step_id_to_idx)
  unfolding handle_test_run_artifact
  run-keeps (TestRunVariant.test_run_start x) b = (refl, refl, refl)
  run-keeps v b = (refl, refl, refl)

  output-Knows :
      (v : OutputVariant) (k : String) (b : Builder)
      → Knows k b
      → Knows k (handle_output_artifact v b).1
  unfolding handle_output_artifact
  output-Knows (OutputVariant.test_run_artifact a) k b h = rw ((run-keeps a.artifact b).2) h
  output-Knows (OutputVariant.test_step_artifact a) k b h = (handle_step-Knows a k b).1 h
  output-Knows (OutputVariant.schema_version v) k b h = h

  record-Knows :
      (q : Result OutputArtifact) (k : String) (b : Builder)
      → Knows k b
      → Knows k (handle_record q b).1
  unfolding handle_record
  record-Knows (ok a) k b h = output-Knows a.artifact k b h
  record-Knows (crash c) k b h = h

  then-Knows :
      (read_ok : Bool) (ps : List Proto.OutputArtifact) (k : String)
      (r : Result (Unit {0}) × Builder)
      → Knows k r.1
      → ((c : Builder) → Knows k c → Knows k (handle_all read_ok ps c).1)
      → Knows k (and_then r (λ _. handle_all read_ok ps)).1
  then-Knows read_ok ps k (ok x, c) h ih = ih c h
  then-Knows read_ok ps k (crash e, c) h ih = h

  -- No record makes the loop forget an id.
  all-Knows :
      (read_ok : Bool) (ps : List Proto.OutputArtifact) (k : String) (b : Builder)
      → Knows k b
      → Knows k (handle_all read_ok ps b).1
  unfolding handle_all blocks
  all-Knows read_ok [] k b h = h
  all-Knows read_ok (p ∷ ps) k b h =
      then-Knows read_ok ps k (handle_record (proto_to_output_artifact p) b)
        (record-Knows (proto_to_output_artifact p) k b h) (all-Knows read_ok ps k)

  variant-stale :
      (idx : ℕ) (v : TestStepVariant) (b : Builder)
      → steps_of b ≡ []
      → (handle_test_step_variant idx v b).0 ≡ crash undefined
  unfolding handle_test_step_variant on_series get_measurement_series_idx series_idx_or_new
      modify_step modify_at blocks
  variant-stale idx (TestStepVariant.test_step_start s) b e = ground arith
  variant-stale idx v b e = ground arith

  -- A step whose id is known, in a model without steps.
  handle_step-stale :
      (a : TestStepArtifact) (b : Builder)
      → steps_of b ≡ []
      → Knows a.test_step_id b
      → (handle_test_step_artifact a b).0 ≡ crash undefined
  unfolding handle_test_step_artifact get_test_step_idx step_idx_or_new blocks
  handle_step-stale a b e h = go (lookup a.test_step_id b.test_step_id_to_idx) h
    where
      go :
          (o : Option ℕ)
          → o ≢ none
          → (and_then
              (step_idx_or_new a.test_step_id o b)
              (λ idx. handle_test_step_variant idx a.artifact)).0
            ≡ crash undefined
      go none h = absurd (h refl)
      go (some i) h = variant-stale i a.artifact b e

  -- Either the loop adds no step to `b`, or the same loop is undefined from a model without steps
  -- whose map already knows all ids.
  abbrev Stale : (Builder → Result (Unit {0}) × Builder) → Builder → Builder → Type 0
  Stale m b old =
      steps_of old ≡ []
      → ((k : String) → Knows k (m b).1 → Knows k old)
      → (m b).0 ≡ ok tt
      → (steps_of (m b).1 ≡ steps_of b) ⊎ ((m old).0 ≡ crash undefined)

  -- A record that is no step's.
  plain-Stale :
      (m k : Action Builder (Unit {0}))
      → ((c : Builder)
          → ((m c).0 ≡ ok tt)
            × (steps_of (m c).1 ≡ steps_of c)
            × ((m c).1.test_step_id_to_idx ≡ c.test_step_id_to_idx))
      → ((b old : Builder) → Stale k b old)
      → (b old : Builder) → Stale (m >> k) b old
  unfolding blocks
  plain-Stale m k keeps ih b old e knows h =
      let eb = and_then-ok (m b) (λ _. k) (keeps b).0 in
      let eo = and_then-ok (m old) (λ _. k) (keeps old).0 in
      elim (ih (m b).1 (m old).1 ((keeps old).1 ∙ e)
        (λ id x. rw ((keeps old).2) (knows id (rw eb x))) (rw eb at h)) [
          | inl s ↦ inl (rw eb (s ∙ (keeps b).1))
          | inr d ↦ inr (rw eo d)
        ]

  step-Stale :
      (a : TestStepArtifact) (read_ok : Bool) (ps : List Proto.OutputArtifact) (b old : Builder)
      → Stale (handle_test_step_artifact a >> handle_all read_ok ps) b old
  unfolding blocks
  step-Stale a read_ok ps b old e knows h =
      let first = handle_test_step_artifact a b in
      let known =
        then-Knows read_ok ps a.test_step_id first (handle_step-Knows a a.test_step_id b).0
          (all-Knows read_ok ps a.test_step_id) in
      let dies = handle_step-stale a old e (knows a.test_step_id known) in
      inr (
        ap (λ r. r.0)
          (and_then-crash (handle_test_step_artifact a old) (λ _. handle_all read_ok ps) dies))

  crash-Stale :
      (c : Crash) (k : Action Builder (Unit {0})) (b old : Builder) → Stale (die c >> k) b old
  unfolding blocks
  crash-Stale c k b old e knows h = cc

  record-Stale :
      (q : Result OutputArtifact) (read_ok : Bool) (ps : List Proto.OutputArtifact)
      → ((b old : Builder) → Stale (handle_all read_ok ps) b old)
      → (b old : Builder) → Stale (handle_record q >> handle_all read_ok ps) b old
  unfolding handle_record handle_output_artifact
  record-Stale (crash c) read_ok ps ih b old = crash-Stale c (handle_all read_ok ps) b old
  record-Stale (ok a) read_ok ps ih b old = variant a.artifact
    where
      variant :
          (v : OutputVariant) → Stale (handle_output_artifact v >> handle_all read_ok ps) b old
      variant (OutputVariant.test_run_artifact r) =
          plain-Stale (handle_test_run_artifact r.artifact) (handle_all read_ok ps)
            (run-keeps r.artifact) ih b old
      variant (OutputVariant.test_step_artifact t) = step-Stale t read_ok ps b old
      variant (OutputVariant.schema_version x) =
          plain-Stale (handle_output_artifact (OutputVariant.schema_version x))
            (handle_all read_ok ps) (λ c. (refl, refl, refl)) ih b old

  all-Stale :
      (read_ok : Bool) (ps : List Proto.OutputArtifact) (b old : Builder)
      → Stale (handle_all read_ok ps) b old
  unfolding handle_all
  all-Stale read_ok [] b old = λ e knows h. inl refl
  all-Stale read_ok (p ∷ ps) b old =
      record-Stale (proto_to_output_artifact p) read_ok ps (all-Stale read_ok ps) b old

  -- the loop of a receiver
  abbrev loop : OutputReceiver → Result (Unit {0}) × Builder
  loop r = handle_all r.read_ok r.file (begin r)

  -- the receiver after its model was built and reset
  abbrev emptied : OutputReceiver → OutputReceiver
  emptied r = record r {
    model = none;
    test_step_id_to_idx = (loop r).1.test_step_id_to_idx;
    measurement_series_id_to_idx = (loop r).1.measurement_series_id_to_idx;
  }

  model-built :
      (r : OutputReceiver) (m : OutputModel)
      → r.model ≡ none
      → (get_output_model r).0 ≡ ok m
      → (r.writer_created ≡ true)
        × ((loop r).0 ≡ ok tt)
        × ((loop r).1.model ≡ m)
        × (reset_model (get_output_model r).1 ≡ emptied r)
  unfolding get_output_model build_model reset_model blocks
  model-built r m absent h = ground arith

  model-dies :
      (r : OutputReceiver) {c : Crash}
      → r.model ≡ none
      → r.writer_created ≡ true
      → (loop r).0 ≡ crash c
      → (get_output_model r).0 ≡ crash c
  unfolding get_output_model build_model blocks
  model-dies r absent created h = ground arith

  -- A model that was built and has a step cannot be built again: if `GetOutputModel` has built a
  -- model with at least one step, then after `ResetModel` the next `GetOutputModel` has undefined
  -- behaviour, since the maps still hold positions in the model that is gone.
  pub reset_model-undefined :
      (r : OutputReceiver) (m : OutputModel)
      → r.model ≡ none
      → (get_output_model r).0 ≡ ok m
      → m.test_steps ≢ []
      → (get_output_model (reset_model (get_output_model r).1)).0 ≡ crash undefined
  reset_model-undefined r m absent h steps =
      let done = model-built r m absent h in
      rw (done.3)
        (elim (all-Stale r.read_ok r.file (begin r) (begin (emptied r)) refl (λ k x. x) done.1) [
          | inl none_added ↦ absurd (steps (ap (λ x. x.test_steps) (sym done.2) ∙ none_added))
          | inr dies ↦ model-dies (emptied r) refl done.0 dies
        ])
