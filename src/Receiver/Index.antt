-- ===== src/Receiver/Index.antt =====
-- The map from step ids to positions is exact while a model is built from nothing.
use text.Mathlib.Text.{◌==◌ as str_eq}
use ocp_diag_core_cpp.Base.{
  ℕ, String, Bool, true, false, ◌≡◌, refl, sym, ◌∙◌, Option, none, some, List, [], ◌∷◌, length,
  snoc, arith, if◌then◌else◌, eq_iff,
}
use ocp_diag_core_cpp.Outcome.{Result, ok, crash}
use ocp_diag_core_cpp.Outcome.Action.{Action, and_then, blocks}
use ocp_diag_core_cpp.Platform.{Platform}
use ocp_diag_core_cpp.Model.Output.{
  OutputModel, TestStepModel, TestStepVariant, TestStepArtifact, OutputVariant, OutputArtifact,
}
use ocp_diag_core_cpp.Model.Proto
use ocp_diag_core_cpp.Model.FromProto.Artifacts.{proto_to_output_artifact}
use ocp_diag_core_cpp.Receiver.{lookup, Builder, steps_of, empty_step, OutputReceiver}
use ocp_diag_core_cpp.Receiver.Handlers.{
  step_idx_or_new, get_test_step_idx, handle_test_step_variant, handle_test_step_artifact,
  handle_output_artifact,
}
use ocp_diag_core_cpp.Receiver.Build.{
  handle_record, handle_all, begin, build_model, get_output_model,
}
use ocp_diag_core_cpp.Receiver.Reset.{variant-map, run-keeps}
use ocp_diag_core_cpp.Receiver.Steady.{position, variant-IsSteady}

module _ ⦃P : Platform⦄ where
  -- The map finds exactly the steps of the model, each at its position.
  abbrev pub IsIndexed : Builder → Type 0
  IsIndexed b = (k : String) → lookup k b.test_step_id_to_idx ≡ position k (steps_of b)

  abbrev or_last : Option ℕ → Bool → ℕ → Option ℕ
  or_last (some i) here n = some i
  or_last none here n = if here then some n else none

  position-snoc :
      (k : String) (ts : List TestStepModel) (t : TestStepModel)
      → position k (snoc ts t) ≡ or_last (position k ts) (str_eq t.test_step_id k) (length ts)
  position-snoc k [] t = ground arith
  position-snoc k (u ∷ ts) t = ground (arith, position-snoc k ts t)

  new_idx-IsIndexed :
      (id : String) (o : Option ℕ) (b : Builder)
      → lookup id b.test_step_id_to_idx ≡ o
      → IsIndexed b
      → IsIndexed (step_idx_or_new id o b).1
  unfolding step_idx_or_new lookup
  new_idx-IsIndexed id (some i) b e h = h
  new_idx-IsIndexed id none b e h =
      λ k. ground (arith, h k, h id, eq_iff id k, position-snoc k (steps_of b) (empty_step id))

  -- A handler that keeps the map exact.
  abbrev KeepsIndex : {A : Type 0} → Action Builder A → Type 0
  KeepsIndex m = (b : Builder) → IsIndexed b → IsIndexed (m b).1

  variant-KeepsIndex : (i : ℕ) (v : TestStepVariant) → KeepsIndex (handle_test_step_variant i v)
  variant-KeepsIndex i v b h k = rw (variant-map i v b) (h k ∙ sym (variant-IsSteady i v b k))

  step-KeepsIndex : (a : TestStepArtifact) → KeepsIndex (handle_test_step_artifact a)
  unfolding handle_test_step_artifact get_test_step_idx blocks
  step-KeepsIndex a b h =
      let o = lookup a.test_step_id b.test_step_id_to_idx in
      go (step_idx_or_new a.test_step_id o b) (new_idx-IsIndexed a.test_step_id o b refl h)
    where
      go :
          (r : Result ℕ × Builder)
          → IsIndexed r.1
          → IsIndexed (and_then r (λ i. handle_test_step_variant i a.artifact)).1
      go (ok i, c) g = variant-KeepsIndex i a.artifact c g
      go (crash x, c) g = g

  output-KeepsIndex : (v : OutputVariant) → KeepsIndex (handle_output_artifact v)
  unfolding handle_output_artifact
  output-KeepsIndex (OutputVariant.test_run_artifact a) b h =
      λ k. let kept = run-keeps a.artifact b in rw (kept.1, kept.2) (h k)
  output-KeepsIndex (OutputVariant.test_step_artifact a) b h = step-KeepsIndex a b h
  output-KeepsIndex (OutputVariant.schema_version x) b h = h

  record-KeepsIndex : (q : Result OutputArtifact) → KeepsIndex (handle_record q)
  unfolding handle_record
  record-KeepsIndex (ok a) b h = output-KeepsIndex a.artifact b h
  record-KeepsIndex (crash c) b h = h

  then-IsIndexed :
      (m : Action Builder (Unit {0})) (r : Result (Unit {0}) × Builder)
      → IsIndexed r.1
      → KeepsIndex m
      → IsIndexed (and_then r (λ done. m)).1
  then-IsIndexed m (ok done, c) g h = h c g
  then-IsIndexed m (crash x, c) g h = g

  -- Whatever records the loop reads, and wherever it stops, the map finds exactly the ids of the
  -- steps in the model, each at the position of the first step that has it, if it did before.
  handle_all-IsIndexed :
      (read_ok : Bool) (ps : List Proto.OutputArtifact) (b : Builder)
      → IsIndexed b
      → IsIndexed (handle_all read_ok ps b).1
  unfolding handle_all blocks
  handle_all-IsIndexed true [] b h = h
  handle_all-IsIndexed false [] b h = h
  handle_all-IsIndexed read_ok (p ∷ ps) b h =
      then-IsIndexed (handle_all read_ok ps) (handle_record (proto_to_output_artifact p) b)
        (record-KeepsIndex (proto_to_output_artifact p) b h) (handle_all-IsIndexed read_ok ps)

  -- The model that a receiver builds for the first time is indexed exactly by its map: the map
  -- finds an id at the position of the first step of the model that has it, and no other id.
  pub get_output_model-IsIndexed :
      (r : OutputReceiver) (m : OutputModel)
      → r.model ≡ none
      → r.test_step_id_to_idx ≡ []
      → (get_output_model r).0 ≡ ok m
      → (k : String) → lookup k (get_output_model r).1.test_step_id_to_idx ≡ position k m.test_steps
  unfolding get_output_model build_model lookup blocks
  get_output_model-IsIndexed r m absent empty e k =
      let h : IsIndexed (begin r) = λ k. rw empty refl in
      ground (arith, handle_all-IsIndexed r.read_ok r.file (begin r) h k)
