-- ===== src/Receiver/Handlers.antt =====
-- ocpdiag/core/results/output_receiver.cc: what each artifact adds to the model.
use ocp_diag_core_cpp.Base.{ℕ, zero, suc, String, Option, none, some, List, [], ◌∷◌, length, snoc}
use ocp_diag_core_cpp.Outcome.{Result, ok, crash, undefined, check_failed}
use ocp_diag_core_cpp.Outcome
use ocp_diag_core_cpp.Outcome.Action.{Action, ◌>>=◌, ◌>>◌, pure, lift, gets, modify}
use ocp_diag_core_cpp.Platform.{Platform}
use ocp_diag_core_cpp.Model.Output.{
  TestRunVariant, TestStepArtifact, TestStepVariant, OutputVariant, MeasurementSeriesModel,
  TestStepModel, TestRunModel,
}
use ocp_diag_core_cpp.Receiver.{
  Builder, empty_series, empty_step, lookup, modify_at, steps_of, with_steps,
}

module _ ⦃P : Platform⦄ where
  -- The rest of `GetTestStepIdx`, by what the map holds.
  unfoldable pub step_idx_or_new : String → Option ℕ → Action Builder ℕ
  step_idx_or_new id (some idx) b = (ok idx, b)
  step_idx_or_new id none b = (
    ok (length (steps_of b)),
    with_steps (snoc (steps_of b) (empty_step id))
        (record b { test_step_id_to_idx = (id, length (steps_of b)) ∷ b.test_step_id_to_idx }),
  )

  unfoldable pub get_test_step_idx : String → Action Builder ℕ
  unfolding step_idx_or_new
  get_test_step_idx id b = step_idx_or_new id (lookup id b.test_step_id_to_idx) b

  -- `model_->test_steps[idx]` is updated.
  unfoldable pub modify_step :
      ℕ → (TestStepModel → Result TestStepModel) → Action Builder (Unit {0})
  modify_step idx f = do
    b ← gets (λ b. b)
    steps ← lift (modify_at idx f (steps_of b))
    modify (with_steps steps)

  abbrev pub on_step : ℕ → (TestStepModel → TestStepModel) → Action Builder (Unit {0})
  on_step idx f = modify_step idx (λ t. ok (f t))

  -- `model_->test_steps[idx]` is read.
  abbrev pub step_at : ℕ → List TestStepModel → Result TestStepModel
  step_at i [] = crash undefined
  step_at zero (t ∷ ts) = ok t
  step_at (suc i) (t ∷ ts) = step_at i ts

  -- The rest of `GetMeasurementSeriesIdx`, by what the map holds.
  unfoldable pub series_idx_or_new : String → ℕ → Option ℕ → Action Builder ℕ
  series_idx_or_new id step_idx (some idx) = pure idx
  series_idx_or_new id step_idx none = do
    b ← gets (λ b. b)
    step ← lift (step_at step_idx (steps_of b))
    modify (λ b. record b {
      measurement_series_id_to_idx =
          (id, length step.measurement_series) ∷ b.measurement_series_id_to_idx;
    })
    on_step step_idx (λ t. record t { measurement_series = snoc t.measurement_series empty_series })
    pure (length step.measurement_series)

  unfoldable pub get_measurement_series_idx : String → ℕ → Action Builder ℕ
  get_measurement_series_idx id step_idx = do
    b ← gets (λ b. b)
    series_idx_or_new id step_idx (lookup id b.measurement_series_id_to_idx)

  -- `model_->test_steps[idx].measurement_series[GetMeasurementSeriesIdx(id, idx)]` is updated.
  unfoldable pub on_series :
      String → ℕ → (MeasurementSeriesModel → MeasurementSeriesModel) → Action Builder (Unit {0})
  on_series id idx f = do
    j ← get_measurement_series_idx id idx
    modify_step idx (λ t.
        Outcome.◌>>=◌ (modify_at j (λ m. ok (f m)) t.measurement_series)
          λ ms. ok (record t { measurement_series = ms }))

  -- The chain of `std::get_if` in `HandleTestStepArtifact`.
  unfoldable pub handle_test_step_variant : ℕ → TestStepVariant → Action Builder (Unit {0})
  handle_test_step_variant idx (TestStepVariant.test_step_start s) =
      on_step idx (λ t. record t { start = s })
  handle_test_step_variant idx (TestStepVariant.test_step_end e) =
      on_step idx (λ t. record t { end = e })
  handle_test_step_variant idx (TestStepVariant.log l) =
      on_step idx (λ t. record t { logs = snoc t.logs l })
  handle_test_step_variant idx (TestStepVariant.error e) =
      on_step idx (λ t. record t { errors = snoc t.errors e })
  handle_test_step_variant idx (TestStepVariant.file f) =
      on_step idx (λ t. record t { files = snoc t.files f })
  handle_test_step_variant idx (TestStepVariant.extension e) =
      on_step idx (λ t. record t { extensions = snoc t.extensions e })
  handle_test_step_variant idx (TestStepVariant.measurement_series_start s) =
      on_series s.measurement_series_id idx (λ m. record m { start = s })
  handle_test_step_variant idx (TestStepVariant.measurement_series_element e) =
      on_series e.measurement_series_id idx (λ m. record m { elements = snoc m.elements e })
  handle_test_step_variant idx (TestStepVariant.measurement_series_end e) =
      on_series e.measurement_series_id idx (λ m. record m { end = e })
  handle_test_step_variant idx (TestStepVariant.measurement x) =
      on_step idx (λ t. record t { measurements = snoc t.measurements x })
  handle_test_step_variant idx (TestStepVariant.diagnosis d) =
      on_step idx (λ t. record t { diagnoses = snoc t.diagnoses d })

  unfoldable pub handle_test_step_artifact : TestStepArtifact → Action Builder (Unit {0})
  handle_test_step_artifact a = do
    idx ← get_test_step_idx a.test_step_id
    handle_test_step_variant idx a.artifact

  abbrev on_test_run : (TestRunModel → TestRunModel) → Action Builder (Unit {0})
  on_test_run f =
      modify (λ b. record b { model = record b.model { test_run = f b.model.test_run } })

  unfoldable pub handle_test_run_artifact : TestRunVariant → Action Builder (Unit {0})
  handle_test_run_artifact (TestRunVariant.test_run_start s) =
      on_test_run (λ r. record r { start = s })
  handle_test_run_artifact (TestRunVariant.test_run_end e) = on_test_run (λ r. record r { end = e })
  handle_test_run_artifact (TestRunVariant.log l) =
      on_test_run (λ r. record r { pre_start_logs = snoc r.pre_start_logs l })
  handle_test_run_artifact (TestRunVariant.error e) =
      on_test_run (λ r. record r { pre_start_errors = snoc r.pre_start_errors e })

  unfoldable pub handle_output_artifact : OutputVariant → Action Builder (Unit {0})
  handle_output_artifact (OutputVariant.test_run_artifact a) = handle_test_run_artifact a.artifact
  handle_output_artifact (OutputVariant.test_step_artifact a) = handle_test_step_artifact a
  handle_output_artifact (OutputVariant.schema_version v) =
      modify (λ b. record b { model = record b.model { schema_version = v } })
