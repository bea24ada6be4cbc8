-- ===== src/Receiver/Steady.antt =====
-- The code that updates steps of the model leaves their ids and positions alone.
use text.Mathlib.Text.{◌==◌ as str_eq}
use ocp_diag_core_cpp.Base.{
  ℕ, zero, suc, String, ◌≡◌, refl, ◌∙◌, Option, none, some, List, [], ◌∷◌, if◌then◌else◌,
}
use ocp_diag_core_cpp.Outcome.{Result, ok, crash, >>=-eq-ok}
use ocp_diag_core_cpp.Outcome.Action.{Action, and_then, ◌>>=◌, ◌>>◌, blocks, lift, gets, modify}
use ocp_diag_core_cpp.Outcome
use ocp_diag_core_cpp.Platform.{Platform}
use ocp_diag_core_cpp.Model.Output.{MeasurementSeriesModel, TestStepModel, TestStepVariant}
use ocp_diag_core_cpp.Receiver.{modify_at, Builder, steps_of}
use ocp_diag_core_cpp.Receiver.Handlers.{
  step_at, modify_step, series_idx_or_new, get_measurement_series_idx, on_series,
  handle_test_step_variant,
}

module _ ⦃P : Platform⦄ where
  abbrev pub next_position : Option ℕ → Option ℕ
  next_position none = none
  next_position (some i) = some (suc i)

  -- the position of the first step with an id
  abbrev pub position : String → List TestStepModel → Option ℕ
  position k [] = none
  position k (t ∷ ts) = if str_eq t.test_step_id k then some 0 else next_position (position k ts)

  -- the steps have the ids that they had
  abbrev SameIds : List TestStepModel → List TestStepModel → Type 0
  SameIds ts us = (k : String) → position k us ≡ position k ts

  -- a step that is updated keeps its id
  abbrev KeepsId : (TestStepModel → Result TestStepModel) → Type 0
  KeepsId f = (t u : TestStepModel) → f t ≡ ok u → u.test_step_id ≡ t.test_step_id

  position-cong :
      (k : String) (t u : TestStepModel) (ts us : List TestStepModel)
      → u.test_step_id ≡ t.test_step_id
      → position k us ≡ position k ts
      → position k (u ∷ us) ≡ position k (t ∷ ts)
  position-cong k t u ts us e h = rw (e, h)

  modify_at-SameIds :
      (i : ℕ) (f : TestStepModel → Result TestStepModel) (ts us : List TestStepModel)
      → KeepsId f
      → modify_at i f ts ≡ ok us
      → SameIds ts us
  unfolding modify_at
  modify_at-SameIds i f [] us keeps e k = cc
  modify_at-SameIds zero f (t ∷ ts) us keeps e k =
      let (u, e0, e1) = >>=-eq-ok (f t) (λ y. ok (y ∷ ts)) e in
      let same : us ≡ u ∷ ts = cc in rw same (position-cong k t u ts ts (keeps t u e0) refl)
  modify_at-SameIds (suc i) f (t ∷ ts) us keeps e k =
      let (vs, e0, e1) = >>=-eq-ok (modify_at i f ts) (λ ys. ok (t ∷ ys)) e in
      let same : us ≡ t ∷ vs = cc in
      rw same (position-cong k t t ts vs refl (modify_at-SameIds i f ts vs keeps e0 k))

  -- Code that leaves the steps' ids alone, and the map of steps.
  abbrev pub IsSteady : {A : Type 0} → Action Builder A → Type 0
  IsSteady m = (b : Builder) → SameIds (steps_of b) (steps_of (m b).1)

  bind-IsSteady :
      {A B : Type 0} (m : Action Builder A) (f : A → Action Builder B)
      → IsSteady m
      → ((a : A) → IsSteady (f a))
      → IsSteady (m >>= f)
  unfolding blocks
  bind-IsSteady {A = A} m f h g b k = go (m b) (h b k)
    where
      go :
          (r : Result A × Builder)
          → position k (steps_of r.1) ≡ position k (steps_of b)
          → position k (steps_of (and_then r f).1) ≡ position k (steps_of b)
      go (ok a, c) e = g a c k ∙ e
      go (crash x, c) e = e

  then-IsSteady :
      {B : Type 0} (m : Action Builder (Unit {0})) (n : Action Builder B)
      → IsSteady m
      → IsSteady n
      → IsSteady (m >> n)
  unfolding blocks
  then-IsSteady m n h g = bind-IsSteady m (λ _. n) h (λ _. g)

  -- an update of a step's series
  with_series-id :
      (r : Result (List MeasurementSeriesModel)) (t u : TestStepModel)
      → Outcome.◌>>=◌ r (λ ms. ok (record t { measurement_series = ms })) ≡ ok u
      → u.test_step_id ≡ t.test_step_id
  with_series-id (ok ms) t u e = cc
  with_series-id (crash c) t u e = cc

  modify_step-IsSteady :
      (i : ℕ) (f : TestStepModel → Result TestStepModel) → KeepsId f → IsSteady (modify_step i f)
  unfolding modify_step blocks
  modify_step-IsSteady i f keeps b k = go (modify_at i f (steps_of b)) refl
    where
      go :
          (q : Result (List TestStepModel))
          → modify_at i f (steps_of b) ≡ q
          → position k (steps_of (modify_step i f b).1) ≡ position k (steps_of b)
      go (crash x) e = rw e refl
      go (ok us) e = rw e (modify_at-SameIds i f (steps_of b) us keeps e k)

  series_idx-IsSteady : (id : String) (i : ℕ) (o : Option ℕ) → IsSteady (series_idx_or_new id i o)
  unfolding series_idx_or_new
  series_idx-IsSteady id i (some j) = λ b k. refl
  series_idx-IsSteady id i none =
      bind-IsSteady (gets (λ b. b)) _ (λ b k. refl)
        λ b.
          bind-IsSteady (lift (step_at i (steps_of b))) _ (λ c k. refl)
            λ step.
              then-IsSteady (modify _) _ (λ c k. refl)
                (then-IsSteady (modify_step i _) _ (modify_step-IsSteady i _ (λ t u e. cc))
                  (λ c k. refl))

  on_series-IsSteady :
      (id : String) (i : ℕ) (f : MeasurementSeriesModel → MeasurementSeriesModel)
      → IsSteady (on_series id i f)
  unfolding on_series get_measurement_series_idx
  on_series-IsSteady id i f =
      bind-IsSteady (get_measurement_series_idx id i) _
        (bind-IsSteady (gets (λ b. b)) _ (λ b k. refl) λ b. series_idx-IsSteady id i _)
        λ j.
          modify_step-IsSteady i _
            (λ t u e. with_series-id (modify_at j (λ m. ok (f m)) t.measurement_series) t u e)

  pub variant-IsSteady : (i : ℕ) (v : TestStepVariant) → IsSteady (handle_test_step_variant i v)
  unfolding handle_test_step_variant
  variant-IsSteady i (TestStepVariant.measurement_series_start x) = on_series-IsSteady _ i _
  variant-IsSteady i (TestStepVariant.measurement_series_element x) = on_series-IsSteady _ i _
  variant-IsSteady i (TestStepVariant.measurement_series_end x) = on_series-IsSteady _ i _
  variant-IsSteady i (TestStepVariant.test_step_start x) = modify_step-IsSteady i _ (λ t u e. cc)
  variant-IsSteady i (TestStepVariant.test_step_end x) = modify_step-IsSteady i _ (λ t u e. cc)
  variant-IsSteady i (TestStepVariant.log x) = modify_step-IsSteady i _ (λ t u e. cc)
  variant-IsSteady i (TestStepVariant.error x) = modify_step-IsSteady i _ (λ t u e. cc)
  variant-IsSteady i (TestStepVariant.file x) = modify_step-IsSteady i _ (λ t u e. cc)
  variant-IsSteady i (TestStepVariant.extension x) = modify_step-IsSteady i _ (λ t u e. cc)
  variant-IsSteady i (TestStepVariant.measurement x) = modify_step-IsSteady i _ (λ t u e. cc)
  variant-IsSteady i (TestStepVariant.diagnosis x) = modify_step-IsSteady i _ (λ t u e. cc)
