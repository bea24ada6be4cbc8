-- ===== src/Series/Counting.antt =====
-- The indexes of a series' elements, and the total that its end states.
use ocp_diag_core_cpp.Base.{
  ℕ, zero, suc, ◌+◌, String, true, false, ◌≡◌, ◌≢◌, refl, ap, ◌∙◌, List, [], ◌∷◌, ◌++◌, map, snoc,
  some, arith, length, if◌then◌else◌,
}
use mathlib.Core.List.{append_assoc}
use ocp_diag_core_cpp.Outcome.{Result, ok, crash, Crash}
use ocp_diag_core_cpp.Outcome.Action.{
  Action, ◌>>◌, pure, and_then, and_then-ok, and_then-eq-ok, blocks,
}
use ocp_diag_core_cpp.IntIncrementer.{next}
use ocp_diag_core_cpp.Platform.{Platform}
use ocp_diag_core_cpp.Model.Input.{MeasurementSeriesElement, index}
use ocp_diag_core_cpp.Model.Proto
use ocp_diag_core_cpp.Model.Proto.{TestStepCase}
use ocp_diag_core_cpp.Model.ToProto.{series_element_to_proto}
use ocp_diag_core_cpp.Writer.{
  Writer, Sinks, flush, flush_locked, write, write_step, write_to_file, write_to_stream,
  get_current_time, print_error,
}
use ocp_diag_core_cpp.Writer.Sequence.{IsReliable, stamp}
use ocp_diag_core_cpp.TestStep.{assign_id_and_emit_artifact}
use ocp_diag_core_cpp.Series.{
  SeriesState, assign_step_id_and_emit_artifact, add_element, emit_end, finish, or_now, or_set,
  set_and_check_series_type,
}

-- What a reader counts: an element of a series with its index, the end of a series with its total.
pub data Mark : Type 0 where
  element : String → ℕ → Mark
  total : String → ℕ → Mark
  other : Mark

module _ ⦃P : Platform⦄ where
  abbrev step_mark : Proto.TestStepCase → Mark
  step_mark (Proto.TestStepCase.measurement_series_element e) =
      element e.measurement_series_id e.index
  step_mark (Proto.TestStepCase.measurement_series_end e) =
      total e.measurement_series_id e.total_count
  step_mark _ = other

  abbrev case_mark : Proto.OutputCase → Mark
  case_mark (Proto.OutputCase.test_step_artifact a) = step_mark a.artifact
  case_mark _ = other

  abbrev pub mark : Proto.OutputArtifact → Mark
  mark a = case_mark a.artifact

  abbrev pub marks : SeriesState → List Mark
  marks s = map mark s.run.writer.file

  map-snoc :
      (rs : List Proto.OutputArtifact) (a : Proto.OutputArtifact)
      → map mark (snoc rs a) ≡ map mark rs ++ mark a ∷ []
  map-snoc [] a = refl
  map-snoc (r ∷ rs) a = ap (◌∷◌ (mark r)) (map-snoc rs a)

  -- `n` elements of one series, indexed upwards from `k`, and then its end.
  abbrev pub counted : String → ℕ → ℕ → List Mark
  counted id k zero = total id k ∷ []
  counted id k (suc n) = element id k ∷ counted id (k + 1) n

  abbrev step_case : SeriesState → TestStepCase → Proto.OutputCase
  step_case s a =
      Proto.OutputCase.test_step_artifact (record { artifact = a; test_step_id = s.step.id })

module _ ⦃P : Platform⦄ ⦃S : Sinks⦄ where
  unfoldable pub add_elements : List MeasurementSeriesElement → Action SeriesState (Unit {0})
  add_elements [] = pure tt
  add_elements (e ∷ es) = add_element e >> add_elements es

  -- A write that returns has put its record in the file.
  write-returned :
      (c : Proto.OutputCase) (w : Writer)
      → IsReliable
      → w.has_path ≡ true
      → (write c w).0 ≡ ok tt
      → ((write c w).1.file ≡ snoc w.file (stamp w c)) × ((write c w).1.has_path ≡ true)
  unfolding write write_to_file write_to_stream get_current_time print_error next blocks
  write-returned c w r p h = ground (arith, r w.file (stamp w c))

  -- An artifact that is emitted adds its mark, and changes the writer alone.
  abbrev Emits : TestStepCase → SeriesState → SeriesState → Type 0
  Emits a s s' =
      (marks s' ≡ marks s ++ step_mark a ∷ [])
      × (s'.run.writer.has_path ≡ true)
      × (s'.series ≡ s.series)

  emit-Emits :
      (a : TestStepCase) (s : SeriesState)
      → IsReliable
      → s.run.writer.has_path ≡ true
      → (assign_step_id_and_emit_artifact a s).0 ≡ ok tt
      → Emits a s (assign_step_id_and_emit_artifact a s).1
  unfolding assign_step_id_and_emit_artifact assign_id_and_emit_artifact write_step blocks
  emit-Emits a s r p h =
      let wrote = write-returned (step_case s a) s.run.writer r p h in
      (
        ap (map mark) wrote.0 ∙ map-snoc s.run.writer.file (stamp s.run.writer (step_case s a)),
        wrote.1,
        refl,
      )

  -- An element whose metadata is no JSON is not added.
  unconverted :
      (e : MeasurementSeriesElement) (s : SeriesState) {c : Crash}
      → series_element_to_proto e ≡ crash c
      → (add_element e s).0 ≢ ok tt
  unfolding add_element set_and_check_series_type blocks
  unconverted e s eq h = ground arith

  abbrev element_case :
      MeasurementSeriesElement → SeriesState → Proto.MeasurementSeriesElement → TestStepCase
  element_case e s proto = Proto.TestStepCase.measurement_series_element (record proto {
    timestamp = or_now proto.timestamp (P.clock s.run.writer.clock);
    index = s.series.element_count;
    measurement_series_id = s.series.series_id;
  })

  -- the state in which the artifact of an element is emitted
  abbrev element_state : MeasurementSeriesElement → SeriesState → SeriesState
  element_state e s = record s {
    run = record s.run { writer = record s.run.writer { clock = s.run.writer.clock + 1 } };
    series = record s.series {
      element_count = s.series.element_count + 1;
      type_index = some (or_set s.series.type_index (index e.value));
    };
  }

  add_element-emit :
      (e : MeasurementSeriesElement) (s : SeriesState) (proto : Proto.MeasurementSeriesElement)
      → series_element_to_proto e ≡ ok proto
      → (add_element e s).0 ≡ ok tt
      → add_element e s
        ≡ assign_step_id_and_emit_artifact (element_case e s proto) (element_state e s)
  unfolding add_element set_and_check_series_type get_current_time next blocks
  add_element-emit e s proto eq h = ground arith

  -- What one element adds.
  abbrev Counts : SeriesState → SeriesState → Type 0
  Counts s s' =
      (marks s' ≡ marks s ++ element s.series.series_id s.series.element_count ∷ [])
      × (s'.run.writer.has_path ≡ true)
      × (s'.series.element_count ≡ s.series.element_count + 1)
      × (s'.series.series_id ≡ s.series.series_id)
      × (s'.series.ended ≡ s.series.ended)

  add_element-Counts :
      (e : MeasurementSeriesElement) (s : SeriesState)
      → IsReliable
      → s.run.writer.has_path ≡ true
      → (add_element e s).0 ≡ ok tt
      → Counts s (add_element e s).1
  add_element-Counts e s r p h = go (series_element_to_proto e) refl
    where
      go :
          (q : Result Proto.MeasurementSeriesElement)
          → series_element_to_proto e ≡ q
          → Counts s (add_element e s).1
      go (crash c) eq = absurd (unconverted e s eq h)
      go (ok proto) eq =
          let same = add_element-emit e s proto eq h in
          let emitted =
            emit-Emits (element_case e s proto) (element_state e s) r p (rw (← same) h) in
          rw same (
            emitted.0,
            emitted.1,
            ap (λ m. m.element_count) emitted.2,
            ap (λ m. m.series_id) emitted.2,
            ap (λ m. m.ended) emitted.2,
          )

  abbrev end_case : SeriesState → TestStepCase
  end_case s =
      Proto.TestStepCase.measurement_series_end (record {
        measurement_series_id = s.series.series_id;
        total_count = s.series.element_count;
      })

  -- the state in which the end is emitted
  abbrev end_state : SeriesState → SeriesState
  end_state s = record s {
    run = record s.run {
      writer = record s.run.writer {
        cerr = if s.step.ended then s.run.writer.cerr + 1 else s.run.writer.cerr;
      };
    };
    series = record s.series { element_count = s.series.element_count + 1; ended = true };
  }

  finish-emit :
      (s : SeriesState)
      → s.series.ended ≡ false
      → (finish s).0 ≡ ok tt
      → ((assign_step_id_and_emit_artifact (end_case s) (end_state s)).0 ≡ ok tt)
        × (marks (finish s).1
            ≡ marks (assign_step_id_and_emit_artifact (end_case s) (end_state s)).1)
  unfolding finish emit_end next flush flush_locked print_error blocks
  finish-emit s f h = ground arith

  finish-counted :
      (s : SeriesState)
      → s.series.ended ≡ false
      → (finish s).0 ≡ ok tt
      → IsReliable
      → s.run.writer.has_path ≡ true
      → marks (finish s).1 ≡ marks s ++ total s.series.series_id s.series.element_count ∷ []
  finish-counted s f h r p =
      let e = finish-emit s f h in e.1 ∙ (emit-Emits (end_case s) (end_state s) r p e.0).0

  -- Add elements to a series and end it: if the calls return and the record writer takes every
  -- record, then the file has grown by one element for each call, indexed upwards from the count
  -- that the series had, and by the end, which states the total. All carry the id of the series.
  pub add_elements-counted :
      (es : List MeasurementSeriesElement) (s : SeriesState)
      → s.series.ended ≡ false
      → ((add_elements es >> finish) s).0 ≡ ok tt
      → IsReliable
      → s.run.writer.has_path ≡ true
      → marks ((add_elements es >> finish) s).1
        ≡ marks s ++ counted s.series.series_id s.series.element_count (length es)
  unfolding add_elements blocks
  add_elements-counted [] s f h r p = finish-counted s f h r p
  add_elements-counted (e ∷ es) s f h r p =
      let inner =
        and_then-eq-ok (and_then (add_element e s) (λ _. add_elements es)) (λ _. finish) h in
      let returned : (add_element e s).0 ≡ ok tt =
        (and_then-eq-ok (add_element e s) (λ _. add_elements es) inner.1).1 in
      let one = add_element-Counts e s r p returned in
      let same = and_then-ok (add_element e s) (λ _. add_elements es) returned in
      rw same (
        add_elements-counted es (add_element e s).1 (one.4 ∙ f) (rw same at h) r one.1
        ∙ rw (one.0, one.2, one.3) (append_assoc (marks s) _ _))
