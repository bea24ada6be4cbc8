-- ===== src/Tests/Samples.antt =====
-- A platform of natural numbers for floats and clocks, with a writer that takes every record, and
-- the states that the test runs begin with.
use Prim.Native.String.{◌++◌ as text_append}
use ocp_diag_core_cpp.Base.{
  ℕ, zero, suc, ◌≡◌, refl, ap, String, Bool, true, false, ltb, not, none, some, List, [], ◌∷◌,
}
use ocp_diag_core_cpp.Platform.{Platform, ValueKind}
use ocp_diag_core_cpp.Writer.{Writer, Sinks}
use ocp_diag_core_cpp.Model.Output.{TestStatus}
use ocp_diag_core_cpp.TestRun.{TestRun, fresh}
use ocp_diag_core_cpp.TestStep.{TestStep, StepState}
use ocp_diag_core_cpp.Series.{SeriesState}

mutual
  pub data SampleValue : Type 0 where
    empty : SampleValue
    text : String → SampleValue
    number : ℕ → SampleValue
    truth : Bool → SampleValue
    sequence : SampleValues → SampleValue

  pub data SampleValues : Type 0 where
    end : SampleValues
    next : SampleValue → SampleValues → SampleValues

abbrev to_list : SampleValues → List SampleValue
to_list SampleValues.end = []
to_list (SampleValues.next v vs) = v ∷ to_list vs

abbrev of_list : List SampleValue → SampleValues
of_list [] = SampleValues.end
of_list (v ∷ vs) = SampleValues.next v (of_list vs)

pub to_list-of_list : (vs : List SampleValue) → to_list (of_list vs) ≡ vs
to_list-of_list [] = refl
to_list-of_list (v ∷ vs) = ap (◌∷◌ v) (to_list-of_list vs)

abbrev sample_kind : SampleValue → ValueKind ℕ SampleValue
sample_kind SampleValue.empty = ValueKind.unset
sample_kind (SampleValue.text s) = ValueKind.string_kind s
sample_kind (SampleValue.number n) = ValueKind.number_kind n
sample_kind (SampleValue.truth b) = ValueKind.bool_kind b
sample_kind (SampleValue.sequence vs) = ValueKind.list_kind (to_list vs)

abbrev tally : ℕ → String
tally zero = ""
tally (suc n) = String.◌∷◌ "x" (tally n)

pub tally_injective : (m n : ℕ) → tally m ≡ tally n → m ≡ n
tally_injective zero zero h = refl
tally_injective zero (suc n) h = cc
tally_injective (suc m) zero h = cc
tally_injective (suc m) (suc n) h =
    let shorter : tally m ≡ tally n = cc in ap suc (tally_injective m n shorter)

abbrev pub joined : List String → String
joined [] = ""
joined (s ∷ ss) = text_append s (joined ss)

instance abbrev pub sample_platform : Platform
sample_platform = record {
  Double = ℕ;
  double_le = λ a b. not (ltb b a);
  double_lt = ltb;
  str_cat = tally;
  str_cat_injective = tally_injective;
  str_cat_texts = joined;
  Value = SampleValue;
  default_value = SampleValue.empty;
  set_string_value = SampleValue.text;
  set_number_value = SampleValue.number;
  set_bool_value = SampleValue.truth;
  set_list_value = λ vs. SampleValue.sequence (of_list vs);
  value_kind = sample_kind;
  kind_default = refl;
  kind_string = λ s. refl;
  kind_number = λ d. refl;
  kind_bool = λ b. refl;
  kind_list = λ vs. ap ValueKind.list_kind (to_list-of_list vs);
  Struct = String;
  default_struct = "";
  json_to_struct = some;
  struct_to_json = some;
  Timestamp = ℕ;
  Timeval = ℕ;
  default_timestamp = 0;
  timeval_to_timestamp = λ t. t;
  timestamp_to_timeval = λ t. t;
  clock = λ n. n;
}

instance abbrev pub sample_sinks : Sinks
sample_sinks = record { open_ok = true; record_ok = λ rs a. true; message_to_json = λ a. some "{}" }

abbrev pub sample_writer : Writer
sample_writer = record {
  has_path = true;
  has_stream = true;
  flush_each_minute = false;
  file = [];
  flushed = [];
  lines = [];
  flush_thread = false;
  stop_flush_routine = false;
  sequence_number = 0;
  cerr = 0;
  clock = 0;
}

abbrev new_run : TestRun
new_run =
    fresh
      (record {
        name = "run";
        version = "1";
        command_line = "run";
        parameters_json = "";
        metadata_json = "";
      })
      sample_writer false false false

abbrev pub started_run : TestRun
started_run = record new_run { started = true; initialized = true }

abbrev sample_step : TestStep
sample_step = record { id = "0"; name = "step"; status = TestStatus.unknown; ended = false }

abbrev pub open_step : StepState
open_step = record { run = started_run; step = sample_step }

abbrev pub ended_step : StepState
ended_step = record { run = started_run; step = record sample_step { ended = true } }

abbrev pub open_series : SeriesState
open_series = record {
  run = started_run;
  step = sample_step;
  series = record { series_id = "0"; element_count = 0; ended = false; type_index = none };
}
