-- ===== src/Validate.antt =====
-- ocpdiag/core/results/data_model/struct_validators.cc: the checks of what callers pass in. Each
-- function is an overload of `ValidateStructOrDie`; the message that a failed check prints is not
-- modelled.
pub mod Spec
use ocp_diag_core_cpp.Base.{
  String, ◌==◌, is_empty, Bool, true, false, not, ◌||◌, List, [], ◌∷◌, ℕ, length, Option, none,
  some,
}
use ocp_diag_core_cpp.Outcome.{Result, ok, crash, fatal_log, ◌>>=◌, ◌>>◌, check, first}
use ocp_diag_core_cpp.Platform.{Platform}
use ocp_diag_core_cpp.Model.Input
use ocp_diag_core_cpp.Model.Input.{
  ValidatorType, HardwareInfo, SoftwareInfo, PlatformInfo, Subcomponent, Diagnosis, DiagnosisType,
  Error, Log, File, TestRunStart, Extension, Variant, index, Validator, MeasurementSeriesStart,
  Measurement,
}

abbrev Checked : Type 0
Checked = Result (Unit {0})

unfoldable pub validate_hardware_info : HardwareInfo → Checked
validate_hardware_info info = check (not (is_empty info.name))

unfoldable pub validate_software_info : SoftwareInfo → Checked
validate_software_info info = check (not (is_empty info.name))

unfoldable pub validate_platform_info : PlatformInfo → Checked
validate_platform_info p = check (not (is_empty p.info))

unfoldable validate_subcomponent : Subcomponent → Checked
validate_subcomponent s = check (not (is_empty s.name))

-- `if (subcomponent.has_value()) ValidateStructOrDie(*subcomponent);`
unfoldable pub validate_optional : Option Subcomponent → Checked
unfolding validate_subcomponent
validate_optional none = ok tt
validate_optional (some s) = validate_subcomponent s

abbrev pub is_unknown : DiagnosisType → Bool
is_unknown DiagnosisType.unknown = true
is_unknown DiagnosisType.pass = false
is_unknown DiagnosisType.fail = false

unfoldable pub validate_diagnosis : Diagnosis → Checked
unfolding validate_optional
validate_diagnosis d = do
  check (not (is_empty d.verdict))
  check (not (is_unknown d.type))
  validate_optional d.subcomponent

unfoldable pub validate_error : Error → Checked
validate_error e = check (not (is_empty e.symptom))

unfoldable pub validate_log : Log → Checked
validate_log l = check (not (is_empty l.message))

unfoldable pub validate_file : File → Checked
validate_file f = do check (not (is_empty f.display_name)); check (not (is_empty f.uri))

unfoldable pub validate_test_run_start : TestRunStart → Checked
validate_test_run_start s = do
  check (not (is_empty s.name))
  check (not (is_empty s.version))
  check (not (is_empty s.command_line))

unfoldable pub validate_extension : Extension → Checked
validate_extension e = do check (not (is_empty e.name)); check (not (is_empty e.content_json))

module _ ⦃P : Platform⦄ where
  -- `std::holds_alternative`
  abbrev holds_string : Variant → Bool
  holds_string v = index v == 0

  abbrev holds_double : Variant → Bool
  holds_double v = index v == 1

  -- the loop over the values of a validator
  unfoldable pub check_same_type : ℕ → List Variant → Checked
  check_same_type type_index [] = ok tt
  check_same_type type_index (v ∷ vs) = do
    check (index v == type_index)
    check_same_type type_index vs

  -- the `switch` on the type, with the first value and the number of values
  unfoldable pub check_for_type : ValidatorType → Variant → ℕ → Checked
  check_for_type ValidatorType.equal v n = check (n == 1)
  check_for_type ValidatorType.not_equal v n = check (n == 1)
  check_for_type ValidatorType.less_than v n = do check (n == 1); check (holds_double v)
  check_for_type ValidatorType.less_than_or_equal v n = do check (n == 1); check (holds_double v)
  check_for_type ValidatorType.greater_than v n = do check (n == 1); check (holds_double v)
  check_for_type ValidatorType.greater_than_or_equal v n = do check (n == 1); check (holds_double v)
  check_for_type ValidatorType.regex_match v n = check (holds_string v)
  check_for_type ValidatorType.regex_no_match v n = check (holds_string v)
  check_for_type ValidatorType.in_set v n = check (holds_string v || holds_double v)
  check_for_type ValidatorType.not_in_set v n = check (holds_string v || holds_double v)
  check_for_type ValidatorType.unspecified v n = crash fatal_log

  abbrev is_nil {ℓ} : {A : Type ℓ} → List A → Bool
  is_nil [] = true
  is_nil (x ∷ xs) = false

  unfoldable pub validate_validator : Validator → Checked
  unfolding check_same_type check_for_type
  validate_validator v = do
    check (not (is_nil v.value))
    head ← first v.value
    check_same_type (index head) v.value
    check_for_type v.type head (length v.value)

  -- The loop over the validators. The source also lets a `type_index` of -1 pass, which is that of
  -- no variant in the model.
  unfoldable pub check_validators : ℕ → List Validator → Checked
  unfolding validate_validator
  check_validators type_index [] = ok tt
  check_validators type_index (v ∷ vs) = do
    validate_validator v
    head ← first v.value
    check (type_index == index head)
    check_validators type_index vs

  -- The rest of the checks of a measurement series where there are validators.
  abbrev check_series_validators : List Validator → Checked
  check_series_validators [] = ok tt
  check_series_validators (v ∷ vs) = do head ← first v.value; check_validators (index head) (v ∷ vs)

  unfoldable pub validate_series_start : MeasurementSeriesStart → Checked
  unfolding validate_optional check_validators
  validate_series_start s = do
    check (not (is_empty s.name))
    validate_optional s.subcomponent
    check_series_validators s.validators

  unfoldable pub validate_measurement : Measurement → Checked
  unfolding validate_optional check_validators
  validate_measurement m = do
    check (not (is_empty m.name))
    validate_optional m.subcomponent
    check_validators (index m.value) m.validators
