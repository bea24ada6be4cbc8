-- ===== src/Model/Equality.antt =====
-- ocpdiag/core/results/data_model/input_model.h and output_model.h: the operators `==` of the
-- structs without floating-point values. A tuple of `std::tie` is a Tie, whose last part is a field.
pub mod Decided
use text.Mathlib.Text.{◌==◌ as str_eq}
use ocp_diag_core_cpp.Base.{
  ℕ, ◌==◌, String, Bool, true, false, ◌&&◌, Option, none, some, List, [], ◌∷◌,
}
use ocp_diag_core_cpp.Model.Input.{
  DiagnosisType, LogSeverity, SoftwareType, SubcomponentType, HardwareInfo, SoftwareInfo,
  PlatformInfo, Subcomponent, Log, File, Extension, TestRunStart,
}
use ocp_diag_core_cpp.Model.Output.{
  TestResult, TestStatus, MeasurementSeriesEndOutput, TestStepStartOutput, TestStepEndOutput,
  DiagnosisOutput, ErrorOutput, HardwareInfoOutput, SoftwareInfoOutput, DutInfoOutput,
  TestRunStartOutput, TestRunEndOutput, SchemaVersionOutput, TestRunVariant, TestRunArtifact,
}

pub record Tie (A B : Type 0) : Type 0 where
  pub head : A
  pub rest : B

infixr 4 ◌&◌
abbrev pub ◌&◌ : {A B : Type 0} → A → B → Tie A B
a & b = record { head = a; rest = b }

-- a comparison
abbrev pub Same : Type 0 → Type 0
Same A = A → A → Bool

infixr 4 ◌then_same◌
abbrev pub ◌then_same◌ : {A B : Type 0} → Same A → Same B → Same (Tie A B)
(s then_same t) a b = s a.head b.head && t a.rest b.rest

-- `std::optional` and `std::vector`
abbrev pub same_option : {A : Type 0} → Same A → Same (Option A)
same_option s none none = true
same_option s none (some b) = false
same_option s (some a) none = false
same_option s (some a) (some b) = s a b

abbrev pub same_list : {A : Type 0} → Same A → Same (List A)
same_list s [] [] = true
same_list s [] (b ∷ ys) = false
same_list s (a ∷ xs) [] = false
same_list s (a ∷ xs) (b ∷ ys) = let rest = same_list s xs ys in s a b && rest

abbrev pub same_nat : Same ℕ
same_nat a b = a == b

abbrev pub same_bool : Same Bool
same_bool true b = b
same_bool false true = false
same_bool false false = true

abbrev pub same_texts : Same (List String)
same_texts = same_list str_eq

abbrev pub diagnosis_type_number : DiagnosisType → ℕ
diagnosis_type_number DiagnosisType.unknown = 0
diagnosis_type_number DiagnosisType.pass = 1
diagnosis_type_number DiagnosisType.fail = 2

abbrev pub severity_number : LogSeverity → ℕ
severity_number LogSeverity.info = 0
severity_number LogSeverity.warning = 1
severity_number LogSeverity.error = 2
severity_number LogSeverity.fatal = 3
severity_number LogSeverity.debug = 4

abbrev pub software_type_number : SoftwareType → ℕ
software_type_number SoftwareType.unspecified = 0
software_type_number SoftwareType.firmware = 1
software_type_number SoftwareType.system = 2
software_type_number SoftwareType.application = 3

abbrev pub subcomponent_type_number : SubcomponentType → ℕ
subcomponent_type_number SubcomponentType.unspecified = 0
subcomponent_type_number SubcomponentType.asic = 1
subcomponent_type_number SubcomponentType.asic_subsystem = 2
subcomponent_type_number SubcomponentType.bus = 3
subcomponent_type_number SubcomponentType.function = 4
subcomponent_type_number SubcomponentType.connector = 5

abbrev pub status_number : TestStatus → ℕ
status_number TestStatus.unknown = 0
status_number TestStatus.complete = 1
status_number TestStatus.error = 2
status_number TestStatus.skip = 3

abbrev pub result_number : TestResult → ℕ
result_number TestResult.not_applicable = 0
result_number TestResult.pass = 1
result_number TestResult.fail = 2

abbrev pub by_number : {A : Type 0} → (A → ℕ) → Same A
by_number number a b = number a == number b

unfoldable pub same_subcomponent : Same Subcomponent
same_subcomponent a b =
    (str_eq
        then_same by_number subcomponent_type_number
        then_same str_eq
        then_same str_eq
        then_same str_eq)
      (a.name & a.type & a.location & a.version & a.revision)
      (b.name & b.type & b.location & b.version & b.revision)

unfoldable pub same_platform_info : Same PlatformInfo
same_platform_info a b = str_eq a.info b.info

unfoldable pub same_log : Same Log
same_log a b =
    (by_number severity_number then_same str_eq) (a.severity & a.message) (b.severity & b.message)

unfoldable pub same_file : Same File
same_file a b =
    (str_eq then_same str_eq then_same same_bool then_same str_eq then_same str_eq)
      (a.display_name & a.uri & a.is_snapshot & a.description & a.content_type)
      (b.display_name & b.uri & b.is_snapshot & b.description & b.content_type)

unfoldable pub same_extension : Same Extension
same_extension a b = (str_eq then_same str_eq) (a.name & a.content_json) (b.name & b.content_json)

unfoldable pub same_series_end : Same MeasurementSeriesEndOutput
same_series_end a b =
    (str_eq then_same same_nat) (a.measurement_series_id & a.total_count)
      (b.measurement_series_id & b.total_count)

unfoldable pub same_step_start : Same TestStepStartOutput
same_step_start a b = str_eq a.name b.name

unfoldable pub same_step_end : Same TestStepEndOutput
same_step_end a b = by_number status_number a.status b.status

unfoldable pub same_diagnosis : Same DiagnosisOutput
unfolding same_subcomponent
same_diagnosis a b =
    (str_eq
        then_same by_number diagnosis_type_number
        then_same str_eq
        then_same str_eq
        then_same same_option same_subcomponent)
      (a.verdict & a.type & a.message & a.hardware_info_id & a.subcomponent)
      (b.verdict & b.type & b.message & b.hardware_info_id & b.subcomponent)

unfoldable pub same_error : Same ErrorOutput
same_error a b =
    (str_eq then_same str_eq then_same same_texts) (a.symptom & a.message & a.software_info_ids)
      (b.symptom & b.message & b.software_info_ids)

unfoldable pub same_hardware_info : Same HardwareInfoOutput
same_hardware_info a b =
    (str_eq then_same str_eq then_same str_eq then_same str_eq then_same str_eq then_same str_eq
        then_same str_eq then_same str_eq then_same str_eq then_same str_eq then_same str_eq
        then_same str_eq then_same str_eq)
      (a.hardware_info_id & a.info.name & a.info.computer_system & a.info.location & a.info.odata_id
        & a.info.part_number & a.info.serial_number & a.info.manager & a.info.manufacturer
        & a.info.manufacturer_part_number & a.info.part_type & a.info.version & a.info.revision)
      (b.hardware_info_id & b.info.name & b.info.computer_system & b.info.location & b.info.odata_id
        & b.info.part_number & b.info.serial_number & b.info.manager & b.info.manufacturer
        & b.info.manufacturer_part_number & b.info.part_type & b.info.version & b.info.revision)

unfoldable pub same_software_info : Same SoftwareInfoOutput
same_software_info a b =
    (str_eq
        then_same str_eq
        then_same str_eq
        then_same str_eq
        then_same str_eq
        then_same by_number software_type_number)
      (a.software_info_id & a.info.name & a.info.computer_system & a.info.version & a.info.revision
        & a.info.software_type)
      (b.software_info_id & b.info.name & b.info.computer_system & b.info.version & b.info.revision
        & b.info.software_type)

unfoldable pub same_dut_info : Same DutInfoOutput
unfolding same_platform_info same_hardware_info same_software_info
same_dut_info a b =
    (str_eq
        then_same str_eq
        then_same str_eq
        then_same same_list same_platform_info
        then_same same_list same_hardware_info
        then_same same_list same_software_info)
      (a.dut_info_id & a.name & a.metadata_json & a.platform_infos & a.hardware_infos
        & a.software_infos)
      (b.dut_info_id & b.name & b.metadata_json & b.platform_infos & b.hardware_infos
        & b.software_infos)

unfoldable pub same_run_start : Same TestRunStartOutput
unfolding same_dut_info
same_run_start a b =
    (str_eq then_same str_eq then_same str_eq then_same str_eq then_same same_dut_info
        then_same str_eq)
      (a.start.name & a.start.version & a.start.command_line & a.start.parameters_json & a.dut_info
        & a.start.metadata_json)
      (b.start.name & b.start.version & b.start.command_line & b.start.parameters_json & b.dut_info
        & b.start.metadata_json)

unfoldable pub same_run_end : Same TestRunEndOutput
same_run_end a b =
    (by_number status_number then_same by_number result_number) (a.status & a.result)
      (b.status & b.result)

unfoldable pub same_schema_version : Same SchemaVersionOutput
same_schema_version a b = (same_nat then_same same_nat) (a.major & a.minor) (b.major & b.minor)

-- `std::variant`: the same alternative with the same value
unfoldable pub same_run_variant : Same TestRunVariant
unfolding same_run_start same_run_end same_log same_error
same_run_variant (TestRunVariant.test_run_start a) (TestRunVariant.test_run_start b) =
    same_run_start a b
same_run_variant (TestRunVariant.test_run_start a) (TestRunVariant.test_run_end b) = false
same_run_variant (TestRunVariant.test_run_start a) (TestRunVariant.log b) = false
same_run_variant (TestRunVariant.test_run_start a) (TestRunVariant.error b) = false
same_run_variant (TestRunVariant.test_run_end a) (TestRunVariant.test_run_start b) = false
same_run_variant (TestRunVariant.test_run_end a) (TestRunVariant.test_run_end b) = same_run_end a b
same_run_variant (TestRunVariant.test_run_end a) (TestRunVariant.log b) = false
same_run_variant (TestRunVariant.test_run_end a) (TestRunVariant.error b) = false
same_run_variant (TestRunVariant.log a) (TestRunVariant.test_run_start b) = false
same_run_variant (TestRunVariant.log a) (TestRunVariant.test_run_end b) = false
same_run_variant (TestRunVariant.log a) (TestRunVariant.log b) = same_log a b
same_run_variant (TestRunVariant.log a) (TestRunVariant.error b) = false
same_run_variant (TestRunVariant.error a) (TestRunVariant.test_run_start b) = false
same_run_variant (TestRunVariant.error a) (TestRunVariant.test_run_end b) = false
same_run_variant (TestRunVariant.error a) (TestRunVariant.log b) = false
same_run_variant (TestRunVariant.error a) (TestRunVariant.error b) = same_error a b

unfoldable pub same_run_artifact : Same TestRunArtifact
unfolding same_run_variant
same_run_artifact a b = same_run_variant a.artifact b.artifact
