-- ===== src/Model/Output.antt =====
-- ocpdiag/core/results/data_model/output_model.h. Types that are aliases there (`LogOutput`,
-- `ValidatorOutput` and such) are the input types here. Model/Equality has the comparison operators.
use ocp_diag_core_cpp.Base.{ℕ, String, List, Option}
use ocp_diag_core_cpp.Platform.{Platform}
use ocp_diag_core_cpp.Model.Input.{
  DiagnosisType, HardwareInfo, SoftwareInfo, PlatformInfo, Subcomponent, Log, File, TestRunStart,
  Extension, Variant, Validator,
}

pub data TestResult : Type 0 where
  not_applicable pass fail : TestResult

pub data TestStatus : Type 0 where
  unknown complete error skip : TestStatus

pub record MeasurementSeriesEndOutput : Type 0 where
  pub measurement_series_id : String
  pub total_count : ℕ

pub record TestStepStartOutput : Type 0 where
  pub name : String

pub record TestStepEndOutput : Type 0 where
  pub status : TestStatus

pub record DiagnosisOutput : Type 0 where
  pub verdict : String
  pub type : DiagnosisType
  pub message : String
  pub hardware_info_id : String
  pub subcomponent : Option Subcomponent

pub record ErrorOutput : Type 0 where
  pub symptom : String
  pub message : String
  pub software_info_ids : List String

-- The base class is a field.
pub record HardwareInfoOutput : Type 0 where
  pub info : HardwareInfo
  pub hardware_info_id : String

pub record SoftwareInfoOutput : Type 0 where
  pub info : SoftwareInfo
  pub software_info_id : String

pub record DutInfoOutput : Type 0 where
  pub dut_info_id : String
  pub name : String
  pub metadata_json : String
  pub platform_infos : List PlatformInfo
  pub hardware_infos : List HardwareInfoOutput
  pub software_infos : List SoftwareInfoOutput

pub record TestRunStartOutput : Type 0 where
  pub start : TestRunStart
  pub dut_info : DutInfoOutput

pub record TestRunEndOutput : Type 0 where
  pub status : TestStatus
  pub result : TestResult

pub record SchemaVersionOutput : Type 0 where
  pub major : ℕ
  pub minor : ℕ

pub data TestRunVariant : Type 0 where
  test_run_start : TestRunStartOutput → TestRunVariant
  test_run_end : TestRunEndOutput → TestRunVariant
  log : Log → TestRunVariant
  error : ErrorOutput → TestRunVariant

pub record TestRunArtifact : Type 0 where
  pub artifact : TestRunVariant

module _ ⦃P : Platform⦄ where
  open P use {Timeval}

  pub record MeasurementSeriesStartOutput : Type 0 where
    pub measurement_series_id : String
    pub name : String
    pub unit : String
    pub hardware_info_id : String
    pub subcomponent : Option Subcomponent
    pub validators : List Validator
    pub metadata_json : String

  pub record MeasurementSeriesElementOutput : Type 0 where
    pub index : ℕ
    pub measurement_series_id : String
    pub value : Variant
    pub timestamp : Timeval
    pub metadata_json : String

  pub record MeasurementOutput : Type 0 where
    pub name : String
    pub unit : String
    pub hardware_info_id : String
    pub subcomponent : Option Subcomponent
    pub validators : List Validator
    pub value : Variant
    pub metadata_json : String

  pub data TestStepVariant : Type 0 where
    test_step_start : TestStepStartOutput → TestStepVariant
    test_step_end : TestStepEndOutput → TestStepVariant
    measurement : MeasurementOutput → TestStepVariant
    measurement_series_start : MeasurementSeriesStartOutput → TestStepVariant
    measurement_series_end : MeasurementSeriesEndOutput → TestStepVariant
    measurement_series_element : MeasurementSeriesElementOutput → TestStepVariant
    diagnosis : DiagnosisOutput → TestStepVariant
    error : ErrorOutput → TestStepVariant
    file : File → TestStepVariant
    log : Log → TestStepVariant
    extension : Extension → TestStepVariant

  pub record TestStepArtifact : Type 0 where
    pub artifact : TestStepVariant
    pub test_step_id : String

  pub data OutputVariant : Type 0 where
    schema_version : SchemaVersionOutput → OutputVariant
    test_run_artifact : TestRunArtifact → OutputVariant
    test_step_artifact : TestStepArtifact → OutputVariant

  pub record OutputArtifact : Type 0 where
    pub artifact : OutputVariant
    pub sequence_number : ℕ
    pub timestamp : Timeval

  -- The structured view of a whole test.
  pub record MeasurementSeriesModel : Type 0 where
    pub start : MeasurementSeriesStartOutput
    pub end : MeasurementSeriesEndOutput
    pub elements : List MeasurementSeriesElementOutput

  pub record TestStepModel : Type 0 where
    pub test_step_id : String
    pub start : TestStepStartOutput
    pub end : TestStepEndOutput
    pub logs : List Log
    pub errors : List ErrorOutput
    pub files : List File
    pub extensions : List Extension
    pub measurement_series : List MeasurementSeriesModel
    pub measurements : List MeasurementOutput
    pub diagnoses : List DiagnosisOutput

  pub record TestRunModel : Type 0 where
    pub start : TestRunStartOutput
    pub end : TestRunEndOutput
    pub pre_start_logs : List Log
    pub pre_start_errors : List ErrorOutput

  pub record OutputModel : Type 0 where
    pub schema_version : SchemaVersionOutput
    pub test_run : TestRunModel
    pub test_steps : List TestStepModel
