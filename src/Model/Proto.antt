-- ===== src/Model/Proto.antt =====
-- The messages of ocpdiag/core/results/data_model/results.proto, as the generated classes hold
-- them: a message field is absent or present, a oneof has its case, every other field has a value.
use ocp_diag_core_cpp.Base.{ℕ, String, Bool, List, Option}
use ocp_diag_core_cpp.Platform.{Platform}

pub data SoftwareType : Type 0 where
  unspecified firmware system application : SoftwareType

pub data TestStatus : Type 0 where
  unknown complete error skip : TestStatus

pub data TestResult : Type 0 where
  not_applicable pass fail : TestResult

pub data SubcomponentType : Type 0 where
  unspecified asic asic_subsystem bus function connector : SubcomponentType

pub data ValidatorType : Type 0 where
  unspecified equal not_equal less_than less_than_or_equal greater_than greater_than_or_equal
        regex_match regex_no_match in_set not_in_set :
      ValidatorType

pub data DiagnosisType : Type 0 where
  unknown pass fail : DiagnosisType

pub data Severity : Type 0 where
  info warning error fatal debug : Severity

pub record SchemaVersion : Type 0 where
  pub major : ℕ
  pub minor : ℕ

pub record PlatformInfo : Type 0 where
  pub info : String

pub record HardwareInfo : Type 0 where
  pub hardware_info_id : String
  pub computer_system : String
  pub name : String
  pub location : String
  pub odata_id : String
  pub part_number : String
  pub serial_number : String
  pub manager : String
  pub manufacturer : String
  pub manufacturer_part_number : String
  pub part_type : String
  pub version : String
  pub revision : String

pub record SoftwareInfo : Type 0 where
  pub software_info_id : String
  pub computer_system : String
  pub name : String
  pub version : String
  pub revision : String
  pub software_type : SoftwareType

pub record TestRunEnd : Type 0 where
  pub status : TestStatus
  pub result : TestResult

pub record TestStepStart : Type 0 where
  pub name : String

pub record TestStepEnd : Type 0 where
  pub status : TestStatus

pub record Subcomponent : Type 0 where
  pub type : SubcomponentType
  pub name : String
  pub location : String
  pub version : String
  pub revision : String

pub record MeasurementSeriesEnd : Type 0 where
  pub measurement_series_id : String
  pub total_count : ℕ

pub record Diagnosis : Type 0 where
  pub verdict : String
  pub type : DiagnosisType
  pub message : String
  pub hardware_info_id : String
  pub subcomponent : Option Subcomponent

pub record Error : Type 0 where
  pub symptom : String
  pub message : String
  pub software_info_ids : List String

pub record Log : Type 0 where
  pub severity : Severity
  pub message : String

-- The metadata of a file and of a validator, which no code sets or reads, is left out.
pub record File : Type 0 where
  pub display_name : String
  pub uri : String
  pub description : String
  pub content_type : String
  pub is_snapshot : Bool

module _ ⦃P : Platform⦄ where
  open P use {Value, Struct, Timestamp}

  pub record DutInfo : Type 0 where
    pub dut_info_id : String
    pub name : String
    pub metadata : Option Struct
    pub platform_infos : List PlatformInfo
    pub hardware_infos : List HardwareInfo
    pub software_infos : List SoftwareInfo

  pub record TestRunStart : Type 0 where
    pub name : String
    pub version : String
    pub command_line : String
    pub parameters : Option Struct
    pub dut_info : Option DutInfo
    pub metadata : Option Struct

  pub record Validator : Type 0 where
    pub name : String
    pub type : ValidatorType
    pub value : Option Value

  pub record Measurement : Type 0 where
    pub name : String
    pub unit : String
    pub hardware_info_id : String
    pub subcomponent : Option Subcomponent
    pub validators : List Validator
    pub value : Option Value
    pub metadata : Option Struct

  pub record MeasurementSeriesStart : Type 0 where
    pub measurement_series_id : String
    pub name : String
    pub unit : String
    pub hardware_info_id : String
    pub subcomponent : Option Subcomponent
    pub validators : List Validator
    pub metadata : Option Struct

  pub record MeasurementSeriesElement : Type 0 where
    pub index : ℕ
    pub measurement_series_id : String
    pub value : Option Value
    pub timestamp : Option Timestamp
    pub metadata : Option Struct

  pub record Extension : Type 0 where
    pub name : String
    pub content : Option Struct

  pub data TestRunArtifact : Type 0 where
    test_run_start : TestRunStart → TestRunArtifact
    test_run_end : TestRunEnd → TestRunArtifact
    log : Log → TestRunArtifact
    error : Error → TestRunArtifact
    not_set : TestRunArtifact

  -- the oneof of a TestStepArtifact
  pub data TestStepCase : Type 0 where
    test_step_start : TestStepStart → TestStepCase
    test_step_end : TestStepEnd → TestStepCase
    measurement : Measurement → TestStepCase
    measurement_series_start : MeasurementSeriesStart → TestStepCase
    measurement_series_end : MeasurementSeriesEnd → TestStepCase
    measurement_series_element : MeasurementSeriesElement → TestStepCase
    diagnosis : Diagnosis → TestStepCase
    error : Error → TestStepCase
    file : File → TestStepCase
    log : Log → TestStepCase
    extension : Extension → TestStepCase
    not_set : TestStepCase

  pub record TestStepArtifact : Type 0 where
    pub artifact : TestStepCase
    pub test_step_id : String

  -- the oneof of an OutputArtifact
  pub data OutputCase : Type 0 where
    schema_version : SchemaVersion → OutputCase
    test_run_artifact : TestRunArtifact → OutputCase
    test_step_artifact : TestStepArtifact → OutputCase
    not_set : OutputCase

  pub record OutputArtifact : Type 0 where
    pub artifact : OutputCase
    pub sequence_number : ℕ
    pub timestamp : Option Timestamp
