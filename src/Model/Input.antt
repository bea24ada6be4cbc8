-- ===== src/Model/Input.antt =====
-- ocpdiag/core/results/data_model/input_model.h and variant.h. A C++ enum holds one of its
-- enumerators; other integers cast to its type are outside the model.
use ocp_diag_core_cpp.Base.{ℕ, String, Bool, List, Option}
use ocp_diag_core_cpp.Platform.{Platform}

abbrev pub major_schema_version : ℕ
major_schema_version = 2

abbrev pub minor_schema_version : ℕ
minor_schema_version = 0

pub data ValidatorType : Type 0 where
  unspecified equal not_equal less_than less_than_or_equal greater_than greater_than_or_equal
        regex_match regex_no_match in_set not_in_set :
      ValidatorType

pub data SoftwareType : Type 0 where
  unspecified firmware system application : SoftwareType

pub data SubcomponentType : Type 0 where
  unspecified asic asic_subsystem bus function connector : SubcomponentType

pub data DiagnosisType : Type 0 where
  unknown pass fail : DiagnosisType

pub data LogSeverity : Type 0 where
  info warning error fatal debug : LogSeverity

pub record HardwareInfo : Type 0 where
  pub name : String
  pub computer_system : String
  pub location : String
  pub odata_id : String
  pub part_number : String
  pub serial_number : String
  pub manager : String
  pub manufacturer : String
  pub manufacturer_part_number : String
  pub part_type : String
  pub version : String
  pub revision : String

pub record RegisteredHardwareInfo : Type 0 where
  pub id : String

pub record SoftwareInfo : Type 0 where
  pub name : String
  pub computer_system : String
  pub version : String
  pub revision : String
  pub software_type : SoftwareType

pub record RegisteredSoftwareInfo : Type 0 where
  pub id : String

pub record PlatformInfo : Type 0 where
  pub info : String

pub record Subcomponent : Type 0 where
  pub name : String
  pub type : SubcomponentType
  pub location : String
  pub version : String
  pub revision : String

pub record Diagnosis : Type 0 where
  pub verdict : String
  pub type : DiagnosisType
  pub message : String
  pub hardware_info : Option RegisteredHardwareInfo
  pub subcomponent : Option Subcomponent

pub record Error : Type 0 where
  pub symptom : String
  pub message : String
  pub software_infos : List RegisteredSoftwareInfo

pub record Log : Type 0 where
  pub severity : LogSeverity
  pub message : String

pub record File : Type 0 where
  pub display_name : String
  pub uri : String
  pub is_snapshot : Bool
  pub description : String
  pub content_type : String

pub record TestRunStart : Type 0 where
  pub name : String
  pub version : String
  pub command_line : String
  pub parameters_json : String
  pub metadata_json : String

pub record Extension : Type 0 where
  pub name : String
  pub content_json : String

module _ ⦃P : Platform⦄ where
  open P use {Double, Timeval}

  -- `std::variant<std::string, double, bool>`
  pub data Variant : Type 0 where
    string : String → Variant
    double : Double → Variant
    bool : Bool → Variant

  -- `std::variant::index`
  abbrev pub index : Variant → ℕ
  index (string s) = 0
  index (double d) = 1
  index (bool b) = 2

  pub record Validator : Type 0 where
    pub type : ValidatorType
    pub value : List Variant
    pub name : String

  pub record MeasurementSeriesStart : Type 0 where
    pub name : String
    pub unit : String
    pub hardware_info : Option RegisteredHardwareInfo
    pub subcomponent : Option Subcomponent
    pub validators : List Validator
    pub metadata_json : String

  pub record MeasurementSeriesElement : Type 0 where
    pub value : Variant
    pub timestamp : Option Timeval
    pub metadata_json : String

  pub record Measurement : Type 0 where
    pub name : String
    pub unit : String
    pub hardware_info : Option RegisteredHardwareInfo
    pub subcomponent : Option Subcomponent
    pub validators : List Validator
    pub value : Variant
    pub metadata_json : String
