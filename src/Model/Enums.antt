-- ===== src/Model/Enums.antt =====
-- The casts between the enums of input_model.h and output_model.h and those of results.proto. A
-- cast keeps the number, and both sides number their enumerators from 0 in the order declared.
use ocp_diag_core_cpp.Base.{◌≡◌, refl}
use ocp_diag_core_cpp.Model.Input.{
  ValidatorType, SoftwareType, SubcomponentType, DiagnosisType, LogSeverity,
}
use ocp_diag_core_cpp.Model.Output.{TestStatus, TestResult}
use ocp_diag_core_cpp.Model.Proto

abbrev pub validator_type_to_proto : ValidatorType → Proto.ValidatorType
validator_type_to_proto ValidatorType.unspecified = Proto.ValidatorType.unspecified
validator_type_to_proto ValidatorType.equal = Proto.ValidatorType.equal
validator_type_to_proto ValidatorType.not_equal = Proto.ValidatorType.not_equal
validator_type_to_proto ValidatorType.less_than = Proto.ValidatorType.less_than
validator_type_to_proto ValidatorType.less_than_or_equal = Proto.ValidatorType.less_than_or_equal
validator_type_to_proto ValidatorType.greater_than = Proto.ValidatorType.greater_than
validator_type_to_proto ValidatorType.greater_than_or_equal =
    Proto.ValidatorType.greater_than_or_equal
validator_type_to_proto ValidatorType.regex_match = Proto.ValidatorType.regex_match
validator_type_to_proto ValidatorType.regex_no_match = Proto.ValidatorType.regex_no_match
validator_type_to_proto ValidatorType.in_set = Proto.ValidatorType.in_set
validator_type_to_proto ValidatorType.not_in_set = Proto.ValidatorType.not_in_set

abbrev pub proto_to_validator_type : Proto.ValidatorType → ValidatorType
proto_to_validator_type Proto.ValidatorType.unspecified = ValidatorType.unspecified
proto_to_validator_type Proto.ValidatorType.equal = ValidatorType.equal
proto_to_validator_type Proto.ValidatorType.not_equal = ValidatorType.not_equal
proto_to_validator_type Proto.ValidatorType.less_than = ValidatorType.less_than
proto_to_validator_type Proto.ValidatorType.less_than_or_equal = ValidatorType.less_than_or_equal
proto_to_validator_type Proto.ValidatorType.greater_than = ValidatorType.greater_than
proto_to_validator_type Proto.ValidatorType.greater_than_or_equal =
    ValidatorType.greater_than_or_equal
proto_to_validator_type Proto.ValidatorType.regex_match = ValidatorType.regex_match
proto_to_validator_type Proto.ValidatorType.regex_no_match = ValidatorType.regex_no_match
proto_to_validator_type Proto.ValidatorType.in_set = ValidatorType.in_set
proto_to_validator_type Proto.ValidatorType.not_in_set = ValidatorType.not_in_set

pub validator_type-cast :
    (t : ValidatorType) → proto_to_validator_type (validator_type_to_proto t) ≡ t
validator_type-cast ValidatorType.unspecified = refl
validator_type-cast ValidatorType.equal = refl
validator_type-cast ValidatorType.not_equal = refl
validator_type-cast ValidatorType.less_than = refl
validator_type-cast ValidatorType.less_than_or_equal = refl
validator_type-cast ValidatorType.greater_than = refl
validator_type-cast ValidatorType.greater_than_or_equal = refl
validator_type-cast ValidatorType.regex_match = refl
validator_type-cast ValidatorType.regex_no_match = refl
validator_type-cast ValidatorType.in_set = refl
validator_type-cast ValidatorType.not_in_set = refl

abbrev pub software_type_to_proto : SoftwareType → Proto.SoftwareType
software_type_to_proto SoftwareType.unspecified = Proto.SoftwareType.unspecified
software_type_to_proto SoftwareType.firmware = Proto.SoftwareType.firmware
software_type_to_proto SoftwareType.system = Proto.SoftwareType.system
software_type_to_proto SoftwareType.application = Proto.SoftwareType.application

abbrev pub proto_to_software_type : Proto.SoftwareType → SoftwareType
proto_to_software_type Proto.SoftwareType.unspecified = SoftwareType.unspecified
proto_to_software_type Proto.SoftwareType.firmware = SoftwareType.firmware
proto_to_software_type Proto.SoftwareType.system = SoftwareType.system
proto_to_software_type Proto.SoftwareType.application = SoftwareType.application

pub software_type-cast : (t : SoftwareType) → proto_to_software_type (software_type_to_proto t) ≡ t
software_type-cast SoftwareType.unspecified = refl
software_type-cast SoftwareType.firmware = refl
software_type-cast SoftwareType.system = refl
software_type-cast SoftwareType.application = refl

abbrev pub subcomponent_type_to_proto : SubcomponentType → Proto.SubcomponentType
subcomponent_type_to_proto SubcomponentType.unspecified = Proto.SubcomponentType.unspecified
subcomponent_type_to_proto SubcomponentType.asic = Proto.SubcomponentType.asic
subcomponent_type_to_proto SubcomponentType.asic_subsystem = Proto.SubcomponentType.asic_subsystem
subcomponent_type_to_proto SubcomponentType.bus = Proto.SubcomponentType.bus
subcomponent_type_to_proto SubcomponentType.function = Proto.SubcomponentType.function
subcomponent_type_to_proto SubcomponentType.connector = Proto.SubcomponentType.connector

abbrev pub proto_to_subcomponent_type : Proto.SubcomponentType → SubcomponentType
proto_to_subcomponent_type Proto.SubcomponentType.unspecified = SubcomponentType.unspecified
proto_to_subcomponent_type Proto.SubcomponentType.asic = SubcomponentType.asic
proto_to_subcomponent_type Proto.SubcomponentType.asic_subsystem = SubcomponentType.asic_subsystem
proto_to_subcomponent_type Proto.SubcomponentType.bus = SubcomponentType.bus
proto_to_subcomponent_type Proto.SubcomponentType.function = SubcomponentType.function
proto_to_subcomponent_type Proto.SubcomponentType.connector = SubcomponentType.connector

pub subcomponent_type-cast :
    (t : SubcomponentType) → proto_to_subcomponent_type (subcomponent_type_to_proto t) ≡ t
subcomponent_type-cast SubcomponentType.unspecified = refl
subcomponent_type-cast SubcomponentType.asic = refl
subcomponent_type-cast SubcomponentType.asic_subsystem = refl
subcomponent_type-cast SubcomponentType.bus = refl
subcomponent_type-cast SubcomponentType.function = refl
subcomponent_type-cast SubcomponentType.connector = refl

abbrev pub diagnosis_type_to_proto : DiagnosisType → Proto.DiagnosisType
diagnosis_type_to_proto DiagnosisType.unknown = Proto.DiagnosisType.unknown
diagnosis_type_to_proto DiagnosisType.pass = Proto.DiagnosisType.pass
diagnosis_type_to_proto DiagnosisType.fail = Proto.DiagnosisType.fail

abbrev pub proto_to_diagnosis_type : Proto.DiagnosisType → DiagnosisType
proto_to_diagnosis_type Proto.DiagnosisType.unknown = DiagnosisType.unknown
proto_to_diagnosis_type Proto.DiagnosisType.pass = DiagnosisType.pass
proto_to_diagnosis_type Proto.DiagnosisType.fail = DiagnosisType.fail

pub diagnosis_type-cast :
    (t : DiagnosisType) → proto_to_diagnosis_type (diagnosis_type_to_proto t) ≡ t
diagnosis_type-cast DiagnosisType.unknown = refl
diagnosis_type-cast DiagnosisType.pass = refl
diagnosis_type-cast DiagnosisType.fail = refl

abbrev pub log_severity_to_proto : LogSeverity → Proto.Severity
log_severity_to_proto LogSeverity.info = Proto.Severity.info
log_severity_to_proto LogSeverity.warning = Proto.Severity.warning
log_severity_to_proto LogSeverity.error = Proto.Severity.error
log_severity_to_proto LogSeverity.fatal = Proto.Severity.fatal
log_severity_to_proto LogSeverity.debug = Proto.Severity.debug

abbrev pub proto_to_log_severity : Proto.Severity → LogSeverity
proto_to_log_severity Proto.Severity.info = LogSeverity.info
proto_to_log_severity Proto.Severity.warning = LogSeverity.warning
proto_to_log_severity Proto.Severity.error = LogSeverity.error
proto_to_log_severity Proto.Severity.fatal = LogSeverity.fatal
proto_to_log_severity Proto.Severity.debug = LogSeverity.debug

pub log_severity-cast : (t : LogSeverity) → proto_to_log_severity (log_severity_to_proto t) ≡ t
log_severity-cast LogSeverity.info = refl
log_severity-cast LogSeverity.warning = refl
log_severity-cast LogSeverity.error = refl
log_severity-cast LogSeverity.fatal = refl
log_severity-cast LogSeverity.debug = refl

abbrev pub test_status_to_proto : TestStatus → Proto.TestStatus
test_status_to_proto TestStatus.unknown = Proto.TestStatus.unknown
test_status_to_proto TestStatus.complete = Proto.TestStatus.complete
test_status_to_proto TestStatus.error = Proto.TestStatus.error
test_status_to_proto TestStatus.skip = Proto.TestStatus.skip

abbrev pub proto_to_test_status : Proto.TestStatus → TestStatus
proto_to_test_status Proto.TestStatus.unknown = TestStatus.unknown
proto_to_test_status Proto.TestStatus.complete = TestStatus.complete
proto_to_test_status Proto.TestStatus.error = TestStatus.error
proto_to_test_status Proto.TestStatus.skip = TestStatus.skip

test_status-cast : (t : TestStatus) → proto_to_test_status (test_status_to_proto t) ≡ t
test_status-cast TestStatus.unknown = refl
test_status-cast TestStatus.complete = refl
test_status-cast TestStatus.error = refl
test_status-cast TestStatus.skip = refl

abbrev pub test_result_to_proto : TestResult → Proto.TestResult
test_result_to_proto TestResult.not_applicable = Proto.TestResult.not_applicable
test_result_to_proto TestResult.pass = Proto.TestResult.pass
test_result_to_proto TestResult.fail = Proto.TestResult.fail

abbrev pub proto_to_test_result : Proto.TestResult → TestResult
proto_to_test_result Proto.TestResult.not_applicable = TestResult.not_applicable
proto_to_test_result Proto.TestResult.pass = TestResult.pass
proto_to_test_result Proto.TestResult.fail = TestResult.fail

test_result-cast : (t : TestResult) → proto_to_test_result (test_result_to_proto t) ≡ t
test_result-cast TestResult.not_applicable = refl
test_result-cast TestResult.pass = refl
test_result-cast TestResult.fail = refl
