-- ===== src/Model/Equality/Decided/Structs.antt =====
-- Two artifacts of a test run compare equal exactly if they are equal.
use ocp_diag_core_cpp.Base.{true, ◌≡◌, refl, ap, ◌↔◌}
use ocp_diag_core_cpp.Model.Input.{Log}
use ocp_diag_core_cpp.Model.Output.{
  ErrorOutput, TestRunStartOutput, TestRunEndOutput, TestRunVariant, TestRunArtifact,
}
use ocp_diag_core_cpp.Model.Equality.{
  ◌&◌, same_subcomponent, same_platform_info, same_log, same_file, same_extension, same_series_end,
  same_step_start, same_step_end, same_diagnosis, same_error, same_hardware_info,
  same_software_info, same_dut_info, same_run_start, same_run_end, same_schema_version,
  same_run_variant, same_run_artifact,
}
use ocp_diag_core_cpp.Model.Equality.Decided.{
  Decides, str_eq-Decides, then_same-Decides, by_part-Decides, same_nat-Decides, same_bool-Decides,
  same_option-Decides, same_list-Decides, diagnosis_type-Decides, severity-Decides,
  software_type-Decides, subcomponent_type-Decides, status-Decides, result-Decides,
}

same_platform_info-Decides : Decides same_platform_info
unfolding same_platform_info
same_platform_info-Decides =
    by_part-Decides (λ a. a.info) (λ t. record { info = t }) (λ a. refl) str_eq-Decides

same_log-Decides : Decides same_log
unfolding same_log
same_log-Decides =
    by_part-Decides (λ a. a.severity & a.message)
      (λ t. record { severity = t.head; message = t.rest }) (λ a. refl)
      (then_same-Decides _ _ severity-Decides str_eq-Decides)

same_error-Decides : Decides same_error
unfolding same_error
same_error-Decides =
    by_part-Decides (λ a. a.symptom & a.message & a.software_info_ids)
      (λ t. record { symptom = t.head; message = t.rest.head; software_info_ids = t.rest.rest })
      (λ a. refl)
      (then_same-Decides _ _ str_eq-Decides
        (then_same-Decides _ _ str_eq-Decides (same_list-Decides _ str_eq-Decides)))

same_hardware_info-Decides : Decides same_hardware_info
unfolding same_hardware_info
same_hardware_info-Decides =
    by_part-Decides
      (λ a.
        a.hardware_info_id & a.info.name & a.info.computer_system & a.info.location
        & a.info.odata_id & a.info.part_number & a.info.serial_number & a.info.manager
        & a.info.manufacturer & a.info.manufacturer_part_number & a.info.part_type & a.info.version
        & a.info.revision)
      (λ t. record {
        info = record {
          name = t.rest.head;
          computer_system = t.rest.rest.head;
          location = t.rest.rest.rest.head;
          odata_id = t.rest.rest.rest.rest.head;
          part_number = t.rest.rest.rest.rest.rest.head;
          serial_number = t.rest.rest.rest.rest.rest.rest.head;
          manager = t.rest.rest.rest.rest.rest.rest.rest.head;
          manufacturer = t.rest.rest.rest.rest.rest.rest.rest.rest.head;
          manufacturer_part_number = t.rest.rest.rest.rest.rest.rest.rest.rest.rest.head;
          part_type = t.rest.rest.rest.rest.rest.rest.rest.rest.rest.rest.head;
          version = t.rest.rest.rest.rest.rest.rest.rest.rest.rest.rest.rest.head;
          revision = t.rest.rest.rest.rest.rest.rest.rest.rest.rest.rest.rest.rest;
        };
        hardware_info_id = t.head;
      })
      (λ a. refl)
      (then_same-Decides _ _ str_eq-Decides (
        then_same-Decides _ _ str_eq-Decides (
          then_same-Decides _ _ str_eq-Decides (
            then_same-Decides _ _ str_eq-Decides (
              then_same-Decides _ _ str_eq-Decides (
                then_same-Decides _ _ str_eq-Decides (
                  then_same-Decides _ _ str_eq-Decides (
                    then_same-Decides _ _ str_eq-Decides (
                      then_same-Decides _ _ str_eq-Decides (
                        then_same-Decides _ _ str_eq-Decides (
                          then_same-Decides _ _ str_eq-Decides
                            (then_same-Decides _ _ str_eq-Decides str_eq-Decides))))))))))))

same_software_info-Decides : Decides same_software_info
unfolding same_software_info
same_software_info-Decides =
    by_part-Decides
      (λ a.
        a.software_info_id & a.info.name & a.info.computer_system & a.info.version & a.info.revision
        & a.info.software_type)
      (λ t. record {
        info = record {
          name = t.rest.head;
          computer_system = t.rest.rest.head;
          version = t.rest.rest.rest.head;
          revision = t.rest.rest.rest.rest.head;
          software_type = t.rest.rest.rest.rest.rest;
        };
        software_info_id = t.head;
      })
      (λ a. refl)
      (then_same-Decides _ _ str_eq-Decides (
        then_same-Decides _ _ str_eq-Decides (
          then_same-Decides _ _ str_eq-Decides (
            then_same-Decides _ _ str_eq-Decides
              (then_same-Decides _ _ str_eq-Decides software_type-Decides)))))

same_dut_info-Decides : Decides same_dut_info
unfolding same_dut_info
same_dut_info-Decides =
    by_part-Decides
      (λ a.
        a.dut_info_id & a.name & a.metadata_json & a.platform_infos & a.hardware_infos
        & a.software_infos)
      (λ t. record {
        dut_info_id = t.head;
        name = t.rest.head;
        metadata_json = t.rest.rest.head;
        platform_infos = t.rest.rest.rest.head;
        hardware_infos = t.rest.rest.rest.rest.head;
        software_infos = t.rest.rest.rest.rest.rest;
      })
      (λ a. refl)
      (then_same-Decides _ _ str_eq-Decides (
        then_same-Decides _ _ str_eq-Decides (
          then_same-Decides _ _ str_eq-Decides (
            then_same-Decides _ _ (same_list-Decides _ same_platform_info-Decides) (
              then_same-Decides _ _ (same_list-Decides _ same_hardware_info-Decides)
                (same_list-Decides _ same_software_info-Decides))))))

same_run_start-Decides : Decides same_run_start
unfolding same_run_start
same_run_start-Decides =
    by_part-Decides
      (λ a.
        a.start.name & a.start.version & a.start.command_line & a.start.parameters_json & a.dut_info
        & a.start.metadata_json)
      (λ t. record {
        start = record {
          name = t.head;
          version = t.rest.head;
          command_line = t.rest.rest.head;
          parameters_json = t.rest.rest.rest.head;
          metadata_json = t.rest.rest.rest.rest.rest;
        };
        dut_info = t.rest.rest.rest.rest.head;
      })
      (λ a. refl)
      (then_same-Decides _ _ str_eq-Decides (
        then_same-Decides _ _ str_eq-Decides (
          then_same-Decides _ _ str_eq-Decides (
            then_same-Decides _ _ str_eq-Decides
              (then_same-Decides _ _ same_dut_info-Decides str_eq-Decides)))))

same_run_end-Decides : Decides same_run_end
unfolding same_run_end
same_run_end-Decides =
    by_part-Decides (λ a. a.status & a.result) (λ t. record { status = t.head; result = t.rest })
      (λ a. refl) (then_same-Decides _ _ status-Decides result-Decides)

same_subcomponent-Decides : Decides same_subcomponent
unfolding same_subcomponent
same_subcomponent-Decides =
    by_part-Decides (λ a. a.name & a.type & a.location & a.version & a.revision)
      (λ t. record {
        name = t.head;
        type = t.rest.head;
        location = t.rest.rest.head;
        version = t.rest.rest.rest.head;
        revision = t.rest.rest.rest.rest;
      })
      (λ a. refl)
      (then_same-Decides _ _ str_eq-Decides (
        then_same-Decides _ _ subcomponent_type-Decides (
          then_same-Decides _ _ str_eq-Decides
            (then_same-Decides _ _ str_eq-Decides str_eq-Decides))))

same_diagnosis-Decides : Decides same_diagnosis
unfolding same_diagnosis
same_diagnosis-Decides =
    by_part-Decides (λ a. a.verdict & a.type & a.message & a.hardware_info_id & a.subcomponent)
      (λ t. record {
        verdict = t.head;
        type = t.rest.head;
        message = t.rest.rest.head;
        hardware_info_id = t.rest.rest.rest.head;
        subcomponent = t.rest.rest.rest.rest;
      })
      (λ a. refl)
      (then_same-Decides _ _ str_eq-Decides (
        then_same-Decides _ _ diagnosis_type-Decides (
          then_same-Decides _ _ str_eq-Decides (
            then_same-Decides _ _ str_eq-Decides
              (same_option-Decides _ same_subcomponent-Decides)))))

same_file-Decides : Decides same_file
unfolding same_file
same_file-Decides =
    by_part-Decides (λ a. a.display_name & a.uri & a.is_snapshot & a.description & a.content_type)
      (λ t. record {
        display_name = t.head;
        uri = t.rest.head;
        is_snapshot = t.rest.rest.head;
        description = t.rest.rest.rest.head;
        content_type = t.rest.rest.rest.rest;
      })
      (λ a. refl)
      (then_same-Decides _ _ str_eq-Decides (
        then_same-Decides _ _ str_eq-Decides (
          then_same-Decides _ _ same_bool-Decides
            (then_same-Decides _ _ str_eq-Decides str_eq-Decides))))

same_extension-Decides : Decides same_extension
unfolding same_extension
same_extension-Decides =
    by_part-Decides (λ a. a.name & a.content_json)
      (λ t. record { name = t.head; content_json = t.rest }) (λ a. refl)
      (then_same-Decides _ _ str_eq-Decides str_eq-Decides)

same_series_end-Decides : Decides same_series_end
unfolding same_series_end
same_series_end-Decides =
    by_part-Decides (λ a. a.measurement_series_id & a.total_count)
      (λ t. record { measurement_series_id = t.head; total_count = t.rest }) (λ a. refl)
      (then_same-Decides _ _ str_eq-Decides same_nat-Decides)

same_step_start-Decides : Decides same_step_start
unfolding same_step_start
same_step_start-Decides =
    by_part-Decides (λ a. a.name) (λ t. record { name = t }) (λ a. refl) str_eq-Decides

same_step_end-Decides : Decides same_step_end
unfolding same_step_end
same_step_end-Decides =
    by_part-Decides (λ a. a.status) (λ t. record { status = t }) (λ a. refl) status-Decides

same_schema_version-Decides : Decides same_schema_version
unfolding same_schema_version
same_schema_version-Decides =
    by_part-Decides (λ a. a.major & a.minor) (λ t. record { major = t.head; minor = t.rest })
      (λ a. refl) (then_same-Decides _ _ same_nat-Decides same_nat-Decides)

-- the value of an alternative, or another value

abbrev test_run_start_or : TestRunStartOutput → TestRunVariant → TestRunStartOutput
test_run_start_or b (TestRunVariant.test_run_start a) = a
test_run_start_or b (TestRunVariant.test_run_end a) = b
test_run_start_or b (TestRunVariant.log a) = b
test_run_start_or b (TestRunVariant.error a) = b

abbrev test_run_end_or : TestRunEndOutput → TestRunVariant → TestRunEndOutput
test_run_end_or b (TestRunVariant.test_run_start a) = b
test_run_end_or b (TestRunVariant.test_run_end a) = a
test_run_end_or b (TestRunVariant.log a) = b
test_run_end_or b (TestRunVariant.error a) = b

abbrev log_or : Log → TestRunVariant → Log
log_or b (TestRunVariant.test_run_start a) = b
log_or b (TestRunVariant.test_run_end a) = b
log_or b (TestRunVariant.log a) = a
log_or b (TestRunVariant.error a) = b

abbrev error_or : ErrorOutput → TestRunVariant → ErrorOutput
error_or b (TestRunVariant.test_run_start a) = b
error_or b (TestRunVariant.test_run_end a) = b
error_or b (TestRunVariant.log a) = b
error_or b (TestRunVariant.error a) = a

same_run_variant-Decides : Decides same_run_variant
unfolding same_run_variant
same_run_variant-Decides (TestRunVariant.test_run_start a) (TestRunVariant.test_run_start b) = (
  (λ h. ap TestRunVariant.test_run_start ((same_run_start-Decides a b).0 h)),
  (λ e. (same_run_start-Decides a b).1 (ap (test_run_start_or a) e)),
)
same_run_variant-Decides (TestRunVariant.test_run_start a) (TestRunVariant.test_run_end b) =
    (λ h. cc, λ h. cc)
same_run_variant-Decides (TestRunVariant.test_run_start a) (TestRunVariant.log b) =
    (λ h. cc, λ h. cc)
same_run_variant-Decides (TestRunVariant.test_run_start a) (TestRunVariant.error b) =
    (λ h. cc, λ h. cc)
same_run_variant-Decides (TestRunVariant.test_run_end a) (TestRunVariant.test_run_start b) =
    (λ h. cc, λ h. cc)
same_run_variant-Decides (TestRunVariant.test_run_end a) (TestRunVariant.test_run_end b) = (
  (λ h. ap TestRunVariant.test_run_end ((same_run_end-Decides a b).0 h)),
  (λ e. (same_run_end-Decides a b).1 (ap (test_run_end_or a) e)),
)
same_run_variant-Decides (TestRunVariant.test_run_end a) (TestRunVariant.log b) = (λ h. cc, λ h. cc)
same_run_variant-Decides (TestRunVariant.test_run_end a) (TestRunVariant.error b) =
    (λ h. cc, λ h. cc)
same_run_variant-Decides (TestRunVariant.log a) (TestRunVariant.test_run_start b) =
    (λ h. cc, λ h. cc)
same_run_variant-Decides (TestRunVariant.log a) (TestRunVariant.test_run_end b) = (λ h. cc, λ h. cc)
same_run_variant-Decides (TestRunVariant.log a) (TestRunVariant.log b) = (
  (λ h. ap TestRunVariant.log ((same_log-Decides a b).0 h)),
  (λ e. (same_log-Decides a b).1 (ap (log_or a) e)),
)
same_run_variant-Decides (TestRunVariant.log a) (TestRunVariant.error b) = (λ h. cc, λ h. cc)
same_run_variant-Decides (TestRunVariant.error a) (TestRunVariant.test_run_start b) =
    (λ h. cc, λ h. cc)
same_run_variant-Decides (TestRunVariant.error a) (TestRunVariant.test_run_end b) =
    (λ h. cc, λ h. cc)
same_run_variant-Decides (TestRunVariant.error a) (TestRunVariant.log b) = (λ h. cc, λ h. cc)
same_run_variant-Decides (TestRunVariant.error a) (TestRunVariant.error b) = (
  (λ h. ap TestRunVariant.error ((same_error-Decides a b).0 h)),
  (λ e. (same_error-Decides a b).1 (ap (error_or a) e)),
)

same_run_artifact-Decides : Decides same_run_artifact
unfolding same_run_artifact
same_run_artifact-Decides =
    by_part-Decides (λ a. a.artifact) (λ t. record { artifact = t }) (λ a. refl)
      same_run_variant-Decides

-- Two artifacts of a test run compare equal exactly if they are equal: the operators `==` of its
-- start and end, of logs, errors and the information on the device pass over no field.
pub same_run_artifact_iff : (a b : TestRunArtifact) → (same_run_artifact a b ≡ true) ↔ (a ≡ b)
same_run_artifact_iff = same_run_artifact-Decides
