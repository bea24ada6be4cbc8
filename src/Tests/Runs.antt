-- ===== src/Tests/Runs.antt =====
-- The theorems on the output side, at one run each.
use ocp_diag_core_cpp.Base.{◌≡◌, refl, [], ◌∷◌, ◌++◌, snoc, arith}
use ocp_diag_core_cpp.Outcome.{ok}
use ocp_diag_core_cpp.Outcome.Action.{◌>>◌, blocks, when}
use ocp_diag_core_cpp.Model.Input.{SoftwareInfo, SoftwareType}
use ocp_diag_core_cpp.Model.Proto
use ocp_diag_core_cpp.Calculator.{initial, finalize, check_finalized}
use ocp_diag_core_cpp.Calculator.Outcomes.{Event, notify_all, outcome, notify_all-outcome}
use ocp_diag_core_cpp.DutInfo.{DutInfo}
use ocp_diag_core_cpp.DutInfo.Registration.{
  Registration, IsRegistered, register_all, register_all-IsRegistered,
}
use ocp_diag_core_cpp.Writer.Sequence.{write_all, write_all-file, stamp, stamped}
use ocp_diag_core_cpp.TestRun.{fresh, finish}
use ocp_diag_core_cpp.TestRun.Lifecycle.{finish-started, end_artifact}
use ocp_diag_core_cpp.Tests.Samples.{sample_platform, sample_sinks, sample_writer, started_run}

-- a run that was skipped after a failure, and started in between
notify_all-outcome_example :
    (notify_all (Event.failure_diagnosis ∷ Event.start_run ∷ Event.skip ∷ Event.error ∷ [])
        >> finalize)
      initial
    ≡ (ok tt, outcome (Event.failure_diagnosis ∷ Event.start_run ∷ Event.skip ∷ Event.error ∷ []))
notify_all-outcome_example =
    notify_all-outcome (Event.failure_diagnosis ∷ Event.start_run ∷ Event.skip ∷ Event.error ∷ [])

abbrev version_case : Proto.OutputCase
version_case = Proto.OutputCase.schema_version (record { major = 2; minor = 0 })

write_all-file_example :
    ((write_all (version_case ∷ version_case ∷ []) sample_writer).0 ≡ ok tt)
    × ((write_all (version_case ∷ version_case ∷ []) sample_writer).1.file
        ≡ [] ++ stamped 0 0 (version_case ∷ version_case ∷ []))
write_all-file_example =
    write_all-file (version_case ∷ version_case ∷ []) sample_writer (λ rs a. refl) refl
      (omega arith)

finish-started_example :
    ((finish started_run).0 ≡ ok tt)
    × ((finish started_run).1.result_calculator ≡ (finalize started_run.result_calculator).1)
    × ((finish started_run).1.writer.file
        ≡ snoc started_run.writer.file
            (stamp started_run.writer (end_artifact (finalize started_run.result_calculator).1)))
    × ((finish started_run).1.writer.flushed ≡ (finish started_run).1.writer.file)
unfolding fresh initial finalize check_finalized when blocks
finish-started_example = finish-started started_run refl refl (λ rs a. refl) refl (omega arith)

abbrev blank_dut : DutInfo
blank_dut = record {
  name = "dut";
  id = "1";
  metadata_json = "";
  hardware_infos = [];
  software_infos = [];
  platform_infos = [];
  hardware_info_id = 0;
  software_info_id = 0;
}

abbrev sample_software : SoftwareInfo
sample_software = record {
  name = "bios";
  computer_system = "";
  version = "1";
  revision = "";
  software_type = SoftwareType.firmware;
}

register_all-IsRegistered_example :
    IsRegistered
      (register_all
        (Registration.software sample_software ∷ Registration.software sample_software ∷ [])
        blank_dut).1
register_all-IsRegistered_example =
    register_all-IsRegistered
      (Registration.software sample_software ∷ Registration.software sample_software ∷ []) blank_dut
      (refl, refl)
