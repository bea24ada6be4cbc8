-- ===== src/Hardware/Client/Calls.antt =====
-- ocpdiag/core/hwinterface/client/node_client.cc: the calls of NodeClient. A backend answers a call
-- and may change the world, the machine that the backends work on; the calls of the backends are a
-- parameter, and the requests and responses, messages of service.proto, are types of its own.
use ocp_diag_core_cpp.Base.{List, [], ◌∷◌, ◌++◌}
use ocp_diag_core_cpp.Hardware.Status.{Code, StatusOr, value, error, thrown, undefined}
use ocp_diag_core_cpp.Hardware.Config.{BackendType}
use ocp_diag_core_cpp.Hardware.Client.{Client, select_backend}
use ocp_diag_core_cpp.Hardware.Client.Method.{BackendMethod, Api}

-- OCPDiagServiceInterface
pub record Service (B Request Response Software W : Type 0) : Type 0 where
  pub call : B → Api → Request → W → StatusOr Response × W
  pub get_version : B → Request → W → StatusOr (List Software) × W

-- the calls of OCPDiagServiceInterface that a backend does not override
abbrev unimplemented_service :
    {B Request Response Software W : Type 0} → Service B Request Response Software W
unimplemented_service = record {
  call = λ b api req w. (error Code.unimplemented, w);
  get_version = λ b req w. (error Code.unimplemented, w);
}

-- `OCPDIAG_CALL_BACKEND_API` of what `SelectBackend` gave
abbrev pub call_selected :
    {B Request Response Software W C : Type 0}
    → Service B Request Response Software W
    → Api
    → Request
    → StatusOr B × C
    → W
    → StatusOr Response × C × W
call_selected s api req (value b, c) w = let answer = s.call b api req w in (answer.0, c, answer.1)
call_selected s api req (error code, c) w = (error code, c, w)
call_selected s api req (thrown, c) w = (thrown, c, w)
call_selected s api req (undefined, c) w = (undefined, c, w)

module _ {Software W : Type 0} where
  abbrev append_softwares :
      List Software → StatusOr (List Software) × W → StatusOr (List Software) × W
  append_softwares new (value more, w) = (value (new ++ more), w)
  append_softwares new (error code, w) = (error code, w)
  append_softwares new (thrown, w) = (thrown, w)
  append_softwares new (undefined, w) = (undefined, w)

  abbrev add_softwares :
      StatusOr (List Software) × W
      → (W → StatusOr (List Software) × W)
      → StatusOr (List Software) × W
  add_softwares (value new, w) rest = append_softwares new (rest w)
  add_softwares (error code, w) rest = (error code, w)
  add_softwares (thrown, w) rest = (thrown, w)
  add_softwares (undefined, w) rest = (undefined, w)

module _ {B Request Response Software W : Type 0} (s : Service B Request Response Software W) where
  -- the loop of `GetVersion`, in the order of the map's entries
  unfoldable get_versions : List (BackendType × B) → Request → W → StatusOr (List Software) × W
  get_versions [] req w = (value [], w)
  get_versions (entry ∷ entries) req w =
      add_softwares (s.get_version entry.1 req w) (get_versions entries req)

module _ {B A Request Response Software W : Type 0}
    (s : Service B Request Response Software W) where
  abbrev pub get_cpu_info : Request → Client B A → W → StatusOr Response × Client B A × W
  get_cpu_info req c w =
      call_selected s Api.get_cpu_info req (select_backend BackendMethod.get_cpu_info c) w

  abbrev pub get_memory_info : Request → Client B A → W → StatusOr Response × Client B A × W
  get_memory_info req c w =
      call_selected s Api.get_memory_info req (select_backend BackendMethod.get_memory_info c) w

  abbrev pub get_sensors : Request → Client B A → W → StatusOr Response × Client B A × W
  get_sensors req c w =
      call_selected s Api.get_sensors req (select_backend BackendMethod.get_sensors c) w

  abbrev pub get_errors : Request → Client B A → W → StatusOr Response × Client B A × W
  get_errors req c w =
      call_selected s Api.get_errors req (select_backend BackendMethod.get_errors c) w

  abbrev pub clear_errors : Request → Client B A → W → StatusOr Response × Client B A × W
  clear_errors req c w =
      call_selected s Api.clear_errors req (select_backend BackendMethod.clear_errors c) w

  abbrev pub get_fan_info : Request → Client B A → W → StatusOr Response × Client B A × W
  get_fan_info req c w =
      call_selected s Api.get_fan_info req (select_backend BackendMethod.get_fan_info c) w

  abbrev pub set_fan_pwm : Request → Client B A → W → StatusOr Response × Client B A × W
  set_fan_pwm req c w =
      call_selected s Api.set_fan_pwm req (select_backend BackendMethod.set_fan_pwm c) w

  abbrev pub set_fan_zone : Request → Client B A → W → StatusOr Response × Client B A × W
  set_fan_zone req c w =
      call_selected s Api.set_fan_zone req (select_backend BackendMethod.set_fan_zone c) w

  abbrev pub get_eeprom_info : Request → Client B A → W → StatusOr Response × Client B A × W
  get_eeprom_info req c w =
      call_selected s Api.get_eeprom_info req (select_backend BackendMethod.get_eeprom_info c) w

  abbrev pub read_eeprom : Request → Client B A → W → StatusOr Response × Client B A × W
  read_eeprom req c w =
      call_selected s Api.read_eeprom req (select_backend BackendMethod.read_eeprom c) w

  abbrev pub reboot : Request → Client B A → W → StatusOr Response × Client B A × W
  reboot req c w = call_selected s Api.reboot req (select_backend BackendMethod.reboot c) w

  abbrev pub set_device_power : Request → Client B A → W → StatusOr Response × Client B A × W
  set_device_power req c w =
      call_selected s Api.set_device_power req (select_backend BackendMethod.set_device_power c) w

  abbrev pub get_device_power : Request → Client B A → W → StatusOr Response × Client B A × W
  get_device_power req c w =
      call_selected s Api.get_device_power req (select_backend BackendMethod.get_device_power c) w

  abbrev pub get_status : Request → Client B A → W → StatusOr Response × Client B A × W
  get_status req c w =
      call_selected s Api.get_status req (select_backend BackendMethod.get_status c) w

  abbrev pub get_hw_info : Request → Client B A → W → StatusOr Response × Client B A × W
  get_hw_info req c w =
      call_selected s Api.get_hw_info req (select_backend BackendMethod.get_hw_info c) w

  abbrev pub get_system_info : Request → Client B A → W → StatusOr Response × Client B A × W
  get_system_info req c w =
      call_selected s Api.get_system_info req (select_backend BackendMethod.get_system_info c) w

  abbrev pub get_node_info : Request → Client B A → W → StatusOr Response × Client B A × W
  get_node_info req c w =
      call_selected s Api.get_node_info req (select_backend BackendMethod.get_node_info c) w

  abbrev pub get_pcie_info : Request → Client B A → W → StatusOr Response × Client B A × W
  get_pcie_info req c w =
      call_selected s Api.get_pcie_info req (select_backend BackendMethod.get_pcie_info c) w

  abbrev pub get_usb_info : Request → Client B A → W → StatusOr Response × Client B A × W
  get_usb_info req c w =
      call_selected s Api.get_usb_info req (select_backend BackendMethod.get_usb_info c) w

  abbrev pub get_upi_info : Request → Client B A → W → StatusOr Response × Client B A × W
  get_upi_info req c w =
      call_selected s Api.get_upi_info req (select_backend BackendMethod.get_upi_info c) w

  abbrev pub get_i2c_info : Request → Client B A → W → StatusOr Response × Client B A × W
  get_i2c_info req c w =
      call_selected s Api.get_i2c_info req (select_backend BackendMethod.get_i2c_info c) w

  abbrev pub get_scsi_info : Request → Client B A → W → StatusOr Response × Client B A × W
  get_scsi_info req c w =
      call_selected s Api.get_scsi_info req (select_backend BackendMethod.get_scsi_info c) w

  abbrev pub get_nvlink_info : Request → Client B A → W → StatusOr Response × Client B A × W
  get_nvlink_info req c w =
      call_selected s Api.get_nvlink_info req (select_backend BackendMethod.get_nvlink_info c) w

  abbrev pub get_boot_number : Request → Client B A → W → StatusOr Response × Client B A × W
  get_boot_number req c w =
      call_selected s Api.get_boot_number req (select_backend BackendMethod.get_boot_number c) w

  abbrev pub memory_convert : Request → Client B A → W → StatusOr Response × Client B A × W
  memory_convert req c w =
      call_selected s Api.memory_convert req (select_backend BackendMethod.memory_convert c) w

  abbrev pub get_security_chip_info : Request → Client B A → W → StatusOr Response × Client B A × W
  get_security_chip_info req c w =
      call_selected s Api.get_security_chip_info req
        (select_backend BackendMethod.get_security_chip_info c) w

  abbrev pub get_ec_info : Request → Client B A → W → StatusOr Response × Client B A × W
  get_ec_info req c w =
      call_selected s Api.get_ec_info req (select_backend BackendMethod.get_ec_info c) w

  abbrev pub get_firmware_info : Request → Client B A → W → StatusOr Response × Client B A × W
  get_firmware_info req c w =
      call_selected s Api.get_firmware_info req (select_backend BackendMethod.get_firmware_info c) w

  abbrev pub get_network_interface_info :
      Request → Client B A → W → StatusOr Response × Client B A × W
  get_network_interface_info req c w =
      call_selected s Api.get_network_interface_info req
        (select_backend BackendMethod.get_network_interface_info c) w

  abbrev pub get_storage_info : Request → Client B A → W → StatusOr Response × Client B A × W
  get_storage_info req c w =
      call_selected s Api.get_storage_info req (select_backend BackendMethod.get_storage_info c) w

  abbrev pub get_psu_info : Request → Client B A → W → StatusOr Response × Client B A × W
  get_psu_info req c w =
      call_selected s Api.get_psu_info req (select_backend BackendMethod.get_psu_info c) w

  abbrev pub get_gpu_info : Request → Client B A → W → StatusOr Response × Client B A × W
  get_gpu_info req c w =
      call_selected s Api.get_gpu_info req (select_backend BackendMethod.get_gpu_info c) w

  abbrev pub get_ncsi_info : Request → Client B A → W → StatusOr Response × Client B A × W
  get_ncsi_info req c w =
      call_selected s Api.get_ncsi_info req (select_backend BackendMethod.get_ncsi_info c) w

  abbrev pub get_accelerator_info : Request → Client B A → W → StatusOr Response × Client B A × W
  get_accelerator_info req c w =
      call_selected s Api.get_accelerator_info req
        (select_backend BackendMethod.get_accelerator_info c) w

  unfoldable pub get_version : Client B A → Request → W → StatusOr (List Software) × W
  unfolding get_versions
  get_version c req w = get_versions s c.backends req w

  -- a call, whichever it is
  abbrev pub call_api : Api → Request → Client B A → W → StatusOr Response × Client B A × W
  call_api Api.get_cpu_info = get_cpu_info
  call_api Api.get_memory_info = get_memory_info
  call_api Api.get_sensors = get_sensors
  call_api Api.get_errors = get_errors
  call_api Api.clear_errors = clear_errors
  call_api Api.get_fan_info = get_fan_info
  call_api Api.set_fan_pwm = set_fan_pwm
  call_api Api.set_fan_zone = set_fan_zone
  call_api Api.get_eeprom_info = get_eeprom_info
  call_api Api.read_eeprom = read_eeprom
  call_api Api.reboot = reboot
  call_api Api.set_device_power = set_device_power
  call_api Api.get_device_power = get_device_power
  call_api Api.get_status = get_status
  call_api Api.get_hw_info = get_hw_info
  call_api Api.get_system_info = get_system_info
  call_api Api.get_node_info = get_node_info
  call_api Api.get_pcie_info = get_pcie_info
  call_api Api.get_usb_info = get_usb_info
  call_api Api.get_upi_info = get_upi_info
  call_api Api.get_i2c_info = get_i2c_info
  call_api Api.get_scsi_info = get_scsi_info
  call_api Api.get_nvlink_info = get_nvlink_info
  call_api Api.get_boot_number = get_boot_number
  call_api Api.memory_convert = memory_convert
  call_api Api.get_security_chip_info = get_security_chip_info
  call_api Api.get_ec_info = get_ec_info
  call_api Api.get_firmware_info = get_firmware_info
  call_api Api.get_network_interface_info = get_network_interface_info
  call_api Api.get_storage_info = get_storage_info
  call_api Api.get_psu_info = get_psu_info
  call_api Api.get_gpu_info = get_gpu_info
  call_api Api.get_ncsi_info = get_ncsi_info
  call_api Api.get_accelerator_info = get_accelerator_info
