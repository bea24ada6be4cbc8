-- ===== src/Hardware/Client/Method.antt =====
-- ocpdiag/core/hwinterface/config.proto and service_interface.h: the methods that a configuration
-- gives a backend for, and the calls of the service interface.
use ocp_diag_core_cpp.Base.{ℕ}

pub data BackendMethod : Type 0 where
  unknown get_sensors get_cpu_info get_errors get_fan_info set_fan_pwm : BackendMethod
  get_eeprom_info read_eeprom get_memory_info reboot set_device_power : BackendMethod
  get_device_power get_hw_info get_system_info get_node_info memory_convert : BackendMethod
  set_fan_zone get_security_chip_info get_status get_ec_info get_i2c_info : BackendMethod
  get_firmware_info get_network_interface_info get_storage_info get_psu_info : BackendMethod
  get_gpu_info get_ncsi_info get_scsi_info get_nvlink_info get_boot_number : BackendMethod
  get_accelerator_info get_pcie_info get_usb_info get_upi_info clear_errors : BackendMethod

-- the number of a method, its key in `method_configurations`
abbrev pub method_number : BackendMethod → ℕ
method_number BackendMethod.unknown = 0
method_number BackendMethod.get_sensors = 3
method_number BackendMethod.get_cpu_info = 4
method_number BackendMethod.get_errors = 5
method_number BackendMethod.get_fan_info = 6
method_number BackendMethod.set_fan_pwm = 7
method_number BackendMethod.get_eeprom_info = 8
method_number BackendMethod.read_eeprom = 9
method_number BackendMethod.get_memory_info = 10
method_number BackendMethod.reboot = 11
method_number BackendMethod.set_device_power = 37
method_number BackendMethod.get_device_power = 38
method_number BackendMethod.get_hw_info = 12
method_number BackendMethod.get_system_info = 13
method_number BackendMethod.get_node_info = 14
method_number BackendMethod.memory_convert = 15
method_number BackendMethod.set_fan_zone = 16
method_number BackendMethod.get_security_chip_info = 17
method_number BackendMethod.get_status = 18
method_number BackendMethod.get_ec_info = 19
method_number BackendMethod.get_i2c_info = 21
method_number BackendMethod.get_firmware_info = 22
method_number BackendMethod.get_network_interface_info = 23
method_number BackendMethod.get_storage_info = 24
method_number BackendMethod.get_psu_info = 25
method_number BackendMethod.get_gpu_info = 26
method_number BackendMethod.get_ncsi_info = 27
method_number BackendMethod.get_scsi_info = 28
method_number BackendMethod.get_nvlink_info = 29
method_number BackendMethod.get_boot_number = 30
method_number BackendMethod.get_accelerator_info = 32
method_number BackendMethod.get_pcie_info = 33
method_number BackendMethod.get_usb_info = 34
method_number BackendMethod.get_upi_info = 35
method_number BackendMethod.clear_errors = 36

-- the calls that one backend answers
pub data Api : Type 0 where
  get_cpu_info get_memory_info get_sensors get_errors clear_errors get_fan_info : Api
  set_fan_pwm set_fan_zone get_eeprom_info read_eeprom reboot set_device_power : Api
  get_device_power get_status get_hw_info get_system_info get_node_info get_pcie_info : Api
  get_usb_info get_upi_info get_i2c_info get_scsi_info get_nvlink_info get_boot_number : Api
  memory_convert get_security_chip_info get_ec_info get_firmware_info : Api
  get_network_interface_info get_storage_info get_psu_info get_gpu_info get_ncsi_info : Api
  get_accelerator_info : Api

-- the method that a call is configured by
abbrev pub method_of : Api → BackendMethod
method_of Api.get_cpu_info = BackendMethod.get_cpu_info
method_of Api.get_memory_info = BackendMethod.get_memory_info
method_of Api.get_sensors = BackendMethod.get_sensors
method_of Api.get_errors = BackendMethod.get_errors
method_of Api.clear_errors = BackendMethod.clear_errors
method_of Api.get_fan_info = BackendMethod.get_fan_info
method_of Api.set_fan_pwm = BackendMethod.set_fan_pwm
method_of Api.set_fan_zone = BackendMethod.set_fan_zone
method_of Api.get_eeprom_info = BackendMethod.get_eeprom_info
method_of Api.read_eeprom = BackendMethod.read_eeprom
method_of Api.reboot = BackendMethod.reboot
method_of Api.set_device_power = BackendMethod.set_device_power
method_of Api.get_device_power = BackendMethod.get_device_power
method_of Api.get_status = BackendMethod.get_status
method_of Api.get_hw_info = BackendMethod.get_hw_info
method_of Api.get_system_info = BackendMethod.get_system_info
method_of Api.get_node_info = BackendMethod.get_node_info
method_of Api.get_pcie_info = BackendMethod.get_pcie_info
method_of Api.get_usb_info = BackendMethod.get_usb_info
method_of Api.get_upi_info = BackendMethod.get_upi_info
method_of Api.get_i2c_info = BackendMethod.get_i2c_info
method_of Api.get_scsi_info = BackendMethod.get_scsi_info
method_of Api.get_nvlink_info = BackendMethod.get_nvlink_info
method_of Api.get_boot_number = BackendMethod.get_boot_number
method_of Api.memory_convert = BackendMethod.memory_convert
method_of Api.get_security_chip_info = BackendMethod.get_security_chip_info
method_of Api.get_ec_info = BackendMethod.get_ec_info
method_of Api.get_firmware_info = BackendMethod.get_firmware_info
method_of Api.get_network_interface_info = BackendMethod.get_network_interface_info
method_of Api.get_storage_info = BackendMethod.get_storage_info
method_of Api.get_psu_info = BackendMethod.get_psu_info
method_of Api.get_gpu_info = BackendMethod.get_gpu_info
method_of Api.get_ncsi_info = BackendMethod.get_ncsi_info
method_of Api.get_accelerator_info = BackendMethod.get_accelerator_info
