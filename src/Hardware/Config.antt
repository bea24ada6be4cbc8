-- ===== src/Hardware/Config.antt =====
-- ocpdiag/core/hwinterface/config.proto and `NodeOverride` of service_flags.h. A message field that
-- is absent is read as its default, so the two are one here; options that no code of the library
-- reads are left out. A C++ enum holds one of its enumerators.
pub mod Override
pub mod Load
use ocp_diag_core_cpp.Base.{ℕ, ℤ, String, Bool, ◌==◌, ◌≡◌, true, refl, List, Option, arith}

pub data BackendType : Type 0 where
  unknown gsys machine_manager bmc_diagnostic_interface redfish host fake mimik_redfish :
      BackendType

-- the number of a backend type
abbrev backend_number : BackendType → ℕ
backend_number BackendType.unknown = 0
backend_number BackendType.gsys = 1
backend_number BackendType.machine_manager = 2
backend_number BackendType.bmc_diagnostic_interface = 3
backend_number BackendType.redfish = 4
backend_number BackendType.host = 5
backend_number BackendType.mimik_redfish = 6
backend_number BackendType.fake = 8

abbrev pub same_backend : BackendType → BackendType → Bool
same_backend a b = backend_number a == backend_number b

pub same_backend→eq : (a b : BackendType) → same_backend a b ≡ true → a ≡ b
same_backend→eq a b h = ground arith

pub same_backend_refl : (a : BackendType) → same_backend a a ≡ true
same_backend_refl a = ground arith

pub data ProxyType : Type 0 where
  none : ProxyType

pub data AuthMethod : Type 0 where
  default basic tls : AuthMethod

-- google.protobuf.Duration
pub record Duration : Type 0 where
  pub seconds : ℤ
  pub nanos : ℤ

pub data RedfishCachePolicy : Type 0 where
  not_set no_cache : RedfishCachePolicy
  time_based_cache : Duration → RedfishCachePolicy

pub record RedfishQueryOverrides : Type 0 where
  pub sensor_query : String

pub record RedfishConfigOptions : Type 0 where
  pub target_address : String
  pub port : ℤ
  pub auth_method : AuthMethod
  pub redfish_cache_policy : Option RedfishCachePolicy
  pub redfish_query_overrides : Option RedfishQueryOverrides

pub record EntityDescriptor : Type 0 where
  pub host_address : String
  pub proxy : ProxyType

pub record EntityConfiguration : Type 0 where
  pub entity : EntityDescriptor
  pub method_configurations : List (ℤ × BackendType)
  pub default_backend : BackendType
  pub redfish_options : RedfishConfigOptions

pub record NodeOverride : Type 0 where
  pub backend : BackendType
  pub target_address : String
  pub port : ℤ
  pub redfish_auth_method : AuthMethod
  pub redfish_cache_policy : Option RedfishCachePolicy
  pub redfish_query_overrides : Option RedfishQueryOverrides
