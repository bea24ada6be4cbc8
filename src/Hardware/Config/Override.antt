-- ===== src/Hardware/Config/Override.antt =====
-- ocpdiag/core/hwinterface/client/node_client.cc: the overrides of a configuration by flags. The
-- flags of service_flags.h that it reads are a record.
pub mod Targets
use text.Mathlib.Text.{◌==◌ as str_eq}
use ocp_diag_core_cpp.Base.{
  ℤ, pos, eq_ℤ, String, is_empty, Bool, true, false, not, ◌||◌, Option, none, some, List, [], ◌∷◌,
  snoc, if◌then◌else◌,
}
use ocp_diag_core_cpp.Hardware.Config
use ocp_diag_core_cpp.Hardware.Config.{
  BackendType, ProxyType, AuthMethod, Duration, RedfishCachePolicy, RedfishQueryOverrides,
  RedfishConfigOptions, EntityDescriptor, EntityConfiguration, NodeOverride,
}

-- the flags that override a configuration
pub record Flags : Type 0 where
  pub mhi_config : List NodeOverride
  pub hwinterface_config_file_path : String
  pub hwinterface_target_address : String
  pub hwinterface_target_port : ℤ
  pub hwinterface_default_backend : BackendType
  pub hwinterface_redfish_auth_method : AuthMethod
  pub hwinterface_redfish_query_overrides : Option RedfishQueryOverrides
  pub hwinterface_redfish_cache_policy : Option RedfishCachePolicy
  pub hwinterface_proxy : ProxyType

-- a message as `add_node_entity_configurations` makes it
abbrev pub new_configuration : EntityConfiguration
new_configuration = record {
  entity = record { host_address = ""; proxy = ProxyType.none };
  method_configurations = [];
  default_backend = BackendType.unknown;
  redfish_options = record {
    target_address = "";
    port = pos 0;
    auth_method = AuthMethod.default;
    redfish_cache_policy = none;
    redfish_query_overrides = none;
  };
}

unfoldable pub is_oob_backend : BackendType → Bool
is_oob_backend BackendType.redfish = true
is_oob_backend BackendType.unknown = false
is_oob_backend BackendType.gsys = false
is_oob_backend BackendType.machine_manager = false
is_oob_backend BackendType.bmc_diagnostic_interface = false
is_oob_backend BackendType.host = false
is_oob_backend BackendType.fake = false
is_oob_backend BackendType.mimik_redfish = false

abbrev is_default : AuthMethod → Bool
is_default AuthMethod.default = true
is_default AuthMethod.basic = false
is_default AuthMethod.tls = false

-- the nanoseconds that `mutable_time_based_cache` finds
abbrev nanos_of : Option RedfishCachePolicy → ℤ
nanos_of (some (RedfishCachePolicy.time_based_cache d)) = d.nanos
nanos_of (some RedfishCachePolicy.no_cache) = pos 0
nanos_of (some RedfishCachePolicy.not_set) = pos 0
nanos_of none = pos 0

unfoldable override_cache_policy :
    Option RedfishCachePolicy → Option RedfishCachePolicy → Option RedfishCachePolicy
override_cache_policy none old = old
override_cache_policy (some RedfishCachePolicy.not_set) old = old
override_cache_policy (some RedfishCachePolicy.no_cache) old = some RedfishCachePolicy.no_cache
override_cache_policy (some (RedfishCachePolicy.time_based_cache d)) old =
    some
      (RedfishCachePolicy.time_based_cache (record { seconds = d.seconds; nanos = nanos_of old }))

abbrev or_old {ℓ} : {A : Type ℓ} → Option A → Option A → Option A
or_old none old = old
or_old (some new) old = some new

-- the assignments of `ApplyOobOverride` to the Redfish options
unfoldable pub override_redfish_options : NodeOverride → RedfishConfigOptions → RedfishConfigOptions
unfolding override_cache_policy
override_redfish_options o r = record {
  target_address = if is_empty o.target_address then r.target_address else o.target_address;
  port = if eq_ℤ o.port (pos 0) then r.port else o.port;
  auth_method = if is_default o.redfish_auth_method then r.auth_method else o.redfish_auth_method;
  redfish_cache_policy = override_cache_policy o.redfish_cache_policy r.redfish_cache_policy;
  redfish_query_overrides = or_old o.redfish_query_overrides r.redfish_query_overrides;
}

unfoldable pub apply_oob_override : NodeOverride → EntityConfiguration → EntityConfiguration
unfolding override_redfish_options is_oob_backend
apply_oob_override o c = record c {
  default_backend = o.backend;
  redfish_options =
      if is_oob_backend o.backend
      then override_redfish_options o c.redfish_options
      else c.redfish_options;
}

unfoldable pub apply_ib_override : NodeOverride → EntityConfiguration → EntityConfiguration
apply_ib_override o c = record c {
  entity = record c.entity {
    host_address = if is_empty o.target_address then c.entity.host_address else o.target_address;
  };
  default_backend = o.backend;
}

-- The loops of `ApplyNodeOverride`, and whether one round found its target.
unfoldable pub override_all :
    (EntityConfiguration → Bool)
    → (EntityConfiguration → EntityConfiguration)
    → List EntityConfiguration
    → Bool × List EntityConfiguration
override_all is_target apply [] = (false, [])
override_all is_target apply (c ∷ cs) =
    let rest = override_all is_target apply cs in
    if is_target c then (true, apply c ∷ rest.1) else (rest.0, c ∷ rest.1)

abbrev or_add :
    (EntityConfiguration → EntityConfiguration)
    → Bool × List EntityConfiguration
    → List EntityConfiguration
or_add apply (true, cs) = cs
or_add apply (false, cs) = snoc cs (apply new_configuration)

-- whether a configuration is for the address of an override
abbrev pub targets : NodeOverride → EntityConfiguration → Bool
targets o c =
    if is_oob_backend o.backend
    then str_eq c.redfish_options.target_address o.target_address
    else str_eq c.entity.host_address o.target_address

unfoldable pub apply_node_override :
    NodeOverride → List EntityConfiguration → List EntityConfiguration
unfolding override_all apply_oob_override apply_ib_override is_oob_backend
apply_node_override o cs =
    if is_oob_backend o.backend
    then or_add (apply_oob_override o) (
        override_all (λ c. str_eq c.redfish_options.target_address o.target_address)
          (apply_oob_override o) cs)
    else or_add (apply_ib_override o)
        (override_all (λ c. str_eq c.entity.host_address o.target_address) (apply_ib_override o) cs)

unfoldable pub apply_multi_node_overrides :
    List NodeOverride → List EntityConfiguration → List EntityConfiguration
apply_multi_node_overrides [] cs = cs
apply_multi_node_overrides (o ∷ os) cs = apply_multi_node_overrides os (apply_node_override o cs)

-- The backend of the single override: the flag's, or the configured one, or the host.
abbrev single_backend : BackendType → BackendType → BackendType
single_backend flag configured =
    if Config.same_backend flag BackendType.unknown
    then if Config.same_backend configured BackendType.unknown then BackendType.host else configured
    else flag

abbrev single_override : Flags → BackendType → NodeOverride
single_override f configured = record {
  backend = single_backend f.hwinterface_default_backend configured;
  target_address = f.hwinterface_target_address;
  port = f.hwinterface_target_port;
  redfish_auth_method = f.hwinterface_redfish_auth_method;
  redfish_cache_policy = f.hwinterface_redfish_cache_policy;
  redfish_query_overrides = f.hwinterface_redfish_query_overrides;
}

abbrev or_proxy : ProxyType → ProxyType → ProxyType
or_proxy ProxyType.none old = old

unfoldable apply_single_override : Flags → EntityConfiguration → EntityConfiguration
unfolding is_oob_backend apply_oob_override apply_ib_override
apply_single_override f c =
    let o : NodeOverride = single_override f c.default_backend in
    let d : EntityConfiguration = record c {
      entity = record c.entity { proxy = or_proxy f.hwinterface_proxy c.entity.proxy };
    } in
    if is_oob_backend o.backend then apply_oob_override o d else apply_ib_override o d

unfoldable pub apply_single_node_override :
    Flags → List EntityConfiguration → List EntityConfiguration
unfolding apply_single_override
apply_single_node_override f [] = apply_single_override f new_configuration ∷ []
apply_single_node_override f (c ∷ cs) = apply_single_override f c ∷ cs
