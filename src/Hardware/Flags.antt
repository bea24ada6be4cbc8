-- ===== src/Hardware/Flags.antt =====
-- ocpdiag/core/hwinterface/service_flags.cc: the defaults of the flags, and their parsing and
-- printing. A parse returns whether it succeeded, with the value of the flag after it; the text of
-- the error is not kept. Abseil's functions on texts and the matching of the regular expressions are
-- a record of parameters.
pub mod RoundTrip
use Prim.Native.String.{◌++◌}
use text.Mathlib.Text.{◌==◌ as str_eq}
use ocp_diag_core_cpp.Base.{
  ℤ, pos, String, is_empty, Bool, true, false, ◌||◌, Option, none, some, List, [], ◌∷◌, snoc,
  if◌then◌else◌,
}
use ocp_diag_core_cpp.Hardware.Status.{Code, StatusOr, ◌>>=◌, value, error, thrown, undefined}
use ocp_diag_core_cpp.Hardware.Config.{
  BackendType, ProxyType, AuthMethod, Duration, RedfishCachePolicy, RedfishQueryOverrides,
  NodeOverride,
}
use ocp_diag_core_cpp.Hardware.Config.Override.{Flags}

-- the groups of `(.+)://(.+):(\d+):?(.+)?`; a group that matched nothing is the empty text
pub record OverrideGroups : Type 0 where
  pub backend : String
  pub target_address : String
  pub port : ℤ
  pub auth_method : String

pub record FlagText : Type 0 where
  pub ascii_str_to_lower : String → String
  pub str_split : String → String → List String
  pub str_join : List String → String → String
  pub decimal : ℤ → String
  pub simple_atoi : String → Option ℤ
  pub match_override : String → Option OverrideGroups
  pub match_query : String → Option (String × String)
  pub match_cache : String → Option (String × String)

abbrev pub Parsed : Type 0 → Type 0
Parsed A = Bool × A

unfoldable default_flags : Flags
default_flags = record {
  mhi_config = [];
  hwinterface_config_file_path = "";
  hwinterface_target_address = "";
  hwinterface_target_port = pos 0;
  hwinterface_default_backend = BackendType.unknown;
  hwinterface_redfish_auth_method = AuthMethod.default;
  hwinterface_redfish_query_overrides = none;
  hwinterface_redfish_cache_policy = none;
  hwinterface_proxy = ProxyType.none;
}

unfoldable pub unparse_auth_method : AuthMethod → String
unparse_auth_method AuthMethod.basic = "basic"
unparse_auth_method AuthMethod.tls = "tls"
unparse_auth_method AuthMethod.default = "default"

abbrev auth_method_of : String → Parsed AuthMethod
auth_method_of input_text =
    if is_empty input_text || str_eq input_text "default"
    then (true, AuthMethod.default)
    else if str_eq input_text "basic"
    then (true, AuthMethod.basic)
    else if str_eq input_text "tls"
    then (true, AuthMethod.tls)
    else (false, AuthMethod.default)

unfoldable pub parse_auth_method : FlagText → String → Parsed AuthMethod
parse_auth_method flag text = auth_method_of (flag.ascii_str_to_lower text)

unfoldable pub unparse_backend_type : BackendType → String
unparse_backend_type BackendType.gsys = "gsys"
unparse_backend_type BackendType.redfish = "redfish"
unparse_backend_type BackendType.host = "host"
unparse_backend_type BackendType.unknown = "unknown"
unparse_backend_type BackendType.machine_manager = "unknown"
unparse_backend_type BackendType.bmc_diagnostic_interface = "unknown"
unparse_backend_type BackendType.fake = "unknown"
unparse_backend_type BackendType.mimik_redfish = "unknown"

unfoldable pub parse_backend_type : String → Parsed BackendType
parse_backend_type text =
    if is_empty text || str_eq text "unknown"
    then (true, BackendType.unknown)
    else if str_eq text "host"
    then (true, BackendType.host)
    else if str_eq text "fake"
    then (true, BackendType.fake)
    else if str_eq text "redfish"
    then (true, BackendType.redfish)
    else if str_eq text "gsys"
    then (true, BackendType.gsys)
    else (false, BackendType.unknown)

unfoldable unparse_proxy_type : ProxyType → String
unparse_proxy_type proxy = ""

unfoldable parse_proxy_type : String → Parsed ProxyType
parse_proxy_type text = (true, ProxyType.none)

-- "%s://%s:%d"
unfoldable pub override_text : FlagText → NodeOverride → String
unfolding unparse_backend_type
override_text flag o =
    unparse_backend_type o.backend ++ ("://" ++ (o.target_address ++ (":" ++ flag.decimal o.port)))

unfoldable pub override_texts : FlagText → List NodeOverride → List String
unfolding override_text
override_texts flag [] = []
override_texts flag (o ∷ os) = override_text flag o ∷ override_texts flag os

unfoldable pub unparse_overrides : FlagText → List NodeOverride → String
unfolding override_texts
unparse_overrides flag os = flag.str_join (override_texts flag os) ","

abbrev succeeded : {A : Type 0} → Parsed A → StatusOr A
succeeded (true, a) = value a
succeeded (false, a) = error Code.invalid_argument

abbrev matched : {A : Type 0} → Option A → StatusOr A
matched (some a) = value a
matched none = error Code.invalid_argument

-- An override without an authentication keeps the default one.
unfoldable pub parse_override_auth : FlagText → String → StatusOr AuthMethod
unfolding parse_auth_method
parse_override_auth flag auth_method =
    if is_empty auth_method
    then value AuthMethod.default
    else succeeded (parse_auth_method flag auth_method)

unfoldable pub parse_override : FlagText → String → StatusOr NodeOverride
unfolding parse_backend_type parse_override_auth
parse_override flag text = matched (flag.match_override text) >>= λ groups.
    succeeded (parse_backend_type groups.backend) >>= λ backend.
    parse_override_auth flag groups.auth_method >>= λ auth_method. value (record {
      backend = backend;
      target_address = groups.target_address;
      port = groups.port;
      redfish_auth_method = auth_method;
      redfish_cache_policy = none;
      redfish_query_overrides = none;
    })

abbrev or_stop :
    StatusOr NodeOverride
    → (NodeOverride → Parsed (List NodeOverride))
    → List NodeOverride
    → Parsed (List NodeOverride)
or_stop (value o) next overrides = next o
or_stop (error code) next overrides = (false, overrides)
or_stop thrown next overrides = (false, overrides)
or_stop undefined next overrides = (false, overrides)

-- the loop over the parts of the text, with the overrides so far
unfoldable pub parse_each_override :
    FlagText → List String → List NodeOverride → Parsed (List NodeOverride)
unfolding parse_override
parse_each_override flag [] overrides = (true, overrides)
parse_each_override flag (text ∷ texts) overrides =
    or_stop (parse_override flag text) (λ o. parse_each_override flag texts (snoc overrides o))
      overrides

unfoldable pub parse_overrides : FlagText → String → List NodeOverride → Parsed (List NodeOverride)
unfolding parse_each_override
parse_overrides flag text overrides =
    if is_empty text
    then (true, overrides)
    else parse_each_override flag (flag.str_split "," text) overrides

unfoldable unparse_query_overrides : FlagText → RedfishQueryOverrides → String
unparse_query_overrides flag q =
    flag.str_join
      (if is_empty q.sensor_query then [] else ("sensor_query" ++ (":" ++ q.sensor_query)) ∷ []) ","

abbrev with_query : String × String → RedfishQueryOverrides → RedfishQueryOverrides
with_query query q =
    if str_eq query.0 "sensor_query" then record q { sensor_query = query.1 } else q

abbrev or_stop_query :
    Option (String × String)
    → (String × String → Parsed RedfishQueryOverrides)
    → RedfishQueryOverrides
    → Parsed RedfishQueryOverrides
or_stop_query none next q = (false, q)
or_stop_query (some query) next q = next query

unfoldable parse_each_query :
    FlagText → List String → RedfishQueryOverrides → Parsed RedfishQueryOverrides
parse_each_query flag [] q = (true, q)
parse_each_query flag (text ∷ texts) q =
    or_stop_query (flag.match_query text)
      (λ query. parse_each_query flag texts (with_query query q)) q

unfoldable parse_query_overrides :
    FlagText → String → RedfishQueryOverrides → Parsed RedfishQueryOverrides
unfolding parse_each_query
parse_query_overrides flag text q =
    if is_empty text then (true, q) else parse_each_query flag (flag.str_split "," text) q

-- `time_based_cache().seconds()`, which is 0 where another policy is set
abbrev cache_seconds : RedfishCachePolicy → ℤ
cache_seconds (RedfishCachePolicy.time_based_cache d) = d.seconds
cache_seconds RedfishCachePolicy.not_set = pos 0
cache_seconds RedfishCachePolicy.no_cache = pos 0

abbrev has_no_cache : RedfishCachePolicy → Bool
has_no_cache RedfishCachePolicy.no_cache = true
has_no_cache RedfishCachePolicy.not_set = false
has_no_cache (RedfishCachePolicy.time_based_cache d) = false

unfoldable pub unparse_cache_policy : FlagText → RedfishCachePolicy → String
unparse_cache_policy flag policy =
    if has_no_cache policy
    then "no_cache:"
    else "time_based_cache" ++ (":" ++ flag.decimal (cache_seconds policy))

-- `mutable_time_based_cache`
abbrev mutable_time_based_cache : RedfishCachePolicy → Duration
mutable_time_based_cache (RedfishCachePolicy.time_based_cache d) = d
mutable_time_based_cache RedfishCachePolicy.not_set = record { seconds = pos 0; nanos = pos 0 }
mutable_time_based_cache RedfishCachePolicy.no_cache = record { seconds = pos 0; nanos = pos 0 }

abbrev or_no_cache : String → RedfishCachePolicy → RedfishCachePolicy
or_no_cache cache_type policy =
    if str_eq cache_type "no_cache" then RedfishCachePolicy.no_cache else policy

abbrev pub with_duration : String → Option ℤ → RedfishCachePolicy → RedfishCachePolicy
with_duration cache_type (some seconds) policy =
    if str_eq cache_type "time_based_cache"
    then RedfishCachePolicy.time_based_cache
        (record (mutable_time_based_cache policy) { seconds = seconds })
    else or_no_cache cache_type policy
with_duration cache_type none policy = or_no_cache cache_type policy

abbrev with_groups :
    FlagText → Option (String × String) → RedfishCachePolicy → Parsed RedfishCachePolicy
with_groups flag none policy = (false, policy)
with_groups flag (some groups) policy =
    (true, with_duration groups.0 (flag.simple_atoi groups.1) policy)

unfoldable pub parse_cache_policy :
    FlagText → String → RedfishCachePolicy → Parsed RedfishCachePolicy
parse_cache_policy flag text policy =
    if is_empty text then (true, policy) else with_groups flag (flag.match_cache text) policy
