-- ===== src/Hardware/Flags/RoundTrip.antt =====
-- What of a flag its text keeps.
use text.Mathlib.TextLemmas.{cons-append}
use Prim.Native.Char.{Char}
use Prim.Native.String.{◌++◌ as ◌<>◌}
use ocp_diag_core_cpp.Base.{
  ℤ, pos, String, is_empty, Bool, true, false, none, some, List, [], ◌∷◌, ◌++◌, map, snoc, All, ◌≡◌,
  refl, ap, ◌∙◌, sym,
}
use ocp_diag_core_cpp.Hardware.Status.{value}
use ocp_diag_core_cpp.Hardware.Config.{BackendType, AuthMethod, RedfishCachePolicy, NodeOverride}
use ocp_diag_core_cpp.Hardware.Flags.{
  FlagText, unparse_backend_type, parse_backend_type, override_text, override_texts,
  unparse_overrides, parse_override, parse_override_auth, parse_each_override, parse_overrides,
  unparse_auth_method, parse_auth_method, unparse_cache_policy, parse_cache_policy, with_duration,
}

-- the backend that its text names
abbrev kept_backend : BackendType → BackendType
kept_backend BackendType.gsys = BackendType.gsys
kept_backend BackendType.redfish = BackendType.redfish
kept_backend BackendType.host = BackendType.host
kept_backend BackendType.unknown = BackendType.unknown
kept_backend BackendType.machine_manager = BackendType.unknown
kept_backend BackendType.bmc_diagnostic_interface = BackendType.unknown
kept_backend BackendType.fake = BackendType.unknown
kept_backend BackendType.mimik_redfish = BackendType.unknown

-- what the text of an override keeps of it: neither an authentication nor the Redfish options
abbrev pub kept_override : NodeOverride → NodeOverride
kept_override o = record {
  backend = kept_backend o.backend;
  target_address = o.target_address;
  port = o.port;
  redfish_auth_method = AuthMethod.default;
  redfish_cache_policy = none;
  redfish_query_overrides = none;
}

-- RE2 finds the parts of the text of an override.
abbrev IsMatched : FlagText → NodeOverride → Type 0
IsMatched flag o =
    flag.match_override (override_text flag o)
    ≡ some (record {
      backend = unparse_backend_type o.backend;
      target_address = o.target_address;
      port = o.port;
      auth_method = "";
    })

parse_backend_type-unparse :
    (b : BackendType) → parse_backend_type (unparse_backend_type b) ≡ (true, kept_backend b)
unfolding parse_backend_type unparse_backend_type
parse_backend_type-unparse BackendType.gsys = refl
parse_backend_type-unparse BackendType.redfish = refl
parse_backend_type-unparse BackendType.host = refl
parse_backend_type-unparse BackendType.unknown = refl
parse_backend_type-unparse BackendType.machine_manager = refl
parse_backend_type-unparse BackendType.bmc_diagnostic_interface = refl
parse_backend_type-unparse BackendType.fake = refl
parse_backend_type-unparse BackendType.mimik_redfish = refl

parse_override-text :
    (flag : FlagText) (o : NodeOverride)
    → IsMatched flag o
    → parse_override flag (override_text flag o) ≡ value (kept_override o)
unfolding parse_override parse_override_auth
parse_override-text flag o h = rw (h, parse_backend_type-unparse o.backend) refl

snoc-++ :
    (xs : List NodeOverride) (o : NodeOverride) (ys : List NodeOverride)
    → snoc xs o ++ ys ≡ xs ++ (o ∷ ys)
snoc-++ [] o ys = refl
snoc-++ (x ∷ xs) o ys = ap (x ∷◌) (snoc-++ xs o ys)

append-nil : (xs : List NodeOverride) → xs ++ [] ≡ xs
append-nil [] = refl
append-nil (x ∷ xs) = ap (x ∷◌) (append-nil xs)

parse_each_override-texts :
    (flag : FlagText) (os before : List NodeOverride)
    → All (IsMatched flag) os
    → parse_each_override flag (override_texts flag os) before
      ≡ (true, before ++ map kept_override os)
unfolding parse_each_override override_texts
parse_each_override-texts flag [] before h = ap (λ os. (true, os)) (sym (append-nil before))
parse_each_override-texts flag (o ∷ os) before h = rw (parse_override-text flag o h.0) (
    parse_each_override-texts flag os (snoc before (kept_override o)) h.1
    ∙ ap (λ all. (true, all)) (snoc-++ before (kept_override o) (map kept_override os)))

-- Where RE2 finds the parts of the text of each override, and the texts joined by commas are not
-- empty and split into the texts again, the text of a list of overrides is parsed without an error:
-- behind the overrides so far stand those printed, in their order, each with the backend that its
-- text names, its address and its port, and without its authentication and its Redfish options.
pub parse_overrides-unparse :
    (flag : FlagText) (os before : List NodeOverride)
    → All (IsMatched flag) os
    → flag.str_split "," (unparse_overrides flag os) ≡ override_texts flag os
    → is_empty (unparse_overrides flag os) ≡ false
    → parse_overrides flag (unparse_overrides flag os) before
      ≡ (true, before ++ map kept_override os)
unfolding parse_overrides
parse_overrides-unparse flag os before h split full =
    rw (full, split) (parse_each_override-texts flag os before h)

-- An authentication method is parsed from its text, where the text in lower case is itself.
parse_auth_method-unparse :
    (flag : FlagText) (m : AuthMethod)
    → flag.ascii_str_to_lower (unparse_auth_method m) ≡ unparse_auth_method m
    → parse_auth_method flag (unparse_auth_method m) ≡ (true, m)
unfolding parse_auth_method unparse_auth_method
parse_auth_method-unparse flag AuthMethod.basic h = rw h refl
parse_auth_method-unparse flag AuthMethod.tls h = rw h refl
parse_auth_method-unparse flag AuthMethod.default h = rw h refl

-- the nanoseconds that stay
abbrev kept_nanos : RedfishCachePolicy → ℤ
kept_nanos (RedfishCachePolicy.time_based_cache d) = d.nanos
kept_nanos RedfishCachePolicy.not_set = pos 0
kept_nanos RedfishCachePolicy.no_cache = pos 0

abbrev pub cached : ℤ → RedfishCachePolicy → RedfishCachePolicy
cached seconds before =
    RedfishCachePolicy.time_based_cache (record { seconds = seconds; nanos = kept_nanos before })

-- what is left of a policy that is printed and parsed into a flag with the value `before`
abbrev pub reparsed : RedfishCachePolicy → RedfishCachePolicy → Bool × RedfishCachePolicy
reparsed RedfishCachePolicy.no_cache before = (false, before)
reparsed RedfishCachePolicy.not_set before = (true, cached (pos 0) before)
reparsed (RedfishCachePolicy.time_based_cache d) before = (true, cached d.seconds before)

-- RE2 and Abseil read the text of a number of seconds back, and a colon without digits matches
-- nothing.
abbrev IsCacheMatched : FlagText → ℤ → Type 0
IsCacheMatched flag seconds =
    (flag.match_cache "no_cache:" ≡ none)
    × (flag.match_cache ("time_based_cache" <> (":" <> flag.decimal seconds))
        ≡ some ("time_based_cache", flag.decimal seconds))
    × (flag.simple_atoi (flag.decimal seconds) ≡ some seconds)

-- the seconds that a policy prints
abbrev printed_seconds : RedfishCachePolicy → ℤ
printed_seconds (RedfishCachePolicy.time_based_cache d) = d.seconds
printed_seconds RedfishCachePolicy.not_set = pos 0
printed_seconds RedfishCachePolicy.no_cache = pos 0

printed_is_empty : (seconds : String) → is_empty ("time_based_cache" <> (":" <> seconds)) ≡ false
printed_is_empty seconds =
    ap is_empty (cons-append (Char.char 116 tt) "ime_based_cache" (":" <> seconds))

with_duration-cached :
    (seconds : ℤ) (before : RedfishCachePolicy)
    → with_duration "time_based_cache" (some seconds) before ≡ cached seconds before
with_duration-cached seconds RedfishCachePolicy.no_cache = refl
with_duration-cached seconds RedfishCachePolicy.not_set = refl
with_duration-cached seconds (RedfishCachePolicy.time_based_cache d) = refl

-- Where RE2 matches the text of a time-based policy and not a colon without digits, and the number
-- printed is read back: a time-based policy is parsed from its text with its seconds, a policy that
-- is not set becomes a time-based one of no seconds, the nanoseconds are those of the flag before,
-- and the text printed for no cache is refused.
pub parse_cache_policy-unparse :
    (flag : FlagText) (policy before : RedfishCachePolicy)
    → IsCacheMatched flag (printed_seconds policy)
    → parse_cache_policy flag (unparse_cache_policy flag policy) before ≡ reparsed policy before
unfolding parse_cache_policy unparse_cache_policy
parse_cache_policy-unparse flag RedfishCachePolicy.no_cache before h = rw (h.0) refl
parse_cache_policy-unparse flag RedfishCachePolicy.not_set before h =
    rw (printed_is_empty (flag.decimal (pos 0)), h.1, h.2)
      (ap (λ p. (true, p)) (with_duration-cached _ before))
parse_cache_policy-unparse flag (RedfishCachePolicy.time_based_cache d) before h =
    rw (printed_is_empty (flag.decimal d.seconds), h.1, h.2)
      (ap (λ p. (true, p)) (with_duration-cached _ before))
