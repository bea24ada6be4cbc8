-- ===== src/Compat.antt =====
-- ocpdiag/core/compat/proto_utils.cc: the validation and the decoding of google.protobuf.Duration. The
-- making of an absl::Duration of seconds and nanoseconds is a parameter.
pub mod Spec
use ocp_diag_core_cpp.Base.{ℤ, pos, negsuc, leb_ℤ, Bool, true, not, ◌||◌, ◌&&◌, ◌≡◌, ◌↔◌, arith}
use ocp_diag_core_cpp.Hardware.Status.{Code, StatusOr, ◌>>=◌, ◌>>◌, require, value}
use ocp_diag_core_cpp.Hardware.Config.{Duration}

abbrev ltb_ℤ : ℤ → ℤ → Bool
ltb_ℤ a b = not (leb_ℤ b a)

unfoldable pub validate_duration : Duration → StatusOr (Unit {0})
validate_duration d =
    require (not (ltb_ℤ d.seconds (negsuc 315575999999) || ltb_ℤ (pos 315576000000) d.seconds))
      Code.invalid_argument
    >> require (not (ltb_ℤ d.nanos (negsuc 999999998) || ltb_ℤ (pos 999999999) d.nanos))
        Code.invalid_argument
    >> require
        (not (
          (ltb_ℤ d.seconds (pos 0) && ltb_ℤ (pos 0) d.nanos)
          || (ltb_ℤ (pos 0) d.seconds && ltb_ℤ d.nanos (pos 0))))
        Code.invalid_argument

unfoldable decode_duration_proto : {D : Type 0} → (ℤ → ℤ → D) → Duration → StatusOr D
unfolding validate_duration
decode_duration_proto make d = validate_duration d >> value (make d.seconds d.nanos)
