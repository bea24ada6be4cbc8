-- ===== src/InputHelpers/Limits.antt =====
-- What the validators of the limits accept.
use ocp_diag_core_cpp.Base.{
  if◌then◌else◌, String, Bool, true, false, ◌&&◌, ◌≡◌, List, [], ◌∷◌, arith,
}
use ocp_diag_core_cpp.Outcome.{Result, ok, crash, check_failed}
use ocp_diag_core_cpp.Platform.{Platform}
use ocp_diag_core_cpp.Model.Input.{ValidatorType, Validator, Variant, double}
use ocp_diag_core_cpp.Validate.{
  validate_validator, check_validators, check_same_type, check_for_type,
}
use ocp_diag_core_cpp.InputHelpers.{
  validate_within_inclusive_limits, validate_within_exclusive_limits,
}

module _ ⦃P : Platform⦄ where
  open P use {Double, double_le, double_lt}

  -- whether a number meets a comparison with a limit
  abbrev meets : ValidatorType → Double → Double → Bool
  meets ValidatorType.less_than limit x = double_lt x limit
  meets ValidatorType.less_than_or_equal limit x = double_le x limit
  meets ValidatorType.greater_than limit x = double_lt limit x
  meets ValidatorType.greater_than_or_equal limit x = double_le limit x
  meets _ limit x = false

  abbrev meets_value : ValidatorType → List Variant → Double → Bool
  meets_value t (double limit ∷ []) x = meets t limit x
  meets_value t _ x = false

  -- whether a number meets all of a list of comparisons
  abbrev pub accepts : List Validator → Double → Bool
  accepts [] x = true
  accepts (v ∷ vs) x = meets_value v.type v.value x && accepts vs x

  abbrev pub acceptance : Result (List Validator) → Double → Result Bool
  acceptance (ok vs) x = ok (accepts vs x)
  acceptance (crash c) x = crash c

  -- The inclusive limits accept exactly the numbers from the lower to the upper limit, where the
  -- lower is not above the upper; else the call fails its check.
  pub inclusive_limits_accept :
      (lower upper x : Double) (name : String)
      → acceptance (validate_within_inclusive_limits lower upper name) x ≡ (
          if double_le lower upper
          then ok (double_le lower x && double_le x upper)
          else crash check_failed)
  unfolding validate_within_inclusive_limits
  inclusive_limits_accept lower upper x name = ground arith

  -- The exclusive limits accept exactly the numbers from the lower limit, which is included, to
  -- below the upper limit, where the lower is below the upper; else the call fails its check.
  pub exclusive_limits_accept :
      (lower upper x : Double) (name : String)
      → acceptance (validate_within_exclusive_limits lower upper name) x ≡ (
          if double_lt lower upper
          then ok (double_le lower x && double_lt x upper)
          else crash check_failed)
  unfolding validate_within_exclusive_limits
  exclusive_limits_accept lower upper x name = ground arith

  -- where a list of validators was made, it is valid for a measurement of a number
  abbrev Fits : Result (List Validator) → Type 0
  Fits (ok vs) = check_validators 1 vs ≡ ok tt
  Fits (crash c) = c ≡ check_failed

  -- The validators that the limits make, where their check holds, pass the validation of a
  -- measurement of a number.
  pub limits_fit :
      (lower upper : Double) (name : String)
      → Fits (validate_within_inclusive_limits lower upper name)
        × Fits (validate_within_exclusive_limits lower upper name)
  unfolding validate_within_inclusive_limits validate_within_exclusive_limits check_validators
      validate_validator check_same_type check_for_type
  limits_fit lower upper name = (ground arith, ground arith)
