-- ===== src/InputHelpers.antt =====
-- ocpdiag/core/results/data_model/input_model_helpers.cc. `argv` is the list of the arguments; with
-- none, `argv[0]` is null, and making a string of it is undefined.
pub mod Limits
use Prim.Native.Char.{Char, code}
use ocp_diag_core_cpp.Base.{◌==◌, String, is_empty, Bool, true, false, List, [], ◌∷◌, if◌then◌else◌}
use ocp_diag_core_cpp.Outcome.{Result, ok, crash, undefined, check, ◌>>=◌, ◌>>◌}
use ocp_diag_core_cpp.Platform.{Platform}
use ocp_diag_core_cpp.Model.Input.{ValidatorType, Validator, double}

module _ ⦃P : Platform⦄ where
  open P use {Double, double_le, double_lt, str_cat_texts}

  abbrev append_arguments : String → List String → String
  append_arguments line [] = line
  append_arguments line (a ∷ args) = append_arguments (str_cat_texts (line ∷ " " ∷ a ∷ [])) args

  unfoldable command_line_string_from_main_args : List String → Result String
  command_line_string_from_main_args [] = crash undefined
  command_line_string_from_main_args (program ∷ args) = ok (append_arguments program args)

  -- `while (argv[i][0] == '-') argv[i]++`
  abbrev skip_dashes : String → String
  skip_dashes String.[] = ""
  skip_dashes (String.◌∷◌ c s) =
      let rest = skip_dashes s in if code c == 45 then rest else String.◌∷◌ c s

  abbrev entry : String → String → String
  entry key value = str_cat_texts ("\"" ∷ skip_dashes key ∷ "\":\"" ∷ value ∷ "\"" ∷ [])

  -- the loop over the pairs of a key and a value; the value of a last key is a null pointer
  abbrev append_parameters : String → String → List String → String
  append_parameters null_text json [] = json
  append_parameters null_text json (key ∷ []) = str_cat_texts (json ∷ entry key null_text ∷ [])
  append_parameters null_text json (key ∷ value ∷ []) = str_cat_texts (json ∷ entry key value ∷ [])
  append_parameters null_text json (key ∷ value ∷ next ∷ args) =
      append_parameters null_text (str_cat_texts (json ∷ entry key value ∷ "," ∷ [])) (next ∷ args)

  -- `null_text` is what absl makes of a null pointer.
  unfoldable parameter_json_from_main_args : String → List String → String
  parameter_json_from_main_args null_text [] = "{}"
  parameter_json_from_main_args null_text (program ∷ []) = "{}"
  parameter_json_from_main_args null_text (program ∷ key ∷ args) =
      str_cat_texts (append_parameters null_text "{" (key ∷ args) ∷ "}" ∷ [])

  abbrev limit_name : String → String → String
  limit_name name suffix = if is_empty name then "" else str_cat_texts (name ∷ suffix ∷ [])

  unfoldable pub validate_within_inclusive_limits :
      Double → Double → String → Result (List Validator)
  validate_within_inclusive_limits lower_limit upper_limit name = do
    check (double_le lower_limit upper_limit)
    ok (
        record {
          type = ValidatorType.greater_than_or_equal;
          value = double lower_limit ∷ [];
          name = limit_name name " Lower";
        }
        ∷ record {
          type = ValidatorType.less_than_or_equal;
          value = double upper_limit ∷ [];
          name = limit_name name " Upper";
        }
        ∷ [])

  unfoldable pub validate_within_exclusive_limits :
      Double → Double → String → Result (List Validator)
  validate_within_exclusive_limits lower_limit upper_limit name = do
    check (double_lt lower_limit upper_limit)
    ok (
        record {
          type = ValidatorType.greater_than_or_equal;
          value = double lower_limit ∷ [];
          name = limit_name name " Lower";
        }
        ∷ record {
          type = ValidatorType.less_than;
          value = double upper_limit ∷ [];
          name = limit_name name " Upper";
        }
        ∷ [])
