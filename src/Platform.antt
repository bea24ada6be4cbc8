-- ===== src/Platform.antt =====
-- What the results library calls of C++ floats, absl, protobuf and the clock, as parameters. The
-- laws are what those libraries document.
use ocp_diag_core_cpp.Base.{ℕ, String, Bool, List, Option, ◌≡◌}

-- What the `has_` tests of a google.protobuf.Value find in its oneof. A value with no field set,
-- or with a null or struct, is `unset` here: the code tests for neither.
pub data ValueKind (Double Value : Type 0) : Type 0 where
  unset : ValueKind Double Value
  string_kind : String → ValueKind Double Value
  number_kind : Double → ValueKind Double Value
  bool_kind : Bool → ValueKind Double Value
  list_kind : List Value → ValueKind Double Value

pub record Platform : Type 1 where
  pub Double : Type 0
  pub double_le : Double → Double → Bool
  pub double_lt : Double → Double → Bool
  -- `absl::StrCat` of one integer that is not negative, which is its decimal text
  pub str_cat : ℕ → String
  pub str_cat_injective : (m n : ℕ) → str_cat m ≡ str_cat n → m ≡ n
  -- `absl::StrCat` of texts
  pub str_cat_texts : List String → String
  -- google.protobuf.Value: a default value, and a default value with one field set
  pub Value : Type 0
  pub default_value : Value
  pub set_string_value : String → Value
  pub set_number_value : Double → Value
  pub set_bool_value : Bool → Value
  pub set_list_value : List Value → Value
  pub value_kind : Value → ValueKind Double Value
  pub kind_default : value_kind default_value ≡ ValueKind.unset
  pub kind_string : (s : String) → value_kind (set_string_value s) ≡ ValueKind.string_kind s
  pub kind_number : (d : Double) → value_kind (set_number_value d) ≡ ValueKind.number_kind d
  pub kind_bool : (b : Bool) → value_kind (set_bool_value b) ≡ ValueKind.bool_kind b
  pub kind_list : (vs : List Value) → value_kind (set_list_value vs) ≡ ValueKind.list_kind vs
  -- google.protobuf.Struct, and its conversions from and to JSON text
  pub Struct : Type 0
  pub default_struct : Struct
  pub json_to_struct : String → Option Struct
  pub struct_to_json : Struct → Option String
  -- google.protobuf.Timestamp, the system's timeval, and the n-th reading of the clock
  pub Timestamp : Type 0
  pub Timeval : Type 0
  pub default_timestamp : Timestamp
  pub timeval_to_timestamp : Timeval → Timestamp
  pub timestamp_to_timeval : Timestamp → Timeval
  pub clock : ℕ → Timestamp
