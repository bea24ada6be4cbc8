-- ===== src/Validate/Spec.antt =====
-- What the checks of struct_validators.cc accept, as predicates that name no check.
use ocp_diag_core_cpp.Base.{
  ℕ, String, is_empty, false, ◌≡◌, ◌≢◌, ◌↔◌, refl, List, [], ◌∷◌, length, All, Option, none, some,
  arith,
}
use ocp_diag_core_cpp.Outcome.{ok, crash, undefined}
use ocp_diag_core_cpp.Platform.{Platform}
use ocp_diag_core_cpp.Model.Input.{
  ValidatorType, Subcomponent, Variant, index, string, double, bool, Validator,
  MeasurementSeriesStart, Measurement,
}
use ocp_diag_core_cpp.Validate.{
  validate_optional, check_same_type, check_for_type, validate_validator, check_validators,
  validate_series_start, validate_measurement, check_series_validators,
}

abbrev pub NonEmpty : String → Type 0
NonEmpty s = is_empty s ≡ false

abbrev pub IsNamed : Option Subcomponent → Type 0
IsNamed none = Unit
IsNamed (some s) = NonEmpty s.name

module _ ⦃P : Platform⦄ where
  abbrev IsDouble : Variant → Type 0
  IsDouble (string s) = ⊥
  IsDouble (double d) = Unit
  IsDouble (bool b) = ⊥

  abbrev IsString : Variant → Type 0
  IsString (string s) = Unit
  IsString (double d) = ⊥
  IsString (bool b) = ⊥

  abbrev IsOrdered : Variant → Type 0
  IsOrdered (string s) = Unit
  IsOrdered (double d) = Unit
  IsOrdered (bool b) = ⊥

  -- which values each type of validator takes, given the first and the rest
  abbrev Takes : ValidatorType → Variant → List Variant → Type 0
  Takes ValidatorType.unspecified v vs = ⊥
  Takes ValidatorType.equal v vs = vs ≡ []
  Takes ValidatorType.not_equal v vs = vs ≡ []
  Takes ValidatorType.less_than v vs = (vs ≡ []) × IsDouble v
  Takes ValidatorType.less_than_or_equal v vs = (vs ≡ []) × IsDouble v
  Takes ValidatorType.greater_than v vs = (vs ≡ []) × IsDouble v
  Takes ValidatorType.greater_than_or_equal v vs = (vs ≡ []) × IsDouble v
  Takes ValidatorType.regex_match v vs = IsString v
  Takes ValidatorType.regex_no_match v vs = IsString v
  Takes ValidatorType.in_set v vs = IsOrdered v
  Takes ValidatorType.not_in_set v vs = IsOrdered v

  abbrev SameType : Variant → Variant → Type 0
  SameType v w = index v ≡ index w

  abbrev pub WellTyped : ValidatorType → List Variant → Type 0
  WellTyped t [] = ⊥
  WellTyped t (v ∷ vs) = All (λ w. index w ≡ index v) vs × Takes t v vs

  -- A validator has values, all of one type, that its own type takes.
  abbrev pub IsValid : Validator → Type 0
  IsValid v = WellTyped v.type v.value

  -- the type of a validator's values, where it has any
  abbrev pub HasIndex : ℕ → List Variant → Type 0
  HasIndex i [] = ⊥
  HasIndex i (v ∷ vs) = i ≡ index v

  abbrev pub AgreeWith : List Variant → List Validator → Type 0
  AgreeWith [] vs = ⊥
  AgreeWith (x ∷ xs) vs = All (λ v. IsValid v × HasIndex (index x) v.value) vs

  -- All validators are valid, and of the type of the first one's values.
  abbrev pub AgreeOn : List Validator → Type 0
  AgreeOn [] = Unit
  AgreeOn (v ∷ vs) = AgreeWith v.value (v ∷ vs)

  check_same_type_iff :
      (i : ℕ) (vs : List Variant) → (check_same_type i vs ≡ ok tt) ↔ All (λ w. index w ≡ i) vs
  unfolding check_same_type
  check_same_type_iff i [] = (λ _. tt, λ _. refl)
  check_same_type_iff i (v ∷ vs) = (
    (λ h. ground (arith, check_same_type_iff i vs)),
    (λ h. ground (arith, check_same_type_iff i vs)),
  )

  check_for_type_iff :
      (t : ValidatorType) (v : Variant) (vs : List Variant)
      → (check_for_type t v (length (v ∷ vs)) ≡ ok tt) ↔ Takes t v vs
  unfolding check_for_type
  check_for_type_iff t v [] = (λ h. ground arith, λ h. ground arith)
  check_for_type_iff t v (w ∷ vs) = (λ h. ground arith, λ h. ground arith)

  -- `ValidateStructOrDie(Validator)` passes exactly the validators that have values, all of one
  -- type, which the validator's own type takes.
  pub validate_validator_iff : (v : Validator) → (validate_validator v ≡ ok tt) ↔ IsValid v
  unfolding validate_validator
  validate_validator_iff v = go v.type v.value v.name
    where
      go :
          (t : ValidatorType) (vs : List Variant) (n : String)
          → (validate_validator (record { type = t; value = vs; name = n }) ≡ ok tt)
            ↔ WellTyped t vs
      go t [] n = (λ h. ground arith, λ h. ground arith)
      go t (w ∷ vs) n = (
        (λ h. ground (arith, check_same_type_iff (index w) vs, check_for_type_iff t w vs)),
        (λ h. ground (arith, check_same_type_iff (index w) vs, check_for_type_iff t w vs)),
      )

  check_validators_iff :
      (i : ℕ) (vs : List Validator)
      → (check_validators i vs ≡ ok tt) ↔ All (λ v. IsValid v × HasIndex i v.value) vs
  unfolding check_validators
  check_validators_iff i [] = (λ _. tt, λ _. refl)
  check_validators_iff i (v ∷ vs) = go v.type v.value v.name (check_validators_iff i vs)
    where
      go :
          (t : ValidatorType) (xs : List Variant) (n : String)
          → (check_validators i vs ≡ ok tt) ↔ All (λ v. IsValid v × HasIndex i v.value) vs
          → (check_validators i (record { type = t; value = xs; name = n } ∷ vs) ≡ ok tt)
            ↔ (WellTyped t xs × HasIndex i xs) × All (λ v. IsValid v × HasIndex i v.value) vs
      go t [] n ih = (λ h. ground arith, λ h. ground arith)
      go t (x ∷ xs) n ih = (
        (λ h. ground (arith, check_same_type_iff (index x) xs, check_for_type_iff t x xs)),
        (λ h. ground (arith, check_same_type_iff (index x) xs, check_for_type_iff t x xs)),
      )

  validate_optional_iff : (o : Option Subcomponent) → (validate_optional o ≡ ok tt) ↔ IsNamed o
  unfolding validate_optional
  validate_optional_iff none = (λ _. tt, λ _. refl)
  validate_optional_iff (some s) = (λ h. ground arith, λ h. ground arith)

  -- `ValidateStructOrDie(Measurement)` passes exactly the measurements that have a name, whose
  -- subcomponent, if any, has a name, and whose validators are all valid and of the value's type.
  pub validate_measurement_iff :
      (m : Measurement)
      → (validate_measurement m ≡ ok tt)
        ↔ NonEmpty m.name
          × IsNamed m.subcomponent
          × All (λ v. IsValid v × HasIndex (index m.value) v.value) m.validators
  unfolding validate_measurement
  validate_measurement_iff m = (
    (λ h. ground (
      arith,
      validate_optional_iff m.subcomponent,
      check_validators_iff (index m.value) m.validators,
    )),
    (λ h. ground (
      arith,
      validate_optional_iff m.subcomponent,
      check_validators_iff (index m.value) m.validators,
    )),
  )

  -- The first validator exists and has no value.
  abbrev pub StartsBare : List Validator → Type 0
  StartsBare [] = ⊥
  StartsBare (v ∷ vs) = v.value ≡ []

  check_same_type-defined : (i : ℕ) (vs : List Variant) → check_same_type i vs ≢ crash undefined
  unfolding check_same_type
  check_same_type-defined i [] h = cc
  check_same_type-defined i (v ∷ vs) h = ground (arith, check_same_type-defined i vs)

  check_for_type-defined :
      (t : ValidatorType) (v : Variant) (n : ℕ) → check_for_type t v n ≢ crash undefined
  unfolding check_for_type
  check_for_type-defined t v n h = ground arith

  check_validators-defined : (i : ℕ) (vs : List Validator) → check_validators i vs ≢ crash undefined
  unfolding check_validators
  check_validators-defined i [] = λ (h : ok tt ≡ crash undefined). cc
  check_validators-defined i (v ∷ vs) = go v.type v.value v.name (check_validators-defined i vs)
    where
      go :
          (t : ValidatorType) (xs : List Variant) (n : String)
          → check_validators i vs ≢ crash undefined
          → check_validators i (record { type = t; value = xs; name = n } ∷ vs) ≢ crash undefined
      go t [] n ih h = cc
      go t (x ∷ xs) n ih h = ground (
        arith,
        check_same_type-defined (index x) (x ∷ xs),
        check_for_type-defined t x (length (x ∷ xs)),
      )

  check_series-undefined_iff :
      (vs : List Validator) → (check_series_validators vs ≡ crash undefined) ↔ StartsBare vs
  check_series-undefined_iff [] = (λ h. cc, λ h. absurd h)
  check_series-undefined_iff (v ∷ vs) = go v.type v.value v.name
    where
      go :
          (t : ValidatorType) (xs : List Variant) (n : String)
          → let w : Validator = record { type = t; value = xs; name = n } in
            (check_series_validators (w ∷ vs) ≡ crash undefined) ↔ (xs ≡ [])
      go t [] n = (λ h. refl, λ h. refl)
      go t (x ∷ xs) n = (
        (λ h. absurd (
            check_validators-defined (index x) (record { type = t; value = x ∷ xs; name = n } ∷ vs)
              h)),
        (λ h. cc),
      )

  check_series_iff : (vs : List Validator) → (check_series_validators vs ≡ ok tt) ↔ AgreeOn vs
  check_series_iff [] = (λ h. tt, λ h. refl)
  check_series_iff (v ∷ vs) = go v.type v.value v.name
    where
      go :
          (t : ValidatorType) (xs : List Variant) (n : String)
          → let w : Validator = record { type = t; value = xs; name = n } in
            (check_series_validators (w ∷ vs) ≡ ok tt) ↔ AgreeOn (w ∷ vs)
      go t [] n = (λ h. cc, λ h. absurd h)
      go t (x ∷ xs) n =
          check_validators_iff (index x) (record { type = t; value = x ∷ xs; name = n } ∷ vs)

  -- `ValidateStructOrDie(MeasurementSeriesStart)` reads the first value of the first validator
  -- before it has checked that there is one: its behaviour is undefined exactly on a start that has
  -- a name, whose subcomponent, if any, has a name, and whose first validator exists and has no
  -- value.
  pub validate_series_start-undefined_iff :
      (s : MeasurementSeriesStart)
      → (validate_series_start s ≡ crash undefined)
        ↔ NonEmpty s.name × IsNamed s.subcomponent × StartsBare s.validators
  unfolding validate_series_start validate_optional
  validate_series_start-undefined_iff s = (
    (λ h. ground (arith, check_series-undefined_iff s.validators)),
    (λ h. ground (arith, check_series-undefined_iff s.validators)),
  )

  -- `ValidateStructOrDie(MeasurementSeriesStart)` passes exactly the starts that have a name, whose
  -- subcomponent, if any, has a name, and whose validators are all valid and of one type.
  pub validate_series_start_iff :
      (s : MeasurementSeriesStart)
      → (validate_series_start s ≡ ok tt)
        ↔ NonEmpty s.name × IsNamed s.subcomponent × AgreeOn s.validators
  unfolding validate_series_start validate_optional
  validate_series_start_iff s = (
    (λ h. ground (arith, check_series_iff s.validators)),
    (λ h. ground (arith, check_series_iff s.validators)),
  )
