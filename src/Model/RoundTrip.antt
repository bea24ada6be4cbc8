-- ===== src/Model/RoundTrip.antt =====
-- What a caller passes to the library is what a reader of the output gets: struct_to_proto.cc
-- followed by proto_to_struct.cc. JSON texts come back as protobuf prints them.
use ocp_diag_core_cpp.Base.{
  ℕ, String, ◌∙◌, ◌≡◌, ◌≢◌, refl, ap, List, [], ◌∷◌, map, All, Option, none, some,
}
use ocp_diag_core_cpp.Outcome.{ok, ◌>>=◌, map_each}
use ocp_diag_core_cpp.Platform.{Platform}
use ocp_diag_core_cpp.Model.Input.{
  Subcomponent, Diagnosis, Log, File, Variant, string, double, bool, Validator, ValidatorType,
  index, Measurement,
}
use ocp_diag_core_cpp.Model.Output.{
  HardwareInfoOutput, SoftwareInfoOutput, DiagnosisOutput, MeasurementOutput,
}
use ocp_diag_core_cpp.Model.Enums.{
  validator_type-cast, proto_to_validator_type, validator_type_to_proto, software_type-cast,
  subcomponent_type-cast, diagnosis_type-cast, log_severity-cast,
}
use ocp_diag_core_cpp.Model.ToProto.{
  hardware_info_to_proto, software_info_to_proto, optional_to_proto, diagnosis_to_proto,
  file_to_proto, log_to_proto, variant_to_proto, values_to_proto, validator_to_proto,
  hardware_info_id_of, json_to_proto_or_die, measurement_to_proto,
}
use ocp_diag_core_cpp.Model.FromProto.{
  proto_to_hardware_info, proto_to_software_info, proto_to_optional, proto_to_diagnosis,
  proto_to_file, proto_to_log,
}
use ocp_diag_core_cpp.Model.FromProto.Values.{
  proto_to_variant, proto_to_validator, proto_to_json_or_die, kind_to_values, value_of,
}
use ocp_diag_core_cpp.Model.FromProto.Artifacts.{proto_to_measurement}
use ocp_diag_core_cpp.Validate.{validate_measurement}
use ocp_diag_core_cpp.Validate.Spec.{WellTyped, IsValid, HasIndex, validate_measurement_iff}

-- A hardware info comes back as it was.
hardware_info-round_trip :
    (h : HardwareInfoOutput) → proto_to_hardware_info (hardware_info_to_proto h) ≡ h
unfolding proto_to_hardware_info hardware_info_to_proto
hardware_info-round_trip h = refl

software_info-round_trip :
    (s : SoftwareInfoOutput) → proto_to_software_info (software_info_to_proto s) ≡ s
unfolding proto_to_software_info software_info_to_proto
software_info-round_trip s =
    ap (λ t. record s { info = record s.info { software_type = t } })
      (software_type-cast s.info.software_type)

file-round_trip : (f : File) → proto_to_file (file_to_proto f) ≡ f
unfolding proto_to_file file_to_proto
file-round_trip f = refl

log-round_trip : (l : Log) → proto_to_log (log_to_proto l) ≡ l
unfolding proto_to_log log_to_proto
log-round_trip l = ap (λ t. record l { severity = t }) (log_severity-cast l.severity)

subcomponent-round_trip : (o : Option Subcomponent) → proto_to_optional (optional_to_proto o) ≡ o
unfolding proto_to_optional optional_to_proto
subcomponent-round_trip none = refl
subcomponent-round_trip (some s) =
    ap (λ t. some (record s { type = t })) (subcomponent_type-cast s.type)

abbrev diagnosis_output : Diagnosis → DiagnosisOutput
diagnosis_output d = record {
  verdict = d.verdict;
  type = d.type;
  message = d.message;
  hardware_info_id = hardware_info_id_of d.hardware_info;
  subcomponent = d.subcomponent;
}

-- A diagnosis comes back as it was, the hardware info as its id.
diagnosis-round_trip :
    (d : Diagnosis) → proto_to_diagnosis (diagnosis_to_proto d) ≡ diagnosis_output d
unfolding proto_to_diagnosis diagnosis_to_proto
diagnosis-round_trip d = rw (diagnosis_type-cast d.type, subcomponent-round_trip d.subcomponent)

module _ ⦃P : Platform⦄ where
  variant-round_trip : (v : Variant) → proto_to_variant (variant_to_proto v) ≡ ok v
  unfolding proto_to_variant variant_to_proto
  variant-round_trip (string s) = rw (P.kind_string s)
  variant-round_trip (double d) = rw (P.kind_number d)
  variant-round_trip (bool b) = rw (P.kind_bool b)

  variants-round_trip :
      (vs : List Variant) → map_each proto_to_variant (map variant_to_proto vs) ≡ ok vs
  variants-round_trip [] = refl
  variants-round_trip (v ∷ vs) = rw (variant-round_trip v, variants-round_trip vs)

  alone : (v : Variant) → (proto_to_variant (variant_to_proto v) >>= λ x. ok (x ∷ [])) ≡ ok (v ∷ [])
  alone v = ap (λ r. r >>= λ x. ok (x ∷ [])) (variant-round_trip v)

  values-round_trip :
      (vs : List Variant)
      → vs ≢ []
      → kind_to_values
          (P.value_kind (value_of (values_to_proto vs)))
          (value_of (values_to_proto vs))
        ≡ ok vs
  unfolding values_to_proto
  values-round_trip [] h = absurd (h refl)
  values-round_trip (string s ∷ []) h = rw (P.kind_string s) (alone (string s))
  values-round_trip (double d ∷ []) h = rw (P.kind_number d) (alone (double d))
  values-round_trip (bool b ∷ []) h = rw (P.kind_bool b) (alone (bool b))
  values-round_trip (v ∷ w ∷ vs) h =
      rw (P.kind_list (map variant_to_proto (v ∷ w ∷ vs))) (variants-round_trip (v ∷ w ∷ vs))

  -- A validator with at least one value comes back as it was.
  validator-round_trip :
      (v : Validator) → v.value ≢ [] → proto_to_validator (validator_to_proto v) ≡ ok v
  unfolding proto_to_validator validator_to_proto
  validator-round_trip v h =
      ap
        (λ r. r >>= λ vs. ok (record {
          type = proto_to_validator_type (validator_type_to_proto v.type);
          value = vs;
          name = v.name;
        }))
        (values-round_trip v.value h)
      ∙ ap (λ t. ok (record v { type = t })) (validator_type-cast v.type)

  validators-round_trip :
      (vs : List Validator)
      → All (λ v. v.value ≢ []) vs
      → map_each proto_to_validator (map validator_to_proto vs) ≡ ok vs
  validators-round_trip [] h = refl
  validators-round_trip (v ∷ vs) h = rw (validator-round_trip v h.0, validators-round_trip vs h.1)

  -- what a reader gets for a measurement whose metadata is printed as `json`
  abbrev pub measurement_output : Measurement → String → MeasurementOutput
  measurement_output m json = record {
    name = m.name;
    unit = m.unit;
    hardware_info_id = hardware_info_id_of m.hardware_info;
    subcomponent = m.subcomponent;
    validators = m.validators;
    value = m.value;
    metadata_json = json;
  }

  measurement-round_trip_with :
      (m : Measurement) (metadata : P.Struct) (json : String)
      → All (λ v. v.value ≢ []) m.validators
      → json_to_proto_or_die m.metadata_json ≡ ok metadata
      → proto_to_json_or_die metadata ≡ ok json
      → (measurement_to_proto m >>= proto_to_measurement) ≡ ok (measurement_output m json)
  unfolding measurement_to_proto proto_to_measurement
  measurement-round_trip_with m metadata json h e f = rw (
    e,
    validators-round_trip m.validators h,
    variant-round_trip m.value,
    f,
    subcomponent-round_trip m.subcomponent,
  )

  bare_is_invalid : (vs : List Variant) (t : ValidatorType) → WellTyped t vs → vs ≢ []
  bare_is_invalid [] t h = absurd h
  bare_is_invalid (v ∷ vs) t h = λ e. cc

  have_values :
      (i : ℕ) (vs : List Validator)
      → All (λ v. IsValid v × HasIndex i v.value) vs
      → All (λ v. v.value ≢ []) vs
  have_values i [] h = tt
  have_values i (v ∷ vs) h = (bare_is_invalid v.value v.type h.0.0, have_values i vs h.1)

  -- A measurement that passes validation, and whose metadata is valid JSON or empty, is written
  -- without dying, and what is written reads back as that measurement, with the hardware info as
  -- its id and the metadata as protobuf prints it.
  pub measurement-round_trip :
      (m : Measurement) (metadata : P.Struct) (json : String)
      → validate_measurement m ≡ ok tt
      → json_to_proto_or_die m.metadata_json ≡ ok metadata
      → proto_to_json_or_die metadata ≡ ok json
      → (measurement_to_proto m >>= proto_to_measurement) ≡ ok (measurement_output m json)
  measurement-round_trip m metadata json h e f =
      measurement-round_trip_with m metadata json
        (have_values (index m.value) m.validators ((validate_measurement_iff m).0 h).2) e f
