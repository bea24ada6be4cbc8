-- ===== src/Model/Equality/Decided.antt =====
-- The comparisons of texts, enumerations, tuples and vectors decide equality.
pub mod Structs
use text.Mathlib.Text.{◌==◌ as str_eq}
use ocp_diag_core_cpp.Base.{
  ℕ, ◌==◌, String, Bool, true, false, ◌&&◌, Option, none, some, List, [], ◌∷◌, ◌≡◌, refl, ap, sym,
  ◌∙◌, ◌↔◌, Bool-cases, inl, inr, eq_iff, arith,
}
use ocp_diag_core_cpp.Model.Input.{
  DiagnosisType, LogSeverity, SoftwareType, SubcomponentType, HardwareInfo, SoftwareInfo,
  PlatformInfo, Subcomponent, Log, File, Extension, TestRunStart,
}
use ocp_diag_core_cpp.Model.Output.{
  TestResult, TestStatus, MeasurementSeriesEndOutput, TestStepStartOutput, TestStepEndOutput,
  DiagnosisOutput, ErrorOutput, HardwareInfoOutput, SoftwareInfoOutput, DutInfoOutput,
  TestRunStartOutput, TestRunEndOutput, SchemaVersionOutput, TestRunVariant, TestRunArtifact,
}
use ocp_diag_core_cpp.Model.Equality.{
  Tie, ◌&◌, Same, ◌then_same◌, same_option, same_list, same_nat, same_bool, same_texts,
  diagnosis_type_number, severity_number, software_type_number, subcomponent_type_number,
  status_number, result_number, by_number, same_subcomponent, same_platform_info, same_log,
  same_file, same_extension, same_series_end, same_step_start, same_step_end, same_diagnosis,
  same_error, same_hardware_info, same_software_info, same_dut_info, same_run_start, same_run_end,
  same_schema_version, same_run_variant, same_run_artifact,
}

-- The comparison is true of equal values only, and of all of them.
abbrev pub Decides : {A : Type 0} → Same A → Type 0
Decides {A} s = (a b : A) → (s a b ≡ true) ↔ (a ≡ b)

and-true : (x y : Bool) → (x && y) ≡ true → (x ≡ true) × (y ≡ true)
and-true true y h = (refl, h)
and-true false y h = cc

str_eq-Decides : Decides str_eq
str_eq-Decides a b = eq_iff a b

then_same-Decides :
    {A B : Type 0} (s : Same A) (t : Same B) → Decides s → Decides t → Decides (s then_same t)
then_same-Decides s t ds dt a b = (
  (λ h.
      let both = and-true (s a.head b.head) (t a.rest b.rest) h in
      ap (λ x. x & a.rest) ((ds a.head b.head).0 both.0)
      ∙ ap (λ y. b.head & y) ((dt a.rest b.rest).0 both.1)),
  (λ e.
      rw ((ds a.head b.head).1 (ap (λ x. x.head) e), (dt a.rest b.rest).1 (ap (λ x. x.rest) e))
        refl),
)

-- A comparison by a part that determines the whole decides if that of the parts does.
by_part-Decides :
    {A B : Type 0} {s : Same B} (part : A → B) (whole : B → A)
    → ((a : A) → whole (part a) ≡ a)
    → Decides s
    → Decides (λ a b. s (part a) (part b))
by_part-Decides part whole back d a b = (
  (λ h. sym (back a) ∙ ap whole ((d (part a) (part b)).0 h) ∙ back b),
  (λ e. (d (part a) (part b)).1 (ap part e)),
)

same_nat-Decides : Decides same_nat
same_nat-Decides a b = (λ h. ground arith, λ h. ground arith)

same_bool-Decides : Decides same_bool
same_bool-Decides a b = (λ h. ground arith, λ h. ground arith)

same_option-Decides : {A : Type 0} (s : Same A) → Decides s → Decides (same_option s)
same_option-Decides s d none none = (λ h. refl, λ h. refl)
same_option-Decides s d none (some b) = (λ h. cc, λ h. cc)
same_option-Decides s d (some a) none = (λ h. cc, λ h. cc)
same_option-Decides s d (some a) (some b) =
    ((λ h. ap some ((d a b).0 h)), (λ e. (d a b).1 (ap (λ o. or_this a o) e)))
  where
    or_this : {A : Type 0} → A → Option A → A
    or_this a none = a
    or_this a (some b) = b

head_or : {A : Type 0} → A → List A → A
head_or a [] = a
head_or a (b ∷ bs) = b

tail_of : {A : Type 0} → List A → List A
tail_of [] = []
tail_of (b ∷ bs) = bs

same_list-Decides : {A : Type 0} (s : Same A) → Decides s → Decides (same_list s)
unfolding head_or tail_of
same_list-Decides s d [] [] = (λ h. refl, λ h. refl)
same_list-Decides s d [] (b ∷ ys) = (λ h. cc, λ h. cc)
same_list-Decides s d (a ∷ xs) [] = (λ h. cc, λ h. cc)
same_list-Decides s d (a ∷ xs) (b ∷ ys) = (
  (λ h.
      let both = and-true (s a b) (same_list s xs ys) h in
      ap (λ x. x ∷ xs) ((d a b).0 both.0)
      ∙ ap (λ zs. b ∷ zs) ((same_list-Decides s d xs ys).0 both.1)),
  (λ e. rw ((d a b).1 (ap (head_or a) e), (same_list-Decides s d xs ys).1 (ap tail_of e)) refl),
)

diagnosis_type-Decides : Decides (by_number diagnosis_type_number)
diagnosis_type-Decides a b = (λ h. ground arith, λ h. ground arith)

severity-Decides : Decides (by_number severity_number)
severity-Decides a b = (λ h. ground arith, λ h. ground arith)

software_type-Decides : Decides (by_number software_type_number)
software_type-Decides a b = (λ h. ground arith, λ h. ground arith)

subcomponent_type-Decides : Decides (by_number subcomponent_type_number)
subcomponent_type-Decides a b = (λ h. ground arith, λ h. ground arith)

status-Decides : Decides (by_number status_number)
status-Decides a b = (λ h. ground arith, λ h. ground arith)

result-Decides : Decides (by_number result_number)
result-Decides a b = (λ h. ground arith, λ h. ground arith)
