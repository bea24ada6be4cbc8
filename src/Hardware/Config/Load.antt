-- ===== src/Hardware/Config/Load.antt =====
-- ocpdiag/core/hwinterface/client/node_client.cc: LoadConfigs and LoadConfig. The reading of a JSON
-- file into a message (JsonFileToMessage, which is protobuf's work) is a parameter.
use ocp_diag_core_cpp.Base.{
  String, is_empty, Bool, true, false, not, List, [], ◌∷◌, ◌≡◌, ◌≢◌, ◌∙◌, if◌then◌else◌,
}
use ocp_diag_core_cpp.Hardware.Status.{Code, StatusOr, ◌>>=◌, value, error, >>=-eq-value, value-inj}
use ocp_diag_core_cpp.Hardware.Config.Override.Targets.{any_of, apply_node_override-IsOverridden}
use ocp_diag_core_cpp.Hardware.Config.{EntityConfiguration, NodeOverride}
use ocp_diag_core_cpp.Hardware.Config.Override.{
  Flags, apply_multi_node_overrides, apply_single_node_override,
}

abbrev is_nil {ℓ} : {A : Type ℓ} → List A → Bool
is_nil [] = true
is_nil (x ∷ xs) = false

abbrev at_most_one {ℓ} : {A : Type ℓ} → List A → Bool
at_most_one [] = true
at_most_one (x ∷ []) = true
at_most_one (x ∷ y ∷ zs) = false

-- what follows the reading of the file
unfoldable override_configs : Flags → List EntityConfiguration → List EntityConfiguration
unfolding apply_multi_node_overrides apply_single_node_override
override_configs f cs =
    let overridden = apply_multi_node_overrides f.mhi_config cs in
    if not (is_nil f.mhi_config)
    then overridden
    else if at_most_one overridden
    then apply_single_node_override f overridden
    else overridden

module _ (json_file_to_message : String → StatusOr (List EntityConfiguration)) where
  unfoldable load_configs : Flags → StatusOr (List EntityConfiguration)
  unfolding override_configs
  load_configs f =
      (if is_empty f.hwinterface_config_file_path
        then value []
        else json_file_to_message f.hwinterface_config_file_path)
      >>= λ cs. value (override_configs f cs)

  abbrev only_one : List EntityConfiguration → StatusOr EntityConfiguration
  only_one [] = error Code.internal
  only_one (c ∷ []) = value c
  only_one (c ∷ d ∷ cs) = error Code.internal

  unfoldable load_config : Flags → StatusOr EntityConfiguration
  unfolding load_configs
  load_config f = load_configs f >>= only_one

  load_configs-value :
      (f : Flags) {cs : List EntityConfiguration}
      → load_configs f ≡ value cs
      → (read : List EntityConfiguration) × (override_configs f read ≡ cs)
  unfolding load_configs
  load_configs-value f h =
      let found =
        >>=-eq-value
          (if is_empty f.hwinterface_config_file_path
            then value []
            else json_file_to_message f.hwinterface_config_file_path)
          (λ cs. value (override_configs f cs)) h in
      (found.0, value-inj found.1)

some_of→nonempty :
    (p : EntityConfiguration → Bool) (cs : List EntityConfiguration) → any_of p cs ≡ true → cs ≢ []
some_of→nonempty p [] h = cc
some_of→nonempty p (c ∷ cs) h = λ e. cc

apply_multi-nonempty :
    (os : List NodeOverride) (cs : List EntityConfiguration)
    → cs ≢ []
    → apply_multi_node_overrides os cs ≢ []
unfolding apply_multi_node_overrides
apply_multi-nonempty [] cs h = h
apply_multi-nonempty (o ∷ os) cs h =
    apply_multi-nonempty os _ (some_of→nonempty _ _ (apply_node_override-IsOverridden o cs).1)

choose-nonempty :
    (os : List NodeOverride) (f : Flags) (cs : List EntityConfiguration)
    → (if not (is_nil os)
        then apply_multi_node_overrides os cs
        else if at_most_one (apply_multi_node_overrides os cs)
        then apply_single_node_override f (apply_multi_node_overrides os cs)
        else apply_multi_node_overrides os cs)
      ≢ []
unfolding apply_multi_node_overrides apply_single_node_override
choose-nonempty [] f [] = λ e. cc
choose-nonempty [] f (c ∷ []) = λ e. cc
choose-nonempty [] f (c ∷ d ∷ cs) = λ e. cc
choose-nonempty (o ∷ os) f cs =
    apply_multi-nonempty os _ (some_of→nonempty _ _ (apply_node_override-IsOverridden o cs).1)

override_configs-nonempty : (f : Flags) (cs : List EntityConfiguration) → override_configs f cs ≢ []
unfolding override_configs
override_configs-nonempty f cs = choose-nonempty f.mhi_config f cs

-- Loading gives no empty list of configurations: with no file and no flag there is one, for the
-- local host.
load_configs-nonempty :
    (json_file_to_message : String → StatusOr (List EntityConfiguration)) (f : Flags)
    (cs : List EntityConfiguration)
    → load_configs json_file_to_message f ≡ value cs
    → cs ≢ []
load_configs-nonempty json_file_to_message f cs h =
    let found = load_configs-value json_file_to_message f h in
    λ e. override_configs-nonempty f found.0 (found.1 ∙ e)
