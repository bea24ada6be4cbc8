-- ===== src/Hardware/Client.antt =====
-- ocpdiag/core/hwinterface/client/node_client.cc: NodeClient, its making and the choice of a backend
-- for a method. The builders of the backends (builder_resolver) and of the host adapters are
-- parameters; a backend is of a type B, a host adapter of a type A.
pub mod Method
pub mod Calls
pub mod Sound
pub mod Choice
pub mod Serving
use ocp_diag_core_cpp.Base.{
  ℤ, pos, eq_ℤ, String, is_empty, Bool, true, false, not, Option, none, some, List, [], ◌∷◌, snoc,
  lookup, put, if◌then◌else◌,
}
use ocp_diag_core_cpp.Hardware.Status.{Code, StatusOr, ◌>>=◌, value, error, thrown, undefined}
use ocp_diag_core_cpp.Hardware.Config.{BackendType, EntityConfiguration, same_backend}
use ocp_diag_core_cpp.Hardware.Client.Method.{BackendMethod, method_number}

pub record Client (B A : Type 0) : Type 0 where
  pub config : EntityConfiguration
  pub backends : List (BackendType × B)
  pub host_adapter : Option A

-- the map of a backend type to its builder
abbrev pub Builders : Type 0 → Type 0
Builders B = BackendType → Option (EntityConfiguration → StatusOr B)

abbrev find_or {ℓ} : {A : Type ℓ} → Code → Option A → StatusOr A
find_or code none = error code
find_or code (some a) = value a

-- `backends_.at`
abbrev at_or_throw {ℓ} : {A : Type ℓ} → Option A → StatusOr A
at_or_throw none = thrown
at_or_throw (some a) = value a

abbrev is_some {ℓ} : {A : Type ℓ} → Option A → Bool
is_some none = false
is_some (some a) = true

-- DefaultBuilderResolver, of the host backend's builder
abbrev pub default_builder_resolver : {B : Type 0} → (EntityConfiguration → StatusOr B) → Builders B
default_builder_resolver create_host t =
    if same_backend t BackendType.host then some create_host else none

abbrev or_unknown : Option BackendType → BackendType
or_unknown none = BackendType.unknown
or_unknown (some t) = t

abbrev or_default : BackendType → BackendType → BackendType
or_default default t = if same_backend t BackendType.unknown then default else t

-- the backend type that a configuration gives a method
abbrev pub chosen : EntityConfiguration → BackendMethod → BackendType
chosen config m =
    or_default config.default_backend
      (or_unknown (lookup eq_ℤ (pos (method_number m)) config.method_configurations))

-- the adapter of a configuration's host
abbrev pub make_adapter :
    {A : Type 0} → (String → StatusOr A) → A → EntityConfiguration → StatusOr A
make_adapter create_adapter local_adapter config =
    if is_empty config.entity.host_address
    then value local_adapter
    else create_adapter config.entity.host_address

module _ {B A : Type 0} where
  unfoldable pub add_backend :
      BackendType → (EntityConfiguration → StatusOr B) → Client B A → StatusOr (Client B A)
  add_backend t builder c =
      builder c.config >>= λ b. value (record c { backends = put same_backend t b c.backends })

  module _ (builders : Builders B) where
    -- find a builder and add its backend
    unfoldable pub build_backend : BackendType → Client B A → StatusOr (Client B A)
    unfolding add_backend
    build_backend t c = find_or Code.not_found (builders t) >>= λ builder. add_backend t builder c

    -- the loop over the method configurations
    unfoldable pub add_method_backends : List (ℤ × BackendType) → Client B A → StatusOr (Client B A)
    unfolding build_backend
    add_method_backends [] c = value c
    add_method_backends (m ∷ ms) c =
        (if is_some (lookup same_backend m.1 c.backends) then value c else build_backend m.1 c)
        >>= add_method_backends ms

    module _ (create_adapter : String → StatusOr A) (local_adapter : A) where
      -- what `Create` does with the configuration that it has
      unfoldable pub create_with : EntityConfiguration → StatusOr (Client B A)
      unfolding build_backend add_method_backends
      create_with config =
          build_backend config.default_backend
            (record { config = config; backends = []; host_adapter = none })
          >>= add_method_backends config.method_configurations
          >>= λ c. make_adapter create_adapter local_adapter config >>= λ adapter.
              value (record c { host_adapter = some adapter })

      unfoldable pub create :
          StatusOr EntityConfiguration → Option EntityConfiguration → StatusOr (Client B A)
      unfolding create_with
      create loaded none = loaded >>= create_with
      create loaded (some config) = create_with config

  -- CreateClients, with the default builders
  module _ (create_host : EntityConfiguration → StatusOr B) (create_adapter : String → StatusOr A)
      (local_adapter : A) where
    unfoldable create_each : List EntityConfiguration → StatusOr (List (Client B A))
    unfolding create
    create_each [] = value []
    create_each (config ∷ configs) =
        create (default_builder_resolver create_host) create_adapter local_adapter
          (error Code.internal) (some config)
        >>= λ c. create_each configs >>= λ cs. value (c ∷ cs)

    unfoldable create_clients : StatusOr (List EntityConfiguration) → StatusOr (List (Client B A))
    unfolding create_each
    create_clients configs = configs >>= create_each

  -- The choice is written into the configuration before the backend is looked up.
  unfoldable pub select_backend : BackendMethod → Client B A → StatusOr B × Client B A
  select_backend m c =
      let t = chosen c.config m in
      (
        at_or_throw (lookup same_backend t c.backends),
        record c {
          config = record c.config {
            method_configurations =
                put eq_ℤ (pos (method_number m)) t c.config.method_configurations;
          };
        },
      )
