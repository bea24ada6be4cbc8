-- ===== src/Hardware/Client/Sound.antt =====
-- ocpdiag/core/hwinterface/client/node_client.cc: what NodeClient::Create ensures of a client.
use ocp_diag_core_cpp.Base.{
  ℤ, String, Option, none, some, List, [], ◌∷◌, All, lookup, lookup-put_same, lookup-put_other, ◌≡◌,
  refl, sym, ◌∙◌, if◌then◌else◌, Bool-cases, inl, inr,
}
use ocp_diag_core_cpp.Hardware.Status.{Code, StatusOr, ◌>>=◌, value, >>=-eq-value, value-inj}
use ocp_diag_core_cpp.Hardware.Config.{
  BackendType, EntityConfiguration, same_backend, same_backend_refl, same_backend→eq,
}
use ocp_diag_core_cpp.Hardware.Client.{
  Client, Builders, find_or, is_some, add_backend, build_backend, add_method_backends, make_adapter,
  create_with,
}

-- A backend type has a backend.
abbrev pub IsServed : {B : Type 0} → BackendType → List (BackendType × B) → Type 0
IsServed {B = B} t backends = (b : B) × (lookup same_backend t backends ≡ some b)

module _ {B A : Type 0} where
  -- Every backend type that the configuration names has a backend.
  abbrev pub IsSound : Client B A → Type 0
  IsSound c =
      IsServed c.config.default_backend c.backends
      × All (λ m. IsServed m.1 c.backends) c.config.method_configurations

  module _ (builders : Builders B) where
    abbrev Extends : Client B A → Client B A → Type 0
    Extends c d =
        (d.config ≡ c.config) × ((t : BackendType) → IsServed t c.backends → IsServed t d.backends)

    add_backend-Extends :
        (t : BackendType) (builder : EntityConfiguration → StatusOr B) (c d : Client B A)
        → add_backend t builder c ≡ value d
        → Extends c d × IsServed t d.backends
    unfolding add_backend
    add_backend-Extends t builder c d h =
        let found = >>=-eq-value (builder c.config) _ h in
        let e = sym (value-inj found.1) in
        rw e (
          (
            refl,
            λ u k. elim (Bool-cases (same_backend t u)) [
              | inl q ↦ (
                found.0,
                rw (sym (same_backend→eq t u q))
                    (lookup-put_same same_backend t found.0 c.backends (same_backend_refl t)),
              )
              | inr q ↦ (
                k.0,
                lookup-put_other same_backend t u found.0 c.backends same_backend→eq q ∙ k.1,
              )
            ],
          ),
          (found.0, lookup-put_same same_backend t found.0 c.backends (same_backend_refl t)),
        )

    build_backend-Extends :
        (t : BackendType) (c d : Client B A)
        → build_backend builders t c ≡ value d
        → Extends c d × IsServed t d.backends
    unfolding build_backend
    build_backend-Extends t c d h =
        let found = >>=-eq-value (find_or Code.not_found (builders t)) _ h in
        add_backend-Extends t found.0 c d found.1

    first_or_found :
        (t : BackendType) (c d : Client B A) (found : Option B)
        → lookup same_backend t c.backends ≡ found
        → (if is_some found then value c else build_backend builders t c) ≡ value d
        → Extends c d × IsServed t d.backends
    first_or_found t c d none e h = build_backend-Extends t c d h
    first_or_found t c d (some b) e h = rw (sym (value-inj h)) ((refl, λ t k. k), (b, e))

    first_backend :
        (t : BackendType) (c d : Client B A)
        → (if is_some (lookup same_backend t c.backends)
            then value c
            else build_backend builders t c)
          ≡ value d
        → Extends c d × IsServed t d.backends
    first_backend t c d h = first_or_found t c d (lookup same_backend t c.backends) refl h

    add_method_backends-Extends :
        (ms : List (ℤ × BackendType)) (c d : Client B A)
        → add_method_backends builders ms c ≡ value d
        → Extends c d × All (λ m. IsServed m.1 d.backends) ms
    unfolding add_method_backends
    add_method_backends-Extends [] c d h = rw (sym (value-inj h)) ((refl, λ t k. k), tt)
    add_method_backends-Extends (m ∷ ms) c d h =
        let found =
          >>=-eq-value
            (if is_some (lookup same_backend m.1 c.backends)
              then value c
              else build_backend builders m.1 c)
            (add_method_backends builders ms) h in
        let one = first_backend m.1 c found.0 found.2 in
        let rest = add_method_backends-Extends ms found.0 d found.1 in
        ((rest.0.0 ∙ one.0.0, λ t k. rest.0.1 t (one.0.1 t k)), (rest.0.1 m.1 one.1, rest.1))

    module _ (create_adapter : String → StatusOr A) (local_adapter : A) where
      pub create_with-IsSound :
          (config : EntityConfiguration) (c : Client B A)
          → create_with builders create_adapter local_adapter config ≡ value c
          → (c.config ≡ config) × IsSound c
      unfolding create_with
      create_with-IsSound config c h =
          let methods =
            >>=-eq-value
              (build_backend builders config.default_backend
                  (record { config = config; backends = []; host_adapter = none })
                >>= add_method_backends builders config.method_configurations)
              _ h in
          let first =
            >>=-eq-value
              (build_backend builders config.default_backend
                (record { config = config; backends = []; host_adapter = none }))
              (add_method_backends builders config.method_configurations) methods.2 in
          let adapter =
            >>=-eq-value (make_adapter create_adapter local_adapter config) _ methods.1 in
          let start =
            build_backend-Extends config.default_backend
              (record { config = config; backends = []; host_adapter = none }) first.0 first.2 in
          let rest =
            add_method_backends-Extends config.method_configurations first.0 methods.0 first.1 in
          let same : methods.0.config ≡ config = rest.0.0 ∙ start.0.0 in
          rw (sym (value-inj adapter.1))
            (same, rw same (rest.0.1 config.default_backend start.1, rest.1))
