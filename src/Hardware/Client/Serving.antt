-- ===== src/Hardware/Client/Serving.antt =====
-- Which backend answers a call: the one that the configuration chooses, from the making of a client
-- on, whatever calls came before.
use ocp_diag_core_cpp.Base.{String, some, List, [], ◌∷◌, lookup, ◌≡◌, refl, ap, sym, ◌∙◌, arith}
use ocp_diag_core_cpp.Hardware.Status.{Code, StatusOr, value, error}
use ocp_diag_core_cpp.Hardware.Config.{EntityConfiguration, same_backend}
use ocp_diag_core_cpp.Hardware.Client.{Client, Builders, create, chosen, select_backend}
use ocp_diag_core_cpp.Hardware.Client.Method.{Api, method_of}
use ocp_diag_core_cpp.Hardware.Client.Calls.{Service, call_api, call_selected}
use ocp_diag_core_cpp.Hardware.Client.Sound.{IsSound, create_with-IsSound}
use ocp_diag_core_cpp.Hardware.Client.Choice.{IsLike, select_backend-IsLike, select_backend-served}

module _ {B A Request Response Software W : Type 0}
    (s : Service B Request Response Software W) where
  call_api-selected :
      (api : Api) (req : Request) (c : Client B A) (w : W)
      → call_api s api req c w ≡ call_selected s api req (select_backend (method_of api) c) w
  call_api-selected api req c w = ground arith

  -- the client and the world after some calls
  abbrev pub after_calls : List (Api × Request) → Client B A → W → Client B A × W
  after_calls [] c w = (c, w)
  after_calls (call ∷ calls) c w =
      let answer = call_api s call.0 call.1 c w in after_calls calls answer.1 answer.2

  selected-value :
      (api : Api) (req : Request) (p : StatusOr B × Client B A) (w : W) (b : B)
      → p.0 ≡ value b
      → call_selected s api req p w ≡ ((s.call b api req w).0, p.1, (s.call b api req w).1)
  selected-value api req (r, d) w b h = rw h refl

  answered :
      (api : Api) (req : Request) (c : Client B A) (w : W)
      → IsSound c
      → (b : B) × (lookup same_backend (chosen c.config (method_of api)) c.backends ≡ some b)
        × (call_api s api req c w ≡ (
          (s.call b api req w).0,
          (select_backend (method_of api) c).1,
          (s.call b api req w).1,
        ))
  answered api req c w sound =
      let k = select_backend-served (method_of api) c sound in
      (
        k.0,
        k.1,
        call_api-selected api req c w
            ∙ selected-value api req (select_backend (method_of api) c) w k.0 k.2,
      )

  after_call-IsLike :
      (api : Api) (req : Request) (c : Client B A) (w : W)
      → IsSound c
      → IsLike c (call_api s api req c w).1
  after_call-IsLike api req c w sound =
      rw ((answered api req c w sound).2) (select_backend-IsLike (method_of api) c sound)

  after_calls-IsLike :
      (calls : List (Api × Request)) (c : Client B A) (w : W)
      → IsSound c
      → IsLike c (after_calls calls c w).0
  after_calls-IsLike [] c w sound = (refl, λ m. refl, sound)
  after_calls-IsLike (call ∷ calls) c w sound =
      let one = after_call-IsLike call.0 call.1 c w sound in
      let rest =
        after_calls-IsLike calls (call_api s call.0 call.1 c w).1 (call_api s call.0 call.1 c w).2
          one.2 in
      (rest.0 ∙ one.0, λ m. rest.1 m ∙ one.1 m, rest.2)

  -- A client that was made never throws: after any calls, each call is answered by a backend, the
  -- one of the type that the configuration chose for its method when the client was made.
  pub create-serves :
      (builders : Builders B) (create_adapter : String → StatusOr A) (local_adapter : A)
      (config : EntityConfiguration) (c : Client B A) (calls : List (Api × Request)) (w : W)
      (api : Api) (req : Request)
      → create builders create_adapter local_adapter (error Code.internal) (some config) ≡ value c
      → (b : B) × (lookup same_backend (chosen config (method_of api)) c.backends ≡ some b)
        × ((call_api s api req (after_calls calls c w).0 (after_calls calls c w).1).0
            ≡ (s.call b api req (after_calls calls c w).1).0)
        × ((call_api s api req (after_calls calls c w).0 (after_calls calls c w).1).2
            ≡ (s.call b api req (after_calls calls c w).1).1)
  unfolding create
  create-serves builders create_adapter local_adapter config c calls w api req h =
      let made = create_with-IsSound builders create_adapter local_adapter config c h in
      let later = after_calls-IsLike calls c w made.1 in
      let k = answered api req (after_calls calls c w).0 (after_calls calls c w).1 later.2 in
      (
        k.0,
        ap (λ x. lookup same_backend (chosen x (method_of api)) c.backends) (sym made.0)
            ∙ ap (λ t. lookup same_backend t c.backends) (sym (later.1 (method_of api)))
            ∙ ap
                (λ bs.
                  lookup same_backend (chosen (after_calls calls c w).0.config (method_of api)) bs)
                (sym later.0)
            ∙ k.1,
        ap (λ r. r.0) k.2,
        ap (λ r. r.2) k.2,
      )
