-- ===== src/Hardware/Client/Choice.antt =====
-- ocpdiag/core/hwinterface/client/node_client.cc: the choice of a backend by a client, and what it
-- keeps.
use ocp_diag_core_cpp.Base.{
  ℤ, pos, eq_ℤ, eq_ℤ-refl, eq_ℤ→eq, true, some, List, [], ◌∷◌, All, lookup, put, lookup-put_same,
  lookup-put_other, ◌≡◌, refl, ap, Bool-cases, inl, inr,
}
use ocp_diag_core_cpp.Hardware.Status.{value}
use ocp_diag_core_cpp.Hardware.Config.{BackendType, same_backend}
use ocp_diag_core_cpp.Hardware.Client.{
  Client, or_default, or_unknown, chosen, select_backend, at_or_throw,
}
use ocp_diag_core_cpp.Hardware.Client.Method.{BackendMethod, method_number}
use ocp_diag_core_cpp.Hardware.Client.Sound.{IsServed, IsSound}

or_default-again : (d t : BackendType) → or_default d (or_default d t) ≡ or_default d t
or_default-again d t = elim (Bool-cases (same_backend t BackendType.unknown)) [
  | inl h ↦ rw h (elim (Bool-cases (same_backend d BackendType.unknown)) [
    | inl k ↦ rw k refl
    | inr k ↦ rw k refl
  ])
  | inr h ↦ rw h (rw h refl)
]

chosen-IsServed :
    {B : Type 0} (k : ℤ) (ms : List (ℤ × BackendType)) (bs : List (BackendType × B))
    (d : BackendType)
    → IsServed d bs
    → All (λ m. IsServed m.1 bs) ms
    → IsServed (or_default d (or_unknown (lookup eq_ℤ k ms))) bs
chosen-IsServed k [] bs d default served = default
chosen-IsServed k (m ∷ ms) bs d default served = elim (Bool-cases (eq_ℤ m.0 k)) [
  | inl h ↦ rw h (elim (Bool-cases (same_backend m.1 BackendType.unknown)) [
    | inl u ↦ rw u default
    | inr u ↦ rw u served.0
  ])
  | inr h ↦ rw h (chosen-IsServed k ms bs d default served.1)
]

put-IsServed :
    {B : Type 0} (k : ℤ) (t : BackendType) (ms : List (ℤ × BackendType))
    (bs : List (BackendType × B))
    → IsServed t bs
    → All (λ m. IsServed m.1 bs) ms
    → All (λ m. IsServed m.1 bs) (put eq_ℤ k t ms)
put-IsServed k t [] bs one served = (one, tt)
put-IsServed k t (m ∷ ms) bs one served = elim (Bool-cases (eq_ℤ m.0 k)) [
  | inl h ↦ rw h (one, served.1)
  | inr h ↦ rw h (served.0, put-IsServed k t ms bs one served.1)
]

lookup_same :
    {V : Type 0} (k j : ℤ) (ms : List (ℤ × V))
    → eq_ℤ k j ≡ true
    → lookup eq_ℤ j ms ≡ lookup eq_ℤ k ms
lookup_same k j ms h = rw (eq_ℤ→eq k j h) refl

-- The writing of a choice changes no choice.
put-chosen :
    (k j : ℤ) (d : BackendType) (ms : List (ℤ × BackendType))
    → or_default d
        (or_unknown (lookup eq_ℤ j (put eq_ℤ k (or_default d (or_unknown (lookup eq_ℤ k ms))) ms)))
      ≡ or_default d (or_unknown (lookup eq_ℤ j ms))
put-chosen k j d ms = elim (Bool-cases (eq_ℤ k j)) [
  | inl h ↦
      rw
        (
          lookup_same k j (put eq_ℤ k (or_default d (or_unknown (lookup eq_ℤ k ms))) ms) h,
          lookup_same k j ms h,
          lookup-put_same eq_ℤ k (or_default d (or_unknown (lookup eq_ℤ k ms))) ms (eq_ℤ-refl k),
        )
        (or_default-again d (or_unknown (lookup eq_ℤ k ms)))
  | inr h ↦
      rw (lookup-put_other eq_ℤ k j (or_default d (or_unknown (lookup eq_ℤ k ms))) ms eq_ℤ→eq h)
        refl
]

module _ {B A : Type 0} where
  -- A client is as it was, but for what it remembers of its choices.
  abbrev pub IsLike : Client B A → Client B A → Type 0
  IsLike c d =
      (d.backends ≡ c.backends)
      × ((m : BackendMethod) → chosen d.config m ≡ chosen c.config m)
      × IsSound d

  pub select_backend-IsLike :
      (m : BackendMethod) (c : Client B A) → IsSound c → IsLike c (select_backend m c).1
  unfolding select_backend
  select_backend-IsLike m c sound = (
    refl,
    λ n.
        put-chosen (pos (method_number m)) (pos (method_number n)) c.config.default_backend
          c.config.method_configurations,
    (
      sound.0,
      put-IsServed (pos (method_number m)) (chosen c.config m) c.config.method_configurations
          c.backends
          (chosen-IsServed (pos (method_number m)) c.config.method_configurations c.backends
            c.config.default_backend sound.0 sound.1)
          sound.1,
    ),
  )

  pub select_backend-served :
      (m : BackendMethod) (c : Client B A)
      → IsSound c
      → (b : B) × (lookup same_backend (chosen c.config m) c.backends ≡ some b)
        × ((select_backend m c).0 ≡ value b)
  unfolding select_backend
  select_backend-served m c sound =
      let k =
        chosen-IsServed (pos (method_number m)) c.config.method_configurations c.backends
          c.config.default_backend sound.0 sound.1 in
      (k.0, k.1, ap at_or_throw k.1)
