-- ===== src/Base/Assoc.antt =====
-- Maps as association lists with a Boolean test of their keys: a key is written once.
use mathlib.Core.Path.{◌≡◌, refl, ap}
use mathlib.Core.Bool.{Bool, true, false}
use mathlib.Core.List.{List, [], ◌∷◌}
use mathlib.Core.Option.{Option, none, some}
use ocp_diag_core_cpp.Base.Tests.{if◌then◌else◌, Bool-cases}
use mathlib.Core.Logic.{inl, inr}

module _ {ℓ κ} {K : Type ℓ} {V : Type κ} (eq : K → K → Bool) where
  -- `find`
  abbrev pub lookup : K → List (K × V) → Option V
  lookup k [] = none
  lookup k (e ∷ es) = if eq e.0 k then some e.1 else lookup k es

  -- `map[k] = v`
  abbrev pub put : K → V → List (K × V) → List (K × V)
  put k v [] = (k, v) ∷ []
  put k v (e ∷ es) = if eq e.0 k then (e.0, v) ∷ es else e ∷ put k v es

  pub lookup-put_same :
      (k : K) (v : V) (es : List (K × V)) → eq k k ≡ true → lookup k (put k v es) ≡ some v
  lookup-put_same k v [] r = rw r refl
  lookup-put_same k v (e ∷ es) r = elim (Bool-cases (eq e.0 k)) [
    | inl h ↦ rw h (rw h refl)
    | inr h ↦ rw h (rw h (lookup-put_same k v es r))
  ]

  pub lookup-put_other :
      (k j : K) (v : V) (es : List (K × V))
      → ((a b : K) → eq a b ≡ true → a ≡ b)
      → eq k j ≡ false
      → lookup j (put k v es) ≡ lookup j es
  lookup-put_other k j v [] sound d = rw d refl
  lookup-put_other k j v (e ∷ es) sound d = elim (Bool-cases (eq e.0 k)) [
    | inl h ↦ let other : eq e.0 j ≡ false = rw (sound e.0 k h) d in rw h (rw other refl)
    | inr h ↦
        rw h (ap (λ rest. if eq e.0 j then some e.1 else rest) (lookup-put_other k j v es sound d))
  ]
