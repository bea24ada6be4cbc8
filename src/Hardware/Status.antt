-- ===== src/Hardware/Status.antt =====
-- absl::StatusOr: a value, or an error with its code; the text of an error is not kept. A call can
-- also throw an exception or have undefined behaviour, which no caller of these files handles.
use ocp_diag_core_cpp.Base.{Bool, true, false, ◌≡◌, refl, ap}

pub data Code : Type 0 where
  invalid_argument not_found internal unimplemented deadline_exceeded unknown : Code

pub data StatusOr {ℓ} (A : Type ℓ) : Type ℓ where
  value : A → StatusOr A
  error : Code → StatusOr A
  thrown : StatusOr A
  undefined : StatusOr A

-- `ASSIGN_OR_RETURN` and `RETURN_IF_ERROR`
infixl 5 ◌>>=◌ ◌>>◌
abbrev pub ◌>>=◌ {ℓ κ} : {A : Type ℓ} {B : Type κ} → StatusOr A → (A → StatusOr B) → StatusOr B
undefined >>= next = undefined
thrown >>= next = thrown
error code >>= next = error code
value a >>= next = next a

abbrev pub ◌>>◌ {ℓ} : {B : Type ℓ} → StatusOr (Unit {0}) → StatusOr B → StatusOr B
status >> next = status >>= λ okay. next

-- `if (!b) return` an error
abbrev pub require : Bool → Code → StatusOr (Unit {0})
require false code = error code
require true code = value tt

abbrev is_ok {ℓ} : {A : Type ℓ} → StatusOr A → Bool
is_ok (value a) = true
is_ok (error code) = false
is_ok thrown = false
is_ok undefined = false

-- A call that returned a value got past its first part.
pub >>=-eq-value {ℓ κ} :
    {A : Type ℓ} {B : Type κ} (r : StatusOr A) (next : A → StatusOr B) {b : B}
    → (r >>= next) ≡ value b
    → (a : A) × (next a ≡ value b) × (r ≡ value a)
>>=-eq-value undefined next h = cc
>>=-eq-value thrown next h = cc
>>=-eq-value (error code) next h = cc
>>=-eq-value (value a) next h = (a, h, refl)

-- the value, or another
abbrev value_or {ℓ} : {A : Type ℓ} → A → StatusOr A → A
value_or d (value a) = a
value_or d (error code) = d
value_or d thrown = d
value_or d undefined = d

pub value-inj {ℓ} : {A : Type ℓ} {a b : A} → value a ≡ value b → a ≡ b
value-inj {a = a} h = ap (value_or a) h
