-- ===== src/Compat/Spec.antt =====
-- What the validation of a duration accepts.
use ocp_diag_core_cpp.Base.{ℕ, zero, suc, ◌≤◌, ℤ, pos, negsuc, ◌≡◌, ◌↔◌, arith}
use ocp_diag_core_cpp.Hardware.Status.{value}
use ocp_diag_core_cpp.Compat.{validate_duration}

abbrev magnitude : ℤ → ℕ
magnitude (pos n) = n
magnitude (negsuc n) = suc n

abbrev SameSign : ℤ → ℤ → Type 0
SameSign (pos zero) b = Unit
SameSign (pos (suc m)) (pos n) = Unit
SameSign (pos (suc m)) (negsuc n) = ⊥
SameSign (negsuc m) (pos zero) = Unit
SameSign (negsuc m) (pos (suc n)) = ⊥
SameSign (negsuc m) (negsuc n) = Unit

-- at most ten thousand years, less than a second of nanoseconds, and no opposite signs
abbrev pub IsDuration : ℤ → ℤ → Type 0
IsDuration seconds nanos =
    (magnitude seconds ≤ 315576000000) × (magnitude nanos ≤ 999999999) × SameSign seconds nanos

-- A duration is valid exactly if it has at most 315576000000 seconds and 999999999 nanoseconds,
-- either way, and its seconds and nanoseconds have no opposite signs.
pub validate_duration_iff :
    (seconds nanos : ℤ)
    → (validate_duration (record { seconds = seconds; nanos = nanos }) ≡ value tt)
      ↔ IsDuration seconds nanos
unfolding validate_duration
validate_duration_iff (pos zero) (pos n) = (λ h. ground arith, λ h. ground arith)
validate_duration_iff (pos zero) (negsuc n) = (λ h. ground arith, λ h. ground arith)
validate_duration_iff (pos (suc m)) (pos n) = (λ h. ground arith, λ h. ground arith)
validate_duration_iff (pos (suc m)) (negsuc n) = (λ h. ground arith, λ h. ground arith)
validate_duration_iff (negsuc m) (pos zero) = (λ h. ground arith, λ h. ground arith)
validate_duration_iff (negsuc m) (pos (suc n)) = (λ h. ground arith, λ h. ground arith)
validate_duration_iff (negsuc m) (negsuc n) = (λ h. ground arith, λ h. ground arith)
