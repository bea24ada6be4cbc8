-- ===== src/Hardware/Errors/Window.antt =====
-- The errors that GetErrors answers with lie in the window of its filter.
use text.Mathlib.Text.{◌==◌ as str_eq}
use ocp_diag_core_cpp.Base.{
  ℤ, pos, leb_ℤ, Bool, true, false, Option, none, some, List, [], ◌∷◌, All, ◌≡◌, refl, sym,
  if◌then◌else◌, Bool-cases, inl, inr, arith,
}
use ocp_diag_core_cpp.Hardware.Status.{Code, StatusOr, value, error, thrown, undefined, value-inj}
use ocp_diag_core_cpp.Hardware.Host.{HostAdapter, Outcome}
use ocp_diag_core_cpp.Hardware.Cpu.Info.{info_type_have}
use ocp_diag_core_cpp.Hardware.Errors.{
  Error, ReportText, ErrorInfo, TimestampFilter, GetErrorsRequest, is_empty_window, is_outside,
  error_info, report_errors, answer_errors, ras_gather, get_errors,
}

-- after the start of the window, and not after its end
abbrev pub IsInWindow : Option TimestampFilter → ErrorInfo → Type 0
IsInWindow none info = Unit
IsInWindow (some f) info =
    (leb_ℤ info.event_seconds f.start_seconds ≡ false)
    × (leb_ℤ info.event_seconds f.end_seconds ≡ true)

inside :
    (filter : Option TimestampFilter) (info : ErrorInfo)
    → is_outside filter info.event_seconds ≡ false
    → IsInWindow filter info
inside none info h = tt
inside (some f) info h = (ground arith, ground arith)

module _ (to_unix_seconds : ℤ → ℤ) (req : GetErrorsRequest) where
  report_errors-IsInWindow :
      (es : List Error) → All (IsInWindow req.filter) (report_errors to_unix_seconds req es)
  unfolding report_errors error_info
  report_errors-IsInWindow [] = tt
  report_errors-IsInWindow (e ∷ es) =
      let rest = report_errors-IsInWindow es in
      elim (Bool-cases (is_outside req.filter (to_unix_seconds e.timestamp))) [
        | inl out ↦ rw out rest
        | inr within ↦ elim (Bool-cases (str_eq e.label "unknown memory")) [
          | inl unknown ↦ rw (within, unknown) rest
          | inr known ↦
              rw (within, known) (inside req.filter (error_info to_unix_seconds req e) within, rest)
        ]
      ]

  some_or_none :
      (b : Bool) (es : List Error)
      → All (IsInWindow req.filter) (if b then report_errors to_unix_seconds req es else [])
  some_or_none true es = report_errors-IsInWindow es
  some_or_none false es = tt

  answer_errors-IsInWindow :
      {W : Type 0} (r : Outcome (Unit {0}) (List Error) W) (infos : List ErrorInfo)
      → (answer_errors to_unix_seconds req r).0 ≡ value infos
      → All (IsInWindow req.filter) infos
  unfolding answer_errors
  answer_errors-IsInWindow (value okay, errors, w) infos h =
      rw (sym (value-inj h)) (some_or_none (info_type_have req.event_sources (pos 1)) errors)
  answer_errors-IsInWindow (error code, errors, w) infos h = cc
  answer_errors-IsInWindow (thrown, errors, w) infos h = cc
  answer_errors-IsInWindow (undefined, errors, w) infos h = cc

past_check :
    {A W : Type 0} (b : Bool) (code : Code) (r : StatusOr A × W) (w : W) (a : A)
    → (if b then (error code, w) else r).0 ≡ value a
    → (b ≡ false) × (r.0 ≡ value a)
past_check true code r w a h = cc
past_check false code r w a h = (refl, h)

-- An answer is given for a window that is not empty only, and its errors all happened after the start
-- of the window, and at its end or before.
pub get_errors-IsInWindow :
    (to_unix_seconds : ℤ → ℤ) (req : GetErrorsRequest) {W : Type 0} (text : ReportText)
    (host : HostAdapter W) (w : W) (infos : List ErrorInfo)
    → (get_errors to_unix_seconds req text host w).0 ≡ value infos
    → (is_empty_window req.filter ≡ false) × All (IsInWindow req.filter) infos
unfolding get_errors
get_errors-IsInWindow to_unix_seconds req text host w infos h =
    let past =
      past_check (is_empty_window req.filter) Code.invalid_argument
        (answer_errors to_unix_seconds req (ras_gather text host [] w)) w infos h in
    (past.0, answer_errors-IsInWindow to_unix_seconds req (ras_gather text host [] w) infos past.1)
