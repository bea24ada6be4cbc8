-- ===== src/IntIncrementer.antt =====
-- ocpdiag/core/results/int_incrementer.h. The state is the count, an `int` that is never negative.
use ocp_diag_core_cpp.Base.{ℕ, ◌+◌, ltb, if◌then◌else◌}
use ocp_diag_core_cpp.Outcome.{ok, crash, undefined}
use ocp_diag_core_cpp.Outcome.Action.{Action}

abbrev pub int_max : ℕ
int_max = 2147483647

-- Signed overflow is undefined.
unfoldable pub next : Action ℕ ℕ
next count = if ltb count int_max then (ok count, count + 1) else (crash undefined, count)
