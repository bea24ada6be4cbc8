-- ===== src/Outcome.antt =====
-- How a call ends: it returns, or the process dies. `CHECK` and `LOG(FATAL)` are absl's. What absl
-- tells the log sink of a test run before it aborts stands in TestRun/Abort; what it prints is not
-- part of the model.
pub mod Action
use ocp_diag_core_cpp.Base.{Bool, true, false, ◌≡◌, refl, List, [], ◌∷◌}

-- `check_failed` is a failed `CHECK`, `fatal_log` a `LOG(FATAL)`, and `undefined` undefined
-- behaviour, such as a read past the end of a vector.
pub data Crash : Type 0 where
  check_failed fatal_log undefined : Crash

pub data Result {ℓ} (A : Type ℓ) : Type ℓ where
  crash : Crash → Result A
  ok : A → Result A

-- `CHECK(b)`
abbrev pub check : Bool → Result (Unit {0})
check false = crash check_failed
check true = ok tt

module _ {ℓ κ} {A : Type ℓ} {B : Type κ} where
  infixl 5 ◌>>=◌
  -- The rest of the code runs where the call returned.
  abbrev pub ◌>>=◌ : Result A → (A → Result B) → Result B
  crash c >>= rest = crash c
  ok a >>= rest = rest a

  -- Code that returned has run to its end, each part of it.
  pub >>=-eq-ok :
      (r : Result A) (rest : A → Result B) {b : B}
      → (r >>= rest) ≡ ok b
      → (a : A) × (r ≡ ok a) × (rest a ≡ ok b)
  >>=-eq-ok (crash c) rest returned = cc
  >>=-eq-ok (ok a) rest returned = (a, refl, returned)

infixl 5 ◌>>◌
abbrev pub ◌>>◌ {ℓ} : {B : Type ℓ} → Result (Unit {0}) → Result B → Result B
r >> rest = r >>= λ done. rest

-- `xs[0]`, which is undefined on an empty vector
abbrev pub first {ℓ} : {A : Type ℓ} → List A → Result A
first [] = crash undefined
first (x ∷ xs) = ok x

-- A loop that pushes the converted elements on a new vector.
abbrev pub map_each {ℓ κ} : {A : Type ℓ} {B : Type κ} → (A → Result B) → List A → Result (List B)
map_each f [] = ok []
map_each f (x ∷ xs) = f x >>= λ y. map_each f xs >>= λ ys. ok (y ∷ ys)
