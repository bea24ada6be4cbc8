-- ===== src/Outcome/Action.antt =====
-- Calls on mutable objects: a state goes in, and a result and the state come out. The state comes
-- back from a call that dies too, since what was written before stays written.
use ocp_diag_core_cpp.Base.{Bool, true, false, ◌≡◌, refl}
use ocp_diag_core_cpp.Outcome.{Result, ok, crash, Crash}
use ocp_diag_core_cpp.Outcome

abbrev pub Action : Type 0 → Type 0 → Type 0
Action S A = S → Result A × S

module _ {S A : Type 0} where
  abbrev pub pure : A → Action S A
  pure a s = (ok a, s)

  abbrev pub die : Crash → Action S A
  die c s = (crash c, s)

  abbrev pub lift : Result A → Action S A
  lift r s = (r, s)

  abbrev pub gets : (S → A) → Action S A
  gets f s = (ok (f s), s)

abbrev pub modify : {S : Type 0} → (S → S) → Action S (Unit {0})
modify f s = (ok tt, f s)

abbrev pub check : {S : Type 0} → Bool → Action S (Unit {0})
check b s = (Outcome.check b, s)

-- `if (b) m;`
unfoldable pub when : {S : Type 0} → Bool → Action S (Unit {0}) → Action S (Unit {0})
when b m s = elim b [ true ↦ m s | false ↦ (ok tt, s) ]

-- What follows a call: it runs in the state that the call left, if the call returned.
abbrev pub and_then : {S A B : Type 0} → Result A × S → (A → Action S B) → Result B × S
and_then (ok a, s) f = f a s
and_then (crash c, s) f = (crash c, s)

infixl 5 ◌>>=◌ ◌>>◌
unfoldable pub ◌>>=◌ : {S A B : Type 0} → Action S A → (A → Action S B) → Action S B
◌>>=◌ m f s = and_then (m s) f

unfoldable pub ◌>>◌ : {S B : Type 0} → Action S (Unit {0}) → Action S B → Action S B
unfolding ◌>>=◌
m >> k = m >>= λ _. k

-- A proof that computes with a block names this one.
unfoldable pub blocks : Unit {0}
unfolding when ◌>>=◌ ◌>>◌
blocks = tt

-- A call on one object that a larger state holds.
abbrev put_back : {S T A : Type 0} → (T → S → S) → S → Result A × T → Result A × S
put_back put s (r, t) = (r, put t s)

abbrev pub zoom : {S T A : Type 0} → (S → T) → (T → S → S) → Action T A → Action S A
zoom get put m s = put_back put s (m (get s))

-- The rest of a block runs where the first call left off, if that returned, and not if it died.
module _ {S A B : Type 0} where
  pub and_then-ok :
      (r : Result A × S) {a : A} (f : A → Action S B) → r.0 ≡ ok a → and_then r f ≡ f a r.1
  and_then-ok (ok b, s) f h = cc
  and_then-ok (crash c, s) f h = cc

  pub and_then-crash :
      (r : Result A × S) {c : Crash} (f : A → Action S B)
      → r.0 ≡ crash c
      → and_then r f ≡ (crash c, r.1)
  and_then-crash (ok b, s) f h = cc
  and_then-crash (crash c, s) f h = cc

  -- A block that returns has had its first call return.
  pub and_then-eq-ok :
      (r : Result A × S) (f : A → Action S B) {b : B}
      → (and_then r f).0 ≡ ok b
      → (a : A) × (r.0 ≡ ok a)
  and_then-eq-ok (ok a, s) f h = (a, refl)
  and_then-eq-ok (crash c, s) f h = cc
