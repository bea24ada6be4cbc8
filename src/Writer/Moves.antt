-- ===== src/Writer/Moves.antt =====
-- What a call can do to the writer, whatever it is a call of: write, flush, read the clock, print.
use ocp_diag_core_cpp.Base.{Bool, true, false}
use ocp_diag_core_cpp.Outcome.{Result, ok, crash}
use ocp_diag_core_cpp.Outcome.Action.{Action, ◌>>=◌, ◌>>◌, and_then, when, blocks}
use ocp_diag_core_cpp.Platform.{Platform}
use ocp_diag_core_cpp.Model.Proto
use ocp_diag_core_cpp.Writer.{Writer, Sinks, write, flush, get_current_time, print_error}

module _ ⦃P : Platform⦄ ⦃S : Sinks⦄ where
  pub data Moves (w : Writer) : Writer → Type 0 where
    here : Moves w w
    writes : {v : Writer} → Moves w v → (c : Proto.OutputCase) → Moves w (write c v).1
    flushes : {v : Writer} → Moves w v → Moves w (flush v).1
    reads_clock : {v : Writer} → Moves w v → Moves w (get_current_time v).1
    prints : {v : Writer} → Moves w v → Moves w (print_error v).1

  Moves-trans : {u v w : Writer} → Moves u v → Moves v w → Moves u w
  Moves-trans m here = m
  Moves-trans m (writes n c) = writes (Moves-trans m n) c
  Moves-trans m (flushes n) = flushes (Moves-trans m n)
  Moves-trans m (reads_clock n) = reads_clock (Moves-trans m n)
  Moves-trans m (prints n) = prints (Moves-trans m n)

  -- A call moves the writer that its state holds.
  pub record Mover {T A : Type 0} (get : T → Writer) (m : Action T A) : Type 0 where
    pub moves : (s : T) → Moves (get s) (get (m s).1)

  abbrev pub mover :
      {T A : Type 0} {get : T → Writer} {m : Action T A}
      → ((s : T) → Moves (get s) (get (m s).1))
      → Mover get m
  mover h = record { moves = h }

  and_then-Mover :
      {T A B : Type 0} (get : T → Writer) (w : Writer) (r : Result A × T) (f : A → Action T B)
      → Moves w (get r.1)
      → ((a : A) → Mover get (f a))
      → Moves w (get (and_then r f).1)
  and_then-Mover get w (ok a, t) f p q = Moves-trans p ((q a).moves t)
  and_then-Mover get w (crash c, t) f p q = p

  pub bind-Mover :
      {T A B : Type 0} {get : T → Writer} {m : Action T A} {f : A → Action T B}
      → Mover get m
      → ((a : A) → Mover get (f a))
      → Mover get (m >>= f)
  unfolding blocks
  bind-Mover {get = get} {m = m} {f = f} p q =
      mover λ s. and_then-Mover get (get s) (m s) f (p.moves s) q

  pub then-Mover :
      {T B : Type 0} {get : T → Writer} {m : Action T (Unit {0})} {k : Action T B}
      → Mover get m
      → Mover get k
      → Mover get (m >> k)
  unfolding blocks
  then-Mover {get = get} {m = m} {k = k} p q =
      mover λ s. and_then-Mover get (get s) (m s) (λ _. k) (p.moves s) (λ _. q)

  pub when-Mover :
      {T : Type 0} {get : T → Writer} (b : Bool) {m : Action T (Unit {0})}
      → Mover get m
      → Mover get (when b m)
  unfolding blocks
  when-Mover true p = mover λ s. p.moves s
  when-Mover false p = mover λ s. here
