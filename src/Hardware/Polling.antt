-- ===== src/Hardware/Polling.antt =====
-- A loop that reads the clock and acts until there is an answer or a deadline has passed, as
-- RestartProcess of utils.cc, LocalHostAdapter::RunCommand of host_adapter.cc and
-- SSHConnInterface::RunCommandWithStdin of ssh/remote.cc run it. Times are in milliseconds.
use ocp_diag_core_cpp.Base.{
  ℕ, zero, suc, ◌⊎◌, ◌-◌, ◌<◌, ◌≤◌, ltb, true, false, Option, none, some, ◌≡◌, refl, arith, ltb→lt,
  lt→ltb, Bool-cases, inl, inr, sym, ap, ◌∙◌,
}

abbrev or_again {ℓ κ} :
    {A : Type ℓ} {W : Type κ} → Option A × W → (W → Option (A × W)) → Option (A × W)
or_again (some a, w) again = some (a, w)
or_again (none, w) again = again w

module _ {A W : Type 0} (now : W → ℕ × W) (round : W → Option A × W) (timed_out : W → A × W) where
  -- none if the fuel runs out
  unfoldable pub poll_until : ℕ → ℕ → W → Option (A × W)
  poll_until zero deadline w = none
  poll_until (suc fuel) deadline w = elim (ltb (now w).0 deadline) [
    | true ↦ or_again (round (now w).1) (poll_until fuel deadline)
    | false ↦ some (timed_out (now w).1)
  ]

-- There is a time of the world that the clock shows, no reading sets back, and every round without
-- an answer moves on.
pub record IsClock {A W : Type 0} (now : W → ℕ × W) (round : W → Option A × W) : Type 0 where
  pub time : W → ℕ
  pub shown : (w : W) → time w ≤ (now w).0
  pub read : (w : W) → (now w).0 ≤ time (now w).1
  pub moved : (w v : W) → round w ≡ (none, v) → time w < time v

-- Round after round without an answer, one is reached that answers and that starts before the
-- deadline.
pub data Answers {A W : Type 0} (now : W → ℕ × W) (round : W → Option A × W) (deadline : ℕ)
    : W → A → W → Type 0 where
  here :
      {w v : W} {a : A}
      → (now w).0 < deadline
      → round (now w).1 ≡ (some a, v)
      → Answers now round deadline w a v
  later :
      {w u v : W} {a : A}
      → round (now w).1 ≡ (none, u)
      → Answers now round deadline u a v
      → Answers now round deadline w a v

or_same : {A : Type 0} → A → Option A → A
or_same a none = a
or_same a (some b) = b

pub some-inj : {A : Type 0} {a b : A} → some a ≡ some b → a ≡ b
unfolding or_same
some-inj {a = a} h = ap (or_same a) h

round-cases :
    {A W : Type 0} (r : Option A × W) → ((a : A) × (r ≡ (some a, r.1))) ⊎ (r ≡ (none, r.1))
round-cases (some a, w) = inl (a, refl)
round-cases (none, w) = inr refl

module _ {A W : Type 0} (now : W → ℕ × W) (round : W → Option A × W) (timed_out : W → A × W) where
  poll_until_again :
      (fuel deadline : ℕ) (w v : W)
      → (now w).0 < deadline
      → round (now w).1 ≡ (none, v)
      → poll_until now round timed_out (suc fuel) deadline w
        ≡ poll_until now round timed_out fuel deadline v
  unfolding poll_until
  poll_until_again fuel deadline w v early h =
      rw (poll_until, lt→ltb (now w).0 deadline early, h) refl

  poll_until_answer :
      (fuel deadline : ℕ) (w v : W) (a : A)
      → (now w).0 < deadline
      → round (now w).1 ≡ (some a, v)
      → poll_until now round timed_out (suc fuel) deadline w ≡ some (a, v)
  unfolding poll_until
  poll_until_answer fuel deadline w v a early h =
      rw (poll_until, lt→ltb (now w).0 deadline early, h) refl

  poll_until_late :
      (fuel deadline : ℕ) (w : W)
      → ltb (now w).0 deadline ≡ false
      → poll_until now round timed_out (suc fuel) deadline w ≡ some (timed_out (now w).1)
  unfolding poll_until
  poll_until_late fuel deadline w late = rw (poll_until, late) refl

  pub poll_until-ends :
      (clock : IsClock now round) (fuel deadline : ℕ) (w : W)
      → deadline - clock.time w < fuel
      → (r : A × W) × (poll_until now round timed_out fuel deadline w ≡ some r)
  poll_until-ends clock zero deadline w h = absurd (omega arith)
  poll_until-ends clock (suc fuel) deadline w h = elim (Bool-cases (ltb (now w).0 deadline)) [
    | inr late ↦ (timed_out (now w).1, poll_until_late fuel deadline w late)
    | inl early ↦
        let early' = ltb→lt (now w).0 deadline early in
        elim (round-cases (round (now w).1)) [
          | inl (a, h') ↦ ((a, _), poll_until_answer fuel deadline w _ a early' h')
          | inr h' ↦
              let moved = clock.moved (now w).1 _ h' in
              let read = clock.read w in
              let shown = clock.shown w in
              let ih = poll_until-ends clock fuel deadline (round (now w).1).1 (omega arith) in
              (ih.0, poll_until_again fuel deadline w _ early' h' ∙ ih.1)
        ]
  ]

  -- an answer before the deadline is in time in every world before it
  Answers-early :
      (clock : IsClock now round) {deadline : ℕ} {w v : W} {a : A}
      → Answers now round deadline w a v
      → clock.time w < deadline
  Answers-early clock {w = w} (here early h) = let shown = clock.shown w in omega arith
  Answers-early clock {w = w} (later h rest) =
      let ih = Answers-early clock rest in
      let moved = clock.moved (now w).1 _ h in
      let read = clock.read w in let shown = clock.shown w in omega arith

  pub poll_until-Answers :
      (clock : IsClock now round) (fuel deadline : ℕ) {w v : W} {a : A}
      → Answers now round deadline w a v
      → deadline - clock.time w < fuel
      → poll_until now round timed_out fuel deadline w ≡ some (a, v)
  poll_until-Answers clock zero deadline answers enough = absurd (omega arith)
  poll_until-Answers clock (suc fuel) deadline {w} {v} {a} (here early h) enough =
      poll_until_answer fuel deadline w v a early h
  poll_until-Answers clock (suc fuel) deadline {w} {v} {a} (later {u = u} h rest) enough =
      let late = Answers-early clock rest in
      let moved = clock.moved (now w).1 _ h in
      let read = clock.read w in
      let shown = clock.shown w in
      let early : (now w).0 < deadline = omega arith in
      poll_until_again fuel deadline w u early h
      ∙ poll_until-Answers clock fuel deadline rest (omega arith)

  -- an answer that is there is that of a round before the deadline, or that of the deadline
  pub poll_until-cases :
      (fuel deadline : ℕ) {w v : W} {a : A}
      → poll_until now round timed_out fuel deadline w ≡ some (a, v)
      → Answers now round deadline w a v ⊎ ((u : W) × (timed_out u ≡ (a, v)))
  unfolding poll_until
  poll_until-cases zero deadline h = cc
  poll_until-cases (suc fuel) deadline {w} {v} {a} h = elim (Bool-cases (ltb (now w).0 deadline)) [
    | inr late ↦ inr ((now w).1, some-inj (sym (poll_until_late fuel deadline w late) ∙ h))
    | inl early ↦
        let early' = ltb→lt (now w).0 deadline early in
        elim (round-cases (round (now w).1)) [
          | inl (b, h') ↦
              let same = some-inj (sym (poll_until_answer fuel deadline w _ b early' h') ∙ h) in
              inl (here early' (h' ∙ ap (λ r. (some r.0, r.1)) same))
          | inr h' ↦
              let again = sym (poll_until_again fuel deadline w _ early' h') ∙ h in
              or_later early' h' (poll_until-cases fuel deadline again)
        ]
  ]
    where
      or_later :
          {u : W}
          → (now w).0 < deadline
          → round (now w).1 ≡ (none, u)
          → Answers now round deadline u a v ⊎ ((u : W) × (timed_out u ≡ (a, v)))
          → Answers now round deadline w a v ⊎ ((u : W) × (timed_out u ≡ (a, v)))
      or_later early h (inl rest) = inl (later h rest)
      or_later early h (inr late) = inr late
