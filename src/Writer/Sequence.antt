-- ===== src/Writer/Sequence.antt =====
-- The sequence numbers of the records in the file.
use ocp_diag_core_cpp.Base.{
  ℕ, suc, ◌+◌, ◌≤◌, ◌<◌, ◌≡◌, refl, sym, ap, ◌∙◌, true, List, [], ◌∷◌, ◌++◌, snoc, length, some,
  arith,
}
use ocp_diag_core_cpp.Outcome.{ok}
use ocp_diag_core_cpp.Outcome.Action.{Action, ◌>>◌, pure, and_then-ok, blocks}
use ocp_diag_core_cpp.IntIncrementer.{int_max}
use ocp_diag_core_cpp.Platform.{Platform}
use ocp_diag_core_cpp.Model.Proto
use ocp_diag_core_cpp.Writer.{Writer, Sinks, write}

module _ ⦃P : Platform⦄ where
  -- Sequence numbers that grow from record to record, from `lo` on and below `hi`.
  abbrev Grows : ℕ → List Proto.OutputArtifact → ℕ → Type 0
  Grows lo [] hi = lo ≤ hi
  Grows lo (a ∷ rs) hi = (lo ≤ a.sequence_number) × Grows (suc a.sequence_number) rs hi

  Grows-weaken :
      (lo : ℕ) (rs : List Proto.OutputArtifact) (hi : ℕ) → Grows lo rs hi → Grows lo rs (suc hi)
  Grows-weaken lo [] hi h = omega arith
  Grows-weaken lo (a ∷ rs) hi h = (h.0, Grows-weaken (suc a.sequence_number) rs hi h.1)

  Grows-snoc :
      (lo : ℕ) (rs : List Proto.OutputArtifact) (a : Proto.OutputArtifact)
      → Grows lo rs a.sequence_number
      → Grows lo (snoc rs a) (suc a.sequence_number)
  Grows-snoc lo [] a h = (h, omega arith)
  Grows-snoc lo (b ∷ rs) a h = (h.0, Grows-snoc (suc b.sequence_number) rs a h.1)

  -- The records in the file are numbered upwards, below the next number.
  abbrev pub IsNumbered : Writer → Type 0
  IsNumbered w = Grows 0 w.file w.sequence_number

  -- the record of an artifact that is written next
  abbrev pub stamp : Writer → Proto.OutputCase → Proto.OutputArtifact
  stamp w c = record {
    artifact = c;
    sequence_number = w.sequence_number;
    timestamp = some (P.clock w.clock);
  }

  -- the records of a list of artifacts that are written one after the other
  abbrev pub stamped : ℕ → ℕ → List Proto.OutputCase → List Proto.OutputArtifact
  stamped n t [] = []
  stamped n t (c ∷ cs) =
      record { artifact = c; sequence_number = n; timestamp = some (P.clock t) }
      ∷ stamped (n + 1) (t + 1) cs

module _ ⦃P : Platform⦄ ⦃S : Sinks⦄ where
  -- Whatever the record writer does with the record, one `Write` leaves the records in the file
  -- numbered upwards, below the next number.
  pub write-IsNumbered :
      (c : Proto.OutputCase) (w : Writer) → IsNumbered w → IsNumbered (write c w).1
  unfolding write blocks
  write-IsNumbered c w h =
      ground (arith, Grows-weaken 0 w.file w.sequence_number, Grows-snoc 0 w.file (stamp w c))

  -- The record writer takes every record.
  abbrev pub IsReliable : Type 0
  IsReliable = (rs : List Proto.OutputArtifact) (a : Proto.OutputArtifact) → S.record_ok rs a ≡ true

  unfoldable pub write_all : List Proto.OutputCase → Action Writer (Unit {0})
  write_all [] = pure tt
  write_all (c ∷ cs) = write c >> write_all cs

  pub write_lem :
      (c : Proto.OutputCase) (w : Writer)
      → IsReliable
      → w.has_path ≡ true
      → w.sequence_number < int_max
      → ((write c w).0 ≡ ok tt)
        × ((write c w).1.file ≡ snoc w.file (stamp w c))
        × ((write c w).1.sequence_number ≡ w.sequence_number + 1)
        × ((write c w).1.clock ≡ w.clock + 1)
        × ((write c w).1.has_path ≡ true)
        × ((write c w).1.flushed ≡ w.flushed)
  unfolding write blocks
  write_lem c w r p h = ground (arith, r w.file (stamp w c))

  append-snoc :
      (xs ys : List Proto.OutputArtifact) (a : Proto.OutputArtifact)
      → snoc xs a ++ ys ≡ xs ++ a ∷ ys
  append-snoc [] ys a = refl
  append-snoc (x ∷ xs) ys a = ap (◌∷◌ x) (append-snoc xs ys a)

  append-nil : (xs : List Proto.OutputArtifact) → xs ++ [] ≡ xs
  append-nil [] = refl
  append-nil (x ∷ xs) = ap (◌∷◌ x) (append-nil xs)

  -- If the record writer takes every record, a file is written, and the count does not overflow,
  -- then writes return, and the file has grown by exactly the artifacts written, in order, with
  -- consecutive sequence numbers from the next number on and one clock reading each.
  pub write_all-file :
      (cs : List Proto.OutputCase) (w : Writer)
      → IsReliable
      → w.has_path ≡ true
      → w.sequence_number + length cs ≤ int_max
      → ((write_all cs w).0 ≡ ok tt)
        × ((write_all cs w).1.file ≡ w.file ++ stamped w.sequence_number w.clock cs)
  unfolding write_all blocks
  write_all-file [] w r p h = (refl, sym (append-nil w.file))
  write_all-file (c ∷ cs) w r p h =
      after (write_lem c w r p (omega arith)) (write_all-file cs (write c w).1 r)
    where
      after :
          ((write c w).0 ≡ ok tt)
            × ((write c w).1.file ≡ snoc w.file (stamp w c))
            × ((write c w).1.sequence_number ≡ w.sequence_number + 1)
            × ((write c w).1.clock ≡ w.clock + 1)
            × ((write c w).1.has_path ≡ true)
            × ((write c w).1.flushed ≡ w.flushed)
          → ((write c w).1.has_path ≡ true
              → (write c w).1.sequence_number + length cs ≤ int_max
              → ((write_all cs (write c w).1).0 ≡ ok tt)
                × ((write_all cs (write c w).1).1.file
                    ≡ (write c w).1.file
                      ++ stamped (write c w).1.sequence_number (write c w).1.clock cs))
          → ((write_all (c ∷ cs) w).0 ≡ ok tt)
            × ((write_all (c ∷ cs) w).1.file ≡ w.file ++ stamped w.sequence_number w.clock (c ∷ cs))
      after (e0, e1, e2, e3, e4, e5) ih =
          let rest = ih e4 (omega arith) in
          rw (and_then-ok (write c w) (λ _. write_all cs) e0)
            (rest.0, rest.1 ∙ rw (e1, e2, e3) (append-snoc w.file _ _))
