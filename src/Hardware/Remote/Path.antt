-- ===== src/Hardware/Remote/Path.antt =====
-- The search for the ssh program looks at each directory of the path that a colon ends.
use Prim.Native.Char.{Char}
use ocp_diag_core_cpp.Base.{
  ℕ, zero, suc, ◌<◌, ◌≤◌, String, Bool, Option, none, some, List, [], ◌∷◌, ◌≡◌, refl, ap, ◌∙◌, inl,
  inr, Bool-cases, Option-cases, arith, if◌then◌else◌,
}
use ocp_diag_core_cpp.Hardware.Status.{Code, StatusOr, value, error}
use ocp_diag_core_cpp.Hardware.Identifier.{
  colon, same_char, find_first_of, next_position, take_text, drop_text, length_text, onto,
}
use ocp_diag_core_cpp.Hardware.Remote.{has_ssh, search_path, get_ssh_path}

-- the parts of a text that a colon ends: not what follows the last one
abbrev pub terminated : String → List String
terminated String.[] = []
terminated (String.◌∷◌ c s) =
    let rest = terminated s in if same_char c colon then "" ∷ rest else onto c rest

-- the first part of a text, with those behind it
abbrev first_part : String → Option ℕ → List String
first_part s none = []
first_part s (some n) = take_text n s ∷ terminated (drop_text (suc n) s)

first_part-next :
    (c : Char) (s : String) (found : Option ℕ)
    → onto c (first_part s found) ≡ first_part (String.◌∷◌ c s) (next_position found)
first_part-next c s none = refl
first_part-next c s (some n) = refl

terminated-first_part : (s : String) → terminated s ≡ first_part s (find_first_of colon s)
terminated-first_part String.[] = refl
terminated-first_part (String.◌∷◌ c s) = elim (Bool-cases (same_char c colon)) [
  | inl h ↦ rw h refl
  | inr h ↦
      rw h (ap (onto c) (terminated-first_part s) ∙ first_part-next c s (find_first_of colon s))
]

pub length-drop_text : (n : ℕ) (s : String) → length_text (drop_text n s) ≤ length_text s
length-drop_text zero s = omega arith
length-drop_text (suc n) String.[] = omega arith
length-drop_text (suc n) (String.◌∷◌ c s) = let ih = length-drop_text n s in omega arith

length-drop_found :
    (s : String) (n : ℕ)
    → find_first_of colon s ≡ some n
    → length_text (drop_text (suc n) s) < length_text s
length-drop_found String.[] n h = cc
length-drop_found (String.◌∷◌ c s) n h = let shorter = length-drop_text n s in omega arith

module _ (append_path : String → String → String) (exists : String → Bool) where
  -- the program in the first of some directories that has it
  abbrev pub first_ssh : List String → StatusOr String
  first_ssh [] = error Code.not_found
  first_ssh (d ∷ ds) =
      let others = first_ssh ds in
      if has_ssh append_path exists d then value (append_path d "ssh") else others

  search_path-first :
      (fuel : ℕ) (rest : String)
      → length_text rest < fuel
      → search_path append_path exists fuel rest ≡ some (first_ssh (terminated rest))
  unfolding search_path
  search_path-first zero rest enough = absurd (omega arith)
  search_path-first (suc fuel) rest enough = elim (Option-cases (find_first_of colon rest)) [
    | inl h ↦ rw (terminated-first_part rest, h) refl
    | inr (n, h) ↦
        let shorter = length-drop_found rest n h in
        let ih = search_path-first fuel (drop_text (suc n) rest) (omega arith) in
        elim (Bool-cases (has_ssh append_path exists (take_text n rest))) [
          | inl here ↦ rw (terminated-first_part rest, h, here) refl
          | inr other ↦ rw (terminated-first_part rest, h, other) ih
        ]
  ]

  -- The search for the ssh program always ends, and finds the program in the first of the
  -- directories of the path that a colon ends, of those that have it, or else none.
  pub get_ssh_path-first :
      (path_env : String)
      → get_ssh_path append_path exists path_env ≡ some (first_ssh (terminated path_env))
  unfolding get_ssh_path
  get_ssh_path-first path_env =
      search_path-first (suc (length_text path_env)) path_env (omega arith)
