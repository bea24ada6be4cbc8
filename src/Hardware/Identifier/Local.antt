-- ===== src/Hardware/Identifier/Local.antt =====
-- The search of the longest known prefix ends, and what it can give.
use Prim.Native.Char.{Char}
use Prim.Native.String.{◌++◌}
use text.Mathlib.Text.{◌==◌ as str_eq}
use ocp_diag_core_cpp.Base.{
  ℕ, zero, suc, ◌≤◌, ◌<◌, String, Bool, true, false, Option, none, some, lookup, ◌≡◌, refl, ap, sym,
  ◌∙◌, ◌⊎◌, inl, inr, Bool-cases, arith,
}
use ocp_diag_core_cpp.Hardware.Identifier.{
  IdMap, same_char, find_first_of, find_last_of, take_text, drop_text, length_text, next_found,
  on_found, answer, search_local, update_id_to_local, or_else, next_position, or_here, colon, slash,
}

abbrev IsWithin : Option ℕ → ℕ → Type 0
IsWithin none n = Unit
IsWithin (some k) n = k < n

next_position-IsWithin : (r : Option ℕ) (n : ℕ) → IsWithin r n → IsWithin (next_position r) (suc n)
next_position-IsWithin none n h = tt
next_position-IsWithin (some k) n h = omega arith

find_first_of-IsWithin : (c : Char) (s : String) → IsWithin (find_first_of c s) (length_text s)
find_first_of-IsWithin c String.[] = tt
find_first_of-IsWithin c (String.◌∷◌ d s) = elim (Bool-cases (same_char d c)) [
  | inl h ↦ rw h (omega arith)
  | inr h ↦
      rw h (next_position-IsWithin (find_first_of c s) (length_text s) (find_first_of-IsWithin c s))
]

or_here-IsWithin : (b : Bool) (r : Option ℕ) (n : ℕ) → IsWithin r n → IsWithin (or_here b r) (suc n)
or_here-IsWithin true none n h = omega arith
or_here-IsWithin false none n h = tt
or_here-IsWithin b (some k) n h = omega arith

find_last_of-IsWithin : (c : Char) (s : String) → IsWithin (find_last_of c s) (length_text s)
find_last_of-IsWithin c String.[] = tt
find_last_of-IsWithin c (String.◌∷◌ d s) =
    or_here-IsWithin (same_char d c) (find_last_of c s) (length_text s) (find_last_of-IsWithin c s)

or_else-IsWithin : (q r : Option ℕ) (n : ℕ) → IsWithin q n → IsWithin r n → IsWithin (or_else q r) n
or_else-IsWithin none r n h k = k
or_else-IsWithin (some m) r n h k = h

next_found-IsWithin : (s : String) → IsWithin (next_found s) (length_text s)
next_found-IsWithin s =
    or_else-IsWithin (find_first_of colon s) (find_last_of slash s) (length_text s)
      (find_first_of-IsWithin colon s) (find_last_of-IsWithin slash s)

length-take_text : (n : ℕ) (s : String) → length_text (take_text n s) ≤ n
length-take_text zero s = omega arith
length-take_text (suc n) String.[] = omega arith
length-take_text (suc n) (String.◌∷◌ c s) = let ih = length-take_text n s in omega arith

take-take_text : (m n : ℕ) (s : String) → m ≤ n → take_text m (take_text n s) ≡ take_text m s
take-take_text zero n s h = refl
take-take_text (suc m) zero s h = ground arith
take-take_text (suc m) (suc n) String.[] h = refl
take-take_text (suc m) (suc n) (String.◌∷◌ c s) h =
    ap (String.◌∷◌ c) (take-take_text m n s (omega arith))

take_text_all : (s : String) → take_text (length_text s) s ≡ s
take_text_all String.[] = refl
take_text_all (String.◌∷◌ c s) = ap (String.◌∷◌ c) (take_text_all s)

-- the text as it was, or a known prefix of it replaced by its local one
abbrev pub IsLocal : IdMap → String → String → Type 0
IsLocal id_map global_id r =
    (r ≡ global_id)
    ⊎ ((k : ℕ) × (local : String) × (lookup str_eq (take_text k global_id) id_map ≡ some local)
        × (r ≡ local ++ drop_text k global_id))

abbrev IsAnswered : IdMap → String → Option String → Type 0
IsAnswered id_map global_id answered =
    (r : String) × (answered ≡ some r) × IsLocal id_map global_id r

answer-IsAnswered :
    (id_map : IdMap) (g : String) (k : ℕ) (hit : Option String) (rest : Option String)
    → lookup str_eq (take_text k g) id_map ≡ hit
    → IsAnswered id_map g rest
    → IsAnswered id_map g (answer hit (drop_text k g) rest)
answer-IsAnswered id_map g k none rest e h = h
answer-IsAnswered id_map g k (some local) rest e h =
    (local ++ drop_text k g, refl, inr (k, local, e, refl))

on_found-IsAnswered :
    (id_map : IdMap) (g : String) (r : Option ℕ) (n : ℕ) (next : ℕ → Option String)
    → IsWithin r n
    → ((k : ℕ) → k < n → IsAnswered id_map g (next k))
    → IsAnswered id_map g (on_found r next (some g))
on_found-IsAnswered id_map g none n next h step = (g, refl, inl refl)
on_found-IsAnswered id_map g (some k) n next h step = step k h

search_local-IsAnswered :
    (fuel : ℕ) (id_map : IdMap) (g : String) (found bound : ℕ)
    → found < fuel
    → found ≤ bound
    → IsAnswered id_map g (search_local fuel id_map g found (take_text bound g))
unfolding search_local
search_local-IsAnswered zero id_map g found bound h b = ground arith
search_local-IsAnswered (suc fuel) id_map g zero bound h b = (g, refl, inl refl)
search_local-IsAnswered (suc fuel) id_map g (suc n) bound h b =
    rw (take-take_text (suc n) bound g b) (
      answer-IsAnswered id_map g (suc n) (lookup str_eq (take_text (suc n) g) id_map) _ refl (
        on_found-IsAnswered id_map g (next_found (take_text (suc n) g))
          (length_text (take_text (suc n) g)) _ (next_found-IsWithin (take_text (suc n) g))
          (λ k less.
            let short = length-take_text (suc n) g in
            search_local-IsAnswered fuel id_map g k (suc n) (omega arith) (omega arith))))

-- The search for a local identifier ends within its fuel, one more than the length of the text: it
-- gives the text as it was, or with a prefix that the map knows replaced by the map's value.
pub update_id_to_local-ends :
    (id_map : IdMap) (global_id : String)
    → (r : String) × (update_id_to_local (some id_map) global_id ≡ some r)
      × IsLocal id_map global_id r
unfolding update_id_to_local
update_id_to_local-ends id_map global_id =
    let found =
      search_local-IsAnswered (suc (length_text global_id)) id_map global_id (length_text global_id)
        (length_text global_id) (omega arith) (omega arith) in
    (
      found.0,
      ap (search_local (suc (length_text global_id)) id_map global_id (length_text global_id))
            (sym (take_text_all global_id))
          ∙ found.1,
      found.2,
    )
