-- ===== src/Hardware/Identifier/Marshal.antt =====
-- The text of an identifier and its parsing are inverse to each other.
use Prim.Native.Char.{Char}
use Prim.Native.String.{◌++◌}
use text.Mathlib.TextEquality.{Char-path}
use text.Mathlib.TextLemmas.{nil-append, cons-append}
use ocp_diag_core_cpp.Base.{
  ℕ, zero, suc, String, Bool, true, false, ◌||◌, none, List, [], ◌∷◌, ◌≡◌, refl, ap, sym, ◌∙◌,
  Bool-cases, inl, inr, arith,
}
use ocp_diag_core_cpp.Hardware.Status.{value, value-inj}
use ocp_diag_core_cpp.Hardware.Identifier.{
  Identifier, same_char, percent, join, populate_id, onto, split_max, from_fields,
  unmarshal_identifier,
}

abbrev pub has : Char → String → Bool
has c String.[] = false
has c (String.◌∷◌ d s) = same_char d c || has c s

same_char_refl : (c : Char) → same_char c c ≡ true
same_char_refl c = ground arith

join-onto :
    (c : Char) (s : String) (ss : List String)
    → join (onto c (s ∷ ss)) ≡ String.◌∷◌ c (join (s ∷ ss))
join-onto c s [] = refl
join-onto c s (t ∷ ss) = cons-append c s (String.◌∷◌ percent (join (t ∷ ss)))

join-nil : (s : String) (ss : List String) → join ("" ∷ s ∷ ss) ≡ String.◌∷◌ percent (join (s ∷ ss))
join-nil s ss = nil-append (String.◌∷◌ percent (join (s ∷ ss)))

abbrev IsCons : List String → Type 0
IsCons ss = (s : String) × (rest : List String) × (ss ≡ s ∷ rest)

onto-IsCons : (c : Char) (ss : List String) → IsCons ss → IsCons (onto c ss)
onto-IsCons c ss k = (String.◌∷◌ c k.0, k.1, ap (onto c) k.2)

split_max-IsCons : (c : Char) (n : ℕ) (s : String) → IsCons (split_max c n s)
split_max-IsCons c zero s = (s, [], refl)
split_max-IsCons c (suc n) String.[] = ("", [], refl)
split_max-IsCons c (suc n) (String.◌∷◌ d s) = elim (Bool-cases (same_char d c)) [
  | inl h ↦ rw h ("", split_max c n s, refl)
  | inr h ↦ rw h (onto-IsCons d (split_max c (suc n) s) (split_max-IsCons c (suc n) s))
]

same_char→eq : (c d : Char) → same_char c d ≡ true → c ≡ d
same_char→eq c d h = Char-path c d (ground arith)

join-split_max : (n : ℕ) (s : String) → join (split_max percent n s) ≡ s
join-split_max zero s = refl
join-split_max (suc n) String.[] = refl
join-split_max (suc n) (String.◌∷◌ d s) = elim (Bool-cases (same_char d percent)) [
  | inl h ↦
      let k = split_max-IsCons percent n s in
      rw h (
        ap (λ ss. join ("" ∷ ss)) k.2
        ∙ join-nil k.0 k.1
        ∙ ap (λ ss. String.◌∷◌ percent (join ss)) (sym k.2)
        ∙ ap (String.◌∷◌ percent) (join-split_max n s)
        ∙ ap (λ c. String.◌∷◌ c s) (sym (same_char→eq d percent h)))
  | inr h ↦
      let k = split_max-IsCons percent (suc n) s in
      rw h (
        ap (λ ss. join (onto d ss)) k.2
        ∙ join-onto d k.0 k.1
        ∙ ap (λ ss. String.◌∷◌ d (join ss)) (sym k.2)
        ∙ ap (String.◌∷◌ d) (join-split_max (suc n) s))
]

from_fields-populate :
    (ss : List String) (s : String) (i : Identifier)
    → join ss ≡ s
    → from_fields s ss ≡ value i
    → populate_id none i ≡ i
unfolding populate_id
from_fields-populate [] s i j h = cc
from_fields-populate (s₁ ∷ []) s i j h = cc
from_fields-populate (s₁ ∷ s₂ ∷ []) s i j h = cc
from_fields-populate (s₁ ∷ s₂ ∷ s₃ ∷ []) s i j h = cc
from_fields-populate (s₁ ∷ s₂ ∷ s₃ ∷ s₄ ∷ []) s i j h = cc
from_fields-populate (s₁ ∷ s₂ ∷ s₃ ∷ s₄ ∷ s₅ ∷ []) s i j h = rw (sym (value-inj h)) (rw j refl)
from_fields-populate (s₁ ∷ s₂ ∷ s₃ ∷ s₄ ∷ s₅ ∷ s₆ ∷ ss) s i j h = cc

-- Joining the fields of an identifier that was parsed from a text gives that text again.
populate_id-unmarshal_identifier :
    (id : String) (i : Identifier) → unmarshal_identifier id ≡ value i → populate_id none i ≡ i
unfolding unmarshal_identifier
populate_id-unmarshal_identifier id i h =
    from_fields-populate (split_max percent 5 id) id i (join-split_max 5 id) h

split_max-last : (c : Char) (n : ℕ) (s : String) → has c s ≡ false → split_max c n s ≡ s ∷ []
split_max-last c zero s h = refl
split_max-last c (suc n) String.[] h = refl
split_max-last c (suc n) (String.◌∷◌ d s) h =
    let no : same_char d c ≡ false = ground arith in
    rw no (ap (onto d) (split_max-last c (suc n) s (ground arith)))

split_max-first :
    (c : Char) (n : ℕ) (s rest : String)
    → has c s ≡ false
    → split_max c (suc n) (s ++ String.◌∷◌ c rest) ≡ s ∷ split_max c n rest
split_max-first c n String.[] rest h =
    ap (split_max c (suc n)) (nil-append (String.◌∷◌ c rest)) ∙ rw (same_char_refl c) refl
split_max-first c n (String.◌∷◌ d s) rest h =
    let no : same_char d c ≡ false = ground arith in
    ap (split_max c (suc n)) (cons-append d s (String.◌∷◌ c rest))
    ∙ rw no (ap (onto d) (split_max-first c n s rest (ground arith)))

-- no field that the text of an identifier is made of has a "%"
abbrev IsPlain : Identifier → Type 0
IsPlain i =
    (has percent i.devpath ≡ false)
    × (has percent i.odata_id ≡ false)
    × (has percent i.name ≡ false)
    × (has percent i.arena ≡ false)
    × (has percent i.type_name ≡ false)

-- The text of an identifier is parsed to the identifier, provided that no field of it has a "%".
pub unmarshal_identifier-populate_id :
    (i : Identifier)
    → IsPlain i
    → unmarshal_identifier (populate_id none i).id ≡ value (populate_id none i)
unfolding unmarshal_identifier populate_id
unmarshal_identifier-populate_id i h = ap (from_fields (populate_id none i).id) (
    split_max-first percent 4 i.devpath _ h.0
    ∙ ap (i.devpath ∷◌) (
        split_max-first percent 3 i.odata_id _ h.1
        ∙ ap (i.odata_id ∷◌) (
            split_max-first percent 2 i.name _ h.2
            ∙ ap (i.name ∷◌) (
                split_max-first percent 1 i.arena _ h.3
                ∙ ap (i.arena ∷◌) (split_max-last percent 1 i.type_name h.4)))))
