-- ===== src/Hardware/Identifier.antt =====
-- ocpdiag/core/hwinterface/backends/lib/hw_info.cc and identifier.proto: the identifier of a
-- component and its text. A position in a text counts characters, where the code counts bytes: the
-- two agree on what is cut, since the characters looked for are ASCII.
pub mod Marshal
pub mod Local
pub mod Matcher
use Prim.Native.Char.{Char, code}
use Prim.Native.String.{◌++◌}
use text.Mathlib.Text.{◌==◌ as str_eq, starts_with}
use ocp_diag_core_cpp.Base.{
  ℕ, zero, suc, ◌==◌, String, Bool, true, false, Option, none, some, List, [], ◌∷◌, lookup, put,
  if◌then◌else◌,
}
use ocp_diag_core_cpp.Hardware.Status.{Code, StatusOr, value, error, thrown, undefined}

pub record Identifier : Type 0 where
  pub devpath : String
  pub odata_id : String
  pub name : String
  pub arena : String
  pub type_name : String
  pub id : String

abbrev pub no_identifier : Identifier
no_identifier = record {
  devpath = "";
  odata_id = "";
  name = "";
  arena = "";
  type_name = "";
  id = "";
}

abbrev pub IdMap : Type 0
IdMap = List (String × String)

abbrev pub same_char : Char → Char → Bool
same_char c d = code c == code d

-- GetReverseIdMap: only the local devpaths are reversed.
unfoldable add_reversed : IdMap → IdMap → IdMap
add_reversed [] reversed = reversed
add_reversed (e ∷ es) reversed =
    add_reversed es (if starts_with e.0 "/phys" then put str_eq e.1 e.0 reversed else reversed)

abbrev get_reverse_id_map : IdMap → IdMap
get_reverse_id_map id_map = add_reversed id_map []

abbrev pub next_position : Option ℕ → Option ℕ
next_position none = none
next_position (some n) = some (suc n)

-- `find_first_of` one character
abbrev pub find_first_of : Char → String → Option ℕ
find_first_of c String.[] = none
find_first_of c (String.◌∷◌ d s) =
    if same_char d c then some 0 else next_position (find_first_of c s)

abbrev pub or_here : Bool → Option ℕ → Option ℕ
or_here here (some n) = some (suc n)
or_here true none = some 0
or_here false none = none

-- `find_last_of` one character
abbrev pub find_last_of : Char → String → Option ℕ
find_last_of c String.[] = none
find_last_of c (String.◌∷◌ d s) = or_here (same_char d c) (find_last_of c s)

-- the first `n` characters
abbrev pub take_text : ℕ → String → String
take_text zero s = ""
take_text (suc n) String.[] = ""
take_text (suc n) (String.◌∷◌ c s) = String.◌∷◌ c (take_text n s)

abbrev pub drop_text : ℕ → String → String
drop_text zero s = s
drop_text (suc n) String.[] = ""
drop_text (suc n) (String.◌∷◌ c s) = drop_text n s

abbrev pub length_text : String → ℕ
length_text String.[] = 0
length_text (String.◌∷◌ c s) = suc (length_text s)

abbrev pub percent : Char
percent = Char.char 37 tt

abbrev pub colon : Char
colon = Char.char 58 tt

abbrev pub slash : Char
slash = Char.char 47 tt

abbrev pub or_else : Option ℕ → Option ℕ → Option ℕ
or_else none n = n
or_else (some m) n = some m

-- the next place to cut: the first colon, or else the last slash
abbrev pub next_found : String → Option ℕ
next_found prefix = or_else (find_first_of colon prefix) (find_last_of slash prefix)

abbrev pub on_found : {A : Type 0} → Option ℕ → (ℕ → A) → A → A
on_found none next end = end
on_found (some n) next end = next n

abbrev pub answer : Option String → String → Option String → Option String
answer none remainder rest = rest
answer (some local) remainder rest = some (local ++ remainder)

-- The loop of `UpdateIdToLocal`: none if the fuel runs out.
unfoldable pub search_local : ℕ → IdMap → String → ℕ → String → Option String
search_local zero id_map global_id found prefix = none
search_local (suc fuel) id_map global_id zero prefix = some global_id
search_local (suc fuel) id_map global_id (suc n) prefix =
    let cut = take_text (suc n) prefix in
    answer (lookup str_eq cut id_map) (drop_text (suc n) global_id)
      (on_found (next_found cut) (λ k. search_local fuel id_map global_id k cut) (some global_id))

unfoldable pub update_id_to_local : Option IdMap → String → Option String
unfolding search_local
update_id_to_local none global_id = some global_id
update_id_to_local (some id_map) global_id =
    search_local (suc (length_text global_id)) id_map global_id (length_text global_id) global_id

abbrev or_same : Option String → String → String
or_same none local_id = local_id
or_same (some global_id) local_id = global_id

abbrev update_id_to_global : Option IdMap → String → String
update_id_to_global none local_id = local_id
update_id_to_global (some id_map) local_id = or_same (lookup str_eq local_id id_map) local_id

-- `StrJoin` with "%"
abbrev pub join : List String → String
join [] = ""
join (s ∷ []) = s
join (s ∷ t ∷ ss) = s ++ String.◌∷◌ percent (join (t ∷ ss))

unfoldable pub populate_id : Option IdMap → Identifier → Identifier
populate_id id_map i =
    let devpath = update_id_to_global id_map i.devpath in
    record i {
      devpath = devpath;
      id = join (devpath ∷ i.odata_id ∷ i.name ∷ i.arena ∷ i.type_name ∷ []);
    }

abbrev pub onto : Char → List String → List String
onto c [] = []
onto c (s ∷ ss) = String.◌∷◌ c s ∷ ss

-- `StrSplit` at one character, with `MaxSplits`
abbrev pub split_max : Char → ℕ → String → List String
split_max c zero s = s ∷ []
split_max c (suc n) String.[] = "" ∷ []
split_max c (suc n) (String.◌∷◌ d s) =
    let there = split_max c n s in
    let here = split_max c (suc n) s in if same_char d c then "" ∷ there else onto d here

abbrev pub from_fields : String → List String → StatusOr Identifier
from_fields id (devpath ∷ odata_id ∷ name ∷ arena ∷ type_name ∷ []) = value (record {
  devpath = devpath;
  odata_id = odata_id;
  name = name;
  arena = arena;
  type_name = type_name;
  id = id;
})
from_fields id [] = error Code.invalid_argument
from_fields id (s₁ ∷ []) = error Code.invalid_argument
from_fields id (s₁ ∷ s₂ ∷ []) = error Code.invalid_argument
from_fields id (s₁ ∷ s₂ ∷ s₃ ∷ []) = error Code.invalid_argument
from_fields id (s₁ ∷ s₂ ∷ s₃ ∷ s₄ ∷ []) = error Code.invalid_argument
from_fields id (s₁ ∷ s₂ ∷ s₃ ∷ s₄ ∷ s₅ ∷ s₆ ∷ ss) = error Code.invalid_argument

unfoldable pub unmarshal_identifier : String → StatusOr Identifier
unmarshal_identifier id = from_fields id (split_max percent 5 id)
