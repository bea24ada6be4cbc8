-- ===== src/Hardware/Identifier/Matcher.antt =====
-- ocpdiag/core/hwinterface/lib/identifier_utils.h and .cc: the matching of identifiers against
-- filters. RE2 is a parameter: what makes a regular expression of a text, if it is one, and whether
-- some part of a text matches.
use ocp_diag_core_cpp.Base.{
  String, is_empty, Bool, true, false, ◌&&◌, ◌||◌, Option, none, some, List, [], ◌∷◌, if◌then◌else◌,
}
use ocp_diag_core_cpp.Hardware.Status.{Code, StatusOr, ◌>>=◌, value, error}
use ocp_diag_core_cpp.Hardware.Identifier.{Identifier, no_identifier}

pub data FilterOperator : Type 0 where
  not_set or_fields and_fields : FilterOperator

pub record Filter : Type 0 where
  pub id_regex : Option Identifier
  pub op : FilterOperator

-- `kIdFields` of an identifier
abbrev id_fields : Identifier → List String
id_fields i = i.devpath ∷ i.odata_id ∷ i.name ∷ i.arena ∷ i.type_name ∷ i.id ∷ []

-- IdentifierMatcher: a regular expression or a null pointer for each field
record IdentifierMatcher (R : Type 0) : Type 0 where
  pub op : FilterOperator
  pub regexes : List (Option R)

module _ {R : Type 0} where
  abbrev regex_or_fail : Option R → StatusOr (Option R)
  regex_or_fail none = error Code.invalid_argument
  regex_or_fail (some r) = value (some r)

  module _ (compile : String → Option R) where
    unfoldable create_regexes : List String → StatusOr (List (Option R))
    create_regexes [] = value []
    create_regexes (expression ∷ expressions) =
        (if is_empty expression then value none else regex_or_fail (compile expression)) >>= λ r.
        create_regexes expressions >>= λ rs. value (r ∷ rs)

    -- the expressions of a filter, all empty if it has no `id_regex`
    abbrev expressions_of : Option Identifier → List String
    expressions_of none = id_fields no_identifier
    expressions_of (some regex) = id_fields regex

    unfoldable create_matcher : Filter → StatusOr (IdentifierMatcher R)
    unfolding create_regexes
    create_matcher f = create_regexes (expressions_of f.id_regex) >>= λ regexes.
        value (record { op = f.op; regexes = regexes })

    -- IdentifierMatchersUnion::Create
    unfoldable create_matchers : List Filter → StatusOr (List (IdentifierMatcher R))
    unfolding create_matcher
    create_matchers [] = value []
    create_matchers (f ∷ fs) = create_matcher f >>= λ m. create_matchers fs >>= λ ms. value (m ∷ ms)

  unfoldable is_empty_matcher : List (Option R) → Bool
  is_empty_matcher [] = true
  is_empty_matcher (none ∷ rs) = is_empty_matcher rs
  is_empty_matcher (some r ∷ rs) = false

  module _ (partial_match : String → R → Bool) where
    unfoldable and_all : List (Option R) → List String → Bool
    and_all [] fields = true
    and_all (r ∷ rs) [] = true
    and_all (none ∷ rs) (field ∷ fields) = and_all rs fields
    and_all (some r ∷ rs) (field ∷ fields) = partial_match field r && and_all rs fields

    unfoldable or_all : List (Option R) → List String → Bool
    or_all [] fields = false
    or_all (r ∷ rs) [] = false
    or_all (none ∷ rs) (field ∷ fields) = or_all rs fields
    or_all (some r ∷ rs) (field ∷ fields) = partial_match field r || or_all rs fields

    unfoldable by_operator : FilterOperator → List (Option R) → List String → Bool
    unfolding and_all or_all
    by_operator FilterOperator.and_fields rs fields = and_all rs fields
    by_operator FilterOperator.or_fields rs fields = or_all rs fields
    by_operator FilterOperator.not_set rs fields = or_all rs fields

    unfoldable match_identifier : IdentifierMatcher R → Identifier → Bool
    unfolding is_empty_matcher by_operator
    match_identifier m i =
        if is_empty_matcher m.regexes then true else by_operator m.op m.regexes (id_fields i)

    unfoldable match_any : List (IdentifierMatcher R) → Identifier → Bool
    unfolding match_identifier
    match_any [] i = false
    match_any (m ∷ ms) i = match_identifier m i || match_any ms i

    -- IdentifierMatchersUnion::Match
    unfoldable match_union : List (IdentifierMatcher R) → Identifier → Bool
    unfolding match_any
    match_union [] i = true
    match_union (m ∷ ms) i = match_any (m ∷ ms) i
