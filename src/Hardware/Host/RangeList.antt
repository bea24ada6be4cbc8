-- ===== src/Hardware/Host/RangeList.antt =====
-- ocpdiag/core/hwinterface/backends/lib/utils.cc: ParseRangeList, and cpu.cc: the parsing of a file
-- as a range list or an integer. SimpleAtoi and StrSplit are Abseil's, parameters here.
use ocp_diag_core_cpp.Base.{
  ℕ, suc, zero, ◌+◌, ◌-◌, ℤ, pos, negsuc, leb_ℤ, eq_ℤ, String, Bool, true, false, not, Option, none,
  some, List, [], ◌∷◌, ◌++◌, if◌then◌else◌,
}
use ocp_diag_core_cpp.Hardware.Status.{Code, StatusOr, ◌>>=◌, value, error, undefined}

abbrev pub int_max : ℤ
int_max = pos 2147483647

abbrev succ_ℤ : ℤ → ℤ
succ_ℤ (pos n) = pos (suc n)
succ_ℤ (negsuc zero) = pos 0
succ_ℤ (negsuc (suc n)) = negsuc n

-- `b - a`, or 0 if it is negative
abbrev distance : ℤ → ℤ → ℕ
distance (pos m) (pos n) = n - m
distance (pos m) (negsuc n) = 0
distance (negsuc m) (pos n) = suc m + n
distance (negsuc m) (negsuc n) = m - n

-- as many numbers, from `i` on
abbrev pub count_up : ℕ → ℤ → List ℤ
count_up zero i = []
count_up (suc k) i = i ∷ count_up k (succ_ℤ i)

-- the loop from `from` to `to`, whose `++i` overflows behind the largest int
abbrev pub range : ℤ → ℤ → StatusOr (List ℤ)
range from to =
    if eq_ℤ to int_max then undefined else value (count_up (suc (distance from to)) from)

abbrev pub get_or_fail : Option ℤ → StatusOr ℤ
get_or_fail none = error Code.invalid_argument
get_or_fail (some n) = value n

abbrev pub check : Bool → StatusOr (Unit {0})
check true = error Code.invalid_argument
check false = value tt

module _ (simple_atoi : String → Option ℤ) (str_split : String → String → List String) where
  -- The numbers of one element of the list, all after `last`, and the last of them.
  unfoldable pub parse_ranges : ℤ → List String → StatusOr (List ℤ × ℤ)
  parse_ranges last (first ∷ []) = get_or_fail (simple_atoi first) >>= λ from.
      check (leb_ℤ from last) >>= λ okay. value (from ∷ [], from)
  parse_ranges last (first ∷ second ∷ []) = get_or_fail (simple_atoi first) >>= λ from.
      check (leb_ℤ from last) >>= λ okay. get_or_fail (simple_atoi second) >>= λ to.
      check (not (leb_ℤ from to)) >>= λ okay. range from to >>= λ is. value (is, to)
  parse_ranges last [] = error Code.invalid_argument
  parse_ranges last (first ∷ second ∷ third ∷ more) = error Code.invalid_argument

  unfoldable pub parse_elements : ℤ → List String → StatusOr (List ℤ)
  unfolding parse_ranges
  parse_elements last [] = value []
  parse_elements last (s ∷ ss) = parse_ranges last (str_split "-" s) >>= λ parsed.
      parse_elements parsed.1 ss >>= λ rest. value (parsed.0 ++ rest)

  unfoldable pub parse_range_list : String → StatusOr (List ℤ)
  unfolding parse_elements
  parse_range_list str = parse_elements (negsuc 0) (str_split "," str)
