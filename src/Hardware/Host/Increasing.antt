-- ===== src/Hardware/Host/Increasing.antt =====
-- The numbers of a range list: strictly increasing, from 0 on, and within an int.
use ocp_diag_core_cpp.Base.{
  ℕ, suc, zero, ◌+◌, ◌-◌, ◌≤◌, ◌<◌, ℤ, pos, negsuc, leb_ℤ, eq_ℤ, String, Bool, true, false, not,
  Option, none, some, List, [], ◌∷◌, ◌++◌, All, ◌≡◌, refl, ap, sym, ◌∙◌, Bool-cases, inl, inr,
  arith,
}
use ocp_diag_core_cpp.Hardware.Status.{value, undefined, >>=-eq-value, value-inj}
use ocp_diag_core_cpp.Hardware.Host.RangeList.{
  int_max, count_up, range, get_or_fail, check, parse_ranges, parse_elements, parse_range_list,
}

-- each number after the one before it, the first after `last`
abbrev pub IsIncreasing : ℤ → List ℤ → Type 0
IsIncreasing last [] = Unit
IsIncreasing last (x ∷ xs) = (leb_ℤ x last ≡ false) × IsIncreasing x xs

abbrev pub IsInt : ℤ → Type 0
IsInt n = leb_ℤ n int_max ≡ true

abbrev end_of : ℤ → List ℤ → ℤ
end_of last [] = last
end_of last (x ∷ xs) = end_of x xs

++-IsIncreasing :
    (last : ℤ) (xs ys : List ℤ)
    → IsIncreasing last xs
    → IsIncreasing (end_of last xs) ys
    → IsIncreasing last (xs ++ ys)
++-IsIncreasing last [] ys h k = k
++-IsIncreasing last (x ∷ xs) ys h k = (h.0, ++-IsIncreasing x xs ys h.1 k)

All-++ : (P : ℤ → Type 0) (xs ys : List ℤ) → All P xs → All P ys → All P (xs ++ ys)
All-++ P [] ys h k = k
All-++ P (x ∷ xs) ys h k = (h.0, All-++ P xs ys h.1 k)

count_up-IsIncreasing :
    (k m : ℕ) (last : ℤ) → leb_ℤ (pos m) last ≡ false → IsIncreasing last (count_up k (pos m))
count_up-IsIncreasing zero m last h = tt
count_up-IsIncreasing (suc k) m last h = (h, count_up-IsIncreasing k (suc m) (pos m) (ground arith))

count_up-IsInt : (k m : ℕ) → m + k ≤ 2147483648 → All IsInt (count_up k (pos m))
count_up-IsInt zero m h = tt
count_up-IsInt (suc k) m h = (ground arith, count_up-IsInt k (suc m) (omega arith))

end_of-count_up : (k m : ℕ) (last : ℤ) → end_of last (count_up (suc k) (pos m)) ≡ pos (m + k)
end_of-count_up zero m last = ap pos (omega arith)
end_of-count_up (suc k) m last = end_of-count_up k (suc m) (pos m) ∙ ap pos (omega arith)

-- What one element gives, after `last`: numbers that end at the last of them.
abbrev IsParsed : ℤ → List ℤ × ℤ → Type 0
IsParsed last parsed =
    IsIncreasing last parsed.0
    × (end_of last parsed.0 ≡ parsed.1)
    × All IsInt parsed.0
    × (leb_ℤ (negsuc 0) parsed.1 ≡ true)

after-pos :
    (from last : ℤ)
    → leb_ℤ (negsuc 0) last ≡ true
    → leb_ℤ from last ≡ false
    → (m : ℕ) × (from ≡ pos m)
after-pos (pos m) last start after = (m, refl)
after-pos (negsuc m) (pos n) start after = cc
after-pos (negsuc m) (negsuc n) start after = ground arith

up-pos : (m : ℕ) (to : ℤ) → leb_ℤ (pos m) to ≡ true → (n : ℕ) × (to ≡ pos n) × (m ≤ n)
up-pos m (pos n) up = (n, refl, ground arith)
up-pos m (negsuc n) up = cc

count_up-IsParsed :
    (last : ℤ) (m n : ℕ)
    → leb_ℤ (pos m) last ≡ false
    → m ≤ n
    → n < 2147483648
    → IsParsed last (count_up (suc (n - m)) (pos m), pos n)
count_up-IsParsed last m n after up int = (
  count_up-IsIncreasing (suc (n - m)) m last after,
  end_of-count_up (n - m) m last ∙ ap pos (omega arith),
  count_up-IsInt (suc (n - m)) m (omega arith),
  refl,
)

range-value :
    (m n : ℕ) (is : List ℤ) → range (pos m) (pos n) ≡ value is → count_up (suc (n - m)) (pos m) ≡ is
range-value m n is h = elim (Bool-cases (eq_ℤ (pos n) int_max)) [
  | inl e ↦ let run : range (pos m) (pos n) ≡ undefined = rw e refl in cc
  | inr e ↦
      let run : range (pos m) (pos n) ≡ value (count_up (suc (n - m)) (pos m)) = rw e refl in
      value-inj (sym run ∙ h)
]

range-IsParsed :
    (last : ℤ) (m n : ℕ) (is : List ℤ)
    → leb_ℤ (pos m) last ≡ false
    → m ≤ n
    → IsInt (pos n)
    → range (pos m) (pos n) ≡ value is
    → IsParsed last (is, pos n)
range-IsParsed last m n is after up int h =
    rw (sym (range-value m n is h)) (count_up-IsParsed last m n after up (ground arith))

check-false : (b : Bool) {u : Unit {0}} → check b ≡ value u → b ≡ false
check-false true h = cc
check-false false h = refl

got : (r : Option ℤ) (n : ℤ) → get_or_fail r ≡ value n → r ≡ some n
got none n h = cc
got (some m) n h = ap some (value-inj h)

range_of-IsParsed :
    (last from to : ℤ) (is : List ℤ) (m n : ℕ)
    → from ≡ pos m
    → to ≡ pos n
    → m ≤ n
    → leb_ℤ from last ≡ false
    → IsInt to
    → range from to ≡ value is
    → IsParsed last (is, to)
range_of-IsParsed last from to is m n p q le after int h = rw q (
    range-IsParsed last m n is (ap (λ x. leb_ℤ x last) (sym p) ∙ after) le
      (ap (λ x. leb_ℤ x int_max) (sym q) ∙ int)
      (ap (λ x. range x (pos n)) (sym p) ∙ ap (range from) (sym q) ∙ h))

module _ (simple_atoi : String → Option ℤ) (str_split : String → String → List String)
    (in_range : (s : String) (n : ℤ) → simple_atoi s ≡ some n → IsInt n) where
  parse_ranges-IsParsed :
      (last : ℤ) (parts : List String) (parsed : List ℤ × ℤ)
      → leb_ℤ (negsuc 0) last ≡ true
      → parse_ranges simple_atoi str_split last parts ≡ value parsed
      → IsParsed last parsed
  unfolding parse_ranges
  parse_ranges-IsParsed last [] parsed start h = cc
  parse_ranges-IsParsed last (first ∷ []) parsed start h =
      let from = >>=-eq-value (get_or_fail (simple_atoi first)) _ h in
      let okay = >>=-eq-value (check (leb_ℤ from.0 last)) _ from.1 in
      let after = check-false _ okay.2 in
      let int = in_range first from.0 (got _ _ from.2) in
      let m = after-pos from.0 last start after in
      rw (sym (value-inj okay.1)) ((after, tt), refl, (int, tt), rw m.1 refl)
  parse_ranges-IsParsed last (first ∷ second ∷ []) parsed start h =
      let from = >>=-eq-value (get_or_fail (simple_atoi first)) _ h in
      let okay = >>=-eq-value (check (leb_ℤ from.0 last)) _ from.1 in
      let to = >>=-eq-value (get_or_fail (simple_atoi second)) _ okay.1 in
      let up = >>=-eq-value (check (not (leb_ℤ from.0 to.0))) _ to.1 in
      let is = >>=-eq-value (range from.0 to.0) _ up.1 in
      let after = check-false _ okay.2 in
      let int = in_range second to.0 (got _ _ to.2) in
      let m = after-pos from.0 last start after in
      let n = up-pos m.0 to.0 (ground (arith, up.2)) in
      rw (sym (value-inj is.1))
        (range_of-IsParsed last from.0 to.0 is.0 m.0 n.0 m.1 n.1 n.2 after int is.2)
  parse_ranges-IsParsed last (first ∷ second ∷ third ∷ more) parsed start h = cc

  parse_elements-IsIncreasing :
      (last : ℤ) (ss : List String) (xs : List ℤ)
      → leb_ℤ (negsuc 0) last ≡ true
      → parse_elements simple_atoi str_split last ss ≡ value xs
      → IsIncreasing last xs × All IsInt xs
  unfolding parse_elements
  parse_elements-IsIncreasing last [] xs start h = rw (sym (value-inj h)) (tt, tt)
  parse_elements-IsIncreasing last (s ∷ ss) xs start h =
      let one = >>=-eq-value (parse_ranges simple_atoi str_split last (str_split "-" s)) _ h in
      let more = >>=-eq-value (parse_elements simple_atoi str_split one.0.1 ss) _ one.1 in
      let parsed = parse_ranges-IsParsed last (str_split "-" s) one.0 start one.2 in
      let rest = parse_elements-IsIncreasing one.0.1 ss more.0 parsed.3 more.2 in
      rw (sym (value-inj more.1)) (
        ++-IsIncreasing last one.0.0 more.0 parsed.0 (rw parsed.1 rest.0),
        All-++ IsInt one.0.0 more.0 parsed.2 rest.1,
      )

-- A range list that is parsed is strictly increasing, starts at 0 or later and holds no number over
-- the largest int, provided that SimpleAtoi reads none.
pub parse_range_list-IsIncreasing :
    (simple_atoi : String → Option ℤ) (str_split : String → String → List String) (str : String)
    (xs : List ℤ)
    → ((s : String) (n : ℤ) → simple_atoi s ≡ some n → IsInt n)
    → parse_range_list simple_atoi str_split str ≡ value xs
    → IsIncreasing (negsuc 0) xs × All IsInt xs
unfolding parse_range_list
parse_range_list-IsIncreasing simple_atoi str_split str xs in_range h =
    parse_elements-IsIncreasing simple_atoi str_split in_range (negsuc 0) (str_split "," str) xs
      refl h
