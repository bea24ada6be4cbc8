-- ===== src/Hardware/Errors/Report.antt =====
-- A report of memory errors is read to its end, record by record.
use ocp_diag_core_cpp.Base.{
  String, is_empty, false, Option, none, some, List, [], ◌∷◌, ◌++◌, snoc, All, ◌≡◌, refl, ap, sym,
  ◌∙◌,
}
use ocp_diag_core_cpp.Hardware.Status.{StatusOr, ◌>>=◌, value, >>=-eq-value, value-inj}
use ocp_diag_core_cpp.Hardware.Errors.{
  ParsingStep, Error, ReportText, read_mc_record, push_error, parse_mc_record, parse_mc_title,
  parse_lines, parse_error_report,
}

-- the error of a record, in front of those of the next
abbrev found_first : Option Error → List Error → List Error
found_first none es = es
found_first (some e) es = e ∷ es

-- the errors of all records, one after the other
abbrev read_records : ReportText → List String → StatusOr (List Error)
read_records text [] = value []
read_records text (r ∷ rs) =
    read_mc_record text r >>= λ e. read_records text rs >>= λ es. value (found_first e es)

-- the list without its last element's place: what `snoc` does to an append
snoc-++ : (xs : List Error) (e : Error) (ys : List Error) → snoc xs e ++ ys ≡ xs ++ (e ∷ ys)
snoc-++ [] e ys = refl
snoc-++ (x ∷ xs) e ys = ap (x ∷◌) (snoc-++ xs e ys)

push-++ :
    (e : Option Error) (errors es : List Error)
    → push_error e errors ++ es ≡ errors ++ found_first e es
push-++ none errors es = refl
push-++ (some e) errors es = snoc-++ errors e es

append-nil : (xs : List Error) → xs ++ [] ≡ xs
append-nil [] = refl
append-nil (x ∷ xs) = ap (x ∷◌) (append-nil xs)

parse_lines-records :
    (text : ReportText) (records : List String) (next : String) (more : List String)
    (errors es : List Error)
    → All (λ r. is_empty r ≡ false) records
    → read_records text records ≡ value es
    → parse_lines text (records ++ ("" ∷ next ∷ more)) ParsingStep.mc_record errors
      ≡ (value tt, errors ++ es)
unfolding parse_lines parse_mc_record
parse_lines-records text [] next more errors es full h =
    ap (λ xs. (value tt, xs)) (sym (append-nil errors) ∙ ap (errors ++◌) (value-inj h))
parse_lines-records text (r ∷ rs) next more errors es full h =
    let one = >>=-eq-value (read_mc_record text r) _ h in
    let rest = >>=-eq-value (read_records text rs) _ one.1 in
    let ih = parse_lines-records text rs next more (push_error one.0 errors) rest.0 full.1 rest.2 in
    rw (full.0, one.2)
      (ih
        ∙ ap (λ xs. (value tt, xs))
            (push-++ one.0 errors rest.0 ∙ ap (errors ++◌) (value-inj rest.1)))

-- A report of the title, of records that can all be read, of an empty line and of at least one line
-- more is parsed without an error, and gives the errors of all its records in their order.
pub parse_error_report-records :
    (text : ReportText) (report : String) (records : List String) (next : String)
    (more : List String) (es : List Error)
    → text.str_split "\n" report ≡ "Memory controller events:" ∷ (records ++ ("" ∷ next ∷ more))
    → All (λ r. is_empty r ≡ false) records
    → read_records text records ≡ value es
    → parse_error_report text report [] ≡ (value tt, es)
unfolding parse_error_report parse_lines parse_mc_title
parse_error_report-records text report records next more es split full h =
    rw split (parse_lines-records text records next more [] es full h)
