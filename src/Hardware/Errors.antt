-- ===== src/Hardware/Errors.antt =====
-- ocpdiag/core/hwinterface/backends/host/error.cc and HostBackend::GetErrors of host_backend.cc: the
-- memory errors that rasdaemon reports. The regular expression of a record, the parsing of a time,
-- StrSplit and ToUnixSeconds are parameters.
pub mod Window
pub mod Report
use text.Mathlib.Text.{◌==◌ as str_eq}
use ocp_diag_core_cpp.Base.{
  ℤ, pos, leb_ℤ, eq_ℤ, String, is_empty, Bool, true, false, not, ◌&&◌, ◌||◌, Option, none, some,
  List, [], ◌∷◌, snoc, if◌then◌else◌,
}
use ocp_diag_core_cpp.Hardware.Status.{Code, StatusOr, value, error, thrown, undefined}
use ocp_diag_core_cpp.Hardware.Identifier.{Identifier, no_identifier, populate_id}
use ocp_diag_core_cpp.Hardware.Host.{HostAdapter, CommandResult, Outcome, ◌>>=?◌, with_read}
use ocp_diag_core_cpp.Hardware.Cpu.Info.{info_type_have}

pub data ParsingStep : Type 0 where
  mc_title mc_record finish : ParsingStep

pub record Error : Type 0 where
  pub timestamp : ℤ
  pub count : ℤ
  pub is_correctable : Bool
  pub is_fatal : Bool
  pub label : String
  pub debuginfo : String

-- what the regular expression of a record finds
pub record McFields : Type 0 where
  pub temp_ts : String
  pub count : ℤ
  pub err_type : String
  pub label : String

-- what the parsing of a report calls
pub record ReportText : Type 0 where
  pub full_match : String → Option McFields
  pub parse_time : String → Option ℤ
  pub str_split : String → String → List String

unfoldable pub parse_mc_title : String → StatusOr ParsingStep
parse_mc_title line =
    if str_eq line "Memory controller events:"
    then value ParsingStep.mc_record
    else if str_eq line "No Memory errors."
    then value ParsingStep.finish
    else error Code.internal

abbrev new_error : McFields → ℤ → Bool → Bool → String → Error
new_error f timestamp is_correctable is_fatal line = record {
  timestamp = timestamp;
  count = f.count;
  is_correctable = is_correctable;
  is_fatal = is_fatal;
  label = f.label;
  debuginfo = line;
}

-- The error that a record stands for: none for one of the type "Info".
abbrev by_type : String → McFields → ℤ → StatusOr (Option Error)
by_type line f timestamp =
    if str_eq f.err_type "Corrected"
    then value (some (new_error f timestamp true false line))
    else if str_eq f.err_type "Uncorrected"
    then value (some (new_error f timestamp false false line))
    else if str_eq f.err_type "Fatal"
    then value (some (new_error f timestamp false true line))
    else if str_eq f.err_type "Info"
    then value none
    else error Code.internal

abbrev with_time : String → McFields → Option ℤ → StatusOr (Option Error)
with_time line f none = error Code.internal
with_time line f (some timestamp) = by_type line f timestamp

abbrev with_fields : ReportText → String → Option McFields → StatusOr (Option Error)
with_fields text line none = error Code.internal
with_fields text line (some f) = with_time line f (text.parse_time f.temp_ts)

-- what a record that is not empty holds
unfoldable pub read_mc_record : ReportText → String → StatusOr (Option Error)
read_mc_record text line = with_fields text line (text.full_match line)

abbrev pub push_error : Option Error → List Error → List Error
push_error none errors = errors
push_error (some e) errors = snoc errors e

abbrev keep_record : StatusOr (Option Error) → List Error → StatusOr ParsingStep × List Error
keep_record (value e) errors = (value ParsingStep.mc_record, push_error e errors)
keep_record (error code) errors = (error code, errors)
keep_record thrown errors = (thrown, errors)
keep_record undefined errors = (undefined, errors)

unfoldable pub parse_mc_record :
    ReportText → String → List Error → StatusOr ParsingStep × List Error
unfolding read_mc_record
parse_mc_record text line errors =
    if is_empty line
    then (value ParsingStep.finish, errors)
    else keep_record (read_mc_record text line) errors

abbrev pub with_step :
    StatusOr ParsingStep × List Error
    → (ParsingStep → List Error → StatusOr (Unit {0}) × List Error)
    → StatusOr (Unit {0}) × List Error
with_step (value step, errors) next = next step errors
with_step (error code, errors) next = (error code, errors)
with_step (thrown, errors) next = (thrown, errors)
with_step (undefined, errors) next = (undefined, errors)

-- the loop of `ParseErrorReport` over the lines
unfoldable pub parse_lines :
    ReportText → List String → ParsingStep → List Error → StatusOr (Unit {0}) × List Error
unfolding parse_mc_title parse_mc_record
parse_lines text [] step errors = (error Code.internal, errors)
parse_lines text (line ∷ lines) ParsingStep.mc_title errors =
    with_step (parse_mc_title line, errors) (parse_lines text lines)
parse_lines text (line ∷ lines) ParsingStep.mc_record errors =
    with_step (parse_mc_record text line errors) (parse_lines text lines)
parse_lines text (line ∷ lines) ParsingStep.finish errors = (value tt, errors)

unfoldable pub parse_error_report :
    ReportText → String → List Error → StatusOr (Unit {0}) × List Error
unfolding parse_lines
parse_error_report text ras_errors errors =
    parse_lines text (text.str_split "\n" ras_errors) ParsingStep.mc_title errors

-- RasDaemonErrors::Gather: the object is its list of errors, cleared first.
unfoldable pub ras_gather :
    {W : Type 0} → ReportText → HostAdapter W → List Error → W → Outcome (Unit {0}) (List Error) W
unfolding parse_error_report
ras_gather text host old w =
    with_read [] (host.run_command ("ras-mc-ctl" ∷ "--errors" ∷ []) w) λ result w.
      let parsed = parse_error_report text result.stdout [] in
      if eq_ℤ result.exit_code (pos 0)
      then (parsed.0, parsed.1, w)
      else (error Code.internal, [], w)

-- error.proto, as far as GetErrors fills it
pub record ErrorInfo : Type 0 where
  pub event_seconds : ℤ
  pub count : ℤ
  pub is_correctable : Bool
  pub is_fatal : Bool
  pub ids : List Identifier
  pub other_debug_info : String

pub record TimestampFilter : Type 0 where
  pub start_seconds : ℤ
  pub end_seconds : ℤ

pub record GetErrorsRequest : Type 0 where
  pub filter : Option TimestampFilter
  pub event_sources : List ℤ
  pub report_debug_info : Bool

-- the first check of GetErrors
abbrev pub is_empty_window : Option TimestampFilter → Bool
is_empty_window none = false
is_empty_window (some f) = leb_ℤ f.end_seconds f.start_seconds

abbrev pub is_outside : Option TimestampFilter → ℤ → Bool
is_outside none seconds = false
is_outside (some f) seconds = leb_ℤ seconds f.start_seconds || not (leb_ℤ seconds f.end_seconds)

module _ (to_unix_seconds : ℤ → ℤ) (req : GetErrorsRequest) where
  unfoldable pub error_info : Error → ErrorInfo
  unfolding populate_id
  error_info e = record {
    event_seconds = to_unix_seconds e.timestamp;
    count = e.count;
    is_correctable = e.is_correctable;
    is_fatal = e.is_fatal;
    ids = populate_id none (record no_identifier { type_name = "dimm"; name = e.label }) ∷ [];
    other_debug_info = if req.report_debug_info then e.debuginfo else "";
  }

  -- the loop over the errors
  unfoldable pub report_errors : List Error → List ErrorInfo
  unfolding error_info
  report_errors [] = []
  report_errors (e ∷ es) =
      let rest = report_errors es in
      if is_outside req.filter (to_unix_seconds e.timestamp)
      then rest
      else if str_eq e.label "unknown memory"
      then rest
      else error_info e ∷ rest

  unfoldable pub answer_errors :
      {W : Type 0} → Outcome (Unit {0}) (List Error) W → StatusOr (List ErrorInfo) × W
  unfolding report_errors
  answer_errors (value okay, errors, w) =
      (value (if info_type_have req.event_sources (pos 1) then report_errors errors else []), w)
  answer_errors (error code, errors, w) = (error code, w)
  answer_errors (thrown, errors, w) = (thrown, w)
  answer_errors (undefined, errors, w) = (undefined, w)

  unfoldable pub get_errors :
      {W : Type 0} → ReportText → HostAdapter W → W → StatusOr (List ErrorInfo) × W
  unfolding answer_errors ras_gather
  get_errors text host w =
      if is_empty_window req.filter
      then (error Code.invalid_argument, w)
      else answer_errors (ras_gather text host [] w)
