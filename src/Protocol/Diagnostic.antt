-- ===== src/Protocol/Diagnostic.antt =====
-- parseDiagnosticProtocol of parsers.go, with DiagItem and DiagResult of operations.go.
pub mod Laws
use proxy_node_assistant.Prelude.{
  Bool, List, Option, Result, [], all, between, err, false, if◌then◌else◌, is_empty, none, not, ok,
  some, true, wrap, ℕ, ◌&&◌, ◌++◌, ◌+◌, ◌==◌, ◌>>=◌, ◌>>◌, ◌||◌, ◌∷◌,
}
use proxy_node_assistant.Text.{Text, codes, is_digit, parse_bool, split, text_eq, trim_space}
use proxy_node_assistant.Protocol.Marker.{MarkerError, extract_marker_block_current_or_legacy}

pub record DiagItem : Type 0 where
  pub code : Text
  pub severity : Text
  pub action : Text
  pub auto_repair : Bool
  pub zh : Text
  pub en : Text

pub record DiagResult : Type 0 where
  pub is_ok : Bool
  pub passes : List DiagItem
  pub issues : List DiagItem

pub data DiagError : Type 0 where
  rejected : MarkerError → DiagError
  malformed_pass malformed_issue invalid_severity malformed_fields unknown_record : DiagError
  no_records : DiagError

-- `diagCodePattern`: `^[A-Z][A-Z0-9_]*$`
unfoldable pub is_code : Text → Bool
is_code [] = false
is_code (c ∷ cs) =
    between b'A' b'Z' c && all (λ d. between b'A' b'Z' d || is_digit d || d == b'_') cs

pub data DiagRecord : Type 0 where
  pass issue : DiagItem → DiagRecord

pass_of : List Text → Result DiagError DiagRecord
unfolding is_code
pass_of (_ ∷ code ∷ zh ∷ en ∷ []) =
    if not (is_code code) || (is_empty zh && is_empty en)
    then err malformed_pass
    else ok (
        pass (record {
          code = code;
          severity = [];
          action = [];
          auto_repair = false;
          zh = zh;
          en = en;
        }))
pass_of _ = err malformed_pass

unfoldable pub is_severity : Text → Bool
unfolding text_eq
is_severity s = text_eq s (codes "INFO") || text_eq s (codes "WARN") || text_eq s (codes "ERROR")

issue_fields : Text → Text → Text → Option Bool → Text → Text → Result DiagError DiagRecord
issue_fields code severity action none zh en = err malformed_fields
issue_fields code severity action (some auto_repair) zh en =
    if is_empty zh && is_empty en
    then err malformed_fields
    else ok (
        issue (record {
          code = code;
          severity = severity;
          action = action;
          auto_repair = auto_repair;
          zh = zh;
          en = en;
        }))

issue_of : List Text → Result DiagError DiagRecord
unfolding is_code is_severity parse_bool issue_fields
issue_of (_ ∷ code ∷ severity ∷ action ∷ auto ∷ zh ∷ en ∷ []) =
    if not (is_code code)
    then err malformed_issue
    else if not (is_severity severity)
    then err invalid_severity
    else issue_fields code severity action (parse_bool auto) zh en
issue_of _ = err malformed_issue

-- The `switch` on the first field. `strings.Split` never returns an empty list.
unfoldable pub record_of : List Text → Result DiagError DiagRecord
unfolding text_eq pass_of issue_of
record_of [] = err unknown_record
record_of (kind ∷ fields) =
    if text_eq kind (codes "PASS")
    then pass_of (kind ∷ fields)
    else if text_eq kind (codes "ISSUE")
    then issue_of (kind ∷ fields)
    else err unknown_record

abbrev pub is_error : DiagItem → Bool
is_error item = text_eq item.severity (codes "ERROR")

unfoldable pub add_record : DiagResult → DiagRecord → DiagResult
unfolding text_eq
add_record r (pass item) = record r { passes = r.passes ++ item ∷ [] }
add_record r (issue item) = record r {
  is_ok = if is_error item then false else r.is_ok;
  issues = r.issues ++ item ∷ [];
}

-- The loop over the lines, with the count of the records read.
unfoldable pub read_records : List Text → ℕ → DiagResult → Result DiagError (ℕ × DiagResult)
unfolding trim_space split record_of add_record
read_records [] records r = ok (records, r)
read_records (raw ∷ rest) records r =
    let line = trim_space raw in
    let skipped = read_records rest records r in
    let read = (do
      item ← record_of (split b'\t' line)
      read_records rest (records + 1) (add_record r item)) in
    if is_empty line then skipped else read

abbrev at_least_one : ℕ × DiagResult → Result DiagError DiagResult
at_least_one (records, r) = if records == 0 then err no_records else ok r

unfoldable pub read_report : Text → Result DiagError DiagResult
unfolding read_records split
read_report payload = do
  found ← read_records (split b'\n' payload) 0 (record { is_ok = true; passes = []; issues = [] })
  at_least_one found

unfoldable pub parse_diagnostic_protocol : Text → Result DiagError DiagResult
unfolding extract_marker_block_current_or_legacy read_report
parse_diagnostic_protocol stdout = do
  payload ← wrap rejected (
      extract_marker_block_current_or_legacy stdout (codes "__PNA_DIAG_V1_BEGIN__")
        (codes "__PNA_DIAG_V1_END__") (codes "__TNA_DIAG_V1_BEGIN__") (codes "__TNA_DIAG_V1_END__"))
  read_report payload
