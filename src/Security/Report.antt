-- ===== src/Security/Report.antt =====
-- security.go: parseSecurityReport.
use proxy_node_assistant.Security.Types.{
  unknown_kind, SecurityError, SecurityEvent, SecurityReport, SecuritySource,
  allowed_security_categories, allowed_security_source_states, allowed_security_sources, bad_count,
  bad_cursor, bad_event, bad_limit, bad_meta, bad_next_cursor, bad_range, bad_returned, bad_source,
  bad_summary, bad_timestamp, bad_total, bad_truncation, cursor_stuck, duplicate_begin,
  duplicate_end, incomplete, is_detail, missing_markers, one_of, parse_bounded_int,
  parse_security_fields, security_ranges, unexpected_cursor,
}
use proxy_node_assistant.Prelude.{
  Bool, List, Option, Result, [], between, drop, err, false, if◌then◌else◌, is_empty, leb, length,
  none, not, ok, some, suc, take, true, ℕ, ◌&&◌, ◌++◌, ◌-◌, ◌==◌, ◌||◌, ◌∷◌, ◌>>=◌,
}
use proxy_node_assistant.Text.{
  Fields, Text, codes, get, is_some, replace_all, replace_crlf, split, text_eq,
}

-- The index of each marker, as it is read line by line.
unfoldable pub find_markers :
    ℕ → List Text → Option ℕ → Option ℕ → Result SecurityError (Option ℕ × Option ℕ)
find_markers i [] begin finish = ok (begin, finish)
find_markers i (line ∷ lines) begin finish =
    let is_begin = text_eq line (codes "__PNA_SECURITY_V1_BEGIN__") in
    let is_end = text_eq line (codes "__PNA_SECURITY_V1_END__") in
    let rest =
      find_markers (suc i) lines (if is_begin then some i else begin)
        (if is_end then some i else finish) in
    if is_begin && is_some begin
    then err duplicate_begin
    else if is_end && is_some finish
    then err duplicate_end
    else rest

-- The loop's variables.
pub record Parse : Type 0 where
  pub report : SecurityReport
  pub meta_seen : Bool
  pub summary_seen : Bool

abbrev pub empty_report : SecurityReport
empty_report = record {
  since = [];
  cursor = 0;
  limit = 0;
  sources = [];
  events = [];
  total = 0;
  returned = 0;
  truncated = false;
  next_cursor = 0;
}

abbrev pub initial_parse : Parse
initial_parse = record { report = empty_report; meta_seen = false; summary_seen = false }

unfoldable pub meta_values : Parse → Fields → Result SecurityError Parse
meta_values p values =
    if not (one_of security_ranges (get (codes "SINCE") values))
    then err bad_range
    else (parse_bounded_int bad_cursor 0 100000 (get (codes "CURSOR") values) >>= λ cursor.
        parse_bounded_int bad_limit 1 1000 (get (codes "LIMIT") values) >>= λ limit. ok (record p {
          report = record p.report {
            since = get (codes "SINCE") values;
            cursor = cursor;
            limit = limit;
          };
          meta_seen = true;
        }))

unfoldable pub meta_record : Parse → List Text → Result SecurityError Parse
meta_record p fields =
    if p.meta_seen || not (length fields == 3)
    then err bad_meta
    else parse_security_fields fields [] >>= meta_values p

unfoldable pub source_ok : SecuritySource → Bool
source_ok s =
    one_of allowed_security_sources s.name
    && one_of allowed_security_source_states s.state
    && is_detail s.detail

unfoldable pub with_source : Parse → SecuritySource → Result SecurityError Parse
with_source p s =
    if not (source_ok s)
    then err bad_source
    else ok (record p { report = record p.report { sources = p.report.sources ++ s ∷ [] } })

unfoldable pub source_record : Parse → List Text → Result SecurityError Parse
source_record p (name ∷ state ∷ detail ∷ []) =
    with_source p (record { name = name; state = state; detail = detail })
source_record p _ = err bad_source

unfoldable pub truncation : Text → Result SecurityError Bool
truncation flag =
    if text_eq flag (codes "0")
    then ok false
    else if text_eq flag (codes "1")
    then ok true
    else err bad_truncation

unfoldable pub next_cursor_of : ℕ → Text → Result SecurityError ℕ
next_cursor_of before value =
    if is_empty value then ok before else parse_bounded_int bad_next_cursor 1 100000 value

unfoldable pub summary_values : Parse → Fields → Result SecurityError Parse
summary_values p values =
    parse_bounded_int bad_total 0 100000 (get (codes "TOTAL") values) >>= λ total.
    parse_bounded_int bad_returned 0 1000 (get (codes "RETURNED") values) >>= λ returned.
    truncation (get (codes "TRUNCATED") values) >>= λ truncated.
    next_cursor_of p.report.next_cursor (get (codes "NEXT_CURSOR") values) >>= λ next.
    ok (record p {
      report = record p.report {
        total = total;
        returned = returned;
        truncated = truncated;
        next_cursor = next;
      };
      summary_seen = true;
    })

unfoldable pub summary_record : Parse → List Text → Result SecurityError Parse
summary_record p fields =
    if p.summary_seen || not (length fields == 4)
    then err bad_summary
    else parse_security_fields fields [] >>= summary_values p

unfoldable pub complete_report : Parse → Result SecurityError SecurityReport
complete_report p =
    let r = p.report in
    if not p.meta_seen
      || not p.summary_seen
      || not (length r.sources == 5)
      || not (r.returned == length r.events)
    then err incomplete
    else if r.truncated && leb r.next_cursor r.cursor
    then err cursor_stuck
    else if not r.truncated && not (r.next_cursor == 0)
    then err unexpected_cursor
    else ok r

abbrev pub between_markers : List Text → Option ℕ × Option ℕ → Result SecurityError (List Text)
between_markers lines (some begin, some finish) =
    if leb finish begin
    then err missing_markers
    else ok (take (finish - suc begin) (drop (suc begin) lines))
between_markers lines _ = err missing_markers

unfoldable pub current_markers : Text → Text
current_markers stdout =
    replace_all (codes "__TNA_SECURITY_V1_END__") (codes "__PNA_SECURITY_V1_END__")
      (replace_all (codes "__TNA_SECURITY_V1_BEGIN__") (codes "__PNA_SECURITY_V1_BEGIN__") stdout)

-- `is_ip` is `net.ParseIP` and `latest` is the instant 48 hours from now, in seconds.
module _ (is_ip : Text → Bool) (latest : ℕ) where
  unfoldable pub event_ok : SecurityEvent → Bool
  event_ok e =
      one_of allowed_security_categories e.category
      && is_ip e.ip
      && is_detail e.detail
      && between 1 1_000_000_000 e.count
      && between 0 latest e.last_epoch

  abbrev pub with_event : Parse → SecurityEvent → Parse
  with_event p e = record p { report = record p.report { events = p.report.events ++ e ∷ [] } }

  unfoldable pub event_record : Parse → List Text → Result SecurityError Parse
  event_record p (category ∷ ip ∷ count ∷ epoch ∷ detail ∷ []) =
      if not (one_of allowed_security_categories category)
        || not (is_ip ip)
        || not (is_detail detail)
      then err bad_event
      else (parse_bounded_int bad_count 1 1_000_000_000 count >>= λ n.
          parse_bounded_int bad_timestamp 0 latest epoch >>= λ last. ok (
            with_event p (record {
              category = category;
              ip = ip;
              count = n;
              last_epoch = last;
              detail = detail;
            })))
  event_record p _ = err bad_event

  -- The `switch` on the first field. `strings.Split` never returns an empty list.
  unfoldable pub security_record : Parse → List Text → Result SecurityError Parse
  security_record p [] = err (unknown_kind [])
  security_record p (kind ∷ fields) =
      if text_eq kind (codes "META")
      then meta_record p fields
      else if text_eq kind (codes "SOURCE")
      then source_record p fields
      else if text_eq kind (codes "EVENT")
      then event_record p fields
      else if text_eq kind (codes "SUMMARY")
      then summary_record p fields
      else err (unknown_kind kind)

  unfoldable pub security_line : Parse → Text → Result SecurityError Parse
  security_line p line = if is_empty line then ok p else security_record p (split b'\t' line)

  unfoldable pub security_lines : List Text → Parse → Result SecurityError Parse
  security_lines [] p = ok p
  security_lines (line ∷ lines) p = security_line p line >>= security_lines lines

  unfoldable pub security_report_lines : List Text → Result SecurityError SecurityReport
  security_report_lines lines = find_markers 0 lines none none >>= between_markers lines >>= λ body.
      security_lines body initial_parse >>= complete_report

  unfoldable pub parse_security_report : Text → Result SecurityError SecurityReport
  parse_security_report stdout =
      security_report_lines (split b'\n' (replace_crlf (current_markers stdout)))
