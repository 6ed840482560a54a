-- ===== src/Security/Sound.antt =====
-- What a security report that security.go accepts satisfies.
use proxy_node_assistant.Prelude.{
  Bool, Result, all, arith, err, false, if◌then◌else◌, leb, length, none, not, ok, ok-injective,
  ok-ne-err, refl, subst, sym, true, ℕ, ◌&&◌, ◌<◌, ◌==◌, ◌||◌, ◌≡◌, ◌≤◌, ◌>>=◌, >>=-eq-ok,
}
use proxy_node_assistant.Security.Invariant.{IsParse, security_lines-IsParse}
use proxy_node_assistant.Security.Report.{
  Parse, between_markers, complete_report, current_markers, event_ok, find_markers, initial_parse,
  parse_security_report, security_lines, security_report_lines, source_ok,
}
use proxy_node_assistant.Security.Types.{
  SecurityError, SecurityReport, cursor_stuck, incomplete, one_of, security_ranges,
  unexpected_cursor,
}
use proxy_node_assistant.Text.{Text, replace_crlf, split}

pub record IsSecurityReport (is_ip : Text → Bool) (latest : ℕ) (r : SecurityReport) : Type 0 where
  pub five_sources : length r.sources ≡ 5
  pub sources_ok : all source_ok r.sources ≡ true
  pub events_ok : all (event_ok is_ip latest) r.events ≡ true
  pub all_returned : r.returned ≡ length r.events
  pub range_ok : one_of security_ranges r.since ≡ true
  pub cursor_bound : r.cursor ≤ 100000
  pub limit_bounds : (1 ≤ r.limit) × (r.limit ≤ 1000)
  pub total_bounds : (r.total ≤ 100000) × (r.returned ≤ 1000)
  pub next_advances : r.truncated ≡ true → r.cursor < r.next_cursor
  pub next_absent : r.truncated ≡ false → r.next_cursor ≡ 0

two_checks :
    {A E : Type 0} (b c : Bool) (e f : E) {r s : A}
    → (if b then err e else if c then err f else ok r) ≡ ok s
    → (b ≡ false) × (c ≡ false) × (r ≡ s)
two_checks true c e f h = elim (ok-ne-err (sym h)) [ ]
two_checks false true e f h = elim (ok-ne-err (sym h)) [ ]
two_checks false false e f h = (refl, refl, ok-injective h)

complete_report-IsSecurityReport :
    (is_ip : Text → Bool) (latest : ℕ) (p : Parse) {r : SecurityReport}
    → IsParse is_ip latest p
    → complete_report p ≡ ok r
    → IsSecurityReport is_ip latest r
unfolding complete_report
complete_report-IsSecurityReport is_ip latest p {r} i h =
    go
      (not p.meta_seen
        || not p.summary_seen
        || not (length p.report.sources == 5)
        || not (p.report.returned == length p.report.events))
      refl h
  where
    stuck : Result SecurityError SecurityReport
    stuck =
        if p.report.truncated && leb p.report.next_cursor p.report.cursor
        then err cursor_stuck
        else if not p.report.truncated && not (p.report.next_cursor == 0)
        then err unexpected_cursor
        else ok p.report

    made :
        p.meta_seen ≡ true
        → p.summary_seen ≡ true
        → length p.report.sources ≡ 5
        → p.report.returned ≡ length p.report.events
        → stuck ≡ ok r
        → IsSecurityReport is_ip latest r
    made m s five count k =
        let meta = i.parsed_meta m in
        let (advances, absent, same) =
          two_checks (p.report.truncated && leb p.report.next_cursor p.report.cursor)
            (not p.report.truncated && not (p.report.next_cursor == 0)) cursor_stuck
            unexpected_cursor {r = p.report} {s = r} k in
        subst (IsSecurityReport is_ip latest) same (record {
          five_sources = five;
          sources_ok = i.parsed_sources;
          events_ok = i.parsed_events;
          all_returned = count;
          range_ok = meta.0;
          cursor_bound = meta.1;
          limit_bounds = (meta.2, meta.3);
          total_bounds = i.parsed_summary s;
          next_advances = λ q. ground arith;
          next_absent = λ q. ground arith;
        })

    go :
        (bad : Bool)
        → (not p.meta_seen
            || not p.summary_seen
            || not (length p.report.sources == 5)
            || not (p.report.returned == length p.report.events))
          ≡ bad
        → (if bad then err incomplete else stuck) ≡ ok r
        → IsSecurityReport is_ip latest r
    go true q k = elim (ok-ne-err (sym k)) [ ]
    go false q k = made (ground arith) (ground arith) (ground arith) (ground arith) k

-- A report that is accepted has five sources and as many events as it says, all of them of the allowed
-- kinds and in their bounds, its range is one of the four, its cursor, limit, total and count are in
-- their bounds, and its next cursor is past its cursor if it was truncated and absent if not.
pub parse_security_report-IsSecurityReport :
    (is_ip : Text → Bool) (latest : ℕ) (stdout : Text) {r : SecurityReport}
    → parse_security_report is_ip latest stdout ≡ ok r
    → IsSecurityReport is_ip latest r
unfolding parse_security_report security_report_lines
parse_security_report-IsSecurityReport is_ip latest stdout {r} h =
    let lines = split b'\n' (replace_crlf (current_markers stdout)) in
    let (body, _, k) =
      >>=-eq-ok (find_markers 0 lines none none >>= between_markers lines)
        (λ body. security_lines is_ip latest body initial_parse >>= complete_report) h in
    let (p, parsed, k1) =
      >>=-eq-ok (security_lines is_ip latest body initial_parse) complete_report k in
    complete_report-IsSecurityReport is_ip latest p
      (security_lines-IsParse is_ip latest body initial_parse p
        (record {
          parsed_sources = refl;
          parsed_events = refl;
          parsed_meta = λ q. cc;
          parsed_summary = λ q. cc;
        })
        parsed)
      k1
