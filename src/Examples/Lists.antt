-- ===== src/Examples/Lists.antt =====
-- The theorems on the recent servers, the resolvers, the security report and the handoff.
use proxy_node_assistant.Prelude.{
  All, length, ◌<◌, ◌↔◌, Bool, List, Option, [], any, ap, arith, false, if◌then◌else◌, none, not,
  ok, refl, some, true, ℕ, ◌&&◌, ◌||◌, ◌∙◌, ◌∷◌, ◌≡◌,
}
use proxy_node_assistant.Recent.{
  collect, is_seen, max_recent_targets, recent_target_key, round, stands_before, trimmed,
  is_host_part, remembered, valid_recent_target, RecentTarget, normalize_recent_targets,
}
use proxy_node_assistant.Recent.Complete.{IsKept, normalize_recent_targets-IsKept}
use proxy_node_assistant.Text.{
  insert, sort, Fields, Text, codes, get, join, pos, replace_all, replace_crlf, split, text_eq,
  trim_cr, trim_space,
}
use proxy_node_assistant.Handoff.{is_dropped, normalize_handoff_legacy}
use proxy_node_assistant.Dns.{
  probe_domain_dns, probed_domain, Arrival, accepted, addresses_contain_ipv4, cloudflare, google,
  no_match, orange_accepted, receive, system,
}
use proxy_node_assistant.Dns.Domain.{found, probe_domain_dns-accepted}
use proxy_node_assistant.Plan.Identity.{valid_domain, is_user_part}
use proxy_node_assistant.Recent.Remember.{remembered-first}
use proxy_node_assistant.Security.Sound.{IsSecurityReport, parse_security_report-IsSecurityReport}
use proxy_node_assistant.Dns.Order.{SentOnce, is_match, receive-accepted}
use proxy_node_assistant.Handoff.Cleaned.{IsCleaned, normalize_handoff_legacy-IsCleaned}
use proxy_node_assistant.Recent.Keep.{IsRecent, normalize_recent_targets-IsRecent}
use proxy_node_assistant.Security.Report.{
  complete_report, current_markers, event_record, find_markers, meta_record, meta_values,
  next_cursor_of, parse_security_report, security_line, security_lines, security_record,
  security_report_lines, source_ok, source_record, summary_record, summary_values, truncation,
  with_source,
}
use proxy_node_assistant.Security.Types.{
  SecurityReport, SecuritySource, is_detail, is_token, one_of, parse_bounded_int,
  parse_security_fields,
}

abbrev target : Text → ℕ → RecentTarget
target host used = record { host = host; user = codes "root"; port = pos 22; last_used = used }

normalize_recent_targets-IsRecent_example :
    IsRecent (normalize_recent_targets (target (codes "a") 1 ∷ target (codes " A") 2 ∷ []))
normalize_recent_targets-IsRecent_example =
    normalize_recent_targets-IsRecent (target (codes "a") 1 ∷ target (codes " A") 2 ∷ [])

abbrev arrivals : List Arrival
arrivals =
    record { provider = google; answer = some (some (codes "1.2.3.4") ∷ []) }
    ∷ record { provider = cloudflare; answer = some (none ∷ some (codes "1.2.3.4") ∷ []) }
    ∷ record { provider = system; answer = none }
    ∷ []

abbrev expected : List (Option Text) → Bool
unfolding addresses_contain_ipv4
expected = addresses_contain_ipv4 (codes "1.2.3.4")

sent_once : SentOnce arrivals
sent_once system = omega arith
sent_once cloudflare = omega arith
sent_once google = omega arith

receive-accepted_example :
    (accepted (receive 3 expected arrivals no_match) ≡ (
      any (is_match expected system) arrivals
      || (any (is_match expected cloudflare) arrivals && any (is_match expected google) arrivals)))
    × (orange_accepted (receive 3 expected arrivals no_match) ≡ (
        any (is_match expected system) arrivals
        || any (is_match expected cloudflare) arrivals
        || any (is_match expected google) arrivals))
receive-accepted_example = receive-accepted expected arrivals (omega arith) sent_once

abbrev security_answer : Text
security_answer =
    codes
      "__TNA_SECURITY_V1_BEGIN__\nMETA\tSINCE=1h\tCURSOR=0\tLIMIT=10\nSOURCE\tSSH\tOK\tx\nSOURCE\tFAIL2BAN\tOK\tx\nSOURCE\tFIREWALL\tINFO\tx\nSOURCE\tNGINX\tPARTIAL\tx\nSOURCE\tCONNECTIONS\tOK\tx\nEVENT\tWEB_REQUEST\t1.2.3.4\t2\t9\tx\nSUMMARY\tTOTAL=1\tRETURNED=1\tTRUNCATED=0\tNEXT_CURSOR=\n__TNA_SECURITY_V1_END__\n"

abbrev security_lines_of : List Text
security_lines_of =
    codes "__PNA_SECURITY_V1_BEGIN__"
    ∷ codes "META\tSINCE=1h\tCURSOR=0\tLIMIT=10"
    ∷ codes "SOURCE\tSSH\tOK\tx"
    ∷ codes "SOURCE\tFAIL2BAN\tOK\tx"
    ∷ codes "SOURCE\tFIREWALL\tINFO\tx"
    ∷ codes "SOURCE\tNGINX\tPARTIAL\tx"
    ∷ codes "SOURCE\tCONNECTIONS\tOK\tx"
    ∷ codes "EVENT\tWEB_REQUEST\t1.2.3.4\t2\t9\tx"
    ∷ codes "SUMMARY\tTOTAL=1\tRETURNED=1\tTRUNCATED=0\tNEXT_CURSOR="
    ∷ codes "__PNA_SECURITY_V1_END__"
    ∷ []
    ∷ []

abbrev source_of : Text → Text → SecuritySource
source_of name state = record { name = name; state = state; detail = codes "x" }

abbrev security_report : SecurityReport
security_report = record {
  since = codes "1h";
  cursor = 0;
  limit = 10;
  sources =
      source_of (codes "SSH") (codes "OK")
      ∷ source_of (codes "FAIL2BAN") (codes "OK")
      ∷ source_of (codes "FIREWALL") (codes "INFO")
      ∷ source_of (codes "NGINX") (codes "PARTIAL")
      ∷ source_of (codes "CONNECTIONS") (codes "OK")
      ∷ [];
  events =
      record {
        category = codes "WEB_REQUEST";
        ip = codes "1.2.3.4";
        count = 2;
        last_epoch = 9;
        detail = codes "x";
      }
      ∷ [];
  total = 1;
  returned = 1;
  truncated = false;
  next_cursor = 0;
}

abbrev any_ip : Text → Bool
any_ip t = true

security_text : split b'\n' (replace_crlf (current_markers security_answer)) ≡ security_lines_of
unfolding split replace_crlf current_markers replace_all
security_text = refl

security_accepted : security_report_lines any_ip 100 security_lines_of ≡ ok security_report
unfolding security_report_lines find_markers security_lines security_line security_record
    meta_record meta_values source_record with_source source_ok event_record summary_record
    summary_values truncation next_cursor_of complete_report parse_security_fields parse_bounded_int
    is_token is_detail one_of split get text_eq
security_accepted = refl

security_parsed : parse_security_report any_ip 100 security_answer ≡ ok security_report
unfolding parse_security_report
security_parsed = ap (security_report_lines any_ip 100) security_text ∙ security_accepted

parse_security_report-IsSecurityReport_example : IsSecurityReport any_ip 100 security_report
parse_security_report-IsSecurityReport_example =
    parse_security_report-IsSecurityReport any_ip 100 security_answer security_parsed

normalize_handoff_legacy-IsCleaned_example :
    (kept_lines : List Text) × IsCleaned
      (codes "B" ∷ [])
      (split b'\n' (replace_crlf (codes "A=1\nDEVICE_ID=7\nB=2")))
      kept_lines
    × (normalize_handoff_legacy (codes "A=1\nDEVICE_ID=7\nB=2") (codes "B" ∷ []) ≡ (
        if text_eq (replace_crlf (codes "A=1\nDEVICE_ID=7\nB=2")) (codes "A=1\nDEVICE_ID=7\nB=2")
          && not (
              any
                (λ raw. is_dropped (codes "B" ∷ []) (trim_cr raw))
                (split b'\n' (replace_crlf (codes "A=1\nDEVICE_ID=7\nB=2"))))
        then codes "A=1\nDEVICE_ID=7\nB=2"
        else trim_space (join b'\n' kept_lines)))
normalize_handoff_legacy-IsCleaned_example =
    normalize_handoff_legacy-IsCleaned (codes "A=1\nDEVICE_ID=7\nB=2") (codes "B" ∷ [])

target_valid : valid_recent_target (target (codes "a") 1) ≡ true
unfolding valid_recent_target is_host_part is_user_part
target_valid = refl

remembered-first_example :
    (rest : List RecentTarget) × (normalize_recent_targets
        (remembered 9 (target (codes "a") 1) (target (codes "b") 4 ∷ target (codes "a") 3 ∷ []))
      ≡ record (target (codes "a") 1) { last_used = 9 } ∷ rest)
remembered-first_example =
    remembered-first 9 (target (codes "a") 1) (target (codes "b") 4 ∷ target (codes "a") 3 ∷ [])
      target_valid (refl, (refl, tt))

abbrev arriving : Text → List Arrival
arriving name = arrivals

probe_domain_dns-accepted_example :
    (accepted (probe_domain_dns arriving (λ t. some t) (codes "A.example.com.") (codes "1.2.3.4"))
      ≡ true)
    ↔ ((valid_domain (probed_domain (codes "A.example.com.")) ≡ true)
        × (expected : Text) × (some (trim_space (codes "1.2.3.4")) ≡ some expected)
        × (found expected arrivals ≡ true))
probe_domain_dns-accepted_example =
    probe_domain_dns-accepted arriving (λ t. some t) (codes "A.example.com.") (codes "1.2.3.4")
      (omega arith) sent_once

abbrev cdn_fields : Fields
cdn_fields = (codes "NODE", codes "a") ∷ (codes "XHTTP_LINK", codes "vless://x") ∷ []

few_targets_short :
    length (normalize_recent_targets (target (codes "a") 1 ∷ target (codes "b") 2 ∷ []))
    < max_recent_targets
unfolding normalize_recent_targets collect round sort insert stands_before trimmed is_seen
    recent_target_key valid_recent_target is_host_part is_user_part trim_space text_eq
few_targets_short = omega arith

normalize_recent_targets-IsKept_example :
    All
      (IsKept (normalize_recent_targets (target (codes "a") 1 ∷ target (codes "b") 2 ∷ [])))
      (target (codes "a") 1 ∷ target (codes "b") 2 ∷ [])
normalize_recent_targets-IsKept_example =
    normalize_recent_targets-IsKept (target (codes "a") 1 ∷ target (codes "b") 2 ∷ [])
      few_targets_short
