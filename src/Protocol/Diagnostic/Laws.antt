-- ===== src/Protocol/Diagnostic/Laws.antt =====
-- What an accepted diagnostic report guarantees.
use proxy_node_assistant.Protocol.Diagnostic.{
  at_least_one, read_report, rejected, issue_fields, issue_of, pass_of, DiagItem, DiagResult,
  is_code, is_severity, pass, issue, DiagRecord, record_of, is_error, add_record, read_records,
  parse_diagnostic_protocol,
}
use proxy_node_assistant.Prelude.{
  ◌==◌, ok-injective, subst, wrap-eq-ok, ◌<◌, >>=-eq-ok, All-append, Bool-cases, Option, all-append,
  if◌then◌else◌, inl, inr, is_empty, length, length-append, none, some, ℕ, ◌+◌, All, Bool, List, [],
  all, arith, not, ok, refl, true, ◌∷◌, ◌≡◌,
}
use proxy_node_assistant.Text.{split, codes, parse_bool, text_eq, trim_space, Text}
use proxy_node_assistant.Protocol.Marker.{extract_marker_block_current_or_legacy}

-- A well-formed item, and the verdict that is false exactly when an issue is an error.
pub record IsReport (r : DiagResult) : Type 0 where
  pub verdict : r.is_ok ≡ all (λ i. not (is_error i)) r.issues
  pub codes_ok : All (λ (i : DiagItem). is_code i.code ≡ true) r.issues
  pub severities : All (λ (i : DiagItem). is_severity i.severity ≡ true) r.issues
  pub pass_codes : All (λ (i : DiagItem). is_code i.code ≡ true) r.passes

-- What a record that was accepted satisfies.
abbrev WellFormed : DiagRecord → Type 0
WellFormed (pass item) = is_code item.code ≡ true
WellFormed (issue item) = (is_code item.code ≡ true) × (is_severity item.severity ≡ true)

pass_of-WellFormed : (fields : List Text) {d : DiagRecord} → pass_of fields ≡ ok d → WellFormed d
unfolding pass_of
pass_of-WellFormed (kind ∷ code ∷ zh ∷ en ∷ []) {d = pass item} h = ground arith
pass_of-WellFormed (kind ∷ code ∷ zh ∷ en ∷ []) {d = issue item} h = ground arith
pass_of-WellFormed _ h = cc

issue_fields-WellFormed :
    (code severity action : Text) (auto : Option Bool) (zh en : Text) {d : DiagRecord}
    → is_code code ≡ true
    → is_severity severity ≡ true
    → issue_fields code severity action auto zh en ≡ ok d
    → WellFormed d
unfolding issue_fields
issue_fields-WellFormed code severity action none zh en c s h = cc
issue_fields-WellFormed code severity action (some b) zh en {d = pass item} c s h = ground arith
issue_fields-WellFormed code severity action (some b) zh en {d = issue item} c s h = ground arith

issue_of-WellFormed : (fields : List Text) {d : DiagRecord} → issue_of fields ≡ ok d → WellFormed d
unfolding issue_of
issue_of-WellFormed (kind ∷ code ∷ severity ∷ action ∷ auto ∷ zh ∷ en ∷ []) {d} h =
    elim (Bool-cases (is_code code)) [
      | inr bad ↦ cc (rw bad at h)
      | inl good ↦ elim (Bool-cases (is_severity severity)) [
        | inr bad ↦ cc (rw (good, bad) at h)
        | inl known ↦
            issue_fields-WellFormed code severity action (parse_bool auto) zh en good known
              (rw (good, known) at h)
      ]
    ]
issue_of-WellFormed _ h = cc

record_of-WellFormed :
    (fields : List Text) {d : DiagRecord} → record_of fields ≡ ok d → WellFormed d
unfolding record_of
record_of-WellFormed [] h = cc
record_of-WellFormed (kind ∷ fields) {d} h = elim (Bool-cases (text_eq kind (codes "PASS"))) [
  | inl p ↦ pass_of-WellFormed (kind ∷ fields) (rw p at h)
  | inr p ↦ elim (Bool-cases (text_eq kind (codes "ISSUE"))) [
    | inl i ↦ issue_of-WellFormed (kind ∷ fields) (rw (p, i) at h)
    | inr i ↦ cc (rw (p, i) at h)
  ]
]

add_record-IsReport :
    (r : DiagResult) (d : DiagRecord) → IsReport r → WellFormed d → IsReport (add_record r d)
unfolding add_record
add_record-IsReport r (pass item) h w = record {
  verdict = h.verdict;
  codes_ok = h.codes_ok;
  severities = h.severities;
  pass_codes = All-append _ r.passes (item ∷ []) h.pass_codes (w, tt);
}
add_record-IsReport r (issue item) h w = record {
  verdict =
      rw (all-append (λ i. not (is_error i)) r.issues (item ∷ [])) (ground (arith, h.verdict));
  codes_ok = All-append _ r.issues (item ∷ []) h.codes_ok (w.0, tt);
  severities = All-append _ r.issues (item ∷ []) h.severities (w.1, tt);
  pass_codes = h.pass_codes;
}

size : DiagResult → ℕ
size r = length r.passes + length r.issues

size-add_record : (r : DiagResult) (d : DiagRecord) → size (add_record r d) ≡ size r + 1
unfolding size add_record
size-add_record r (pass item) = omega (arith, length-append r.passes (item ∷ []))
size-add_record r (issue item) = omega (arith, length-append r.issues (item ∷ []))

-- The lines that are not blank.
abbrev pub count_records : List Text → ℕ
count_records [] = 0
count_records (raw ∷ rest) = (if is_empty (trim_space raw) then 0 else 1) + count_records rest

record Counts (lines : List Text) (n m : ℕ) (r q : DiagResult) : Type 0 where
  report : IsReport q
  sized : size q ≡ size r + count_records lines
  counted : m ≡ n + count_records lines

read_records-Counts :
    (lines : List Text) (n : ℕ) (r : DiagResult) {m : ℕ} {q : DiagResult}
    → IsReport r
    → read_records lines n r ≡ ok (m, q)
    → Counts lines n m r q
unfolding read_records
read_records-Counts [] n r {m} {q} v h =
    subst (λ (z : ℕ × DiagResult). Counts [] n z.0 r z.1) (ok-injective h)
      (record { report = v; sized = omega arith; counted = omega arith })
read_records-Counts (raw ∷ rest) n r {m} {q} v h = elim (Bool-cases (is_empty (trim_space raw))) [
  | inl blank ↦
      let c = read_records-Counts rest n r v (rw blank at h) in
      record {
        report = c.report;
        sized = rw blank (omega (arith, c.sized));
        counted = rw blank (omega (arith, c.counted));
      }
  | inr full ↦
      let (d, made, later) =
        >>=-eq-ok (record_of (split b'\t' (trim_space raw)))
          (λ item. read_records rest (n + 1) (add_record r item)) (rw full at h) in
      let c =
        read_records-Counts rest (n + 1) (add_record r d)
          (add_record-IsReport r d v (record_of-WellFormed (split b'\t' (trim_space raw)) made))
          later in
      record {
        report = c.report;
        sized = rw full (omega (arith, c.sized, size-add_record r d));
        counted = rw full (omega (arith, c.counted));
      }
]

-- A report that `block`, the text between the markers, gives.
abbrev pub Reports : Text → DiagResult → Type 0
Reports block r =
    IsReport r
    × (length r.passes + length r.issues ≡ count_records (split b'\n' block))
    × (0 < length r.passes + length r.issues)

at_least_one-Reports :
    (block : Text) (m : ℕ) (q r : DiagResult)
    → Counts (split b'\n' block) 0 m (record { is_ok = true; passes = []; issues = [] }) q
    → at_least_one (m, q) ≡ ok r
    → Reports block r
unfolding size
at_least_one-Reports block m q r c h = elim (Bool-cases (m == 0)) [
  | inl e ↦ cc (rw e at h)
  | inr e ↦
      subst (Reports block) (ok-injective (rw e at h))
        (c.report, omega (arith, c.sized), ground (arith, c.sized, c.counted))
]

read_report-Reports : (block : Text) {r : DiagResult} → read_report block ≡ ok r → Reports block r
unfolding read_report
read_report-Reports block {r} h =
    let ((m, q), read, done) =
      >>=-eq-ok
        (read_records (split b'\n' block) 0 (record { is_ok = true; passes = []; issues = [] }))
        at_least_one h in
    at_least_one-Reports block m q r
      (read_records-Counts (split b'\n' block) 0 (record { is_ok = true; passes = []; issues = [] })
        (record { verdict = refl; codes_ok = tt; severities = tt; pass_codes = tt }) read)
      done

-- An accepted report has one item for each line of the block that is not blank, and at least one;
-- its items are well formed, and its verdict is false exactly when some issue is an ERROR.
pub parse_diagnostic_protocol-Reports :
    (stdout : Text) {r : DiagResult}
    → parse_diagnostic_protocol stdout ≡ ok r
    → (block : Text) × (extract_marker_block_current_or_legacy stdout
          (codes "__PNA_DIAG_V1_BEGIN__")
          (codes "__PNA_DIAG_V1_END__")
          (codes "__TNA_DIAG_V1_BEGIN__")
          (codes "__TNA_DIAG_V1_END__")
        ≡ ok block)
      × Reports block r
unfolding parse_diagnostic_protocol
parse_diagnostic_protocol-Reports stdout h =
    let (block, found, read) = >>=-eq-ok _ read_report h in
    (block, wrap-eq-ok rejected _ found, read_report-Reports block read)
