-- ===== src/Security/Invariant.antt =====
-- What the loop of parseSecurityReport in security.go keeps.
use proxy_node_assistant.Security.Types.{
  or_error, SecurityError, SecurityEvent, SecurityReport, SecuritySource,
  allowed_security_categories, bad_count, bad_cursor, bad_event, bad_limit, bad_range, bad_returned,
  bad_source, bad_timestamp, bad_total, is_detail, one_of, parse_bounded_int, parse_security_fields,
  security_ranges,
}
use proxy_node_assistant.Prelude.{
  Bool, Bool-cases, List, Option, Result, [], all, all-append, ap, arith, err, false, if◌then◌else◌,
  inl, inr, none, not, ok, ok-injective, ok-ne-err, refl, some, subst, sym, true, ℕ, ◌++◌, ◌||◌,
  ◌∙◌, ◌∷◌, ◌≡◌, ◌≤◌, ◌>>=◌, >>=-eq-ok,
}
use proxy_node_assistant.Security.Report.{
  Parse, event_ok, event_record, meta_record, meta_values, next_cursor_of, security_line,
  security_lines, security_record, source_ok, source_record, summary_record, summary_values,
  truncation, with_event, with_source,
}
use proxy_node_assistant.Text.{Fields, Text, atoi, codes, get, text_eq, within, within_bounds}

abbrev pub IsMeta : SecurityReport → Type 0
IsMeta r =
    (one_of security_ranges r.since ≡ true) × (r.cursor ≤ 100000) × (1 ≤ r.limit) × (r.limit ≤ 1000)

abbrev pub IsSummary : SecurityReport → Type 0
IsSummary r = (r.total ≤ 100000) × (r.returned ≤ 1000)

-- The invariant of the loop.
pub record IsParse (is_ip : Text → Bool) (latest : ℕ) (p : Parse) : Type 0 where
  pub parsed_sources : all source_ok p.report.sources ≡ true
  pub parsed_events : all (event_ok is_ip latest) p.report.events ≡ true
  pub parsed_meta : p.meta_seen ≡ true → IsMeta p.report
  pub parsed_summary : p.summary_seen ≡ true → IsSummary p.report

parse_bounded_int-bounds :
    (e : SecurityError) (lo hi : ℕ) (value : Text) {n : ℕ}
    → parse_bounded_int e lo hi value ≡ ok n
    → (lo ≤ n) × (n ≤ hi)
unfolding parse_bounded_int
parse_bounded_int-bounds e lo hi value {n} h = go (within lo hi (atoi value)) refl h
  where
    go : (o : Option ℕ) → within lo hi (atoi value) ≡ o → or_error e o ≡ ok n → (lo ≤ n) × (n ≤ hi)
    go none q k = cc
    go (some m) q k = within_bounds lo hi (atoi value) (q ∙ ap some (ok-injective k))

all_snoc :
    {A : Type 0} (p : A → Bool) (xs : List A) (x : A)
    → all p xs ≡ true
    → p x ≡ true
    → all p (xs ++ x ∷ []) ≡ true
all_snoc p xs x h k = rw (all-append p xs (x ∷ [])) (ground arith)

module _ (is_ip : Text → Bool) (latest : ℕ) (p : Parse) where
  abbrev Kept : Result SecurityError Parse → Type 0
  Kept r = (q : Parse) → r ≡ ok q → IsParse is_ip latest q

  meta_values-IsParse : (values : Fields) → IsParse is_ip latest p → Kept (meta_values p values)
  unfolding meta_values
  meta_values-IsParse values i q h = go (one_of security_ranges (get (codes "SINCE") values)) refl h
    where
      done : ℕ → ℕ → Parse
      done cursor limit = record p {
        report = record p.report {
          since = get (codes "SINCE") values;
          cursor = cursor;
          limit = limit;
        };
        meta_seen = true;
      }

      limit_of : Result SecurityError ℕ
      limit_of = parse_bounded_int bad_limit 1 1000 (get (codes "LIMIT") values)

      cursor_of : Result SecurityError ℕ
      cursor_of = parse_bounded_int bad_cursor 0 100000 (get (codes "CURSOR") values)

      go :
          (b : Bool)
          → one_of security_ranges (get (codes "SINCE") values) ≡ b
          → (if not b then err bad_range else (cursor_of >>= λ c. limit_of >>= λ l. ok (done c l)))
            ≡ ok q
          → IsParse is_ip latest q
      go false s k = elim (ok-ne-err (sym k)) [ ]
      go true s k =
          let (c, cursor_ok, k1) = >>=-eq-ok cursor_of (λ c. limit_of >>= λ l. ok (done c l)) k in
          let (l, limit_ok, k2) = >>=-eq-ok limit_of (λ l. ok (done c l)) k1 in
          subst (IsParse is_ip latest) (ok-injective k2) (record {
            parsed_sources = i.parsed_sources;
            parsed_events = i.parsed_events;
            parsed_meta = λ _. (
              s,
              (parse_bounded_int-bounds _ _ _ _ cursor_ok).1,
              (parse_bounded_int-bounds _ _ _ _ limit_ok).0,
              (parse_bounded_int-bounds _ _ _ _ limit_ok).1,
            );
            parsed_summary = i.parsed_summary;
          })

  with_source-IsParse : (s : SecuritySource) → IsParse is_ip latest p → Kept (with_source p s)
  unfolding with_source
  with_source-IsParse s i q h = go (source_ok s) refl h
    where
      go :
          (b : Bool)
          → source_ok s ≡ b
          → (if not b
              then err bad_source
              else ok
                  (record p { report = record p.report { sources = p.report.sources ++ s ∷ [] } }))
            ≡ ok q
          → IsParse is_ip latest q
      go false e k = elim (ok-ne-err (sym k)) [ ]
      go true e k = subst (IsParse is_ip latest) (ok-injective k) (record {
        parsed_sources = all_snoc source_ok p.report.sources s i.parsed_sources e;
        parsed_events = i.parsed_events;
        parsed_meta = i.parsed_meta;
        parsed_summary = i.parsed_summary;
      })

  source_record-IsParse :
      (fields : List Text) → IsParse is_ip latest p → Kept (source_record p fields)
  unfolding source_record
  source_record-IsParse (name ∷ state ∷ detail ∷ []) i q h = with_source-IsParse _ i q h
  source_record-IsParse [] i q h = cc
  source_record-IsParse (_ ∷ []) i q h = cc
  source_record-IsParse (_ ∷ _ ∷ []) i q h = cc
  source_record-IsParse (_ ∷ _ ∷ _ ∷ _ ∷ _) i q h = cc

  event_record-IsParse :
      (fields : List Text) → IsParse is_ip latest p → Kept (event_record is_ip latest p fields)
  unfolding event_record event_ok
  event_record-IsParse (category ∷ ip ∷ count ∷ epoch ∷ detail ∷ []) i q h = go _ refl h
    where
      made : ℕ → ℕ → SecurityEvent
      made n last = record {
        category = category;
        ip = ip;
        count = n;
        last_epoch = last;
        detail = detail;
      }

      count_of : Result SecurityError ℕ
      count_of = parse_bounded_int bad_count 1 1_000_000_000 count

      epoch_of : Result SecurityError ℕ
      epoch_of = parse_bounded_int bad_timestamp 0 latest epoch

      bad : Bool
      bad =
          not (one_of allowed_security_categories category)
          || not (is_ip ip)
          || not (is_detail detail)

      go :
          (b : Bool)
          → bad ≡ b
          → (if b
              then err bad_event
              else (count_of >>= λ n.
                  epoch_of >>= λ last. ok (with_event is_ip latest p (made n last))))
            ≡ ok q
          → IsParse is_ip latest q
      go true e k = elim (ok-ne-err (sym k)) [ ]
      go false e k =
          let (n, count_ok, k1) =
            >>=-eq-ok count_of
              (λ n. epoch_of >>= λ last. ok (with_event is_ip latest p (made n last))) k in
          let (last, epoch_ok, k2) =
            >>=-eq-ok epoch_of (λ last. ok (with_event is_ip latest p (made n last))) k1 in
          let n_bounds = parse_bounded_int-bounds _ _ _ _ count_ok in
          let last_bounds = parse_bounded_int-bounds _ _ _ _ epoch_ok in
          subst (IsParse is_ip latest) (ok-injective k2) (record {
            parsed_sources = i.parsed_sources;
            parsed_events =
                all_snoc (event_ok is_ip latest) p.report.events (made n last) i.parsed_events
                  (ground arith);
            parsed_meta = i.parsed_meta;
            parsed_summary = i.parsed_summary;
          })
  event_record-IsParse [] i q h = cc
  event_record-IsParse (_ ∷ []) i q h = cc
  event_record-IsParse (_ ∷ _ ∷ []) i q h = cc
  event_record-IsParse (_ ∷ _ ∷ _ ∷ []) i q h = cc
  event_record-IsParse (_ ∷ _ ∷ _ ∷ _ ∷ []) i q h = cc
  event_record-IsParse (_ ∷ _ ∷ _ ∷ _ ∷ _ ∷ _ ∷ _) i q h = cc

  summary_values-IsParse :
      (values : Fields) → IsParse is_ip latest p → Kept (summary_values p values)
  unfolding summary_values
  summary_values-IsParse values i q h =
      let (total, total_ok, k1) = >>=-eq-ok total_of after_total h in
      let (returned, returned_ok, k2) = >>=-eq-ok returned_of (after_returned total) k1 in
      let (truncated, _, k3) = >>=-eq-ok truncated_of (after_truncated total returned) k2 in
      let (next, _, k4) = >>=-eq-ok next_of (λ next. ok (done total returned truncated next)) k3 in
      subst (IsParse is_ip latest) (ok-injective k4) (record {
        parsed_sources = i.parsed_sources;
        parsed_events = i.parsed_events;
        parsed_meta = i.parsed_meta;
        parsed_summary = λ _. (
          (parse_bounded_int-bounds _ _ _ _ total_ok).1,
          (parse_bounded_int-bounds _ _ _ _ returned_ok).1,
        );
      })
    where
      done : ℕ → ℕ → Bool → ℕ → Parse
      done total returned truncated next = record p {
        report = record p.report {
          total = total;
          returned = returned;
          truncated = truncated;
          next_cursor = next;
        };
        summary_seen = true;
      }

      total_of : Result SecurityError ℕ
      total_of = parse_bounded_int bad_total 0 100000 (get (codes "TOTAL") values)

      returned_of : Result SecurityError ℕ
      returned_of = parse_bounded_int bad_returned 0 1000 (get (codes "RETURNED") values)

      truncated_of : Result SecurityError Bool
      truncated_of = truncation (get (codes "TRUNCATED") values)

      next_of : Result SecurityError ℕ
      next_of = next_cursor_of p.report.next_cursor (get (codes "NEXT_CURSOR") values)

      after_truncated : ℕ → ℕ → Bool → Result SecurityError Parse
      after_truncated total returned truncated =
          next_of >>= λ next. ok (done total returned truncated next)

      after_returned : ℕ → ℕ → Result SecurityError Parse
      after_returned total returned = truncated_of >>= after_truncated total returned

      after_total : ℕ → Result SecurityError Parse
      after_total total = returned_of >>= after_returned total

  -- The records with fields of the form KEY=value.
  fields_then :
      (bad : Bool) (e : SecurityError) (fields : List Text)
      (next : Fields → Result SecurityError Parse)
      → ((values : Fields) → Kept (next values))
      → Kept (if bad then err e else (parse_security_fields fields [] >>= next))
  fields_then true e fields next keeps q h = elim (ok-ne-err (sym h)) [ ]
  fields_then false e fields next keeps q h =
      let (values, _, k) = >>=-eq-ok (parse_security_fields fields []) next h in keeps values q k

  security_record-IsParse :
      (fields : List Text) → IsParse is_ip latest p → Kept (security_record is_ip latest p fields)
  unfolding security_record meta_record summary_record
  security_record-IsParse [] i q h = cc
  security_record-IsParse (kind ∷ fields) i q h = elim (Bool-cases (text_eq kind (codes "META"))) [
    | inl m ↦
        fields_then _ _ fields (meta_values p) (λ values. meta_values-IsParse values i) q
          (rw m at h)
    | inr m ↦ elim (Bool-cases (text_eq kind (codes "SOURCE"))) [
      | inl s ↦ source_record-IsParse fields i q (rw (m, s) at h)
      | inr s ↦ elim (Bool-cases (text_eq kind (codes "EVENT"))) [
        | inl e ↦ event_record-IsParse fields i q (rw (m, s, e) at h)
        | inr e ↦ elim (Bool-cases (text_eq kind (codes "SUMMARY"))) [
          | inl u ↦
              fields_then _ _ fields (summary_values p) (λ values. summary_values-IsParse values i)
                q (rw (m, s, e, u) at h)
          | inr u ↦ cc (rw (m, s, e, u) at h)
        ]
      ]
    ]
  ]

pub security_lines-IsParse :
    (is_ip : Text → Bool) (latest : ℕ) (lines : List Text) (p q : Parse)
    → IsParse is_ip latest p
    → security_lines is_ip latest lines p ≡ ok q
    → IsParse is_ip latest q
unfolding security_lines security_line
security_lines-IsParse is_ip latest [] p q i h = subst (IsParse is_ip latest) (ok-injective h) i
security_lines-IsParse is_ip latest (line ∷ lines) p q i h =
    let (next, one, rest) =
      >>=-eq-ok (security_line is_ip latest p line) (security_lines is_ip latest lines) h in
    security_lines-IsParse is_ip latest lines next q (kept line next one) rest
  where
    kept :
        (l : Text) (next : Parse)
        → security_line is_ip latest p l ≡ ok next
        → IsParse is_ip latest next
    kept [] next k = subst (IsParse is_ip latest) (ok-injective k) i
    kept (c ∷ cs) next k = security_record-IsParse is_ip latest p _ i next k
