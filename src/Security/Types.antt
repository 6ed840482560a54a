-- ===== src/Security/Types.antt =====
-- security.go: the parts of a report, the patterns of its fields and the fields of a record.
use proxy_node_assistant.Prelude.{
  Bool, List, Option, Result, [], all, any, between, err, if◌then◌else◌, length, none, not, ok,
  some, ℕ, ◌&&◌, ◌++◌, ◌==◌, ◌||◌, ◌∷◌, ◌>>=◌,
}
use proxy_node_assistant.Text.{
  Fields, Text, atoi, codes, contains_any, cut, find, is_digit, is_some, text_eq, within,
}

pub record SecuritySource : Type 0 where
  pub name : Text
  pub state : Text
  pub detail : Text

pub record SecurityEvent : Type 0 where
  pub category : Text
  pub ip : Text
  pub count : ℕ
  pub last_epoch : ℕ
  pub detail : Text

pub record SecurityReport : Type 0 where
  pub since : Text
  pub cursor : ℕ
  pub limit : ℕ
  pub sources : List SecuritySource
  pub events : List SecurityEvent
  pub total : ℕ
  pub returned : ℕ
  pub truncated : Bool
  pub next_cursor : ℕ

pub data SecurityError : Type 0 where
  duplicate_begin duplicate_end missing_markers : SecurityError
  invalid_field duplicate_field : Text → SecurityError
  bad_meta bad_range bad_cursor bad_limit bad_source bad_event bad_count bad_timestamp :
      SecurityError
  bad_summary bad_total bad_returned bad_truncation bad_next_cursor : SecurityError
  unknown_kind : Text → SecurityError
  incomplete cursor_stuck unexpected_cursor : SecurityError

-- `securityTokenPattern`: `^[A-Z0-9_]{2,64}$`
unfoldable pub is_token : Text → Bool
is_token s = between 2 64 (length s) && all (λ c. between b'A' b'Z' c || is_digit c || c == b'_') s

-- `securityDetailPattern`: `^[A-Za-z0-9_.:-]{1,64}$`
unfoldable pub is_detail : Text → Bool
is_detail s =
    between 1 64 (length s)
    && all
        (λ c.
          between b'A' b'Z' c
          || between b'a' b'z' c
          || is_digit c
          || c == b'_'
          || c == b'.'
          || c == b':'
          || c == b'-')
        s

abbrev pub allowed_security_sources : List Text
allowed_security_sources =
    codes "SSH" ∷ codes "FAIL2BAN" ∷ codes "FIREWALL" ∷ codes "NGINX" ∷ codes "CONNECTIONS" ∷ []

abbrev pub allowed_security_source_states : List Text
allowed_security_source_states = codes "OK" ∷ codes "INFO" ∷ codes "PARTIAL" ∷ []

abbrev pub allowed_security_categories : List Text
allowed_security_categories =
    codes "SSH_AUTH_SUCCESS"
    ∷ codes "SSH_AUTH_FAILURE"
    ∷ codes "FAIL2BAN_BANNED"
    ∷ codes "FIREWALL_REJECT"
    ∷ codes "REALITY_NEW_CONNECTION"
    ∷ codes "CDN_XHTTP_REQUEST"
    ∷ codes "ACME_REQUEST"
    ∷ codes "WEB_REQUEST"
    ∷ codes "CURRENT_SSH_CONNECTION"
    ∷ codes "CURRENT_443_CONNECTION"
    ∷ []

abbrev pub security_ranges : List Text
security_ranges = codes "1h" ∷ codes "6h" ∷ codes "24h" ∷ codes "7d" ∷ []

unfoldable pub one_of : List Text → Text → Bool
one_of values s = any (text_eq s) values

abbrev added : Text → Text → Fields → Result SecurityError Fields
added k v result =
    if is_some (find k result) then err (duplicate_field k) else ok (result ++ (k, v) ∷ [])

field_into : Text → Option (Text × Text) → Fields → Result SecurityError Fields
unfolding is_token contains_any find
field_into field none result = err (invalid_field field)
field_into field (some (k, v)) result =
    if not (is_token k) || contains_any (codes "\r\n\t") v
    then err (invalid_field field)
    else added k v result

unfoldable pub parse_security_fields : List Text → Fields → Result SecurityError Fields
unfolding field_into cut
parse_security_fields [] result = ok result
parse_security_fields (field ∷ fields) result =
    field_into field (cut b'=' field) result >>= parse_security_fields fields

abbrev pub or_error : SecurityError → Option ℕ → Result SecurityError ℕ
or_error e none = err e
or_error e (some n) = ok n

-- `parseBoundedInt`, with the error of its label.
unfoldable pub parse_bounded_int : SecurityError → ℕ → ℕ → Text → Result SecurityError ℕ
unfolding atoi
parse_bounded_int e lo hi value = or_error e (within lo hi (atoi value))
