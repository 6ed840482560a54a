-- ===== src/Handoff/Fallbacks.antt =====
-- deployment.go: the values of a handoff's protocol fields, mergeHandoffProtocolFallbacks.
pub mod Laws
use proxy_node_assistant.Protocol.KeyValue.{store}
use proxy_node_assistant.Plan.Identity.{valid_domain}
use proxy_node_assistant.Prelude.{
  Bool, List, Option, [], any, between, false, if◌then◌else◌, is_empty, none, not, some, true, ℕ,
  ◌&&◌, ◌==◌, ◌||◌, ◌∷◌,
}
use proxy_node_assistant.Text.{
  Fields, Text, atoi, codes, contains, contains_any, cut, equal_fold, get, has_prefix, has_suffix,
  is_digit, is_some, lines_of, put, text_eq, to_upper, trim_left, trim_space, within,
}
use proxy_node_assistant.Transaction.{counted, then_literal}

unfoldable pub usable_handoff_credential : Text → Bool
unfolding trim_space to_upper has_prefix text_eq
usable_handoff_credential value =
    let trimmed = trim_space value in
    let upper = to_upper trimmed in
    not (is_empty trimmed)
    && not (has_prefix (codes "UNKNOWN") upper)
    && not (has_prefix (codes "NOT_RETAINED") upper)
    && not (text_eq upper (codes "SSH_KEY_ONLY"))

abbrev is_hex_digit : ℕ → Bool
is_hex_digit c = is_digit c || between b'a' b'f' c || between b'A' b'F' c

-- `handoffUUIDPattern`
unfoldable pub is_uuid : Text → Bool
is_uuid = counted 8 is_hex_digit (
    then_literal (codes "-") (
      counted 4 is_hex_digit (
        then_literal (codes "-") (
          counted 1 (between b'1' b'5') (
            counted 3 is_hex_digit (
              then_literal (codes "-") (
                counted 1 (λ c. any (λ (d : ℕ). c == d) (codes "89ABab"))
                  (counted 3 is_hex_digit
                    (then_literal (codes "-") (counted 12 is_hex_digit is_empty))))))))))

abbrev handoff_protocol_keys : List Text
handoff_protocol_keys =
    codes "COVER_DOMAIN"
    ∷ codes "PUBLIC_IP_AT_HANDOFF"
    ∷ codes "VPS_PUBLIC_IP"
    ∷ codes "PUBLIC_IP"
    ∷ codes "REALITY_CLIENT_1_UUID"
    ∷ codes "REALITY_TEST_UUID"
    ∷ codes "REALITY_GENERATED_UUID"
    ∷ codes "REALITY_UUID"
    ∷ codes "UUID"
    ∷ codes "REALITY_SERVER_ADDRESS"
    ∷ codes "REALITY_PUBLIC_KEY"
    ∷ codes "REALITY_CLIENT_PUBLIC_KEY"
    ∷ codes "REALITY_SERVER_NAME"
    ∷ codes "REALITY_SNI"
    ∷ codes "REALITY_DEST_DOMAIN"
    ∷ codes "REALITY_SHORT_ID"
    ∷ codes "REALITY_CLIENT_SHORT_ID"
    ∷ codes "REALITY_GENERATED_SHORT_ID"
    ∷ codes "REALITY_CLIENT_1_PORT"
    ∷ codes "REALITY_PUBLIC_PORT"
    ∷ codes "REALITY_SERVER_PORT"
    ∷ codes "REALITY_PORT"
    ∷ codes "REALITY_TEST_PORT"
    ∷ codes "TEST_PORT"
    ∷ codes "REALITY_PRODUCTION_LINK"
    ∷ codes "REALITY_LINK"
    ∷ codes "REALITY_TEST_LINK"
    ∷ codes "VLESS_LINK"
    ∷ codes "REALITY_CLIENT_1_LINK"
    ∷ codes "CDN_XHTTP_UUID"
    ∷ codes "XHTTP_UUID"
    ∷ codes "CDN_XHTTP_DOMAIN"
    ∷ codes "XHTTP_PUBLIC_DOMAIN"
    ∷ codes "XHTTP_DOMAIN"
    ∷ codes "CDN_XHTTP_PATH"
    ∷ codes "XHTTP_PATH"
    ∷ codes "CDN_XHTTP_PUBLIC_PORT"
    ∷ codes "XHTTP_PUBLIC_PORT"
    ∷ codes "CDN_XHTTP_LINK"
    ∷ codes "CDN_XHTTP_STAGE_LINK"
    ∷ codes "XHTTP_LINK"
    ∷ codes "CDN_XHTTP_SUB_ID"
    ∷ codes "XHTTP_SUB_ID"
    ∷ codes "SUB_ID"
    ∷ codes "SUBSCRIPTION_URL"
    ∷ codes "SUBSCRIPTION_LINK"
    ∷ codes "CDN_XHTTP_SUBSCRIPTION_URL"
    ∷ codes "REALITY_CLIENT_1_SUBSCRIPTION_URL"
    ∷ codes "SS2022_SERVER_ADDRESS"
    ∷ codes "SS2022_HOST"
    ∷ codes "SS2022_PORT"
    ∷ codes "SS2022_METHOD"
    ∷ codes "SS2022_PASSWORD"
    ∷ codes "SS2022_LINK"
    ∷ []

abbrev begins_with_digit : Text → Bool
begins_with_digit [] = false
begins_with_digit (c ∷ cs) = is_digit c

-- `^<prefix>[0-9]+_(<name>|...)$`
abbrev is_indexed : Text → List Text → Text → Bool
unfolding text_eq
is_indexed prefix names =
    then_literal prefix
      (λ rest. begins_with_digit rest && any (text_eq (trim_left is_digit rest)) names)

abbrev reality_suffixes : List Text
reality_suffixes =
    codes "_UUID"
    ∷ codes "_PRIVATE_KEY"
    ∷ codes "_PUBLIC_KEY"
    ∷ codes "_SHORT_ID"
    ∷ codes "_SUB_ID"
    ∷ codes "_SUBSCRIPTION_URL"
    ∷ codes "_LINK"
    ∷ codes "_PORT"
    ∷ codes "_SERVER_NAME"
    ∷ codes "_SERVER_ADDRESS"
    ∷ []

unfoldable pub is_handoff_protocol_key : Text → Bool
unfolding trim_space text_eq has_prefix has_suffix
is_handoff_protocol_key typed =
    let key = trim_space typed in
    any (text_eq key) handoff_protocol_keys
    || is_indexed (codes "REALITY_CLIENT_")
        (codes "_UUID"
          ∷ codes "_SUB_ID"
          ∷ codes "_PORT"
          ∷ codes "_REMARK"
          ∷ codes "_LINK"
          ∷ codes "_SUBSCRIPTION_URL"
          ∷ [])
        key
    || is_indexed (codes "REALITY_")
        (codes "_SERVER_NAME"
          ∷ codes "_PRIVATE_KEY"
          ∷ codes "_PUBLIC_KEY"
          ∷ codes "_SHORT_ID"
          ∷ codes "_REMARK"
          ∷ [])
        key
    || (if has_prefix (codes "REALITY_") key
        then any (λ suffix. has_suffix suffix key) reality_suffixes
        else has_prefix (codes "CDN_XHTTP_") key || has_prefix (codes "SS2022_") key)

abbrev has_one_of : List Text → Text → Bool
has_one_of schemes scheme = any (λ s. equal_fold scheme s) schemes

-- `net/url`'s Parse, as the scheme and the host of what it reads; `none` is an error.
abbrev pub UrlParser : Type 0
UrlParser = Text → Option (Text × Text)

abbrev known_url : Option (Text × Text) → Bool
known_url none = false
known_url (some (scheme, host)) =
    not (is_empty scheme)
    && not (is_empty host)
    && has_one_of (codes "vless" ∷ codes "ss" ∷ codes "https" ∷ codes "http" ∷ []) scheme

module _ (parse_url : UrlParser) (is_ip : Text → Bool) where
  unfoldable pub valid_handoff_url : Text → Bool
  unfolding trim_space equal_fold
  valid_handoff_url value = known_url (parse_url (trim_space value))

  unfoldable pub valid_handoff_protocol_value : Text → Text → Bool
  unfolding usable_handoff_credential trim_space contains_any has_suffix valid_handoff_url contains
      text_eq is_uuid atoi valid_domain has_prefix
  valid_handoff_protocol_value key typed =
      let value = trim_space typed in
      if not (usable_handoff_credential value) || contains_any (0 ∷ codes "\r\n") value
      then false
      else if has_suffix (codes "_LINK") key || has_suffix (codes "_URL") key
      then valid_handoff_url value
      else if contains (codes "UUID") key
      then is_uuid value
      else if has_suffix (codes "_PORT") key || text_eq key (codes "TEST_PORT")
      then is_some (within 1 65535 (atoi value))
      else if contains (codes "DOMAIN") key
          || contains (codes "SERVER_NAME") key
          || text_eq key (codes "REALITY_SNI")
      then is_ip value || valid_domain value
      else if has_suffix (codes "_PATH") key
      then has_prefix (codes "/") value && not (contains_any (codes "\t ?#\\") value)
      else true

  unfoldable pub candidate : Option (Text × Text) → Option (Text × Text)
  unfolding trim_space is_handoff_protocol_key valid_handoff_protocol_value
  candidate none = none
  candidate (some (typed, val)) =
      let key = trim_space typed in
      if is_handoff_protocol_key key && valid_handoff_protocol_value key (trim_space val)
      then some (key, trim_space val)
      else none

  -- What one line adds to `validCandidates`.
  unfoldable pub candidate_of : Text → Option (Text × Text)
  unfolding cut trim_space
  candidate_of line = candidate (cut b'=' (trim_space line))

  unfoldable pub valid_candidates : List Text → Fields → Fields
  unfolding candidate_of put
  valid_candidates [] so_far = so_far
  valid_candidates (line ∷ lines) so_far = valid_candidates lines (store (candidate_of line) so_far)

  -- The second loop. Go visits the keys of a map in any order.
  unfoldable pub adopt : Fields → Fields → Fields
  unfolding valid_handoff_protocol_value get put
  adopt [] values = values
  adopt ((key, value) ∷ candidates) values = adopt candidates (
      if not (valid_handoff_protocol_value key (get key values))
      then put key value values
      else values)

  unfoldable pub merge_handoff_protocol_fallbacks : Text → Fields → Fields
  unfolding adopt valid_candidates lines_of
  merge_handoff_protocol_fallbacks raw values = adopt (valid_candidates (lines_of raw) []) values
