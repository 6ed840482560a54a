-- ===== src/Protocol/Readiness.antt =====
-- parseCredentialReadiness of parsers.go: which login fields the server holds, with no secret.
pub mod Laws
use proxy_node_assistant.Prelude.{
  differs, Bool, Option, Result, all, any, between, err, false, if◌then◌else◌, is_empty, length,
  none, not, ok, some, true, wrap, ℕ, ◌&&◌, ◌==◌, ◌>>=◌, ◌>>◌, ◌||◌,
}
use proxy_node_assistant.Text.{
  Fields, Text, codes, contains, find, get, has_suffix, is_digit, text_eq, trim_space,
}
use proxy_node_assistant.Protocol.Marker.{MarkerError, extract_marked_block}
use proxy_node_assistant.Protocol.KeyValue.{parse_kv}

pub record CredentialReadiness : Type 0 where
  pub vps_user_present : Bool
  pub vps_password_present : Bool
  pub panel_user_present : Bool
  pub panel_password_present : Bool
  pub complete : Bool
  pub source : Text

-- The method `complete`.
unfoldable pub is_complete : CredentialReadiness → Bool
is_complete r =
    r.complete && r.vps_user_present && r.vps_password_present && r.panel_user_present
    && r.panel_password_present

pub data ReadinessError : Type 0 where
  rejected : MarkerError → ReadinessError
  credential_data : ReadinessError
  marker_missing marker_invalid : Text → ReadinessError
  source_invalid complete_disagrees : ReadinessError

-- A key that could carry a credential and not only its presence.
unfoldable pub smuggles : Text → Bool
unfolding contains has_suffix
smuggles key =
    (contains (codes "PASSWORD") key
      || contains (codes "USERNAME") key
      || contains (codes "ACCOUNT") key)
    && not (has_suffix (codes "_PRESENT") key)

-- `credentialReadinessSourcePattern`: `^[A-Za-z0-9_.:-]{1,32}$`
abbrev is_source_char : ℕ → Bool
is_source_char c =
    between b'A' b'Z' c
    || between b'a' b'z' c
    || is_digit c
    || c == b'_'
    || c == b'.'
    || c == b':'
    || c == b'-'

unfoldable pub is_source : Text → Bool
is_source s = between 1 32 (length s) && all is_source_char s

abbrev pub bool_at : Text → Option Text → Result ReadinessError Bool
bool_at key none = err (marker_missing key)
bool_at key (some value) =
    if text_eq value (codes "0")
    then ok false
    else if text_eq value (codes "1")
    then ok true
    else err (marker_invalid key)

unfoldable pub read_bool : Fields → Text → Result ReadinessError Bool
unfolding text_eq find
read_bool values key = bool_at key (find key values)

source_of : Fields → Text
unfolding trim_space get
source_of values =
    let source = trim_space (get (codes "SOURCE") values) in
    if is_empty source then codes "unknown" else source

-- The checks behind the five markers.
unfoldable pub checked :
    Fields → Bool → Bool → Bool → Bool → Bool → Result ReadinessError CredentialReadiness
unfolding source_of is_source
checked values vps_user vps_password panel_user panel_password complete =
    if not (is_source (source_of values))
    then err source_invalid
    else if differs complete (vps_user && vps_password && panel_user && panel_password)
    then err complete_disagrees
    else ok (record {
      vps_user_present = vps_user;
      vps_password_present = vps_password;
      panel_user_present = panel_user;
      panel_password_present = panel_password;
      complete = complete;
      source = source_of values;
    })

read_fields : Fields → Result ReadinessError CredentialReadiness
unfolding read_bool checked
read_fields values = do
  vps_user ← read_bool values (codes "VPS_LOGIN_USER_PRESENT")
  vps_password ← read_bool values (codes "VPS_LOGIN_PASSWORD_PRESENT")
  panel_user ← read_bool values (codes "PANEL_USERNAME_PRESENT")
  panel_password ← read_bool values (codes "PANEL_PASSWORD_PRESENT")
  complete ← read_bool values (codes "COMPLETE")
  checked values vps_user vps_password panel_user panel_password complete

-- What is done with the key-value map of the block.
unfoldable pub readiness_of : Fields → Result ReadinessError CredentialReadiness
unfolding smuggles read_fields
readiness_of values =
    if any (λ (e : Text × Text). smuggles e.0) values
    then err credential_data
    else read_fields values

unfoldable pub parse_credential_readiness : Text → Result ReadinessError CredentialReadiness
unfolding extract_marked_block parse_kv readiness_of
parse_credential_readiness stdout = do
  payload ← wrap rejected (
      extract_marked_block stdout (codes "__PNA_CREDENTIAL_READINESS_BEGIN__")
        (codes "__PNA_CREDENTIAL_READINESS_END__"))
  readiness_of (parse_kv payload)
