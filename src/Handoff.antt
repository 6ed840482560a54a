-- ===== src/Handoff.antt =====
-- handoff_normalize.go: an earlier handoff without its presentation and its retired fields, with
-- completeHandoffCDNLinkKeys of deployment.go.
pub mod Cleaned
pub mod Fallbacks
pub mod Keys
use proxy_node_assistant.Prelude.{
  Bool, List, Option, [], all, any, if◌then◌else◌, is_empty, leb, none, not, refl, some, ◌&&◌, ◌++◌,
  ◌==◌, ◌||◌, ◌∷◌, ◌≡◌,
}
use proxy_node_assistant.Text.{
  Fields, Text, byte_length, codes, contains, cut, has_prefix, has_suffix, join, replace_crlf,
  split, text_eq, to_upper, trim_cr, trim_space,
}

abbrev heading_phrases : List Text
heading_phrases =
    codes "COMPLETE HANDOFF"
    ∷ codes "REQUIRED LOGIN CREDENTIALS"
    ∷ codes "REAL CREDENTIAL HANDOFF"
    ∷ codes "CURRENT 3X-UI HANDOFF"
    ∷ codes "REAL GENERATED REALITY"
    ∷ codes "MANDATORY DRIVE"
    ∷ codes "ORDINARY DRIVE"
    ∷ codes "PRIVATE DRIVE"
    ∷ []

unfoldable pub is_handoff_presentation_line : Text → Bool
unfolding to_upper has_prefix has_suffix contains byte_length
is_handoff_presentation_line line =
    let upper_line = to_upper line in
    not (is_empty line)
    && ((has_prefix (codes "__") line
          && has_suffix (codes "__") line
          && contains (codes "HANDOFF") upper_line)
        || (all (λ c. c == b'=') line && leb 8 (byte_length line))
        || (has_prefix (codes "=") line
            && any (λ phrase. contains phrase upper_line) heading_phrases))

unfoldable pub retired_handoff_row : Text → Bool
unfolding to_upper has_prefix
retired_handoff_row line =
    let upper_line = to_upper line in
    has_prefix (codes "DEVICE\t") upper_line || has_prefix (codes "CONTROLLER\t") upper_line

abbrev retired_keys : List Text
retired_keys =
    codes "CURRENT_DEVICE_ID"
    ∷ codes "LOCAL_DEVICE_ID"
    ∷ codes "DEVICE_ID"
    ∷ codes "DEVICE_ROLE"
    ∷ codes "DEVICE_PUBLIC_KEY"
    ∷ codes "ENCRYPTION_PUBLIC_KEY"
    ∷ codes "PRIVATE_IDENTITY_STORAGE"
    ∷ codes "DEVICE_ADMISSION"
    ∷ codes "INVITE_POLICY"
    ∷ codes "ACTIVE_CONTROLLERS"
    ∷ codes "ACTIVE_DEVICES"
    ∷ codes "PER_DEVICE_VLESS"
    ∷ codes "CDN_MTLS_DEVICE"
    ∷ codes "WIREGUARD_DEVICE_LOCK"
    ∷ codes "OWNER_DEVICE_ID"
    ∷ codes "FENCING_TOKEN"
    ∷ codes "CURRENT_STAGE"
    ∷ codes "LAST_HEARTBEAT"
    ∷ codes "TNA_VERSION"
    ∷ []

abbrev retired_prefixes : List Text
retired_prefixes =
    codes "PRIVATE_DRIVE_"
    ∷ codes "DRIVE_"
    ∷ codes "MANDATORY_DRIVE_"
    ∷ codes "LOCAL_ADMIN_"
    ∷ codes "TNA_LOCAL_ADMIN_"
    ∷ codes "DEVICE_"
    ∷ codes "TNA_DEVICE_"
    ∷ codes "PNA_DEVICE_"
    ∷ codes "CONTROLLER_"
    ∷ codes "TNA_CONTROLLER_"
    ∷ codes "PNA_CONTROLLER_"
    ∷ codes "NODE_OPERATION_"
    ∷ codes "LEASE_"
    ∷ codes "INVITE_"
    ∷ codes "INVITATION_"
    ∷ []

unfoldable pub retired_handoff_field : Text → Bool
unfolding to_upper trim_space text_eq has_prefix
retired_handoff_field key =
    let upper_key = to_upper (trim_space key) in
    any (text_eq upper_key) retired_keys || any (λ p. has_prefix p upper_key) retired_prefixes

abbrev pub complete_handoff_cdn_link_keys : List Text
complete_handoff_cdn_link_keys =
    codes "CDN_XHTTP_LINK"
    ∷ codes "CDN_XHTTP_STAGE_LINK"
    ∷ codes "XHTTP_LINK"
    ∷ codes "XHTTP_STAGE_LINK"
    ∷ []

abbrev pub form_aliases : List Text
form_aliases =
    codes "VPS_ACCOUNT"
    ∷ codes "VPS_PASSWORD"
    ∷ codes "PANEL_ACCOUNT"
    ∷ codes "PANEL_PASSWORD"
    ∷ codes "PANEL_LOCAL_URL"
    ∷ codes "FORM_VPS_ACCOUNT"
    ∷ codes "FORM_VPS_PASSWORD"
    ∷ codes "FORM_PANEL_ACCOUNT"
    ∷ codes "FORM_PANEL_PASSWORD"
    ∷ codes "VPS_LOGIN_USER"
    ∷ codes "VPS_LOGIN_PASSWORD"
    ∷ codes "PANEL_USERNAME"
    ∷ []

-- A key of a set of keys, which is the list of its members.
unfoldable pub is_member : Text → List Text → Bool
unfolding text_eq
is_member key keys = any (text_eq key) keys

keys_of : Fields → List Text
keys_of [] = []
keys_of ((k, v) ∷ fields) = k ∷ keys_of fields

unfoldable pub handoff_regenerated_keys : Fields → Bool → List Text
unfolding keys_of is_member
handoff_regenerated_keys fields form_complete =
    let keys = keys_of fields in
    keys
    ++ (if any (λ k. is_member k complete_handoff_cdn_link_keys) keys
        then complete_handoff_cdn_link_keys
        else [])
    ++ (if form_complete then form_aliases else [])

dropped_field : List Text → Text → Option (Text × Text) → Bool
unfolding trim_space is_member retired_handoff_field retired_handoff_row
dropped_field regenerated trimmed_line none = retired_handoff_row trimmed_line
dropped_field regenerated trimmed_line (some (key, value)) =
    is_member (trim_space key) regenerated || retired_handoff_field (trim_space key)

-- Whether the loop drops a line.
unfoldable pub is_dropped : List Text → Text → Bool
unfolding dropped_field trim_space cut is_handoff_presentation_line
is_dropped regenerated line =
    is_handoff_presentation_line (trim_space line)
    || dropped_field regenerated (trim_space line) (cut b'=' (trim_space line))

-- The loop: the lines that it keeps, and whether it changed anything.
unfoldable pub keep_lines : List Text → List Text → Bool → List Text × Bool
keep_lines regenerated [] changed = ([], changed)
keep_lines regenerated (raw ∷ lines) changed =
    let line = trim_cr raw in
    let drop_it = is_dropped regenerated line in
    let rest = keep_lines regenerated lines (changed || drop_it) in
    (if drop_it then rest.0 else line ∷ rest.0, rest.1)

unfoldable pub normalize_handoff_legacy : Text → List Text → Text
unfolding replace_crlf split keep_lines text_eq join trim_space
normalize_handoff_legacy legacy regenerated =
    let normalized = replace_crlf legacy in
    let kept = keep_lines regenerated (split b'\n' normalized) (not (text_eq normalized legacy)) in
    if not kept.1 then legacy else trim_space (join b'\n' kept.0)

normalize_test :
    normalize_handoff_legacy (codes "======== \nA=1\r\nDEVICE_ID=7\nB=2\n") (codes "B" ∷ [])
    ≡ codes "A=1"
unfolding normalize_handoff_legacy is_dropped dropped_field trim_cr
normalize_test = refl
