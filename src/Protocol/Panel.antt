-- ===== src/Protocol/Panel.antt =====
-- parsers.go: parsePanelMetadata, normalizePanelPath and parseRunStatus.
pub mod Sound
use proxy_node_assistant.Prelude.{
  Bool, Option, Result, err, false, if◌then◌else◌, is_empty, none, not, ok, some, wrap, ℕ, ◌&&◌,
  ◌++◌, ◌∷◌, ◌>>=◌,
}
use proxy_node_assistant.Protocol.KeyValue.{parse_kv}
use proxy_node_assistant.Protocol.Marker.{MarkerError, extract_marker_block_current_or_legacy}
use proxy_node_assistant.Text.{
  Fields, Text, atoi, codes, contains_any, get, has_prefix, has_suffix, trim_space, within,
}

pub record PanelMetadata : Type 0 where
  pub port : ℕ
  pub path : Text
  pub source : Text

pub data PanelError : Type 0 where
  panel_rejected : MarkerError → PanelError
  invalid_port empty_path unsafe_path invalid_path status_missing : PanelError

-- What normalizePanelPath reads of a `*url.URL`.
pub record PathUrl : Type 0 where
  pub is_abs : Bool
  pub raw_query : Text
  pub fragment : Text

abbrev pub rooted : Text → Text
rooted value = if has_prefix (codes "/") value then value else b'/' ∷ value

abbrev pub ended : Text → Text
ended value = if has_suffix (codes "/") value then value else value ++ codes "/"

abbrev pub with_slashes : Text → Text
with_slashes value = ended (rooted value)

abbrev pub is_relative : Option PathUrl → Bool
is_relative none = false
is_relative (some u) = not u.is_abs && is_empty u.raw_query && is_empty u.fragment

abbrev pub unsafe_codes : Text
unsafe_codes = codes "\r\n\t ?#\\"

-- `parse_url` is net/url's Parse.
module _ (parse_url : Text → Option PathUrl) where
  abbrev pub safe_path : Text → Result PanelError Text
  safe_path value =
      if is_empty value
      then err empty_path
      else if contains_any unsafe_codes value
      then err unsafe_path
      else if not (is_relative (parse_url (with_slashes value)))
      then err invalid_path
      else ok (with_slashes value)

  unfoldable pub normalize_panel_path : Text → Result PanelError Text
  normalize_panel_path value = safe_path (trim_space value)

  abbrev pub with_port : Fields → Option ℕ → Result PanelError PanelMetadata
  with_port kv none = err invalid_port
  with_port kv (some port) = normalize_panel_path (get (codes "WEB_BASE_PATH") kv) >>= λ path.
      ok (record { port = port; path = path; source = get (codes "PANEL_METADATA_SOURCE") kv })

  unfoldable pub panel_of : Fields → Result PanelError PanelMetadata
  panel_of kv = with_port kv (within 1 65535 (atoi (get (codes "PANEL_PORT") kv)))

  unfoldable pub parse_panel_metadata : Text → Result PanelError PanelMetadata
  parse_panel_metadata stdout =
      wrap panel_rejected (
        extract_marker_block_current_or_legacy stdout (codes "__PNA_PANEL_META_BEGIN__")
          (codes "__PNA_PANEL_META_END__") (codes "__TNA_PANEL_META_BEGIN__")
          (codes "__TNA_PANEL_META_END__"))
      >>= λ payload. panel_of (parse_kv payload)

abbrev pub has_status : Fields → Result PanelError Fields
has_status kv = if is_empty (get (codes "RUN_STATUS") kv) then err status_missing else ok kv

unfoldable pub parse_run_status : Text → Result PanelError Fields
parse_run_status stdout =
    wrap panel_rejected (
      extract_marker_block_current_or_legacy stdout (codes "__PNA_RUN_STATUS_BEGIN__")
        (codes "__PNA_RUN_STATUS_END__") (codes "__TNA_RUN_STATUS_BEGIN__")
        (codes "__TNA_RUN_STATUS_END__"))
    >>= λ payload. has_status (parse_kv payload)
