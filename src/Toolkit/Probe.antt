-- ===== src/Toolkit/Probe.antt =====
-- parseToolkitProbe of parsers.go.
pub mod Sound
use proxy_node_assistant.Prelude.{
  Bool, Option, Result, [], all, between, err, false, if◌then◌else◌, is_empty, length, none, not,
  ok, some, true, wrap, ℕ, ◌&&◌, ◌==◌, ◌>>=◌, ◌>>◌, ◌||◌,
}
use proxy_node_assistant.Text.{
  Fields, Text, atoi, codes, get, is_digit, text_eq, trim_prefix, trim_space, within,
}
use proxy_node_assistant.Protocol.Marker.{MarkerError, extract_marker_block_current_or_legacy}
use proxy_node_assistant.Protocol.KeyValue.{parse_kv}
use proxy_node_assistant.Toolkit.Version.{matches_version}

-- A revision is never negative: it is 0 or a number that parseToolkitProbe accepted.
pub record ToolkitProbe : Type 0 where
  pub present : Bool
  pub version : Text
  pub build_id : Text
  pub build_revision : ℕ
  pub complete : Bool

abbrev pub absent : ToolkitProbe
absent = record {
  present = false;
  version = [];
  build_id = [];
  build_revision = 0;
  complete = false;
}

pub data ProbeError : Type 0 where
  rejected : MarkerError → ProbeError
  invalid_presence invalid_version invalid_build_id invalid_revision : ProbeError
  invalid_completeness : ProbeError

abbrev is_build_char : ℕ → Bool
is_build_char c =
    between b'A' b'Z' c || between b'a' b'z' c || is_digit c || c == b'.' || c == b'_' || c == b'-'

-- `toolkitBuildPattern`: `^[A-Za-z0-9._-]{1,128}$`
unfoldable pub is_build_id : Text → Bool
is_build_id s = between 1 128 (length s) && all is_build_char s

-- The revision field: 0 if it is blank, else a number from 1 to 1000000000.
unfoldable pub revision_of : Text → Option ℕ
unfolding trim_space atoi
revision_of field =
    let raw = trim_space field in if is_empty raw then some 0 else within 1 1_000_000_000 (atoi raw)

abbrev found : Text → Text → ℕ → Bool → ToolkitProbe
found version build_id revision c = record {
  present = true;
  version = trim_prefix (codes "v") version;
  build_id = build_id;
  build_revision = revision;
  complete = c;
}

-- The `switch` on the completeness flag, and the result.
completed : Text → Text → Text → ℕ → Result ProbeError ToolkitProbe
unfolding text_eq trim_prefix
completed flag version build_id revision =
    if text_eq flag (codes "0")
    then ok (found version build_id revision false)
    else if text_eq flag (codes "1")
    then ok (found version build_id revision true)
    else err invalid_completeness

with_revision : Text → Text → Text → Option ℕ → Result ProbeError ToolkitProbe
unfolding completed
with_revision flag version build_id none = err invalid_revision
with_revision flag version build_id (some revision) = completed flag version build_id revision

installed : Fields → Result ProbeError ToolkitProbe
unfolding get trim_space matches_version is_build_id revision_of with_revision
installed kv =
    let version = trim_space (get (codes "TOOLKIT_VERSION") kv) in
    let build_id = trim_space (get (codes "TOOLKIT_BUILD_ID") kv) in
    if not (matches_version version)
    then err invalid_version
    else if not (is_empty build_id) && not (is_build_id build_id)
    then err invalid_build_id
    else with_revision (get (codes "TOOLKIT_COMPLETE") kv) version build_id
        (revision_of (get (codes "TOOLKIT_BUILD_REVISION") kv))

-- What is done with the key-value map of the block.
unfoldable pub probe_of : Fields → Result ProbeError ToolkitProbe
unfolding text_eq get installed
probe_of kv =
    let flag = get (codes "TOOLKIT_PRESENT") kv in
    if text_eq flag (codes "0")
    then ok absent
    else if text_eq flag (codes "1")
    then installed kv
    else err invalid_presence

unfoldable pub parse_toolkit_probe : Text → Result ProbeError ToolkitProbe
unfolding extract_marker_block_current_or_legacy parse_kv probe_of
parse_toolkit_probe stdout = do
  payload ← wrap rejected (
      extract_marker_block_current_or_legacy stdout (codes "__PNA_TOOLKIT_PROBE_BEGIN__")
        (codes "__PNA_TOOLKIT_PROBE_END__") (codes "__TNA_TOOLKIT_PROBE_BEGIN__")
        (codes "__TNA_TOOLKIT_PROBE_END__"))
  probe_of (parse_kv payload)
