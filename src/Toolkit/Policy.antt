-- ===== src/Toolkit/Policy.antt =====
-- parsers.go: which toolkit may be replaced by the one that the program carries.
pub mod Monotone
use proxy_node_assistant.Prelude.{
  Bool, Result, false, if◌then◌else◌, is_empty, ltb, not, ok, true, ℕ, ◌&&◌, ◌==◌, ◌>>=◌, ◌>>◌,
  ◌||◌,
}
use proxy_node_assistant.Text.{Text, codes, text_eq}
use Prim.Native.Nat.{Ordering, lt, eq, gt}
use proxy_node_assistant.Toolkit.Version.{VersionError, compare_toolkit_versions}
use proxy_node_assistant.Toolkit.Probe.{ToolkitProbe}

-- remote.go
abbrev pub toolkit_version : Text
toolkit_version = codes "1.0.0"

abbrev pub toolkit_build_id : Text
toolkit_build_id = codes "20260901-v100-ss2022-r113"

abbrev pub toolkit_build_revision : ℕ
toolkit_build_revision = 113

pub data ToolkitRelation : Type 0 where
  missing older same_complete same_incomplete newer : ToolkitRelation

-- The results -1, 0 and 1 are `lt`, `eq` and `gt`.
unfoldable pub compare_toolkit_build : ToolkitProbe → Text → ℕ → Ordering
unfolding text_eq
compare_toolkit_build probe local_build_id local_revision =
    if ltb 0 probe.build_revision && ltb probe.build_revision local_revision
    then lt
    else if ltb 0 probe.build_revision && ltb local_revision probe.build_revision
    then gt
    else if text_eq probe.build_id local_build_id
    then eq
    else if probe.build_revision == 0 && ltb 0 local_revision
    then lt
    else gt

unfoldable pub same_version_incomplete_repair_allowed : ToolkitProbe → Bool
unfolding text_eq
same_version_incomplete_repair_allowed probe =
    if not probe.present || probe.complete || not (text_eq probe.version toolkit_version)
    then false
    else if ltb toolkit_build_revision probe.build_revision
    then false
    else if probe.build_revision == toolkit_build_revision
        && not (is_empty probe.build_id)
        && not (text_eq probe.build_id toolkit_build_id)
    then false
    else true

abbrev is_lt : Ordering → Bool
is_lt lt = true
is_lt _ = false

unfoldable pub same_version_toolkit_only_update_required : ToolkitProbe → Bool
unfolding same_version_incomplete_repair_allowed compare_toolkit_build text_eq
same_version_toolkit_only_update_required probe =
    if not probe.present || not (text_eq probe.version toolkit_version)
    then false
    else if not probe.complete
    then same_version_incomplete_repair_allowed probe
    else is_lt (compare_toolkit_build probe toolkit_build_id toolkit_build_revision)

abbrev related : ToolkitProbe → Ordering → ToolkitRelation
related probe lt = older
related probe gt = newer
related probe eq = if not probe.complete then same_incomplete else same_complete

unfoldable pub classify_toolkit : ToolkitProbe → Text → Result VersionError ToolkitRelation
unfolding compare_toolkit_versions
classify_toolkit probe local_version =
    let compared = compare_toolkit_versions probe.version local_version in
    if not probe.present
    then ok missing
    else (do comparison ← compared; ok (related probe comparison))
