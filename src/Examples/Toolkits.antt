-- ===== src/Examples/Toolkits.antt =====
-- The theorems on the installed toolkit.
use Prim.Native.Nat.{lt}
use proxy_node_assistant.Prelude.{ok, refl, true, ◌↔◌, ◌≡◌, ◌⊎◌}
use proxy_node_assistant.Protocol.KeyValue.{parse_kv}
use proxy_node_assistant.Protocol.Marker.{extract_marker_block_current_or_legacy}
use proxy_node_assistant.Text.{Text, codes, get}
use proxy_node_assistant.Toolkit.Policy.{
  classify_toolkit, older, same_version_toolkit_only_update_required,
}
use proxy_node_assistant.Toolkit.Policy.Monotone.{
  IsReplaceable, Related, classify_toolkit-Related, same_version_toolkit_only_update_required_iff,
}
use proxy_node_assistant.Toolkit.Probe.{ToolkitProbe, absent, parse_toolkit_probe}
use proxy_node_assistant.Toolkit.Probe.Sound.{IsInstalled, parse_toolkit_probe-IsInstalled}
use proxy_node_assistant.Toolkit.Version.{compare_toolkit_versions}
use proxy_node_assistant.Toolkit.Version.Order.{Compares, compare_toolkit_versions-Compares}

compared : compare_toolkit_versions (codes "v0.9") (codes "0.9.1") ≡ ok lt
unfolding compare_toolkit_versions
compared = refl

compare_toolkit_versions-Compares_example : Compares (codes "v0.9") (codes "0.9.1") lt
compare_toolkit_versions-Compares_example =
    compare_toolkit_versions-Compares (codes "v0.9") (codes "0.9.1") compared

abbrev probe_answer : Text
probe_answer =
    codes
      "__PNA_TOOLKIT_PROBE_BEGIN__\nTOOLKIT_PRESENT=1\nTOOLKIT_VERSION=v1.0.0\nTOOLKIT_BUILD_ID=b1\nTOOLKIT_BUILD_REVISION=112\nTOOLKIT_COMPLETE=1\n__PNA_TOOLKIT_PROBE_END__\n"

abbrev probe : ToolkitProbe
probe = record {
  present = true;
  version = codes "1.0.0";
  build_id = codes "b1";
  build_revision = 112;
  complete = true;
}

probe_accepted : parse_toolkit_probe probe_answer ≡ ok probe
unfolding parse_toolkit_probe
probe_accepted = refl

parse_toolkit_probe-IsInstalled_example :
    (block : Text) × (extract_marker_block_current_or_legacy probe_answer
        (codes "__PNA_TOOLKIT_PROBE_BEGIN__")
        (codes "__PNA_TOOLKIT_PROBE_END__")
        (codes "__TNA_TOOLKIT_PROBE_BEGIN__")
        (codes "__TNA_TOOLKIT_PROBE_END__")
      ≡ ok block)
    × ((probe ≡ absent) × (get (codes "TOOLKIT_PRESENT") (parse_kv block) ≡ codes "0")
        ⊎ IsInstalled (parse_kv block) probe)
parse_toolkit_probe-IsInstalled_example =
    parse_toolkit_probe-IsInstalled probe_answer probe_accepted

same_version_toolkit_only_update_required_iff_example :
    (same_version_toolkit_only_update_required probe ≡ true) ↔ IsReplaceable probe
same_version_toolkit_only_update_required_iff_example =
    same_version_toolkit_only_update_required_iff probe

classified : classify_toolkit probe (codes "1.0.1") ≡ ok older
unfolding classify_toolkit compare_toolkit_versions
classified = refl

classify_toolkit-Related_example : Related probe (codes "1.0.1") older
classify_toolkit-Related_example = classify_toolkit-Related probe (codes "1.0.1") classified
