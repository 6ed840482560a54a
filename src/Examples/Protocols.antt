-- ===== src/Examples/Protocols.antt =====
-- The theorems on the server's protocols, on short answers.
use proxy_node_assistant.Prelude.{Option, some, ◌≤◌, [], false, map, ok, refl, true, ◌∷◌, ◌≡◌}
use proxy_node_assistant.Protocol.Panel.{
  PanelMetadata, PathUrl, normalize_panel_path, panel_of, parse_panel_metadata,
}
use proxy_node_assistant.Protocol.Panel.Sound.{IsPanelPath, parse_panel_metadata-IsPanelPath}
use proxy_node_assistant.Text.{
  atoi, contains_any, get, has_prefix, has_suffix, Text, codes, find, join, lines_of, text_eq,
  trim_cr, trim_space,
}
use proxy_node_assistant.Protocol.Ansi.{strip_ansi}
use proxy_node_assistant.Protocol.Diagnostic.{DiagResult, parse_diagnostic_protocol}
use proxy_node_assistant.Protocol.Diagnostic.Laws.{Reports, parse_diagnostic_protocol-Reports}
use proxy_node_assistant.Protocol.KeyValue.{parse_kv}
use proxy_node_assistant.Protocol.KeyValue.Laws.{find-parse_kv, last_value}
use proxy_node_assistant.Protocol.Marker.{
  extract_marked_block, extract_marker_block_current_or_legacy,
}
use proxy_node_assistant.Protocol.Marker.Laws.{extract_marked_block_lem}
use proxy_node_assistant.Protocol.Readiness.{CredentialReadiness, parse_credential_readiness}
use proxy_node_assistant.Protocol.Readiness.Laws.{
  IsReadiness, parse_credential_readiness-IsReadiness,
}

abbrev banner : Text
banner = codes "hi\r\nB\r\nK=1\r\nE\nbye"

banner_lines :
    lines_of (strip_ansi banner)
    ≡ codes "hi" ∷ codes "B" ∷ codes "K=1" ∷ codes "E" ∷ codes "bye" ∷ []
unfolding lines_of strip_ansi
banner_lines = refl

extract_marked_block_lem_example :
    extract_marked_block banner (codes "B") (codes "E")
    ≡ ok (trim_space (join b'\n' (map trim_cr (codes "K=1" ∷ []))))
unfolding text_eq trim_space trim_cr join
extract_marked_block_lem_example =
    extract_marked_block_lem banner (codes "B") (codes "E") (codes "hi" ∷ []) (codes "K=1" ∷ [])
      (codes "bye" ∷ []) (codes "B") (codes "E") banner_lines refl refl refl ((refl, refl), tt)
      ((refl, refl), tt) refl

find-parse_kv_example :
    find (codes "A") (parse_kv (codes "A=1\nA=2"))
    ≡ last_value (codes "A") (lines_of (codes "A=1\nA=2"))
find-parse_kv_example = find-parse_kv (codes "A") (codes "A=1\nA=2")

abbrev readiness_answer : Text
readiness_answer =
    codes
      "__PNA_CREDENTIAL_READINESS_BEGIN__\nSOURCE=v1\nVPS_LOGIN_USER_PRESENT=1\nVPS_LOGIN_PASSWORD_PRESENT=1\nPANEL_USERNAME_PRESENT=0\nPANEL_PASSWORD_PRESENT=1\nCOMPLETE=0\n__PNA_CREDENTIAL_READINESS_END__\n"

abbrev readiness : CredentialReadiness
readiness = record {
  vps_user_present = true;
  vps_password_present = true;
  panel_user_present = false;
  panel_password_present = true;
  complete = false;
  source = codes "v1";
}

readiness_accepted : parse_credential_readiness readiness_answer ≡ ok readiness
unfolding parse_credential_readiness
readiness_accepted = refl

parse_credential_readiness-IsReadiness_example :
    (payload : Text) × (extract_marked_block readiness_answer
        (codes "__PNA_CREDENTIAL_READINESS_BEGIN__")
        (codes "__PNA_CREDENTIAL_READINESS_END__")
      ≡ ok payload)
    × IsReadiness (parse_kv payload) readiness
parse_credential_readiness-IsReadiness_example =
    parse_credential_readiness-IsReadiness readiness_answer readiness_accepted

abbrev diagnosis : Text
diagnosis =
    codes
      "__PNA_DIAG_V1_BEGIN__\nPASS\tOK1\tz\te\nISSUE\tBAD\tERROR\tfix\t0\tz\te\n__PNA_DIAG_V1_END__\n"

abbrev diagnosed : DiagResult
diagnosed = record {
  is_ok = false;
  passes =
      record {
        code = codes "OK1";
        severity = [];
        action = [];
        auto_repair = false;
        zh = codes "z";
        en = codes "e";
      }
      ∷ [];
  issues =
      record {
        code = codes "BAD";
        severity = codes "ERROR";
        action = codes "fix";
        auto_repair = false;
        zh = codes "z";
        en = codes "e";
      }
      ∷ [];
}

diagnosis_accepted : parse_diagnostic_protocol diagnosis ≡ ok diagnosed
unfolding parse_diagnostic_protocol
diagnosis_accepted = refl

parse_diagnostic_protocol-Reports_example :
    (block : Text) × (extract_marker_block_current_or_legacy diagnosis
        (codes "__PNA_DIAG_V1_BEGIN__")
        (codes "__PNA_DIAG_V1_END__")
        (codes "__TNA_DIAG_V1_BEGIN__")
        (codes "__TNA_DIAG_V1_END__")
      ≡ ok block)
    × Reports block diagnosed
parse_diagnostic_protocol-Reports_example =
    parse_diagnostic_protocol-Reports diagnosis diagnosis_accepted

abbrev panel_answer : Text
panel_answer =
    codes
      "__PNA_PANEL_META_BEGIN__\nPANEL_PORT=2053\nWEB_BASE_PATH=p1\nPANEL_METADATA_SOURCE=db\n__PNA_PANEL_META_END__\n"

abbrev bare_url : Text → Option PathUrl
bare_url t = some (record { is_abs = false; raw_query = []; fragment = [] })

abbrev panel : PanelMetadata
panel = record { port = 2053; path = codes "/p1/"; source = codes "db" }

panel_accepted : parse_panel_metadata bare_url panel_answer ≡ ok panel
unfolding parse_panel_metadata panel_of normalize_panel_path extract_marker_block_current_or_legacy
    parse_kv get atoi trim_space contains_any has_prefix has_suffix text_eq
panel_accepted = refl

parse_panel_metadata-IsPanelPath_example :
    (1 ≤ panel.port) × (panel.port ≤ 65535) × IsPanelPath bare_url panel.path
parse_panel_metadata-IsPanelPath_example =
    parse_panel_metadata-IsPanelPath bare_url panel_answer panel_accepted
