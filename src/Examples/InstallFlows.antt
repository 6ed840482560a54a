-- ===== src/Examples/InstallFlows.antt =====
-- The theorems on install_flow.go, at concrete inputs.
use proxy_node_assistant.InstallFlow.Detect.{
  IsValue, is_port_line, port_value, parse_existing_ss2022_port, parse_existing_ss2022_port_lem,
  port_lines,
}
use proxy_node_assistant.Prelude.{
  List, ◌++◌, ℕ, [], err, false, none, ok, refl, some, true, ◌↔◌, ◌∷◌, ◌≡◌,
}
use proxy_node_assistant.Text.{trim_prefix, Text, codes, lines_of}
use proxy_node_assistant.Console.{Input}
use proxy_node_assistant.InstallFlow.Accepted.{Separate, collect_install_plan_iff}
use proxy_node_assistant.InstallFlow.Collect.{
  Setting, answered_plan, closed, collect_install_plan, confirm_install_plan,
}
use proxy_node_assistant.InstallFlow.Collected.{IsAnswered}
use proxy_node_assistant.Plan.Identity.{MailParser}
use proxy_node_assistant.Plan.Types.{
  CredentialMode, InstallPlan, PerformanceMode, RouteMode, WarpMode, default_port_plan, no_identity,
}

-- An address parser that takes every text.
abbrev any_mail : MailParser
any_mail s = some s

abbrev fresh : Setting
fresh = record {
  existing = false;
  complete = false;
  detected = none;
  prune = true;
  open_panel = false;
}

-- A wrong answer to the first question, then one to each.
abbrev typed_answers : Input
typed_answers =
    codes "0"
    ∷ codes "1"
    ∷ codes "Node.example.com"
    ∷ codes "a@example.com"
    ∷ codes "07"
    ∷ codes "4"
    ∷ codes "0"
    ∷ []
    ∷ codes "custom"
    ∷ codes "a secret one"
    ∷ codes "a secret one"
    ∷ codes "1"
    ∷ []
    ∷ codes "yes"
    ∷ []

abbrev gray_answers : InstallPlan
gray_answers = record {
  preferences = record {
    route_mode = RouteMode.gray;
    cover_choice = codes "7";
    performance = PerformanceMode.high;
    warp_mode = WarpMode.preserve;
    backup_before_change = true;
    prune_after_success = true;
    open_panel_on_success = true;
  };
  ports = default_port_plan;
  gray = record { domain = codes "node.example.com"; email = codes "a@example.com" };
  orange = no_identity;
  credentials = record {
    vps_mode = CredentialMode.custom;
    vps_password = codes "a secret one";
    panel_mode = CredentialMode.random;
    panel_account = [];
    panel_password = [];
  };
}

answers_read : answered_plan any_mail fresh typed_answers ≡ ok (gray_answers, [])
unfolding answered_plan
answers_read = refl

confirm_test :
    (confirm_install_plan (codes "APPLY" ∷ []) ≡ ok []) × (confirm_install_plan [] ≡ err closed)
unfolding confirm_install_plan
confirm_test = (refl, refl)

collect_install_plan_iff_example :
    IsAnswered any_mail fresh gray_answers
    × ((collect_install_plan any_mail fresh typed_answers ≡ ok (gray_answers, []))
        ↔ Separate any_mail fresh gray_answers)
collect_install_plan_iff_example =
    collect_install_plan_iff any_mail fresh typed_answers answers_read

abbrev port_reply : Text
port_reply = codes "note\r\nTNA_EXISTING_SS2022_PORT= 8388 \n"

abbrev a_port : ℕ
a_port = 8388

port_read : parse_existing_ss2022_port port_reply ≡ ok a_port
unfolding parse_existing_ss2022_port trim_prefix
port_read = refl

parse_existing_ss2022_port_lem_example :
    (before : List Text) × (raw : Text) × (after : List Text) × (lines_of port_reply
      ≡ before ++ raw ∷ after)
    × (port_lines before ≡ 0)
    × (is_port_line raw ≡ true)
    × (port_lines after ≡ 0)
    × IsValue (port_value raw) a_port
parse_existing_ss2022_port_lem_example = parse_existing_ss2022_port_lem port_reply port_read
