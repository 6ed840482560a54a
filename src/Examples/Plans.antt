-- ===== src/Examples/Plans.antt =====
-- The theorems on installation plans.
use proxy_node_assistant.Plan.Identity.{MailParser}
use proxy_node_assistant.Plan.Review.{mask_email, review_lines}
use proxy_node_assistant.Plan.Review.Secrets.{review_lines_hides, with_emails, with_secrets}
use proxy_node_assistant.Plan.Types.{
  CredentialMode, InstallPlan, default_install_preferences, default_port_plan,
}
use proxy_node_assistant.Plan.Validate.{valid, validate_for}
use proxy_node_assistant.Plan.Validate.Sound.{
  CredentialRules, PortRules, PreferenceRules, RouteRules, validate_for_iff,
}
use proxy_node_assistant.Prelude.{[], false, refl, some, ◌↔◌, ◌≡◌}
use proxy_node_assistant.Text.{codes}

abbrev plan : InstallPlan
plan = record {
  preferences = default_install_preferences;
  ports = default_port_plan;
  gray = record { domain = codes "a.example.com"; email = codes "x@y.zz" };
  orange = record { domain = []; email = [] };
  credentials = record {
    vps_mode = CredentialMode.custom;
    vps_password = codes "secret secret";
    panel_mode = CredentialMode.random;
    panel_account = [];
    panel_password = [];
  };
}

abbrev parser : MailParser
parser = λ t. some t

validate_for_iff_example : (validate_for parser plan false ≡ valid) ↔ (
    PreferenceRules plan.preferences false
    × CredentialRules plan.credentials false
    × PortRules plan.ports
    × RouteRules parser plan false)
validate_for_iff_example = validate_for_iff parser plan false

review_lines_hides_example :
    review_lines
      (with_emails (with_secrets plan (codes "other") (codes "third")) (codes "xa@y.zz") [])
    ≡ review_lines plan
unfolding mask_email
review_lines_hides_example =
    review_lines_hides plan (codes "other") (codes "third") (codes "xa@y.zz") [] refl refl
