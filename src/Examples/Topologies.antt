-- ===== src/Examples/Topologies.antt =====
-- The theorems on topology.go and on parseKV's written lines, at concrete inputs.
use proxy_node_assistant.Topology.Stored.{IsSpaceless, load_existing_topology_plan-body, reply_with}
use proxy_node_assistant.Console.{Input, prompt}
use proxy_node_assistant.Plan.Identity.{MailParser}
use proxy_node_assistant.Prelude.{[], any, false, if◌then◌else◌, none, ok, refl, some, ◌∷◌, ◌≡◌}
use proxy_node_assistant.Text.{Fields, Text, codes, is_space, terminated}
use proxy_node_assistant.Topology.{
  TopologyPlan, ask_labeled_domain_email, gray, load_existing_topology_plan, topology_plan_body,
}
use proxy_node_assistant.Topology.Choose.{choose_loop, choose_round, choose_topology_plan}
use proxy_node_assistant.Topology.Choose.Laws.{IsChosen, choose_topology_plan-IsChosen}
use proxy_node_assistant.Topology.Server.{reconcile_topology_plan}
use proxy_node_assistant.Topology.Server.Safety.{ReconcileRun, reconcile_topology_plan-ReconcileRun}

-- An address parser that takes every text without a space.
abbrev plain_mail : MailParser
plain_mail s = if any is_space s then none else some s

abbrev gray_only : TopologyPlan
gray_only = record {
  mode = gray;
  gray_domain = codes "node.example.com";
  gray_email = codes "a@example.com";
  orange_domain = [];
  orange_email = [];
}

abbrev gray_body : Text
gray_body = terminated (
    codes "TOPOLOGY_STATE_VERSION=1"
    ∷ codes "TOPOLOGY_MODE=gray"
    ∷ codes "GRAY_DOMAIN=node.example.com"
    ∷ codes "GRAY_EMAIL=a@example.com"
    ∷ codes "ORANGE_DOMAIN="
    ∷ codes "ORANGE_EMAIL="
    ∷ [])

gray_body_lem : topology_plan_body plain_mail gray_only ≡ ok gray_body
unfolding topology_plan_body is_space
gray_body_lem = refl

gray_only-IsSpaceless : IsSpaceless gray_only
unfolding is_space
gray_only-IsSpaceless = record {
  gray_email = refl;
  orange_email = refl;
  skipped_gray = λ h. refl;
  skipped_orange = λ h. refl;
}

load_existing_topology_plan-body_example :
    load_existing_topology_plan plain_mail (reply_with gray_body) [] ≡ ok (gray_only, [])
load_existing_topology_plan-body_example =
    load_existing_topology_plan-body plain_mail gray_only gray_only-IsSpaceless gray_body_lem []

abbrev answers : Input
answers =
    codes "9" ∷ codes "1" ∷ codes "node" ∷ codes " Node.example.com " ∷ codes "a@example.com" ∷ []

choose_topology_plan-IsChosen_example :
    IsChosen plain_mail false
      (reply_with [])
      (choose_topology_plan plain_mail false (reply_with []) answers)
choose_topology_plan-IsChosen_example =
    choose_topology_plan-IsChosen plain_mail false (reply_with []) answers

choose_test : choose_topology_plan plain_mail false (reply_with []) answers ≡ ok (gray_only, [])
unfolding choose_topology_plan choose_loop choose_round prompt ask_labeled_domain_email is_space
choose_test = refl

reconcile_topology_plan-ReconcileRun_example :
    ReconcileRun plain_mail
      (λ log. reply_with gray_body)
      gray_only
      []
      (reconcile_topology_plan plain_mail (λ log. reply_with gray_body) gray_only [])
reconcile_topology_plan-ReconcileRun_example =
    reconcile_topology_plan-ReconcileRun plain_mail (λ log. reply_with gray_body) gray_only []

abbrev two_fields : Fields
two_fields = (codes "A", codes "1") ∷ (codes "A", codes "2") ∷ []
