-- ===== src/Examples/Route.antt =====
-- The theorems on the change of the CDN route, on a server that accepts it and on one that fails.
use proxy_node_assistant.CdnRoute.Reconcile.Failure.{
  IsSafeFailure, reconcile_cdn_route-IsSafeFailure,
}
use proxy_node_assistant.CdnRoute.Reconcile.Unstaged.{IsUnstaged, reconcile_cdn_route-IsUnstaged}
use proxy_node_assistant.CdnRoute.Checks.{
  first_vless_link, validate_cdn_share_link, validate_cdn_edge_response,
}
use proxy_node_assistant.CdnRoute.Command.{
  build_cdn_route_input_copy_command, cdn_route_action, random_cdn_route_input_path,
  route_mode_text,
}
use proxy_node_assistant.CdnRoute.Reconcile.{
  change_route, confirm_client, confirmed, export_link, exported, finalize, finalized, ip_answer,
  origin_of, prepare_cdn_prerequisites, prove_link, reconcile_by, resolved, cdn_process_has_marker,
  check_origin, edge_answer, judged, or_rollback, reports, rollback, stage, staged, then_always,
  validate_and_finalize, RouteError, RouteEvent, copy_and_stage, origin_reachable,
  reconcile_cdn_route, remove_event, root_command, Parsers, World,
}
use proxy_node_assistant.Text.{
  contains_any, equal_fold, has_prefix, has_suffix, trim_space, contains, Text, codes, pos, text_eq,
}
use proxy_node_assistant.Effects.{succeeded, ProcessResult}
use proxy_node_assistant.CdnRoute.Reconcile.Rollback.{IsSettled, copy_and_stage-IsSettled}
use proxy_node_assistant.CdnRoute.Reconcile.Success.{IsReconciled, reconcile_cdn_route-IsReconciled}
use proxy_node_assistant.Prelude.{
  List, Result, err, ◌++◌, ◌⊎◌, [], false, if◌then◌else◌, ok, refl, some, true, ◌∷◌, ◌≡◌,
}
use proxy_node_assistant.Plan.Identity.{valid_domain, valid_email}
use proxy_node_assistant.Plan.Types.{
  valid_credential_mode, valid_performance_mode, valid_route_mode, valid_warp_mode, CredentialMode,
  InstallPlan, RouteMode, default_install_preferences, default_port_plan,
}
use proxy_node_assistant.Plan.Validate.{valid_cover_choice, validate_for}

abbrev domain : Text
domain = codes "a.example.com"

abbrev orange_plan : InstallPlan
orange_plan = record {
  preferences = record default_install_preferences { route_mode = RouteMode.orange };
  ports = default_port_plan;
  gray = record { domain = []; email = [] };
  orange = record { domain = domain; email = codes "x@y.zz" };
  credentials = record {
    vps_mode = CredentialMode.preserve;
    vps_password = [];
    panel_mode = CredentialMode.preserve;
    panel_account = [];
    panel_password = [];
  };
}

abbrev reply : ProcessResult
reply = record {
  stdout =
      codes
        "TNA_TOPOLOGY_STAGED=1\nCDN_EDGE_PORT=8443\nvless://u\nCDN_CLIENT_CONFIRMED=1\nTNA_TOPOLOGY_RECONCILED=1\nTOPOLOGY_MODE=orange\n";
  stderr = [];
  exit_code = pos 0;
  failed = false;
}

abbrev header_of : Text → Text
unfolding text_eq
header_of name =
    if text_eq name (codes "Cf-Ray")
    then codes "r"
    else if text_eq name (codes "X-TNA-Origin-Port")
    then codes "8443"
    else codes "cdn-xhttp-v095"

abbrev query_of : Text → Text
unfolding text_eq
query_of key =
    if text_eq key (codes "type")
    then codes "xhttp"
    else if text_eq key (codes "security")
    then codes "tls"
    else if text_eq key (codes "path")
    then codes "/p"
    else []

abbrev working : World
working = record {
  remote = λ log. reply;
  public_ip = λ log. some (codes "1.2.3.4");
  random = λ log. some (7 ∷ []);
  addresses = λ log. some (some (codes "5.6.7.8") ∷ []);
  response = λ log. some (
      some (record {
        status_code = 200;
        request_url = some (domain, codes "8443");
        header = header_of;
      }));
  dialed = λ log. false;
  proved = λ log. true;
}

abbrev parsers : Parsers
parsers = record {
  parse_address = λ t. some t;
  parse_ipv4 = λ t. some t;
  parse_url = λ t. some (record {
    scheme = codes "vless";
    hostname = domain;
    port = codes "8443";
    user = some (codes "u");
    query = query_of;
  });
}

abbrev source : Text
source = codes "/tmp/proxy-node-assistant-auto-input-00"

plan_accepted : validate_for parsers.parse_address orange_plan true ≡ ok tt
unfolding validate_for valid_route_mode valid_cover_choice valid_performance_mode valid_warp_mode
    valid_credential_mode valid_domain valid_email
plan_accepted = refl

abbrev route_run : Result RouteError (Unit {0}) × List RouteEvent
route_run = reconcile_cdn_route working parsers orange_plan source []

reconciled : route_run.0 ≡ ok tt
unfolding reconcile_cdn_route cdn_route_action reconcile_by validate_for valid_route_mode
    valid_cover_choice valid_performance_mode valid_warp_mode valid_credential_mode valid_domain
    valid_email judged ip_answer change_route prepare_cdn_prerequisites origin_of resolved
    random_cdn_route_input_path build_cdn_route_input_copy_command copy_and_stage then_always stage
    staged reports or_rollback validate_and_finalize edge_answer validate_cdn_edge_response
    check_origin export_link exported first_vless_link validate_cdn_share_link prove_link
    confirm_client confirmed finalize finalized succeeded contains has_prefix has_suffix
    contains_any equal_fold trim_space text_eq route_mode_text
reconciled = refl

reconcile_cdn_route-IsReconciled_example :
    IsReconciled working parsers orange_plan source route_run.1
reconcile_cdn_route-IsReconciled_example =
    reconcile_cdn_route-IsReconciled working parsers orange_plan source refl
      (λ i. (reconciled i, route_run.1))

-- A server whose origin is reachable directly: the route is staged and rolled back.
abbrev rolled_back_reply : ProcessResult
rolled_back_reply = record reply {
  stdout = codes "TNA_TOPOLOGY_STAGED=1\nCDN_EDGE_PORT=8443\nTNA_TOPOLOGY_ROLLED_BACK=1\n";
}

abbrev reachable : World
reachable = record working { remote = λ log. rolled_back_reply; dialed = λ log. true }

abbrev staged_run : Result RouteError (Unit {0}) × List RouteEvent
staged_run =
    copy_and_stage reachable parsers domain (codes "1.2.3.4") RouteMode.orange (codes "i")
      (codes "c") []

reached : staged_run.0 ≡ err origin_reachable
unfolding judged copy_and_stage then_always stage staged reports or_rollback rollback
    cdn_process_has_marker validate_and_finalize edge_answer validate_cdn_edge_response check_origin
    succeeded contains has_prefix equal_fold trim_space text_eq
reached = refl

copy_and_stage-IsSettled_example :
    ((staged_run.1 ≡ root_command (codes "c") ∷ [])
      × (succeeded (reachable.remote staged_run.1) ≡ false))
    ⊎ ((succeeded (reachable.remote (root_command (codes "c") ∷ [])) ≡ true)
        × (mid : List RouteEvent) × (staged_run.1 ≡ mid ++ remove_event (codes "i") ∷ [])
        × IsSettled reachable (root_command (codes "c") ∷ []) (codes "i") origin_reachable mid)
copy_and_stage-IsSettled_example =
    copy_and_stage-IsSettled reachable parsers domain (codes "1.2.3.4") RouteMode.orange (codes "i")
      (codes "c") [] (λ i. (reached i, staged_run.1))

-- The gray route on a server whose reply does not prove the change.
abbrev gray_plan : InstallPlan
gray_plan = record orange_plan {
  preferences = default_install_preferences;
  gray = record { domain = domain; email = codes "x@y.zz" };
}

reconcile_cdn_route-IsUnstaged_example :
    IsUnstaged working parsers gray_plan []
      (reconcile_cdn_route working parsers gray_plan source [])
reconcile_cdn_route-IsUnstaged_example =
    reconcile_cdn_route-IsUnstaged working parsers gray_plan source [] refl

abbrev failed_run : Result RouteError (Unit {0}) × List RouteEvent
failed_run = reconcile_cdn_route reachable parsers orange_plan source []

route_failed : failed_run.0 ≡ err origin_reachable
unfolding reconcile_cdn_route cdn_route_action reconcile_by validate_for valid_route_mode
    valid_cover_choice valid_performance_mode valid_warp_mode valid_credential_mode valid_domain
    valid_email judged ip_answer change_route prepare_cdn_prerequisites origin_of resolved
    random_cdn_route_input_path build_cdn_route_input_copy_command copy_and_stage then_always stage
    staged reports or_rollback validate_and_finalize edge_answer validate_cdn_edge_response
    check_origin export_link exported first_vless_link validate_cdn_share_link prove_link
    confirm_client confirmed finalize finalized succeeded contains has_prefix has_suffix
    contains_any equal_fold trim_space text_eq route_mode_text rollback cdn_process_has_marker
route_failed = refl

reconcile_cdn_route-IsSafeFailure_example :
    IsSafeFailure reachable parsers orange_plan source origin_reachable failed_run.1
reconcile_cdn_route-IsSafeFailure_example =
    reconcile_cdn_route-IsSafeFailure reachable parsers orange_plan source refl
      (λ i. (route_failed i, failed_run.1))
