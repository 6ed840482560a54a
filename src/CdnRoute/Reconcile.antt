-- ===== src/CdnRoute/Reconcile.antt =====
-- cdn_reset.go: prepareCDNPrerequisites and reconcileCDNRoute.
pub mod Failure
pub mod Rollback
pub mod Success
pub mod Unstaged
pub mod Validation
use proxy_node_assistant.CdnRoute.Checks.{
  EdgeError, LinkError, Response, Url, first_vless_link, validate_cdn_edge_response,
  validate_cdn_share_link,
}
use proxy_node_assistant.CdnRoute.Command.{
  ActionError, AddressParser, PathError, build_cdn_route_input_copy_command, cdn_route_action,
  random_cdn_route_input_path, route_mode_text, script,
}
use proxy_node_assistant.Effects.{Exec, ProcessResult, lift, perform, pure, raise, succeeded, ◌>>=◌}
use proxy_node_assistant.Plan.Identity.{MailParser}
use proxy_node_assistant.Plan.Types.{InstallPlan, RouteMode}
use proxy_node_assistant.Plan.Validate.{PlanError, is_gray, is_keep, validate_for}
use proxy_node_assistant.Prelude.{
  Bool, List, Option, Result, [], any, err, false, if◌then◌else◌, none, not, ok, some, true, wrap,
  ℕ, ◌&&◌, ◌++◌, ◌||◌, ◌∷◌,
}
use proxy_node_assistant.Text.{Text, codes, contains, text_eq, trim_space}
use proxy_node_assistant.Transaction.{sh_quote}

-- What the handler does outside: the hooks `cdnRootCapture`, `cdnRemotePublicIP`, `cdnLookupIP`,
-- `cdnHTTPDo`, `cdnDial`, `cdnRequestClientProof`, and `rand.Read`.
pub data RouteEvent : Type 0 where
  root_command : Text → RouteEvent
  remote_public_ip : RouteEvent
  random_bytes : RouteEvent
  lookup_ip http_get dial client_proof : Text → RouteEvent

pub data RouteError : Type 0 where
  action_refused : ActionError → RouteError
  invalid_plan : PlanError → RouteError
  no_public_ip no_public_ipv4 : RouteError
  unresolved exposed : Text → RouteError
  path_refused : PathError → RouteError
  gray_failed input_failed stage_failed export_failed : ProcessResult → RouteError
  confirm_failed finalize_failed : ProcessResult → RouteError
  edge_unreachable : RouteError
  edge_refused : EdgeError → RouteError
  origin_reachable : RouteError
  link_refused : LinkError → RouteError
  proof_refused : RouteError
  and_rollback_failed : RouteError → ProcessResult → RouteError

-- What the hooks answer after a log. An address is `none` if it is no IPv4 address; `dialed` is true
-- if the connection was made and `proved` is true if the operator confirmed.
pub record World : Type 0 where
  pub remote : List RouteEvent → ProcessResult
  pub public_ip : List RouteEvent → Option Text
  pub random : List RouteEvent → Option (List ℕ)
  pub addresses : List RouteEvent → Option (List (Option Text))
  pub response : List RouteEvent → Option (Option Response)
  pub dialed : List RouteEvent → Bool
  pub proved : List RouteEvent → Bool

-- The library functions of the handler: net/mail, net and net/url.
pub record Parsers : Type 0 where
  pub parse_address : MailParser
  pub parse_ipv4 : AddressParser
  pub parse_url : Text → Option Url

abbrev pub RouteHandler : Type 0 → Type 0
RouteHandler A = Exec RouteEvent RouteError A

-- Do `event` and judge the answer.
unfoldable pub judged :
    {A B : Type 0} → RouteEvent → (List RouteEvent → A) → (A → Result RouteError B) → RouteHandler B
judged event answer check log = let log' = log ++ event ∷ [] in (check (answer log'), log')

abbrev pub require : Bool → RouteError → Result RouteError (Unit {0})
require b e = if b then ok tt else err e

-- `result.OK() && strings.Contains(result.Stdout, a) && strings.Contains(result.Stdout, b)`
unfoldable pub reports : Text → Text → ProcessResult → Bool
reports a b r = succeeded r && contains a r.stdout && contains b r.stdout

-- `cdnProcessHasMarker`
unfoldable pub cdn_process_has_marker : Text → ProcessResult → Bool
cdn_process_has_marker marker r = contains marker r.stdout || contains marker r.stderr

abbrev pub rolled_back_marker : Text
rolled_back_marker = codes "TNA_TOPOLOGY_ROLLED_BACK=1"

abbrev pub pending_rollback_event : RouteEvent
pending_rollback_event = root_command (script (codes "28-topology-reconcile.sh --rollback-pending"))

abbrev pub remove_event : Text → RouteEvent
remove_event input = root_command (codes "rm -f -- " ++ sh_quote input)

abbrev pub stage_event : Text → RouteEvent
stage_event input =
    root_command (script (codes "28-topology-reconcile.sh --apply-input " ++ sh_quote input))

abbrev pub export_event : Text → RouteEvent
export_event domain =
    root_command (script (codes "04f-xhttp-cdn-api.sh link " ++ sh_quote domain ++ codes " 8443"))

abbrev pub confirm_event : Text → RouteEvent
confirm_event domain =
    root_command (script (codes "05g-cdn-xhttp-validate.sh --confirm-client " ++ sh_quote domain))

abbrev pub finalize_event : RouteEvent
finalize_event = root_command (script (codes "28-topology-reconcile.sh --finalize"))

abbrev pub edge_url : Text → Text
edge_url domain = codes "https://" ++ domain ++ codes ":8443/"

unfoldable pub resolved : Text → Text → Option (List (Option Text)) → Result RouteError (Unit {0})
resolved domain origin none = err (unresolved domain)
resolved domain origin (some []) = err (unresolved domain)
resolved domain origin (some (a ∷ others)) =
    require (not (any (is_origin origin) (a ∷ others))) (exposed domain)
  where
    is_origin : Text → Option Text → Bool
    is_origin origin none = false
    is_origin origin (some address) = text_eq address origin

unfoldable pub edge_answer : Text → Option (Option Response) → Result RouteError (Unit {0})
edge_answer domain none = err edge_unreachable
edge_answer domain (some response) = wrap edge_refused (validate_cdn_edge_response response domain)

abbrev pub with_link : Text → Result LinkError (Unit {0}) → Result RouteError Text
with_link link (ok u) = ok link
with_link link (err e) = err (link_refused e)

unfoldable pub exported : (Text → Option Url) → Text → ProcessResult → Result RouteError Text
exported parse_url domain r =
    if not (succeeded r)
    then err (export_failed r)
    else let link = first_vless_link r.stdout in
      with_link link (validate_cdn_share_link parse_url link domain)

unfoldable pub staged : ProcessResult → Bool
staged r = reports (codes "TNA_TOPOLOGY_STAGED=1") (codes "CDN_EDGE_PORT=8443") r

unfoldable pub finalized : RouteMode → ProcessResult → Bool
finalized mode r =
    reports (codes "TNA_TOPOLOGY_RECONCILED=1") (codes "TOPOLOGY_MODE=" ++ route_mode_text mode) r

unfoldable pub confirmed : ProcessResult → Bool
confirmed r = succeeded r && contains (codes "CDN_CLIENT_CONFIRMED=1") r.stdout

unfoldable pub ip_answer : Option Text → Result RouteError Text
ip_answer none = err no_public_ip
ip_answer (some ip) = ok ip

unfoldable pub origin_of : AddressParser → Text → Result RouteError Text
unfolding trim_space
origin_of parse_ipv4 public_ip = origin (parse_ipv4 (trim_space public_ip))
  where
    origin : Option Text → Result RouteError Text
    origin none = err no_public_ipv4
    origin (some address) = ok address

module _ (world : World) (parsers : Parsers) where
  unfoldable pub prepare_cdn_prerequisites : InstallPlan → Text → RouteHandler (Unit {0})
  unfolding pure lift ◌>>=◌
  prepare_cdn_prerequisites plan public_ip =
      if is_keep plan.preferences.route_mode || is_gray plan.preferences.route_mode
      then pure tt
      else lift (wrap invalid_plan (validate_for parsers.parse_address plan true)) >>= λ _.
          lift (origin_of parsers.parse_ipv4 public_ip) >>= λ origin.
          judged (lookup_ip plan.orange.domain) world.addresses (resolved plan.orange.domain origin)

  -- The closure `rollback`, once the route was staged.
  unfoldable pub rollback : RouteError → RouteHandler (Unit {0})
  rollback cause = judged pending_rollback_event world.remote λ r. err (
      if not (succeeded r) || not (cdn_process_has_marker rolled_back_marker r)
      then and_rollback_failed cause r
      else cause)

  abbrev pub settle : Result RouteError (Unit {0}) → RouteHandler (Unit {0})
  settle (ok u) end = (ok u, end)
  settle (err cause) end = rollback cause end

  unfoldable pub or_rollback : RouteHandler (Unit {0}) → RouteHandler (Unit {0})
  or_rollback m log = settle (m log).0 (m log).1

  unfoldable pub finalize : RouteMode → RouteHandler (Unit {0})
  finalize mode =
      judged finalize_event world.remote λ r. require (finalized mode r) (finalize_failed r)

  unfoldable pub confirm_client : Text → RouteMode → RouteHandler (Unit {0})
  unfolding ◌>>=◌
  confirm_client domain mode =
      judged (confirm_event domain) world.remote (λ r. require (confirmed r) (confirm_failed r))
      >>= λ _. finalize mode

  unfoldable pub prove_link : Text → RouteMode → Text → RouteHandler (Unit {0})
  unfolding ◌>>=◌
  prove_link domain mode link =
      judged (client_proof link) world.proved (λ yes. require yes proof_refused) >>= λ _.
      confirm_client domain mode

  unfoldable pub export_link : Text → RouteMode → RouteHandler (Unit {0})
  unfolding ◌>>=◌
  export_link domain mode =
      judged (export_event domain) world.remote (exported parsers.parse_url domain)
      >>= prove_link domain mode

  unfoldable pub check_origin : Text → Text → RouteMode → RouteHandler (Unit {0})
  unfolding ◌>>=◌
  check_origin domain public_ip mode =
      judged (dial public_ip) world.dialed (λ open_. require (not open_) origin_reachable) >>= λ _.
      export_link domain mode

  -- Everything between staging and the end, each error of which is rolled back.
  unfoldable pub validate_and_finalize : Text → Text → RouteMode → RouteHandler (Unit {0})
  unfolding ◌>>=◌
  validate_and_finalize domain public_ip mode =
      judged (http_get (edge_url domain)) world.response (edge_answer domain) >>= λ _.
      check_origin domain public_ip mode

  unfoldable pub stage : Text → Text → RouteMode → Text → RouteHandler (Unit {0})
  unfolding perform raise ◌>>=◌
  stage domain public_ip mode input = perform (stage_event input) world.remote >>= λ r.
      if staged r
      then or_rollback (validate_and_finalize domain public_ip mode)
      else if cdn_process_has_marker rolled_back_marker r
      then raise (stage_failed r)
      else rollback (stage_failed r)

  -- `defer`: whatever `m` returns, `event` is done last.
  unfoldable pub then_always : RouteEvent → RouteHandler (Unit {0}) → RouteHandler (Unit {0})
  then_always event m log = ((m log).0, (m log).1 ++ event ∷ [])

  unfoldable pub copy_and_stage : Text → Text → RouteMode → Text → Text → RouteHandler (Unit {0})
  unfolding ◌>>=◌
  copy_and_stage domain public_ip mode input command =
      judged (root_command command) world.remote (λ r. require (succeeded r) (input_failed r))
      >>= λ _. then_always (remove_event input) (stage domain public_ip mode input)

  unfoldable pub change_route : InstallPlan → Text → Text → RouteHandler (Unit {0})
  unfolding lift ◌>>=◌
  change_route plan source public_ip =
      let mode = plan.preferences.route_mode in
      prepare_cdn_prerequisites plan public_ip >>= λ _.
      judged random_bytes world.random (λ raw. wrap path_refused (random_cdn_route_input_path raw))
      >>= λ input.
          lift (
            wrap path_refused
              (build_cdn_route_input_copy_command parsers.parse_ipv4 source input mode public_ip))
          >>= copy_and_stage plan.orange.domain public_ip mode input

  unfoldable pub reconcile_by : RouteMode → InstallPlan → Text → Text → RouteHandler (Unit {0})
  unfolding pure lift ◌>>=◌
  reconcile_by RouteMode.keep plan source action = pure tt
  reconcile_by RouteMode.gray plan source action =
      lift (wrap invalid_plan (validate_for parsers.parse_address plan true)) >>= λ _.
      judged (root_command action) world.remote λ r.
        require (reports (codes "TNA_TOPOLOGY_RECONCILED=1") (codes "TOPOLOGY_MODE=gray") r)
          (gray_failed r)
  reconcile_by mode plan source action =
      lift (wrap invalid_plan (validate_for parsers.parse_address plan true)) >>= λ _.
      judged remote_public_ip world.public_ip ip_answer >>= change_route plan source

  unfoldable pub reconcile_cdn_route : InstallPlan → Text → RouteHandler (Unit {0})
  unfolding lift ◌>>=◌
  reconcile_cdn_route plan source =
      lift (wrap action_refused (cdn_route_action plan.preferences.route_mode plan.gray.domain))
      >>= reconcile_by plan.preferences.route_mode plan source
