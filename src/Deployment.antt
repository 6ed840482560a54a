-- ===== src/Deployment.antt =====
-- deployment.go: the deployment modes and the states of the route switch.
pub mod Reach
use proxy_node_assistant.Prelude.{
  ℕ, ◌==◌, Bool, List, Option, [], any, false, if◌then◌else◌, none, some, true, ◌∷◌,
}
use proxy_node_assistant.Text.{Text, codes, text_eq, trim_space}

pub data DeploymentMode : Type 0 where
  direct_reality cdn_xhttp_tls dual_hot_switch : DeploymentMode

pub data DeploymentState : Type 0 where
  active_direct active_cdn cdn_staged_8443 : DeploymentState
  waiting_for_cloudflare_manual_action : DeploymentState
  dual_installed_active_direct dual_installed_active_cdn : DeploymentState
  switch_to_cdn_staged_8443 switch_to_cdn_port_443_committing : DeploymentState
  switch_to_direct_staged_24443 switch_to_direct_port_443_committing : DeploymentState

-- A number for each state; the program compares their wire names, which differ.
abbrev pub number_of : DeploymentState → ℕ
number_of active_direct = 0
number_of active_cdn = 1
number_of cdn_staged_8443 = 2
number_of waiting_for_cloudflare_manual_action = 3
number_of dual_installed_active_direct = 4
number_of dual_installed_active_cdn = 5
number_of switch_to_cdn_staged_8443 = 6
number_of switch_to_cdn_port_443_committing = 7
number_of switch_to_direct_staged_24443 = 8
number_of switch_to_direct_port_443_committing = 9

abbrev pub mode_text : DeploymentMode → Text
mode_text direct_reality = codes "direct-reality"
mode_text cdn_xhttp_tls = codes "cdn-xhttp-tls"
mode_text dual_hot_switch = codes "dual-hot-switch"

-- `none` is the error for an unsupported mode.
unfoldable pub parse_deployment_mode : Text → Option DeploymentMode
unfolding trim_space text_eq
parse_deployment_mode value =
    let mode = trim_space value in
    if text_eq mode (mode_text direct_reality)
    then some direct_reality
    else if text_eq mode (mode_text cdn_xhttp_tls)
    then some cdn_xhttp_tls
    else if text_eq mode (mode_text dual_hot_switch)
    then some dual_hot_switch
    else none

unfoldable pub deployment_needs_cloudflare_proxy : DeploymentMode → Bool
deployment_needs_cloudflare_proxy cdn_xhttp_tls = true
deployment_needs_cloudflare_proxy dual_hot_switch = true
deployment_needs_cloudflare_proxy direct_reality = false

-- The rows of the map `allowed`: the states that a state may go to.
abbrev pub allowed : DeploymentState → List DeploymentState
allowed active_direct = cdn_staged_8443 ∷ dual_installed_active_direct ∷ []
allowed cdn_staged_8443 = waiting_for_cloudflare_manual_action ∷ active_direct ∷ []
allowed waiting_for_cloudflare_manual_action =
    active_direct ∷ switch_to_cdn_staged_8443 ∷ switch_to_direct_staged_24443
    ∷ dual_installed_active_direct ∷ dual_installed_active_cdn ∷ []
allowed dual_installed_active_direct = active_direct ∷ switch_to_cdn_staged_8443 ∷ []
allowed switch_to_cdn_staged_8443 =
    waiting_for_cloudflare_manual_action ∷ dual_installed_active_direct
    ∷ switch_to_cdn_port_443_committing ∷ []
allowed switch_to_cdn_port_443_committing =
    dual_installed_active_cdn ∷ dual_installed_active_direct ∷ []
allowed active_cdn = switch_to_direct_staged_24443 ∷ dual_installed_active_cdn ∷ []
allowed dual_installed_active_cdn = switch_to_direct_staged_24443 ∷ []
allowed switch_to_direct_staged_24443 =
    waiting_for_cloudflare_manual_action ∷ dual_installed_active_cdn
    ∷ switch_to_direct_port_443_committing ∷ []
allowed switch_to_direct_port_443_committing =
    dual_installed_active_direct ∷ dual_installed_active_cdn ∷ []

abbrev pub same_state : DeploymentState → DeploymentState → Bool
same_state a b = number_of a == number_of b

unfoldable pub can_transition_deployment_state : DeploymentState → DeploymentState → Bool
can_transition_deployment_state from to =
    if same_state from to then true else any (same_state to) (allowed from)
