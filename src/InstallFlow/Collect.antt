-- ===== src/InstallFlow/Collect.antt =====
-- install_flow.go: collectInstallPlan and confirmInstallPlan.
use proxy_node_assistant.Plan.Validate.{Checked, is_dual, is_gray, is_keep, is_orange, validate_for}
use proxy_node_assistant.Protocol.Readiness.{checked}
use proxy_node_assistant.Console.{Input, prompt, yes_answer}
use proxy_node_assistant.InstallFlow.{
  Asked, ask_route_identity, choose_until, cover_answer, performance_answer, plan_refused,
  port_answer, route_answer, warp_answer,
}
use proxy_node_assistant.InstallFlow.Credentials.{choose_credential_plan}
use proxy_node_assistant.Plan.Identity.{MailParser}
use proxy_node_assistant.Plan.Types.{
  CredentialPlan, InstallPlan, PerformanceMode, RouteIdentity, RouteMode, WarpMode,
  default_port_plan, no_identity,
}
use proxy_node_assistant.Prelude.{
  Bool, Option, Result, [], err, if◌then◌else◌, none, not, ok, some, true, wrap, ℕ, ◌||◌, ◌>>=◌,
}
use proxy_node_assistant.Text.{Text, codes, text_eq}

-- What collectInstallPlan is called with: whether there is a node, whether its credentials are
-- complete, the SS2022 port found on it, and the operator's saved preferences.
pub record Setting : Type 0 where
  pub existing : Bool
  pub complete : Bool
  pub detected : Option ℕ
  pub prune : Bool
  pub open_panel : Bool

-- The route, the two identities and the cover template.
pub record Routes : Type 0 where
  pub mode : RouteMode
  pub gray : RouteIdentity
  pub orange : RouteIdentity
  pub cover : Text

abbrev rest_of : Option (Text × Input) → Input
rest_of none = []
rest_of (some (typed, input)) = input

abbrev pub validated : Checked → InstallPlan → Input → Asked InstallPlan
validated checked plan rest = wrap plan_refused checked >>= λ valid_plan. ok (plan, rest)

module _ (mail : MailParser) (s : Setting) where
  unfoldable pub identity_if : Bool → Input → Asked RouteIdentity
  unfolding ask_route_identity
  identity_if used input = if used then ask_route_identity mail input else ok (no_identity, input)

  -- The questions of a run that changes the routes.
  unfoldable pub new_routes : RouteMode → Input → Asked Routes
  unfolding identity_if choose_until cover_answer
  new_routes mode input = identity_if (is_gray mode || is_dual mode) input >>= λ (gray, input1).
      identity_if (is_orange mode || is_dual mode) input1 >>= λ (orange, input2).
      choose_until (cover_answer s.existing) input2 >>= λ (cover, input3).
      ok (record { mode = mode; gray = gray; orange = orange; cover = cover }, input3)

  abbrev pub kept_routes : RouteMode → Routes
  kept_routes mode = record {
    mode = mode;
    gray = no_identity;
    orange = no_identity;
    cover = codes "preserve";
  }

  unfoldable pub choose_routes : RouteMode → Input → Asked Routes
  unfolding new_routes
  choose_routes mode input =
      if is_keep mode then ok (kept_routes mode, input) else new_routes mode input

  abbrev pub plan_of :
      Routes → PerformanceMode → WarpMode → ℕ → CredentialPlan → Bool → Bool → InstallPlan
  plan_of routes performance warp port credentials prune open_panel = record {
    preferences = record {
      route_mode = routes.mode;
      cover_choice = routes.cover;
      performance = performance;
      warp_mode = warp;
      backup_before_change = true;
      prune_after_success = prune;
      open_panel_on_success = open_panel;
    };
    ports = record default_port_plan { ss2022_tcp = port };
    gray = routes.gray;
    orange = routes.orange;
    credentials = credentials;
  }

  -- The plan that all the answers make, before it is validated.
  unfoldable pub answered_plan : Input → Asked InstallPlan
  unfolding choose_until route_answer choose_routes performance_answer warp_answer port_answer
      choose_credential_plan yes_answer prompt
  answered_plan input = choose_until (route_answer s.existing) input >>= λ (mode, input1).
      choose_routes mode input1 >>= λ (routes, input2).
      choose_until (performance_answer s.existing) input2 >>= λ (performance, input3).
      choose_until warp_answer input3 >>= λ (warp, input4).
      choose_until (port_answer s.existing s.detected) input4 >>= λ (port, input5).
      choose_credential_plan s.existing s.complete input5 >>= λ (credentials, input6).
      let prune = prompt input6 in
      let panel = prompt (rest_of prune) in
      ok (
        plan_of routes performance warp port credentials (yes_answer s.prune prune)
            (yes_answer s.open_panel panel),
        rest_of panel,
      )

  unfoldable pub collect_install_plan : Input → Asked InstallPlan
  unfolding answered_plan validate_for
  collect_install_plan input = answered_plan input >>= λ (plan, rest).
      validated (validate_for mail plan s.existing) plan rest

pub data ConfirmError : Type 0 where
  closed install_cancelled : ConfirmError

-- `confirmInstallPlan`
unfoldable pub confirm_install_plan : Input → Result ConfirmError Input
unfolding prompt text_eq
confirm_install_plan input = confirmed (prompt input)
  where
    confirmed : Option (Text × Input) → Result ConfirmError Input
    confirmed none = err closed
    confirmed (some (typed, rest)) =
        if not (text_eq typed (codes "APPLY")) then err install_cancelled else ok rest
