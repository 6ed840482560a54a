-- ===== src/CdnRoute/Reconcile/Unstaged.antt =====
-- What reconcileCDNRoute of cdn_reset.go does for the modes that are not staged.
use proxy_node_assistant.CdnRoute.Command.{cdn_route_action, no_gray_domain, script}
use proxy_node_assistant.CdnRoute.Reconcile.{
  Parsers, RouteError, RouteEvent, World, action_refused, gray_failed, invalid_plan, judged,
  reconcile_by, reconcile_cdn_route, reports, require, root_command,
}
use proxy_node_assistant.Effects.{ProcessResult, continue, lift, pure, ◌>>=◌}
use proxy_node_assistant.Plan.Identity.{valid_domain}
use proxy_node_assistant.Plan.Types.{InstallPlan, RouteMode}
use proxy_node_assistant.Plan.Validate.{PlanError, is_dual, is_orange, validate_for}
use proxy_node_assistant.Prelude.{
  Bool, List, Result, [], err, false, if◌then◌else◌, not, ok, ok-ne-err, refl, sym, true, wrap,
  ◌++◌, ◌||◌, ◌↔◌, ◌∷◌, ◌≡◌,
}
use proxy_node_assistant.Text.{Text, codes}
use proxy_node_assistant.Transaction.{sh_quote}

abbrev pub gray_action : InstallPlan → Text
gray_action plan = script (codes "28-topology-reconcile.sh --to-gray " ++ sh_quote plan.gray.domain)

abbrev pub gray_reports : ProcessResult → Bool
gray_reports = reports (codes "TNA_TOPOLOGY_RECONCILED=1") (codes "TOPOLOGY_MODE=gray")

-- Nothing was done, or the mode is gray and one command was sent for a valid plan.
pub data IsUnstaged (world : World) (parsers : Parsers) (plan : InstallPlan) (log : List RouteEvent)
    (run : Result RouteError (Unit {0}) × List RouteEvent) : Type 0 where
  kept :
      plan.preferences.route_mode ≡ RouteMode.keep
      → run ≡ (ok tt, log)
      → IsUnstaged world parsers plan log run
  nothing_done : (e : RouteError) → run ≡ (err e, log) → IsUnstaged world parsers plan log run
  gray_sent :
      plan.preferences.route_mode ≡ RouteMode.gray
      → valid_domain plan.gray.domain ≡ true
      → validate_for parsers.parse_address plan true ≡ ok tt
      → run.1 ≡ log ++ root_command (gray_action plan) ∷ []
      → (run.0 ≡ ok tt) ↔ (gray_reports (world.remote run.1) ≡ true)
      → IsUnstaged world parsers plan log run

require_iff : (b : Bool) (e : RouteError) → (require b e ≡ ok tt) ↔ (b ≡ true)
require_iff true e = (λ _. refl, λ _. refl)
require_iff false e = (λ h. elim (ok-ne-err (sym h)) [ ], λ h. cc)

module _ (world : World) (parsers : Parsers) (plan : InstallPlan) (source : Text)
    (log : List RouteEvent) where
  -- The gray command, once the domain and the plan were judged.
  gray_run :
      plan.preferences.route_mode ≡ RouteMode.gray
      → valid_domain plan.gray.domain ≡ true
      → (r : Result PlanError (Unit {0})) → validate_for parsers.parse_address plan true ≡ r
      → IsUnstaged world parsers plan log (
          continue
            (wrap invalid_plan r)
            (λ (_ : Unit {0}).
              judged
                (root_command (gray_action plan))
                world.remote
                λ r. require (gray_reports r) (gray_failed r))
            log)
  unfolding judged
  gray_run q d (err e) v = nothing_done _ refl
  gray_run q d (ok u) v = gray_sent q d v refl (require_iff _ _)

  gray_lem :
      plan.preferences.route_mode ≡ RouteMode.gray
      → (valid : Bool) → valid_domain plan.gray.domain ≡ valid
      → IsUnstaged world parsers plan log (
          continue
            (wrap action_refused (if not valid then err no_gray_domain else ok (gray_action plan)))
            (reconcile_by world parsers RouteMode.gray plan source)
            log)
  unfolding reconcile_by lift ◌>>=◌
  gray_lem q false d = nothing_done _ refl
  gray_lem q true d = gray_run q d (validate_for parsers.parse_address plan true) refl

  unstaged_lem :
      (m : RouteMode)
      → plan.preferences.route_mode ≡ m
      → (is_orange m || is_dual m) ≡ false
      → IsUnstaged world parsers plan log (
          (lift (wrap action_refused (cdn_route_action m plan.gray.domain))
              >>= reconcile_by world parsers m plan source)
            log)
  unfolding cdn_route_action reconcile_by lift pure ◌>>=◌
  unstaged_lem RouteMode.keep q h = kept q refl
  unstaged_lem RouteMode.gray q h = gray_lem q (valid_domain plan.gray.domain) refl
  unstaged_lem RouteMode.orange q h = cc
  unstaged_lem RouteMode.dual q h = cc
  unstaged_lem (RouteMode.unknown t) q h = nothing_done _ refl

  -- For a mode that is not staged, nothing is done on the server, and that is a success only for the mode
  -- that keeps the route; or the mode is gray, one command is sent, for a valid plan and domain, and the
  -- change succeeds exactly when the reply proves it.
  pub reconcile_cdn_route-IsUnstaged :
      (is_orange plan.preferences.route_mode || is_dual plan.preferences.route_mode) ≡ false
      → IsUnstaged world parsers plan log (reconcile_cdn_route world parsers plan source log)
  unfolding reconcile_cdn_route
  reconcile_cdn_route-IsUnstaged h = unstaged_lem plan.preferences.route_mode refl h
