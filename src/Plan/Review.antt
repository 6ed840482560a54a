-- ===== src/Plan/Review.antt =====
-- install_plan.go: maskEmail, reviewLines, preferenceSummaryLines.
pub mod Secrets
use proxy_node_assistant.Plan.Types.{
  auto, custom, dual, ensure_on, high, keep, low, preserve, random, standard, unknown, RouteMode,
  PerformanceMode, WarpMode, CredentialMode, CredentialPlan, PortPlan, RouteIdentity,
  InstallPreferences, InstallPlan,
}
use proxy_node_assistant.Plan.Validate.{
  cover_choice, panel_mode, route_mode, vps_mode, warp_mode, is_keep, is_gray, is_orange, is_custom,
}
use proxy_node_assistant.Prelude.{List, Option, [], if◌then◌else◌, none, not, some, ◌&&◌, ◌++◌, ◌∷◌}
use proxy_node_assistant.Text.{Text, codes, cut, format_bool, itoa, sort, text_le, trim_space}

abbrev masked : Option (Text × Text) → Text
masked none = codes "***"
masked (some ([], domain)) = codes "***"
masked (some (c ∷ user, domain)) = c ∷ (codes "***@" ++ domain)

unfoldable pub mask_email : Text → Text
unfolding cut trim_space
mask_email value = masked (cut b'@' (trim_space value))

abbrev pub route_text : RouteMode → Text
route_text RouteMode.keep = codes "keep"
route_text RouteMode.gray = codes "gray"
route_text RouteMode.orange = codes "orange"
route_text RouteMode.dual = codes "dual"
route_text (RouteMode.unknown t) = t

abbrev pub performance_text : PerformanceMode → Text
performance_text PerformanceMode.preserve = codes "preserve"
performance_text PerformanceMode.auto = codes "auto"
performance_text PerformanceMode.low = codes "low"
performance_text PerformanceMode.standard = codes "standard"
performance_text PerformanceMode.high = codes "high"
performance_text (PerformanceMode.unknown t) = t

abbrev pub warp_text : WarpMode → Text
warp_text WarpMode.preserve = codes "preserve"
warp_text WarpMode.ensure_on = codes "ensure-on"
warp_text (WarpMode.unknown t) = t

abbrev pub credential_text : CredentialMode → Text
credential_text CredentialMode.preserve = codes "preserve"
credential_text CredentialMode.random = codes "random"
credential_text CredentialMode.custom = codes "custom"
credential_text (CredentialMode.unknown t) = t

abbrev base_lines : InstallPlan → List Text
base_lines p =
    let prefs = p.preferences in
    let ports = p.ports in
    (codes "ROUTE_MODE=" ++ route_text prefs.route_mode)
    ∷ (codes "COVER_CHOICE=" ++ prefs.cover_choice)
    ∷ (codes "PERFORMANCE=" ++ performance_text prefs.performance)
    ∷ (codes "WARP_MODE=" ++ warp_text prefs.warp_mode)
    ∷ (codes "BACKUP_BEFORE_CHANGE=" ++ format_bool prefs.backup_before_change)
    ∷ (codes "PRUNE_AFTER_SUCCESS=" ++ format_bool prefs.prune_after_success)
    ∷ (codes "OPEN_PANEL_ON_SUCCESS=" ++ format_bool prefs.open_panel_on_success)
    ∷ (codes "VPS_CREDENTIAL_MODE=" ++ credential_text p.credentials.vps_mode)
    ∷ (codes "PANEL_CREDENTIAL_MODE=" ++ credential_text p.credentials.panel_mode)
    ∷ (codes "PORT_PRESET=reality:"
        ++ (itoa ports.reality_production
            ++ (codes " shadow:"
                ++ (itoa ports.reality_shadow
                    ++ (codes " cdn:"
                        ++ (itoa ports.cdn_edge_origin
                            ++ (codes " warp:"
                                ++ (itoa ports.warp_loopback
                                    ++ (codes " ss2022-tcp:" ++ itoa ports.ss2022_tcp)))))))))
    ∷ []

abbrev identity_lines : Text → Text → RouteIdentity → List Text
identity_lines domain_key email_key i =
    (domain_key ++ i.domain) ∷ (email_key ++ mask_email i.email) ∷ []

-- The lines before the sort.
abbrev unsorted_review : InstallPlan → List Text
unsorted_review p =
    let mode = p.preferences.route_mode in
    base_lines p
    ++ ((if not (is_keep mode) && not (is_orange mode)
          then identity_lines (codes "GRAY_DOMAIN=") (codes "GRAY_EMAIL=") p.gray
          else [])
        ++ ((if not (is_keep mode) && not (is_gray mode)
              then identity_lines (codes "ORANGE_DOMAIN=") (codes "ORANGE_EMAIL=") p.orange
              else [])
            ++ (if is_custom p.credentials.panel_mode
                then (codes "PANEL_ACCOUNT=" ++ p.credentials.panel_account) ∷ []
                else [])))

unfoldable pub review_lines : InstallPlan → List Text
review_lines p = sort text_le (unsorted_review p)

abbrev unsorted_summary : InstallPlan → List Text
unsorted_summary p =
    let prefs = p.preferences in
    let ports = p.ports in
    (codes "PLAN_ROUTE=" ++ route_text prefs.route_mode)
    ∷ (codes "PLAN_COVER=" ++ prefs.cover_choice)
    ∷ (codes "PLAN_PERFORMANCE=" ++ performance_text prefs.performance)
    ∷ (codes "PLAN_WARP=" ++ warp_text prefs.warp_mode)
    ∷ (codes "PLAN_PRUNE=" ++ format_bool prefs.prune_after_success)
    ∷ (codes "PLAN_OPEN_PANEL=" ++ format_bool prefs.open_panel_on_success)
    ∷ (codes "PLAN_VPS_CREDENTIALS=" ++ credential_text p.credentials.vps_mode)
    ∷ (codes "PLAN_PANEL_CREDENTIALS=" ++ credential_text p.credentials.panel_mode)
    ∷ (codes "PORT_PRESET="
        ++ (itoa ports.reality_production
            ++ (codes "/"
                ++ (itoa ports.reality_shadow
                    ++ (codes "/"
                        ++ (itoa ports.cdn_edge_origin
                            ++ (codes "/"
                                ++ (itoa ports.warp_loopback
                                    ++ (codes "/" ++ itoa ports.ss2022_tcp)))))))))
    ∷ []

unfoldable pub preference_summary_lines : InstallPlan → List Text
preference_summary_lines p = sort text_le (unsorted_summary p)
