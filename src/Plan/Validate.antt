-- ===== src/Plan/Validate.antt =====
-- install_plan.go: validCredentialSecret, validPanelAccount and the methods validate, validateFor.
-- Ports are natural numbers: a negative one fails the same tests as 0.
pub mod Sound
use proxy_node_assistant.Plan.Types.{
  custom, dual, keep, preserve, RouteMode, PerformanceMode, WarpMode, CredentialMode,
  CredentialPlan, PortPlan, RouteIdentity, InstallPreferences, InstallPlan, default_port_plan,
  default_ss2022_tcp_port, legacy_ss2022_trial_port, valid_route_mode, valid_performance_mode,
  valid_warp_mode, valid_credential_mode,
}
use proxy_node_assistant.Prelude.{
  Bool, Result, [], any, between, err, false, if◌then◌else◌, is_empty, ltb, not, ok, true, ℕ, ◌&&◌,
  ◌==◌, ◌>>=◌, ◌>>◌, ◌||◌, ◌∷◌,
}
use proxy_node_assistant.Text.{
  Text, byte_length, codes, contains_any, equal_fold, is_some, text_eq, to_lower, trim_space,
}
use proxy_node_assistant.Plan.Identity.{
  MailParser, valid_domain, valid_email, normalize_cover_template_choice, is_user_part,
}

pub data PlanError : Type 0 where
  route_mode cover_choice performance_mode warp_mode keep_on_fresh no_backup : PlanError
  vps_mode panel_mode fresh_vps_preserve fresh_panel_preserve : PlanError
  custom_vps_password custom_panel_account custom_panel_password : PlanError
  port_preset port_conflict port_range trial_port : PlanError
  gray_identity orange_identity same_hostname : PlanError

-- A method that returns only an `error`.
abbrev pub Checked : Type 0
Checked = Result PlanError (Unit {0})

-- `return nil`
abbrev pub valid : Checked
valid = ok tt

unfoldable pub valid_credential_secret : Text → Bool
unfolding byte_length contains_any
valid_credential_secret value =
    between 8 256 (byte_length value)
    && not (is_empty value)
    && not (contains_any (0 ∷ codes "\r\n") value)

unfoldable pub valid_panel_account : Text → Bool
unfolding byte_length is_user_part
valid_panel_account value = between 1 64 (byte_length value) && is_user_part value

abbrev pub is_preserve : CredentialMode → Bool
is_preserve CredentialMode.preserve = true
is_preserve _ = false

abbrev pub is_custom : CredentialMode → Bool
is_custom CredentialMode.custom = true
is_custom _ = false

panel_checks : CredentialPlan → Checked
panel_checks p =
    if is_custom p.panel_mode
    then if not (valid_panel_account p.panel_account)
      then err custom_panel_account
      else if not (valid_credential_secret p.panel_password)
      then err custom_panel_password
      else valid
    else valid

-- `CredentialPlan.validateFor`
unfoldable pub validate_credentials_for : CredentialPlan → Bool → Checked
unfolding panel_checks
validate_credentials_for p existing_node =
    if not (valid_credential_mode p.vps_mode)
    then err vps_mode
    else if not (valid_credential_mode p.panel_mode)
    then err panel_mode
    else if not existing_node && is_preserve p.vps_mode
    then err fresh_vps_preserve
    else if not existing_node && is_preserve p.panel_mode
    then err fresh_panel_preserve
    else if is_custom p.vps_mode && not (valid_credential_secret p.vps_password)
    then err custom_vps_password
    else panel_checks p

-- `PortPlan.validate`
unfoldable pub validate_ports : PortPlan → Checked
validate_ports p =
    if not (p.reality_production == default_port_plan.reality_production)
      || not (p.reality_shadow == default_port_plan.reality_shadow)
      || not (p.cdn_edge_origin == default_port_plan.cdn_edge_origin)
      || not (p.warp_loopback == default_port_plan.warp_loopback)
    then err port_preset
    else if any (λ (occupied : ℕ). p.ss2022_tcp == occupied)
        (p.reality_production ∷ p.reality_shadow ∷ p.cdn_edge_origin ∷ p.warp_loopback ∷ [])
    then err port_conflict
    else if ltb p.ss2022_tcp 1024 || ltb 65535 p.ss2022_tcp
    then err port_range
    else valid

abbrev pub is_keep : RouteMode → Bool
is_keep RouteMode.keep = true
is_keep _ = false

abbrev pub is_gray : RouteMode → Bool
is_gray RouteMode.gray = true
is_gray _ = false

abbrev pub is_orange : RouteMode → Bool
is_orange RouteMode.orange = true
is_orange _ = false

abbrev pub is_dual : RouteMode → Bool
is_dual RouteMode.dual = true
is_dual _ = false

unfoldable pub valid_cover_choice : Text → Bool
unfolding normalize_cover_template_choice to_lower trim_space text_eq
valid_cover_choice choice =
    is_some (normalize_cover_template_choice choice)
    || text_eq (to_lower (trim_space choice)) (codes "preserve")

-- The checks of validateFor up to those of the credentials.
preference_checks : InstallPreferences → Bool → Checked
preference_checks p existing_node =
    if not (valid_route_mode p.route_mode)
    then err route_mode
    else if not (valid_cover_choice p.cover_choice)
    then err cover_choice
    else if not (valid_performance_mode p.performance)
    then err performance_mode
    else if not (valid_warp_mode p.warp_mode)
    then err warp_mode
    else if is_keep p.route_mode && not existing_node
    then err keep_on_fresh
    else if not p.backup_before_change
    then err no_backup
    else valid

module _ (parse_address : MailParser) where
  abbrev pub valid_identity : RouteIdentity → Bool
  valid_identity i = valid_domain i.domain && valid_email parse_address i.email

  -- The checks of validateFor behind those of the ports.
  route_checks : InstallPlan → Bool → Checked
  route_checks p existing_node =
      let mode = p.preferences.route_mode in
      if p.ports.ss2022_tcp == legacy_ss2022_trial_port && not existing_node
      then err trial_port
      else if is_keep mode
      then valid
      else if not (is_orange mode) && not (valid_identity p.gray)
      then err gray_identity
      else if not (is_gray mode) && not (valid_identity p.orange)
      then err orange_identity
      else if is_dual mode && equal_fold p.gray.domain p.orange.domain
      then err same_hostname
      else valid

  -- `InstallPlan.validateFor`
  unfoldable pub validate_for : InstallPlan → Bool → Checked
  unfolding preference_checks validate_credentials_for validate_ports route_checks
  validate_for p existing_node = do
    preference_checks p.preferences existing_node
    validate_credentials_for p.credentials existing_node
    validate_ports p.ports
    route_checks p existing_node

  -- `InstallPlan.validate`
  unfoldable pub validate : InstallPlan → Checked
  unfolding validate_for
  validate p = validate_for p false
