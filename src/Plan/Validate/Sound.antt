-- ===== src/Plan/Validate/Sound.antt =====
-- A plan is accepted exactly when it satisfies the rules below, which are stated without the order
-- of the checks.
use proxy_node_assistant.Plan.Identity.{MailParser}
use proxy_node_assistant.Plan.Types.{
  InstallPlan, InstallPreferences, RouteMode, legacy_ss2022_trial_port, valid_performance_mode,
  valid_route_mode, valid_warp_mode, CredentialMode, CredentialPlan, PortPlan,
  valid_credential_mode,
}
use proxy_node_assistant.Plan.Validate.{
  Checked, preference_checks, route_checks, valid_cover_choice, valid_identity, validate_for, valid,
  valid_credential_secret, valid_panel_account, validate_credentials_for, validate_ports,
}
use proxy_node_assistant.Prelude.{
  err, ok, refl, ◌>>=◌, Bool, arith, false, true, ◌↔◌, ◌≡◌, ◌≢◌, ◌≤◌,
}
use proxy_node_assistant.Text.{equal_fold}

-- A secret or account is needed only where it is typed in, and nothing can be preserved on a fresh
-- node.
abbrev pub CredentialRules : CredentialPlan → Bool → Type 0
CredentialRules p existing =
    (valid_credential_mode p.vps_mode ≡ true)
    × (valid_credential_mode p.panel_mode ≡ true)
    × (existing ≡ false
        → (p.vps_mode ≢ CredentialMode.preserve) × (p.panel_mode ≢ CredentialMode.preserve))
    × (p.vps_mode ≡ CredentialMode.custom → valid_credential_secret p.vps_password ≡ true)
    × (p.panel_mode ≡ CredentialMode.custom
        → (valid_panel_account p.panel_account ≡ true)
          × (valid_credential_secret p.panel_password ≡ true))

validate_credentials_for_iff :
    (p : CredentialPlan) (existing : Bool)
    → (validate_credentials_for p existing ≡ valid) ↔ CredentialRules p existing
unfolding validate_credentials_for
validate_credentials_for_iff p existing = (λ h. ground arith, λ r. ground arith)

-- The four fixed ports, and a free one of the unprivileged range for SS2022.
abbrev pub PortRules : PortPlan → Type 0
PortRules p =
    (p.reality_production ≡ 443)
    × (p.reality_shadow ≡ 24443)
    × (p.cdn_edge_origin ≡ 8443)
    × (p.warp_loopback ≡ 40000)
    × (1024 ≤ p.ss2022_tcp)
    × (p.ss2022_tcp ≤ 65535)
    × (p.ss2022_tcp ≢ 24443)
    × (p.ss2022_tcp ≢ 8443)
    × (p.ss2022_tcp ≢ 40000)

validate_ports_iff : (p : PortPlan) → (validate_ports p ≡ valid) ↔ PortRules p
unfolding validate_ports
validate_ports_iff p = ground arith

-- Known modes, a known template choice, a backup, and no `keep` on a fresh node.
abbrev pub PreferenceRules : InstallPreferences → Bool → Type 0
PreferenceRules p existing =
    (valid_route_mode p.route_mode ≡ true)
    × (valid_cover_choice p.cover_choice ≡ true)
    × (valid_performance_mode p.performance ≡ true)
    × (valid_warp_mode p.warp_mode ≡ true)
    × (p.route_mode ≡ RouteMode.keep → existing ≡ true)
    × (p.backup_before_change ≡ true)

preference_checks_iff :
    (p : InstallPreferences) (existing : Bool)
    → (preference_checks p existing ≡ valid) ↔ PreferenceRules p existing
unfolding preference_checks
preference_checks_iff p existing = (λ h. ground arith, λ r. ground arith)

then-valid_iff : (m k : Checked) → ((m >>= λ _. k) ≡ valid) ↔ ((m ≡ valid) × (k ≡ valid))
then-valid_iff (ok tt) k = (λ h. (refl, h), λ h. h.1)
then-valid_iff (err e) k = (λ h. cc, λ h. cc)

module _ (parse_address : MailParser) where
  -- The trial port only on an existing node; and, unless the routes are kept, a typed identity for
  -- each route that the mode uses, with two different hostnames for the dual mode.
  abbrev pub RouteRules : InstallPlan → Bool → Type 0
  RouteRules p existing =
      (p.ports.ss2022_tcp ≡ legacy_ss2022_trial_port → existing ≡ true)
      × (p.preferences.route_mode ≢ RouteMode.keep
          → (p.preferences.route_mode ≢ RouteMode.orange
              → valid_identity parse_address p.gray ≡ true)
            × (p.preferences.route_mode ≢ RouteMode.gray
                → valid_identity parse_address p.orange ≡ true)
            × (p.preferences.route_mode ≡ RouteMode.dual
                → equal_fold p.gray.domain p.orange.domain ≡ false))

  route_checks_iff :
      (p : InstallPlan) (existing : Bool)
      → (route_checks parse_address p existing ≡ valid) ↔ RouteRules p existing
  unfolding route_checks
  route_checks_iff p existing = (λ h. ground arith, λ r. ground arith)

  -- A plan is accepted exactly when its preferences, credentials, ports and routes satisfy their
  -- rules.
  pub validate_for_iff :
      (p : InstallPlan) (existing : Bool)
      → (validate_for parse_address p existing ≡ valid) ↔ (
          PreferenceRules p.preferences existing
          × CredentialRules p.credentials existing
          × PortRules p.ports
          × RouteRules p existing)
  unfolding validate_for
  validate_for_iff p existing =
      let (a, a') = then-valid_iff (preference_checks p.preferences existing) _ in
      let (b, b') = then-valid_iff (validate_credentials_for p.credentials existing) _ in
      let (c, c') =
        then-valid_iff (validate_ports p.ports) (route_checks parse_address p existing) in
      (
        λ h.
            let (pref, h1) = a h in
            let (cred, h2) = b h1 in
            let (port, rest) = c h2 in
            (
              (preference_checks_iff p.preferences existing).0 pref,
              (validate_credentials_for_iff p.credentials existing).0 cred,
              (validate_ports_iff p.ports).0 port,
              (route_checks_iff p existing).0 rest,
            ),
        λ (pref, cred, port, rest). a' (
          (preference_checks_iff p.preferences existing).1 pref,
          b' (
            (validate_credentials_for_iff p.credentials existing).1 cred,
            c' ((validate_ports_iff p.ports).1 port, (route_checks_iff p existing).1 rest),
          ),
        ),
      )
