-- ===== src/Plan/Types.antt =====
-- install_plan.go: the data of a plan. Go's string types for the modes take any text; `unknown` is
-- a text that is no constant of the type.
use proxy_node_assistant.Prelude.{Bool, [], false, true, ℕ}
use proxy_node_assistant.Text.{Text, codes}

pub data RouteMode : Type 0 where
  keep gray orange dual : RouteMode
  unknown : Text → RouteMode

pub data PerformanceMode : Type 0 where
  preserve auto low standard high : PerformanceMode
  unknown : Text → PerformanceMode

pub data WarpMode : Type 0 where
  preserve ensure_on : WarpMode
  unknown : Text → WarpMode

pub data CredentialMode : Type 0 where
  preserve random custom : CredentialMode
  unknown : Text → CredentialMode

pub record CredentialPlan : Type 0 where
  pub vps_mode : CredentialMode
  pub vps_password : Text
  pub panel_mode : CredentialMode
  pub panel_account : Text
  pub panel_password : Text

pub record PortPlan : Type 0 where
  pub reality_production : ℕ
  pub reality_shadow : ℕ
  pub cdn_edge_origin : ℕ
  pub warp_loopback : ℕ
  pub ss2022_tcp : ℕ

pub record RouteIdentity : Type 0 where
  pub domain : Text
  pub email : Text

pub record InstallPreferences : Type 0 where
  pub route_mode : RouteMode
  pub cover_choice : Text
  pub performance : PerformanceMode
  pub warp_mode : WarpMode
  pub backup_before_change : Bool
  pub prune_after_success : Bool
  pub open_panel_on_success : Bool

pub record InstallPlan : Type 0 where
  pub preferences : InstallPreferences
  pub ports : PortPlan
  pub gray : RouteIdentity
  pub orange : RouteIdentity
  pub credentials : CredentialPlan

abbrev pub default_ss2022_tcp_port : ℕ
default_ss2022_tcp_port = 32443

abbrev pub legacy_ss2022_trial_port : ℕ
legacy_ss2022_trial_port = 30443

abbrev pub default_install_preferences : InstallPreferences
default_install_preferences = record {
  route_mode = RouteMode.gray;
  cover_choice = codes "random";
  performance = PerformanceMode.auto;
  warp_mode = WarpMode.ensure_on;
  backup_before_change = true;
  prune_after_success = false;
  open_panel_on_success = true;
}

abbrev pub default_port_plan : PortPlan
default_port_plan = record {
  reality_production = 443;
  reality_shadow = 24443;
  cdn_edge_origin = 8443;
  warp_loopback = 40000;
  ss2022_tcp = default_ss2022_tcp_port;
}

abbrev pub no_identity : RouteIdentity
no_identity = record { domain = []; email = [] }

abbrev pub default_install_plan : InstallPlan
default_install_plan = record {
  preferences = default_install_preferences;
  ports = default_port_plan;
  gray = no_identity;
  orange = no_identity;
  credentials = record {
    vps_mode = CredentialMode.random;
    vps_password = [];
    panel_mode = CredentialMode.random;
    panel_account = [];
    panel_password = [];
  };
}

unfoldable pub valid_route_mode : RouteMode → Bool
valid_route_mode (RouteMode.unknown _) = false
valid_route_mode _ = true

unfoldable pub valid_performance_mode : PerformanceMode → Bool
valid_performance_mode (PerformanceMode.unknown _) = false
valid_performance_mode _ = true

unfoldable pub valid_warp_mode : WarpMode → Bool
valid_warp_mode (WarpMode.unknown _) = false
valid_warp_mode _ = true

unfoldable pub valid_credential_mode : CredentialMode → Bool
valid_credential_mode (CredentialMode.unknown _) = false
valid_credential_mode _ = true
