-- ===== src/Rebind.antt =====
-- ip_rebind.go: rebindPublicIP, which binds the key of a node to its new public address.
pub mod Committed
pub mod Complete
pub mod Evidence
pub mod Handler
pub mod Rules
pub mod Staged
use proxy_node_assistant.Transaction.{
  legacy_runbook_remote_root, legacy_text_remote_root, remote_root, sh_quote,
}
use proxy_node_assistant.Console.{Input}
use proxy_node_assistant.Deployment.{direct_reality, dual_hot_switch, mode_text}
use proxy_node_assistant.Effects.{Exec, ProcessResult, lift, succeeded}
use proxy_node_assistant.Identity.{AddressError}
use proxy_node_assistant.Identity.Node.{IdentityError, PreflightError, RebindContext, StableError}
use proxy_node_assistant.Prelude.{
  Bool, List, Option, Result, [], err, false, if◌then◌else◌, is_empty, none, not, ok, some, true,
  ◌&&◌, ◌++◌, ◌||◌, ◌∷◌,
}
use proxy_node_assistant.Text.{Fields, Text, atoi, codes, pos, text_eq, trim_space, within, ℤ}

-- What the handler does, in order. `try_key` is verifyKey with its test, `stage` is
-- stageReboundConnection, and `commit_local` commitLocalReboundKey.
pub data RebindEvent : Type 0 where
  probe_tcp : Text → ℤ → RebindEvent
  stage_key : Text → ℤ → RebindEvent
  try_key install_key prepare_toolkit open_dashboard : RebindEvent
  capture : Text → RebindEvent
  look_up : Text → RebindEvent
  commit_local remove_stage : RebindEvent

-- How the outside answers, by everything that was done so far.
pub record RebindWorld : Type 0 where
  pub reply : List RebindEvent → ProcessResult
  pub reachable : List RebindEvent → Bool
  pub staged : List RebindEvent → Bool
  pub installed : List RebindEvent → Bool
  pub toolkit_ready : List RebindEvent → Bool
  -- The answer of net.LookupIP: for each address its text, or `none` if it is no IPv4 address.
  pub addresses : List RebindEvent → Option (List (Option Text))
  -- Whether the new binding was committed: its key path is not empty.
  pub bound : List RebindEvent → Bool

pub data RebindOutcome : Type 0 where
  parked stopped_before_dns rebound : RebindOutcome

pub data RebindError : Type 0 where
  saved_ip_invalid new_ip_invalid : AddressError → RebindError
  input_is_closed same_ip invalid_port unreachable not_staged key_rejected : RebindError
  identity_unread : ProcessResult → RebindError
  identity_refused : IdentityError → RebindError
  not_stable : StableError → RebindError
  env_unread : ProcessResult → RebindError
  old_ip_differs toolkit_failed old_domain_invalid new_domain_invalid : RebindError
  preflight_failed : ProcessResult → RebindError
  preflight_refused : PreflightError → RebindError
  preflight_differs : RebindError
  not_parked commit_failed : ProcessResult → RebindError
  -- The remote identity did not commit, or the local binding failed, after the change.
  remote_uncommitted local_uncommitted : RebindError

abbrev pub Rebinding : Type 0 → Type 0
Rebinding = Exec RebindEvent RebindError

abbrev script : Text
script = codes "bash " ++ remote_root ++ codes "/linux/27-ip-rebind.sh "

unfoldable pub rebind_command : Text → Text → Text → Text → Text → Text
unfolding sh_quote
rebind_command verb old new old_domain new_domain =
    script
    ++ verb
    ++ codes " "
    ++ sh_quote old
    ++ codes " "
    ++ sh_quote new
    ++ codes " "
    ++ sh_quote old_domain
    ++ codes " "
    ++ sh_quote new_domain

abbrev pub preflight_verb : Text
preflight_verb = codes "preflight"

abbrev pub commit_verb : Text
commit_verb = codes "commit-direct"

abbrev pub wait_verb : Text
wait_verb = codes "wait-cloudflare"

abbrev pub abort_command : Text
abort_command = script ++ codes "abort-pre-dns"

abbrev pub show_identity : Text
unfolding sh_quote
show_identity =
    codes "set -u; root="
    ++ sh_quote remote_root
    ++ codes "; [ -x \"$root/linux/23-node-identity.sh\" ] || root="
    ++ sh_quote legacy_text_remote_root
    ++ codes "; [ -x \"$root/linux/23-node-identity.sh\" ] || root="
    ++ sh_quote legacy_runbook_remote_root
    ++ codes "; [ -x \"$root/linux/23-node-identity.sh\" ] || "
    ++ codes "{ echo TNA_NODE_IDENTITY_ERROR=SCRIPT_MISSING >&2; exit 62; }; "
    ++ codes "bash \"$root/linux/23-node-identity.sh\" --show"

-- runtimePublicEnv of operations.go
abbrev pub env_command : Text
env_command =
    codes "for f in /etc/text-node-assistant/public.env /etc/proxy-runbook/public.env; do "
    ++ codes "[ -r \"$f\" ] && cat \"$f\"; done"

-- A prompt whose answer is empty if the input is closed.
abbrev pub answered : Option (Text × Input) → Text × Input
answered none = ([], [])
answered (some a) = a

-- `verified.OK() && strings.TrimSpace(verified.Stdout) == "SSH_KEY_OK"`
unfoldable pub is_key_ok : ProcessResult → Bool
unfolding succeeded trim_space text_eq
is_key_ok r = succeeded r && text_eq (trim_space r.stdout) (codes "SSH_KEY_OK")

unfoldable pub chosen_port : ℤ → Text → Result RebindError ℤ
unfolding atoi
chosen_port saved text =
    if is_empty text
    then ok saved
    else elim (within 1 65535 (atoi text)) [ none ↦ err invalid_port | some port ↦ ok (pos port) ]

-- The loop of domainResolvesExclusivelyTo: whether an IPv4 address was found, and no other.
unfoldable pub only_expected : Text → Bool → List (Option Text) → Bool
unfolding text_eq
only_expected expected found [] = found
only_expected expected found (none ∷ rest) = only_expected expected found rest
only_expected expected found (some address ∷ rest) =
    let later = only_expected expected true rest in
    if not (text_eq address expected) then false else later

unfoldable pub resolves_exclusively_to : Text → Option (List (Option Text)) → Bool
unfolding only_expected
resolves_exclusively_to expected none = false
resolves_exclusively_to expected (some found) = only_expected expected false found

unfoldable pub is_direct_active : RebindContext → Bool
unfolding text_eq
is_direct_active ctx =
    (text_eq ctx.mode (mode_text direct_reality) && text_eq ctx.active_mode (codes "ACTIVE_DIRECT"))
    || (text_eq ctx.mode (mode_text dual_hot_switch)
        && text_eq ctx.active_mode (codes "DUAL_INSTALLED_ACTIVE_DIRECT"))

-- The four values that all commands of a rebinding name.
pub record Endpoints : Type 0 where
  pub old_ip : Text
  pub new_ip : Text
  pub old_domain : Text
  pub new_domain : Text

abbrev pub command_for : Text → Endpoints → Text
unfolding rebind_command
command_for verb e = rebind_command verb e.old_ip e.new_ip e.old_domain e.new_domain

unfoldable pub same_endpoints : RebindContext → Endpoints → Bool
unfolding text_eq
same_endpoints ctx e =
    text_eq ctx.old_ip e.old_ip
    && text_eq ctx.new_ip e.new_ip
    && text_eq ctx.old_domain e.old_domain
    && text_eq ctx.new_domain e.new_domain

abbrev pub refuse : Bool → RebindError → Rebinding (Unit {0})
unfolding lift
refuse bad e = lift (if bad then err e else ok tt)
