-- ===== src/Topology/Server.antt =====
-- persistTopologyPlan and reconcileTopologyPlan of topology.go: what is sent to the server, and what
-- is made of its reply.
pub mod Safety
use proxy_node_assistant.Topology.{
  dual, keep, invalid_plan, mismatch, PersistError, TopologyEvent, TopologyMode, TopologyPlan, gray,
  mode_key, mode_name, orange, persist_failed, reconcile_failed, root_capture_with_input,
  topology_plan_body,
}
use proxy_node_assistant.Effects.{◌>>=◌, Exec, ProcessResult, lift, perform, succeeded}
use proxy_node_assistant.Plan.Identity.{MailParser}
use proxy_node_assistant.Prelude.{
  Bool, List, Result, [], err, if◌then◌else◌, not, ok, wrap, ◌&&◌, ◌++◌, ◌||◌,
}
use proxy_node_assistant.Protocol.KeyValue.{parse_kv}
use proxy_node_assistant.Text.{Fields, Text, codes, contains, get, text_eq}
use proxy_node_assistant.Transaction.{remote_root, sh_quote}

abbrev persist_command : Text
persist_command =
    codes "set -eu; install -d -m 700 /root/.config/text-node-assistant; "
    ++ codes "tmp=$(mktemp /root/.config/text-node-assistant/.topology.XXXXXX); "
    ++ codes "cat > \"$tmp\"; chmod 600 \"$tmp\"; "
    ++ codes "mv -f \"$tmp\" /root/.config/text-node-assistant/topology.env"

unfoldable pub reconcile_command : TopologyMode → Text
unfolding sh_quote
reconcile_command mode =
    codes "set -e; bash "
    ++ remote_root
    ++ codes "/linux/28-topology-reconcile.sh "
    ++ sh_quote (mode_name mode)
    ++ codes " --commit-state; . "
    ++ remote_root
    ++ codes "/linux/lib-deployment-state.sh; tna_state_show"

-- The row of the map `expected`: the deployment mode, the active mode and the owner of port 443.
abbrev pub expected : TopologyMode → Text × Text × Text
expected gray = (codes "direct-reality", codes "ACTIVE_DIRECT", codes "xray-reality")
expected orange = (codes "cdn-xhttp-tls", codes "ACTIVE_CDN", codes "none")
expected dual = (codes "dual-hot-switch", codes "DUAL_INSTALLED_ACTIVE_CDN", codes "xray-reality")
expected keep = ([], [], [])

abbrev pub TopologyExec : Type 0 → Type 0
TopologyExec = Exec TopologyEvent PersistError

abbrev pub persisted : ProcessResult → Result PersistError (Unit {0})
unfolding succeeded
persisted r = if succeeded r then ok tt else err (persist_failed r)

-- The readback.
abbrev pub is_converged : TopologyMode → Fields → Bool
unfolding get text_eq
is_converged mode values =
    text_eq (get mode_key values) (mode_name mode)
    && text_eq (get (codes "DEPLOYMENT_MODE") values) (expected mode).0
    && text_eq (get (codes "ACTIVE_MODE") values) (expected mode).1
    && text_eq (get (codes "PORT_443_OWNER") values) (expected mode).2

unfoldable pub reconciled : TopologyMode → ProcessResult → Result PersistError (Unit {0})
unfolding succeeded contains parse_kv get text_eq
reconciled mode r =
    let values = parse_kv r.stdout in
    if not (succeeded r) || not (contains (codes "TNA_TOPOLOGY_RECONCILED=1") r.stdout)
    then err (reconcile_failed r)
    else if not (is_converged mode values)
    then err (
        mismatch (get mode_key values) (get (codes "DEPLOYMENT_MODE") values)
          (get (codes "ACTIVE_MODE") values) (get (codes "PORT_443_OWNER") values))
    else ok tt

module _ (mail : MailParser) (server : List TopologyEvent → ProcessResult) where
  unfoldable pub persist_topology_plan : TopologyPlan → TopologyExec (Unit {0})
  unfolding topology_plan_body lift perform ◌>>=◌ succeeded
  persist_topology_plan p = do
    body ← lift (wrap invalid_plan (topology_plan_body mail p))
    r ← perform (root_capture_with_input persist_command body) server
    lift (persisted r)

  unfoldable pub reconcile_topology_plan : TopologyPlan → TopologyExec (Unit {0})
  unfolding topology_plan_body lift perform ◌>>=◌ reconciled reconcile_command
  reconcile_topology_plan p = do
    body ← lift (wrap invalid_plan (topology_plan_body mail p))
    r ← perform (root_capture_with_input (reconcile_command p.mode) body) server
    lift (reconciled p.mode r)
