-- ===== src/Topology/Server/Safety.antt =====
-- The convergence of topology.go: what is sent, and which reply proves it.
use proxy_node_assistant.Prelude.{
  arith, guard-eq-ok, not, not-eq-false, ◌||◌, List, Result, [], and-eq-true, err, inl, inr, ok,
  refl, true, ◌++◌, ◌↔◌, ◌∷◌, ◌≡◌, ◌⊎◌,
}
use proxy_node_assistant.Topology.{
  mismatch, reconcile_failed, BodyError, PersistError, TopologyEvent, TopologyMode, TopologyPlan,
  invalid_plan, mode_key, mode_name, root_capture_with_input, topology_plan_body,
}
use proxy_node_assistant.Effects.{ProcessResult, succeeded}
use proxy_node_assistant.Plan.Identity.{MailParser}
use proxy_node_assistant.Protocol.KeyValue.{parse_kv}
use proxy_node_assistant.Text.{Fields, Text, codes, contains, get, text_eq_iff}
use proxy_node_assistant.Topology.Server.{
  expected, is_converged, reconcile_command, reconcile_topology_plan, reconciled,
}

-- The reply shows that the server runs the topology of the mode.
pub record IsProof (mode : TopologyMode) (r : ProcessResult) : Type 0 where
  pub completed : succeeded r ≡ true
  pub marked : contains (codes "TNA_TOPOLOGY_RECONCILED=1") r.stdout ≡ true
  pub mode_read : get mode_key (parse_kv r.stdout) ≡ mode_name mode
  pub deployment_read : get (codes "DEPLOYMENT_MODE") (parse_kv r.stdout) ≡ (expected mode).0
  pub active_read : get (codes "ACTIVE_MODE") (parse_kv r.stdout) ≡ (expected mode).1
  pub owner_read : get (codes "PORT_443_OWNER") (parse_kv r.stdout) ≡ (expected mode).2

is_converged_iff :
    (mode : TopologyMode) (values : Fields)
    → (is_converged mode values ≡ true) ↔ (
        (get mode_key values ≡ mode_name mode)
        × (get (codes "DEPLOYMENT_MODE") values ≡ (expected mode).0)
        × (get (codes "ACTIVE_MODE") values ≡ (expected mode).1)
        × (get (codes "PORT_443_OWNER") values ≡ (expected mode).2))
unfolding is_converged
is_converged_iff mode values = (
  λ h.
      let (front, d) = and-eq-true _ _ h in
      let (front', c) = and-eq-true _ _ front in
      let (a, b) = and-eq-true _ _ front' in
      ((text_eq_iff _ _).0 a, (text_eq_iff _ _).0 b, (text_eq_iff _ _).0 c, (text_eq_iff _ _).0 d),
  λ (a, b, c, d).
      rw
        ((text_eq_iff _ _).1 a, (text_eq_iff _ _).1 b, (text_eq_iff _ _).1 c, (text_eq_iff _ _).1 d)
        refl,
)

abbrev readback_error : Fields → PersistError
readback_error values =
    mismatch (get mode_key values) (get (codes "DEPLOYMENT_MODE") values)
      (get (codes "ACTIVE_MODE") values) (get (codes "PORT_443_OWNER") values)

reconciled_iff :
    (mode : TopologyMode) (r : ProcessResult) → (reconciled mode r ≡ ok tt) ↔ IsProof mode r
unfolding reconciled
reconciled_iff mode r = (
  λ h.
      let values = parse_kv r.stdout in
      let (front, h1) =
        guard-eq-ok
          (not (succeeded r) || not (contains (codes "TNA_TOPOLOGY_RECONCILED=1") r.stdout))
          (reconcile_failed r) _ h in
      let (readback, h2) =
        guard-eq-ok (not (is_converged mode values)) (readback_error values) (ok tt) h1 in
      let (a, b, c, d) = (is_converged_iff mode values).0 (not-eq-false readback) in
      record {
        completed = ground arith;
        marked = ground arith;
        mode_read = a;
        deployment_read = b;
        active_read = c;
        owner_read = d;
      },
  λ p.
      let readback =
        (is_converged_iff mode (parse_kv r.stdout)).1
          (p.mode_read, p.deployment_read, p.active_read, p.owner_read) in
      rw (p.completed, p.marked, readback) refl,
)

-- What the convergence of a plan comes to.
pub data ReconcileRun (mail : MailParser) (server : List TopologyEvent → ProcessResult)
    (p : TopologyPlan) (log : List TopologyEvent)
    (run : Result PersistError (Unit {0}) × List TopologyEvent) : Type 0 where
  not_sent :
      (e : BodyError)
      → topology_plan_body mail p ≡ err e
      → run ≡ (err (invalid_plan e), log)
      → ReconcileRun mail server p log run
  sent :
      (body : Text)
      → topology_plan_body mail p ≡ ok body
      → run.1 ≡ log ++ root_capture_with_input (reconcile_command p.mode) body ∷ []
      → ((run.0 ≡ ok tt) ↔ IsProof p.mode (server run.1))
      → ReconcileRun mail server p log run

refused_or_ok : {E A : Type 0} (r : Result E A) → ((e : E) × (r ≡ err e)) ⊎ ((a : A) × (r ≡ ok a))
refused_or_ok (err e) = inl (e, refl)
refused_or_ok (ok a) = inr (a, refl)

-- A plan that is invalid sends nothing. For any other, exactly one command is sent, with the plan's
-- text, and the convergence succeeds exactly when the reply shows that the server runs the topology:
-- it has the marker, and the mode, the deployment mode, the active mode and the owner of port 443 that
-- belong to the plan's mode.
pub reconcile_topology_plan-ReconcileRun :
    (mail : MailParser) (server : List TopologyEvent → ProcessResult) (p : TopologyPlan)
    (log : List TopologyEvent)
    → ReconcileRun mail server p log (reconcile_topology_plan mail server p log)
unfolding reconcile_topology_plan
reconcile_topology_plan-ReconcileRun mail server p log =
    elim (refused_or_ok (topology_plan_body mail p)) [
      | inl (fault, h) ↦ not_sent fault h (rw h refl)
      | inr (body, e) ↦ sent body e (rw e refl) (rw e (reconciled_iff p.mode _))
    ]
