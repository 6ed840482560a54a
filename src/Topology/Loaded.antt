-- ===== src/Topology/Loaded.antt =====
-- What loadExistingTopologyPlan of topology.go accepts from the server.
use proxy_node_assistant.Console.{Input}
use proxy_node_assistant.Effects.{ProcessResult, succeeded}
use proxy_node_assistant.Plan.Identity.{MailParser, valid_domain, valid_email}
use proxy_node_assistant.Prelude.{
  Bool, Bool-cases, Option, Option-cases, ap, arith, false, guard-eq-ok, inl, inr, is_empty, none,
  not, ok, ok-injective, refl, some, subst, sym, true, ◌&&◌, ◌≡◌, >>=-eq-ok,
}
use proxy_node_assistant.Protocol.KeyValue.{parse_kv}
use proxy_node_assistant.Text.{Text, get}
use proxy_node_assistant.Topology.{
  TopologyMode, TopologyPlan, ask_labeled_domain_email, checked, dual, gray, invalid_gray_domain,
  invalid_orange_domain, is_gray, is_orange, keep, load_existing_topology_plan, loaded, mode_key,
  mode_name, mode_of, orange, read_failed, reconfirm_gray, reconfirm_orange, recorded, with_gray,
  with_orange,
}
use proxy_node_assistant.Topology.Asked.{
  HasGrayRoute, HasOrangeRoute, ask_labeled_domain_email-IsAsked, reconfirm_gray-HasGrayRoute,
}

passed :
    (skipped usable : Bool) → (not skipped && not usable) ≡ false → skipped ≡ false → usable ≡ true
passed skipped usable h e = ground arith

module _ (mail : MailParser) where
  -- A plan with a hostname and an address for each route that its mode sets up.
  pub record IsUsable (p : TopologyPlan) : Type 0 where
    pub resolved : is_empty (mode_name p.mode) ≡ false
    pub gray_route : HasGrayRoute mail p
    pub orange_route : HasOrangeRoute mail p

  with_orange-IsUsable :
      (p : TopologyPlan) (input : Input) (o : Option (Text × Text × Input))
      → o ≡ ask_labeled_domain_email mail input
      → is_empty (mode_name p.mode) ≡ false
      → HasGrayRoute mail p
      → {q : TopologyPlan} {rest : Input} → with_orange mail p o ≡ ok (q, rest)
      → IsUsable q
  with_orange-IsUsable p input none e r g h = cc
  with_orange-IsUsable p input (some (d, m, rest)) e r g h =
      let asked = ask_labeled_domain_email-IsAsked mail input (sym e) in
      subst (λ (q : TopologyPlan × Input). IsUsable q.0) (ok-injective h)
        (record {
          resolved = r;
          gray_route = g;
          orange_route = λ used. (asked.domain_valid, asked.email_valid);
        })

  reconfirm_orange-IsUsable :
      (p : TopologyPlan) (input : Input)
      → is_empty (mode_name p.mode) ≡ false
      → HasGrayRoute mail p
      → (is_gray p.mode ≡ false → valid_domain p.orange_domain ≡ true)
      → {q : TopologyPlan} {rest : Input} → reconfirm_orange mail p input ≡ ok (q, rest)
      → IsUsable q
  unfolding reconfirm_orange
  reconfirm_orange-IsUsable p input r g usable h =
      elim (Bool-cases (not (is_gray p.mode) && not (valid_email mail p.orange_email))) [
        | inl e ↦ with_orange-IsUsable p input _ refl r g (rw e at h)
        | inr e ↦
            subst (λ (q : TopologyPlan × Input). IsUsable q.0) (ok-injective (rw e at h))
              (record {
                resolved = r;
                gray_route = g;
                orange_route = λ used. (usable used, ground arith);
              })
      ]

  -- What `reconfirm_gray` leaves alone.
  reconfirm_gray-orange_domain :
      (p : TopologyPlan) (o : Option (Text × Text × Input)) {q : TopologyPlan} {rest : Input}
      → with_gray mail p o ≡ ok (q, rest)
      → q.orange_domain ≡ p.orange_domain
  reconfirm_gray-orange_domain p none h = cc
  reconfirm_gray-orange_domain p (some (d, m, rest)) h =
      ap (λ (q : TopologyPlan × Input). q.0.orange_domain) (sym (ok-injective h))

  reconfirm_gray-keeps :
      (p : TopologyPlan) (input : Input) {q : TopologyPlan} {rest : Input}
      → reconfirm_gray mail p input ≡ ok (q, rest)
      → q.orange_domain ≡ p.orange_domain
  unfolding reconfirm_gray
  reconfirm_gray-keeps p input h =
      elim (Bool-cases (not (is_orange p.mode) && not (valid_email mail p.gray_email))) [
        | inl e ↦ reconfirm_gray-orange_domain p _ (rw e at h)
        | inr e ↦
            ap (λ (q : TopologyPlan × Input). q.0.orange_domain) (sym (ok-injective (rw e at h)))
      ]

  checked-IsUsable :
      (p : TopologyPlan) (input : Input)
      → is_empty (mode_name p.mode) ≡ false
      → {q : TopologyPlan} {rest : Input} → checked mail p input ≡ ok (q, rest)
      → IsUsable q
  unfolding checked
  checked-IsUsable p input r h =
      let (g, h1) = guard-eq-ok _ invalid_gray_domain _ h in
      let (o, h2) = guard-eq-ok _ invalid_orange_domain _ h1 in
      let ((q, mid), first, second) = >>=-eq-ok (reconfirm_gray mail p input) _ h2 in
      let (route, same) =
        reconfirm_gray-HasGrayRoute mail p input (λ e. passed (is_orange p.mode) _ g e) first in
      reconfirm_orange-IsUsable q mid (rw same r) route
        (λ e. rw (reconfirm_gray-keeps p input first) (passed (is_gray p.mode) _ o (rw same at e)))
        second

  mode_of-resolved :
      (name : Text) {mode : TopologyMode}
      → mode_of name ≡ some mode
      → is_empty (mode_name mode) ≡ false
  unfolding mode_of
  mode_of-resolved name {mode} h =
      elim mode as (λ (m : TopologyMode). mode_of name ≡ some m → is_empty (mode_name m) ≡ false) [
        | keep ↦ λ k. ground (arith)
        | gray ↦ λ k. refl
        | orange ↦ λ k. refl
        | dual ↦ λ k. refl
      ]
        h

  -- A plan that was loaded has what its routes need.
  pub load_existing_topology_plan-IsUsable :
      (reply : ProcessResult) (input : Input) {p : TopologyPlan} {rest : Input}
      → load_existing_topology_plan mail reply input ≡ ok (p, rest)
      → IsUsable p
  unfolding load_existing_topology_plan
  load_existing_topology_plan-IsUsable reply input h =
      let values = parse_kv reply.stdout in
      let (g, h1) =
        guard-eq-ok (not (succeeded reply)) (read_failed reply)
          (loaded mail values input (mode_of (get mode_key values))) h in
      elim (Option-cases (mode_of (get mode_key values))) [
        | inl e ↦ cc (rw e at h1)
        | inr (mode, e) ↦
            checked-IsUsable (recorded mode values) input (mode_of-resolved (get mode_key values) e)
              (rw e at h1)
      ]
