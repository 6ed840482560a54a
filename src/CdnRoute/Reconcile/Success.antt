-- ===== src/CdnRoute/Reconcile/Success.antt =====
-- What reconcileCDNRoute of cdn_reset.go has checked when it succeeds.
use proxy_node_assistant.CdnRoute.Reconcile.Validation.{
  ◌▸◌, IsValidated, copy_and_stage-IsValidated, judged-eq-ok,
}
use proxy_node_assistant.CdnRoute.Command.{
  build_cdn_route_input_copy_command, cdn_route_action, random_cdn_route_input_path,
}
use proxy_node_assistant.CdnRoute.Reconcile.{
  Parsers, RouteEvent, World, action_refused, change_route, copy_and_stage, invalid_plan, ip_answer,
  judged, lookup_ip, origin_of, path_refused, prepare_cdn_prerequisites, random_bytes, reconcile_by,
  reconcile_cdn_route, remote_public_ip, remove_event, resolved, root_command, stage_event, staged,
}
use proxy_node_assistant.Effects.{lift, succeeded, ◌>>=◌}
use proxy_node_assistant.Effects.Rules.{lift-eq-ok, >>=-eq-ok}
use proxy_node_assistant.Plan.Types.{InstallPlan, RouteMode}
use proxy_node_assistant.Plan.Validate.{is_dual, is_gray, is_keep, is_orange, validate_for}
use proxy_node_assistant.Prelude.{
  List, Option, [], ap, false, none, ok, refl, some, subst, true, wrap, wrap-eq-ok, ◌||◌, ◌∙◌, ◌≡◌,
}
use proxy_node_assistant.Text.{Text}

-- The log of a change up to its input's path.
abbrev pub before_copy : InstallPlan → List RouteEvent
before_copy plan = [] ▸ remote_public_ip ▸ lookup_ip plan.orange.domain ▸ random_bytes

-- The checks of a successful change to the orange or the dual route, from the empty log on.
pub record IsReconciled (world : World) (parsers : Parsers) (plan : InstallPlan) (source : Text)
    (end : List RouteEvent) : Type 0 where
  pub public_ip : Text
  pub origin : Text
  pub input : Text
  pub command : Text
  pub before_remove : List RouteEvent
  pub plan_ok : validate_for parsers.parse_address plan true ≡ ok tt
  pub ip_ok : world.public_ip ([] ▸ remote_public_ip) ≡ some public_ip
  pub origin_ok : origin_of parsers.parse_ipv4 public_ip ≡ ok origin
  pub not_exposed :
      resolved plan.orange.domain origin
        (world.addresses ([] ▸ remote_public_ip ▸ lookup_ip plan.orange.domain))
      ≡ ok tt
  pub input_ok : random_cdn_route_input_path (world.random (before_copy plan)) ≡ ok input
  pub command_ok :
      build_cdn_route_input_copy_command parsers.parse_ipv4 source input plan.preferences.route_mode
        public_ip
      ≡ ok command
  pub copied : succeeded (world.remote (before_copy plan ▸ root_command command)) ≡ true
  pub staged_ok :
      staged (world.remote (before_copy plan ▸ root_command command ▸ stage_event input)) ≡ true
  pub is_validated :
      IsValidated world parsers plan.orange.domain public_ip plan.preferences.route_mode
        (before_copy plan ▸ root_command command ▸ stage_event input)
        before_remove
  pub removed : end ≡ (before_remove ▸ remove_event input)

changes_neither :
    (m : RouteMode) → (is_orange m || is_dual m) ≡ true → (is_keep m || is_gray m) ≡ false
changes_neither RouteMode.orange h = refl
changes_neither RouteMode.dual h = refl
changes_neither RouteMode.keep h = cc
changes_neither RouteMode.gray h = cc
changes_neither (RouteMode.unknown _) h = cc

ip_answer-eq-ok : (o : Option Text) {ip : Text} → ip_answer o ≡ ok ip → o ≡ some ip
unfolding ip_answer
ip_answer-eq-ok none h = cc
ip_answer-eq-ok (some a) h = cc

-- The stages of the handler for a mode that is staged.
module _ (world : World) (parsers : Parsers) (plan : InstallPlan) (source : Text) where
  prepared :
      (public_ip : Text) (log : List RouteEvent) {end : List RouteEvent} {u : Unit {0}}
      → (is_orange plan.preferences.route_mode || is_dual plan.preferences.route_mode) ≡ true
      → prepare_cdn_prerequisites world parsers plan public_ip log ≡ (ok u, end)
      → (origin : Text) × (origin_of parsers.parse_ipv4 public_ip ≡ ok origin)
        × (end ≡ (log ▸ lookup_ip plan.orange.domain))
        × (resolved plan.orange.domain origin (world.addresses end) ≡ ok tt)
  unfolding prepare_cdn_prerequisites
  prepared public_ip log is_staged h =
      let (_, l1, valid, h1) =
        >>=-eq-ok (lift (wrap invalid_plan (validate_for parsers.parse_address plan true)))
          (λ _. lift (origin_of parsers.parse_ipv4 public_ip) >>= λ origin.
            judged (lookup_ip plan.orange.domain) world.addresses
              (resolved plan.orange.domain origin))
          (rw (changes_neither plan.preferences.route_mode is_staged) at h) in
      let (origin, l2, found, h2) =
        >>=-eq-ok (lift (origin_of parsers.parse_ipv4 public_ip))
          (λ origin.
            judged (lookup_ip plan.orange.domain) world.addresses
              (resolved plan.orange.domain origin))
          h1 in
      let (v, q1) = lift-eq-ok _ _ valid in
      let (o, q2) = lift-eq-ok _ _ found in
      let (q3, c3) = judged-eq-ok _ _ _ _ h2 in (origin, o, cc, c3)

  -- The clause of the modes that are staged.
  staged_mode :
      (log : List RouteEvent) {end : List RouteEvent} {u : Unit {0}}
      → (lift (wrap invalid_plan (validate_for parsers.parse_address plan true)) >>= λ _.
            judged remote_public_ip world.public_ip ip_answer
            >>= change_route world parsers plan source)
          log
        ≡ (ok u, end)
      → (validate_for parsers.parse_address plan true ≡ ok tt)
        × (public_ip : Text) × (world.public_ip (log ▸ remote_public_ip) ≡ some public_ip)
        × (change_route world parsers plan source public_ip (log ▸ remote_public_ip) ≡ (ok u, end))
  staged_mode log {end} {u} h =
      let (_, l1, valid, h1) =
        >>=-eq-ok (lift (wrap invalid_plan (validate_for parsers.parse_address plan true)))
          (λ _.
            judged remote_public_ip world.public_ip ip_answer
            >>= change_route world parsers plan source)
          h in
      let (v, q1) = lift-eq-ok _ _ valid in
      let (ip, l2, read, h2) =
        >>=-eq-ok (judged remote_public_ip world.public_ip ip_answer)
          (change_route world parsers plan source) h1 in
      let (q2, c2) = judged-eq-ok _ _ _ _ read in
      let at = q2 ∙ ap (λ l. l ▸ remote_public_ip) q1 in
      (
        wrap-eq-ok invalid_plan _ v,
        ip,
        subst (λ l. world.public_ip l ≡ some ip) at (ip_answer-eq-ok _ c2),
        subst (λ l. change_route world parsers plan source ip l ≡ (ok u, end)) at h2,
      )

  by_mode :
      (mode : RouteMode) (action : Text) (log : List RouteEvent) {end : List RouteEvent}
      {u : Unit {0}}
      → (is_orange mode || is_dual mode) ≡ true
      → reconcile_by world parsers mode plan source action log ≡ (ok u, end)
      → (validate_for parsers.parse_address plan true ≡ ok tt)
        × (public_ip : Text) × (world.public_ip (log ▸ remote_public_ip) ≡ some public_ip)
        × (change_route world parsers plan source public_ip (log ▸ remote_public_ip) ≡ (ok u, end))
  unfolding reconcile_by
  by_mode RouteMode.orange action log k h = staged_mode log h
  by_mode RouteMode.dual action log k h = staged_mode log h
  by_mode RouteMode.keep action log k h = cc
  by_mode RouteMode.gray action log k h = cc
  by_mode (RouteMode.unknown _) action log k h = cc

-- A change to the orange or the dual route that succeeds did these things in this order: it read the
-- server's public address, resolved the orange name to addresses other than it, copied the route's
-- input with an accepted command, staged the route, validated it from outside (the edge answers for
-- the managed origin, the origin is not reachable directly, the exported link is the route's, the
-- operator confirmed it), had the confirmation recorded, committed it, and removed the input.
pub reconcile_cdn_route-IsReconciled :
    (world : World) (parsers : Parsers) (plan : InstallPlan) (source : Text)
    → (is_orange plan.preferences.route_mode || is_dual plan.preferences.route_mode) ≡ true
    → {end : List RouteEvent} {u : Unit {0}}
    → reconcile_cdn_route world parsers plan source [] ≡ (ok u, end)
    → IsReconciled world parsers plan source end
unfolding reconcile_cdn_route change_route
reconcile_cdn_route-IsReconciled world parsers plan source is_staged h =
    let mode = plan.preferences.route_mode in
    let (action, l0, acted, h0) =
      >>=-eq-ok (lift (wrap action_refused (cdn_route_action mode plan.gray.domain)))
        (reconcile_by world parsers mode plan source) h in
    let (_, q0) = lift-eq-ok _ _ acted in
    let (plan_ok_, ip, ip_ok_, h1) =
      by_mode world parsers plan source mode action l0 is_staged h0 in
    let (_, l2, prep, h2) =
      >>=-eq-ok (prepare_cdn_prerequisites world parsers plan ip)
        (λ _.
          judged random_bytes world.random
            (λ raw. wrap path_refused (random_cdn_route_input_path raw))
          >>= λ input.
              lift (
                wrap path_refused
                  (build_cdn_route_input_copy_command parsers.parse_ipv4 source input mode ip))
              >>= copy_and_stage world parsers plan.orange.domain ip mode input)
        h1 in
    let (origin_, o, q2, c2) = prepared world parsers plan source ip _ is_staged prep in
    let (input_, l3, random_, h3) =
      >>=-eq-ok
        (judged random_bytes world.random
          (λ raw. wrap path_refused (random_cdn_route_input_path raw)))
        (λ input.
          lift (
            wrap path_refused
              (build_cdn_route_input_copy_command parsers.parse_ipv4 source input mode ip))
          >>= copy_and_stage world parsers plan.orange.domain ip mode input)
        h2 in
    let (q3, c3) = judged-eq-ok _ _ _ _ random_ in
    let (command_, l4, built, h4) =
      >>=-eq-ok
        (lift (
          wrap path_refused
            (build_cdn_route_input_copy_command parsers.parse_ipv4 source input_ mode ip)))
        (copy_and_stage world parsers plan.orange.domain ip mode input_) h3 in
    let (c4, q4) = lift-eq-ok _ _ built in
    let (mid, q5, c5, s5, valid) =
      copy_and_stage-IsValidated world parsers plan.orange.domain ip mode input_ command_ l4 h4 in
    let ip_at = subst (λ l. world.public_ip (l ▸ remote_public_ip) ≡ some ip) q0 ip_ok_ in
    let prepared_at : l3 ≡ before_copy plan = cc in
    let here : l4 ≡ before_copy plan = cc in
    record {
      public_ip = ip;
      origin = origin_;
      input = input_;
      command = command_;
      before_remove = mid;
      plan_ok = plan_ok_;
      ip_ok = ip_at;
      origin_ok = o;
      not_exposed = cc;
      input_ok =
          subst (λ l. random_cdn_route_input_path (world.random l) ≡ ok input_) prepared_at
            (wrap-eq-ok path_refused _ c3);
      command_ok = wrap-eq-ok path_refused _ c4;
      copied = subst (λ l. succeeded (world.remote (l ▸ root_command command_)) ≡ true) here c5;
      staged_ok =
          subst (λ l. staged (world.remote (l ▸ root_command command_ ▸ stage_event input_)) ≡ true)
            here s5;
      is_validated =
          subst
            (λ l.
              IsValidated world parsers plan.orange.domain ip mode
                (l ▸ root_command command_ ▸ stage_event input_) mid)
            here valid;
      removed = q5;
    }
