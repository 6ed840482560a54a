-- ===== src/InstallFlow/Collected.antt =====
-- What collectInstallPlan of install_flow.go makes of the answers.
use proxy_node_assistant.InstallFlow.Ports.{PortAnswer, port_answer_lem}
use proxy_node_assistant.InstallFlow.Collect.{
  kept_routes, new_routes, Routes, Setting, answered_plan, choose_routes, identity_if,
}
use proxy_node_assistant.Console.{Input}
use proxy_node_assistant.InstallFlow.{
  choose_until, cover_answer, performance_answer, port_answer, route_answer, warp_answer,
}
use proxy_node_assistant.InstallFlow.Answers.{
  ask_route_identity_lem, choose_until-accepts, cover_answer_lem, performance_answer_lem,
  route_answer_lem, warp_answer_lem,
}
use proxy_node_assistant.InstallFlow.Credentials.{choose_credential_plan}
use proxy_node_assistant.InstallFlow.Secrets.{answer-eq, choose_credential_plan-CredentialRules}
use proxy_node_assistant.Plan.Identity.{MailParser}
use proxy_node_assistant.Plan.Types.{
  InstallPlan, RouteIdentity, RouteMode, default_port_plan, valid_route_mode,
}
use proxy_node_assistant.Plan.Validate.{
  valid_cover_choice, valid_identity, is_dual, is_gray, is_orange,
}
use proxy_node_assistant.Plan.Validate.Sound.{CredentialRules, PreferenceRules}
use proxy_node_assistant.Prelude.{
  Bool, arith, false, ok, refl, subst, true, ◌||◌, ◌≡◌, ◌≢◌, >>=-eq-ok,
}

module _ (mail : MailParser) (s : Setting) where
  -- Known modes and identities that were asked for.
  pub record IsRoutes (r : Routes) : Type 0 where
    pub known : valid_route_mode r.mode ≡ true
    pub kept : r.mode ≡ RouteMode.keep → s.existing ≡ true
    pub covered : valid_cover_choice r.cover ≡ true
    pub gray_given :
        r.mode ≢ RouteMode.keep → r.mode ≢ RouteMode.orange → valid_identity mail r.gray ≡ true
    pub orange_given :
        r.mode ≢ RouteMode.keep → r.mode ≢ RouteMode.gray → valid_identity mail r.orange ≡ true

  identity_if_lem :
      (used : Bool) (input : Input) {i : RouteIdentity} {rest : Input}
      → identity_if mail s used input ≡ ok (i, rest)
      → used ≡ true
      → valid_identity mail i ≡ true
  unfolding identity_if
  identity_if_lem true input h e = ask_route_identity_lem mail input h
  identity_if_lem false input h e = cc

  other_routes :
      (mode : RouteMode) (input : Input) {r : Routes} {rest : Input}
      → new_routes mail s mode input ≡ ok (r, rest)
      → valid_route_mode mode ≡ true
      → (mode ≡ RouteMode.keep → s.existing ≡ true)
      → IsRoutes r
  unfolding valid_route_mode new_routes
  other_routes mode input {r} h known kept =
      let ((direct, input1), e1, h1) =
        >>=-eq-ok (identity_if mail s (is_gray mode || is_dual mode) input) _ h in
      let ((proxied, input2), e2, h2) =
        >>=-eq-ok (identity_if mail s (is_orange mode || is_dual mode) input1) _ h1 in
      let ((cover, input3), e3, h3) =
        >>=-eq-ok (choose_until (cover_answer s.existing) input2) _ h2 in
      let (v, chosen) = choose_until-accepts (cover_answer s.existing) input2 e3 in
      subst IsRoutes (answer-eq h3) (record {
        known = known;
        kept = kept;
        covered = cover_answer_lem s.existing v chosen;
        gray_given = λ k o.
            identity_if_lem (is_gray mode || is_dual mode) input e1 (uses_gray mode known k o);
        orange_given = λ k g.
            identity_if_lem (is_orange mode || is_dual mode) input1 e2 (uses_orange mode known k g);
      })
    where
      uses_gray :
          (mode : RouteMode)
          → valid_route_mode mode ≡ true
          → mode ≢ RouteMode.keep
          → mode ≢ RouteMode.orange
          → (is_gray mode || is_dual mode) ≡ true
      uses_gray mode known k o = ground arith

      uses_orange :
          (mode : RouteMode)
          → valid_route_mode mode ≡ true
          → mode ≢ RouteMode.keep
          → mode ≢ RouteMode.gray
          → (is_orange mode || is_dual mode) ≡ true
      uses_orange mode known k g = ground arith

  kept_routes-IsRoutes :
      (kept : RouteMode.keep ≡ RouteMode.keep → s.existing ≡ true)
      → IsRoutes (kept_routes mail s RouteMode.keep)
  unfolding valid_route_mode valid_cover_choice
  kept_routes-IsRoutes kept = record {
    known = refl;
    kept = kept;
    covered = refl;
    gray_given = λ k o. absurd (k refl);
    orange_given = λ k o. absurd (k refl);
  }

  choose_routes-IsRoutes :
      (mode : RouteMode) (input : Input) {r : Routes} {rest : Input}
      → choose_routes mail s mode input ≡ ok (r, rest)
      → valid_route_mode mode ≡ true
      → (mode ≡ RouteMode.keep → s.existing ≡ true)
      → IsRoutes r
  unfolding choose_routes
  choose_routes-IsRoutes RouteMode.keep input h known kept =
      subst IsRoutes (answer-eq h) (kept_routes-IsRoutes kept)
  choose_routes-IsRoutes RouteMode.gray input h known kept =
      other_routes RouteMode.gray input h known kept
  choose_routes-IsRoutes RouteMode.orange input h known kept =
      other_routes RouteMode.orange input h known kept
  choose_routes-IsRoutes RouteMode.dual input h known kept =
      other_routes RouteMode.dual input h known kept
  choose_routes-IsRoutes (RouteMode.unknown t) input h known kept =
      other_routes (RouteMode.unknown t) input h known kept

  -- A plan that the answers made, before it is validated.
  pub record IsAnswered (p : InstallPlan) : Type 0 where
    pub preferences : PreferenceRules p.preferences s.existing
    pub credentials : CredentialRules p.credentials s.existing
    pub fixed : p.ports ≡ record default_port_plan { ss2022_tcp = p.ports.ss2022_tcp }
    pub port : PortAnswer s.existing s.detected p.ports.ss2022_tcp
    pub gray_given :
        p.preferences.route_mode ≢ RouteMode.keep
        → p.preferences.route_mode ≢ RouteMode.orange
        → valid_identity mail p.gray ≡ true
    pub orange_given :
        p.preferences.route_mode ≢ RouteMode.keep
        → p.preferences.route_mode ≢ RouteMode.gray
        → valid_identity mail p.orange ≡ true

  pub answered_plan-IsAnswered :
      (input : Input) {p : InstallPlan} {rest : Input}
      → answered_plan mail s input ≡ ok (p, rest)
      → IsAnswered p
  unfolding answered_plan
  answered_plan-IsAnswered input h =
      let ((mode, input1), e1, h1) = >>=-eq-ok (choose_until (route_answer s.existing) input) _ h in
      let ((routes, input2), e2, h2) = >>=-eq-ok (choose_routes mail s mode input1) _ h1 in
      let ((performance, input3), e3, h3) =
        >>=-eq-ok (choose_until (performance_answer s.existing) input2) _ h2 in
      let ((warp, input4), e4, h4) = >>=-eq-ok (choose_until warp_answer input3) _ h3 in
      let ((port, input5), e5, h5) =
        >>=-eq-ok (choose_until (port_answer s.existing s.detected) input4) _ h4 in
      let ((credentials, input6), e6, h6) =
        >>=-eq-ok (choose_credential_plan s.existing s.complete input5) _ h5 in
      let (a, route) = choose_until-accepts (route_answer s.existing) input e1 in
      let (b, profile) = choose_until-accepts (performance_answer s.existing) input2 e3 in
      let (c, policy) = choose_until-accepts warp_answer input3 e4 in
      let (d, listener) = choose_until-accepts (port_answer s.existing s.detected) input4 e5 in
      let (known, kept) = route_answer_lem s.existing a route in
      let r = choose_routes-IsRoutes mode input1 e2 known kept in
      subst IsAnswered (answer-eq h6) (record {
        preferences = (
          r.known,
          r.covered,
          performance_answer_lem s.existing b profile,
          warp_answer_lem c policy,
          r.kept,
          refl,
        );
        credentials = choose_credential_plan-CredentialRules s.existing s.complete input5 e6;
        fixed = refl;
        port = port_answer_lem s.existing s.detected d listener;
        gray_given = r.gray_given;
        orange_given = r.orange_given;
      })
